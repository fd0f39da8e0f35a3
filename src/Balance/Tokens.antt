-- ===== src/Balance/Tokens.antt =====
-- internal/wallet/balance/service.go: `GetBalanceByToken`, with its groups.
use go_wallet.Prelude.{
  ℕ, ℤ, pos, Text, Bool, true, false, ◌&&◌, ◌||◌, Option, none, some, List, [], ◌∷◌, ◌==◌, ltb, leb,
  ltb_ℤ, text_eq, any, select, sum_where, sort, if◌then◌else◌,
}
use go_wallet.Store.{Credit, Db}
use go_wallet.World.{Action, pure, raise, query, ◌>>=◌, db_failure}
use go_wallet.Balance.{TokenBalance, is_finalized_of}
pub mod Listed

-- Two NULLs are one group.
abbrev pub same_chain : Option ℕ → Option ℕ → Bool
same_chain none none = true
same_chain (some m) (some n) = m == n
same_chain _ _ = false

-- `GROUP BY token_id, token_symbol, chain_id`
abbrev pub in_group : ℕ → Text → Option ℕ → Credit → Bool
in_group token symbol chain c =
    c.token_id == token && text_eq c.token_symbol symbol && same_chain c.chain_id chain

-- One row of each group.
unfoldable pub group_rows : List Credit → List Credit
group_rows [] = []
group_rows (c ∷ cs) =
    let rest = group_rows cs in
    if any (in_group c.token_id c.token_symbol c.chain_id) cs then rest else c ∷ rest

unfoldable pub group_amount : List Credit → ℕ → Text → Option ℕ → ℤ
group_amount rows token symbol chain =
    sum_where (in_group token symbol chain) (λ (c : Credit). c.amount) rows

-- `HAVING SUM(amount) > 0`
abbrev pub is_positive_group : List Credit → Credit → Bool
is_positive_group rows c = ltb_ℤ (pos 0) (group_amount rows c.token_id c.token_symbol c.chain_id)

-- `ORDER BY chain_id, token_id`, where NULL comes last.
abbrev pub group_before : Credit → Credit → Bool
group_before a b = elim a.chain_id [
  | none ↦ elim b.chain_id [ none ↦ leb a.token_id b.token_id | some n ↦ false ]
  | some m ↦ elim b.chain_id [
    | none ↦ true
    | some n ↦ ltb m n || m == n && leb a.token_id b.token_id
  ]
]

unfoldable pub finalized_rows : ℕ → Option ℕ → Db → List Credit
finalized_rows user chain db = select (is_finalized_of user chain) db.credits

abbrev pub group_balance : List Credit → Credit → ℕ → TokenBalance
group_balance rows c chain = record {
  token_id = c.token_id;
  token_symbol = c.token_symbol;
  chain_id = chain;
  amount = group_amount rows c.token_id c.token_symbol (some chain);
}

-- The rows of the answer; a chain that is NULL cannot be read into an `int`.
unfoldable pub read_groups : List Credit → List Credit → Action (List TokenBalance)
read_groups rows [] = pure []
read_groups rows (c ∷ cs) = elim c.chain_id [
  | none ↦ raise db_failure
  | some chain ↦ do rest ← read_groups rows cs; pure (group_balance rows c chain ∷ rest)
]

unfoldable pub get_balance_by_token : ℕ → Option ℕ → Action (List TokenBalance)
unfolding finalized_rows group_rows group_amount
get_balance_by_token user chain = do
  rows ← query (finalized_rows user chain)
  read_groups rows (sort group_before (select (is_positive_group rows) (group_rows rows)))
