-- ===== src/Balance.antt =====
-- internal/wallet/balance/service.go: the balances, as sums over the `credits` table. PostgreSQL
-- adds NUMERIC values exactly, and 256 bits hold every sum that the program meets, so a big.Float
-- amount is an integer in the column's least unit.
use go_wallet.Prelude.{
  ℕ, suc, ℤ, Text, Bool, true, false, ltb, ◌&&◌, ◌||◌, Option, none, some, List, [], ◌∷◌, ◌==◌,
  if◌then◌else◌, select, any, sum_where,
}
use go_wallet.Store.{
  Credit, CreditStatus, Db, credit_status_eq, is_withdraw_credit, is_deposit_credit, is_some_nat,
}
use go_wallet.World.{Action, query}
pub mod Ledger
pub mod Tokens

pub record Balance : Type 0 where
  pub total_amount : ℤ
  pub token_count : ℕ

pub record TokenBalance : Type 0 where
  pub token_id : ℕ
  pub token_symbol : Text
  pub chain_id : ℕ
  pub amount : ℤ

-- `AND chain_id = $2`, where the caller gave one; a NULL never equals it.
abbrev pub on_chain : Option ℕ → Credit → Bool
on_chain none c = true
on_chain (some chain) c = is_some_nat c.chain_id chain

abbrev pub is_pending_deposit : ℕ → Option ℕ → Credit → Bool
is_pending_deposit user chain c =
    c.user_id == user
    && is_deposit_credit c.credit_type
    && (credit_status_eq c.status CreditStatus.pending
        || credit_status_eq c.status CreditStatus.confirmed)
    && on_chain chain c

abbrev pub is_finalized_of : ℕ → Option ℕ → Credit → Bool
is_finalized_of user chain c =
    c.user_id == user && credit_status_eq c.status CreditStatus.finalized && on_chain chain c

abbrev pub is_finalized_token : ℕ → ℕ → ℕ → Credit → Bool
is_finalized_token user chain token c = is_finalized_of user (some chain) c && c.token_id == token

-- The condition of `GetAvailableBalance`.
abbrev pub counts_as_available : ℕ → ℕ → ℕ → Credit → Bool
counts_as_available user chain token c =
    c.user_id == user
    && is_some_nat c.chain_id chain
    && c.token_id == token
    && (credit_status_eq c.status CreditStatus.finalized
        || is_withdraw_credit c.credit_type
          && (credit_status_eq c.status CreditStatus.pending
              || credit_status_eq c.status CreditStatus.frozen))

unfoldable pub available : ℕ → ℕ → ℕ → Db → ℤ
available user chain token db =
    sum_where (counts_as_available user chain token) (λ c. c.amount) db.credits

-- `COUNT(DISTINCT token_id)`
unfoldable pub count_tokens : List Credit → ℕ
unfolding any
count_tokens [] = 0
count_tokens (c ∷ cs) =
    let rest = count_tokens cs in
    if any (λ (d : Credit). d.token_id == c.token_id) cs then rest else suc rest

abbrev pub balance_where : (Credit → Bool) → Db → Balance
balance_where p db = record {
  total_amount = sum_where p (λ c. c.amount) db.credits;
  token_count = count_tokens (select p db.credits);
}

unfoldable pub get_pending_deposit_balance : ℕ → Option ℕ → Action Balance
get_pending_deposit_balance user chain = query (balance_where (is_pending_deposit user chain))

unfoldable pub get_total_balance : ℕ → Option ℕ → Action Balance
get_total_balance user chain = query (balance_where (is_finalized_of user chain))

-- The order of texts by their codes.
unfoldable pub leb_text : Text → Text → Bool
leb_text [] t = true
leb_text (x ∷ xs) [] = false
leb_text (x ∷ xs) (y ∷ ys) = ltb x y || x == y && leb_text xs ys

-- `MAX(token_symbol)`; the empty text stands for no row.
unfoldable pub max_symbol : List Credit → Text
unfolding leb_text
max_symbol [] = []
max_symbol (c ∷ cs) =
    let rest = max_symbol cs in if leb_text c.token_symbol rest then rest else c.token_symbol

-- With no row in the group the amount is 0, which the empty sum is too.
unfoldable pub get_token_balance : ℕ → ℕ → ℕ → Action TokenBalance
unfolding max_symbol
get_token_balance user chain token = query λ db. record {
  token_id = token;
  token_symbol = max_symbol (select (is_finalized_token user chain token) db.credits);
  chain_id = chain;
  amount = sum_where (is_finalized_token user chain token) (λ c. c.amount) db.credits;
}

unfoldable pub get_available_balance : ℕ → ℕ → ℕ → Action ℤ
get_available_balance user chain token = query (available user chain token)
