-- ===== src/Balance/Tokens/Listed.antt =====
-- internal/wallet/balance/service.go: what `GetBalanceByToken` lists.
use go_wallet.Prelude.{
  ℕ, pos, Bool, true, ◌≡◌, refl, ap, sym, ◌∙◌, Option, Option-cases, some, inl, inr, List, [], ◌∷◌,
  ltb_ℤ, ℤ, none, ◌==◌, ◌&&◌, text_eq, sum_where, select, sort, Bool-cases, arith,
}
use go_wallet.Prelude.Rows.Pages.{All, All-select, All-sort, All-weaken}
use go_wallet.Store.{Credit, CreditStatus, Db, credit_status_eq, is_some_nat}
use go_wallet.World.{Env, World, Result, ok, pure, raise, query, ◌>>=◌}
use go_wallet.World.Bind.{>>=-ok, query_answer}
use go_wallet.World.Yields.{ok_inj}
use go_wallet.Balance.{TokenBalance, is_finalized_of}
use go_wallet.Balance.Tokens.{
  group_rows, group_amount, group_balance, is_positive_group, group_before, finalized_rows,
  read_groups, get_balance_by_token, in_group,
}

module _ {A : Type 0} where
  sum_where-select :
      (p q : A → Bool) (v : A → ℤ) (xs : List A)
      → sum_where q v (select p xs) ≡ sum_where (λ x. p x && q x) v xs
  unfolding sum_where select
  sum_where-select p q v [] = refl
  sum_where-select p q v (x ∷ xs) =
      let ih = sum_where-select p q v xs in
      elim (Bool-cases (p x)) [ inl e ↦ rw (e, ← ih) refl | inr e ↦ rw e ih ]

  sum_where-same :
      (p q : A → Bool) (v : A → ℤ)
      → ((x : A) → p x ≡ q x)
      → (xs : List A) → sum_where p v xs ≡ sum_where q v xs
  unfolding sum_where
  sum_where-same p q v h [] = refl
  sum_where-same p q v h (x ∷ xs) = rw (h x, sum_where-same p q v h xs) refl

-- Whether the chain is the one asked for; where none is, every chain is.
abbrev pub is_asked : Option ℕ → ℕ → Bool
is_asked none chain = true
is_asked (some asked) chain = asked == chain

-- A positive balance that is the sum of the user's final credits with its token, symbol and chain.
abbrev pub IsSumOf : ℕ → Option ℕ → List Credit → TokenBalance → Type 0
IsSumOf user asked credits b =
    (ltb_ℤ (pos 0) b.amount ≡ true)
    × (b.amount
        ≡ sum_where
            (λ (c : Credit).
              c.user_id == user
              && credit_status_eq c.status CreditStatus.finalized
              && c.token_id == b.token_id
              && text_eq c.token_symbol b.token_symbol
              && is_some_nat c.chain_id b.chain_id
              && is_asked asked b.chain_id)
            (λ c. c.amount) credits)

-- A positive balance that is the sum of its group's rows.
abbrev pub IsGroupSum : List Credit → TokenBalance → Type 0
IsGroupSum rows b =
    (ltb_ℤ (pos 0) b.amount ≡ true)
    × (b.amount ≡ group_amount rows b.token_id b.token_symbol (some b.chain_id))

read_groups_lem :
    (rows cs : List Credit) (env : Env) (w : World) {items : List TokenBalance}
    → All (λ (c : Credit). is_positive_group rows c ≡ true) cs
    → (read_groups rows cs env w).0 ≡ ok items
    → All (IsGroupSum rows) items
unfolding read_groups pure raise
read_groups_lem rows [] env w h e = rw (← ok_inj e) tt
read_groups_lem rows (c ∷ cs) env w {items = items} (h, k) e = elim (Option-cases c.chain_id) [
  | inl f ↦ absurd (ground arith)
  | inr (chain, f) ↦
      let entry = group_balance rows c chain in
      let later = λ (rest : List TokenBalance). pure (entry ∷ rest) in
      let whole : ((read_groups rows cs >>= later) env w).0 ≡ ok items = rw f at e in
      let (rest, first, reached) = >>=-ok (read_groups rows cs) later env w whole in
      let listed : entry ∷ rest ≡ items =
        ok_inj (sym (ap (λ (r : Result (List TokenBalance) × World). r.0) reached) ∙ whole) in
      let positive : ltb_ℤ (pos 0) entry.amount ≡ true = rw f at h in
      rw (← listed) ((positive, refl), read_groups_lem rows cs env w k first)
]

groups_lem :
    (user : ℕ) (chain : Option ℕ) (env : Env) (w : World) {items : List TokenBalance}
    → (get_balance_by_token user chain env w).0 ≡ ok items
    → All (IsGroupSum (finalized_rows user chain w.db)) items
unfolding get_balance_by_token
groups_lem user chain env w {items = items} h =
    let listed : List Credit → List Credit =
      λ rows. sort group_before (select (is_positive_group rows) (group_rows rows)) in
    let asked = query (finalized_rows user chain) in
    let (rows, first, rest) =
      >>=-ok asked (λ (rows : List Credit). read_groups rows (listed rows)) env w h in
    let found = query_answer (finalized_rows user chain) env w first in
    rw (← found) (
      read_groups_lem rows (listed rows) env (asked env w).1
        (All-sort (λ (c : Credit). is_positive_group rows c ≡ true) group_before
          (select (is_positive_group rows) (group_rows rows))
          (All-select (is_positive_group rows) (group_rows rows)))
        (sym (ap (λ (r : Result (List TokenBalance) × World). r.0) rest) ∙ h))

IsGroupSum-IsSumOf :
    (user : ℕ) (asked : Option ℕ) (db : Db) (b : TokenBalance)
    → IsGroupSum (finalized_rows user asked db) b
    → IsSumOf user asked db.credits b
unfolding finalized_rows group_amount
IsGroupSum-IsSumOf user asked db b (positive, sums) = (
  positive,
  sums
      ∙ sum_where-select (is_finalized_of user asked)
          (in_group b.token_id b.token_symbol (some b.chain_id)) (λ (c : Credit). c.amount)
          db.credits
      ∙ sum_where-same _ _ _
          (λ (c : Credit). elim (Option-cases c.chain_id) [
            | inl e ↦ elim (Option-cases asked) [
              | inl f ↦ rw (e, f) (ground arith)
              | inr (n, f) ↦ rw (e, f) (ground arith)
            ]
            | inr (m, e) ↦ elim (Option-cases asked) [
              | inl f ↦ rw (e, f) (ground arith)
              | inr (n, f) ↦ rw (e, f) (ground arith)
            ]
          ])
          db.credits,
)

-- What is listed for a user is, for each item, a positive amount, which is the sum of the amounts
-- of the user's final credits with the item's token, symbol and chain, that chain being the one
-- asked for where one is.
pub get_balance_by_token-sums :
    (user : ℕ) (chain : Option ℕ) (env : Env) (w : World) {items : List TokenBalance}
    → (get_balance_by_token user chain env w).0 ≡ ok items
    → All (IsSumOf user chain w.db.credits) items
get_balance_by_token-sums user chain env w {items = items} h =
    All-weaken _ _ (IsGroupSum-IsSumOf user chain w.db) items (groups_lem user chain env w h)
