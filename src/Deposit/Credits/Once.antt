-- ===== src/Deposit/Credits/Once.antt =====
-- internal/wallet/deposit/service.go: how often a transaction is credited, and with what.
use mathlib.Core.Path.{subst}
use go_wallet.Prelude.{
  Bool-cases, first, ==_iff, ℕ, Text, List, [], ◌∷◌, ◌≡◌, ◌≤◌, ◌+◌, ◌⊎◌, inl, inr, arith, refl,
  false, any, insert, count_where, ◌==◌,
}
use go_wallet.Prelude.Rows.Find.{count_where-insert, count_of_not_any}
use go_wallet.Store.{
  Transaction, TransactionStatus, Credit, Wallet, Token, Db, transaction_status_eq,
}
use go_wallet.World.{
  Env, World, ok, try_action, fresh_id, query, query_one, if_no_rows, guard, commit, pure, ◌>>=◌,
}
use go_wallet.World.Loops.{for_each_keeps, bind_keeps, bind_reaches}
use go_wallet.Deposit.Confirmations.{is_credit_of}
use go_wallet.Deposit.Credits.{
  get_token_info, or_create_native, create_native_token, create_credit, deposit_credit,
  process_deposit, credit_unless, process_finalized_deposits, add_credit, text_or_empty, first,
}

-- Every transaction of the chain is the reference of at most one credit.
unfoldable pub CreditedOnce : Db → Type 0
CreditedOnce db = (id : ℕ) → count_where (is_credit_of id) db.credits ≤ 1

pub get_token_info-credits :
    (chain : ℕ) (address : Text) (env : Env) (w : World)
    → (get_token_info chain address env w).1.db.credits ≡ w.db.credits
unfolding get_token_info or_create_native create_native_token try_action fresh_id query query_one
    if_no_rows commit pure ◌>>=◌
get_token_info-credits chain [] env w = ground arith
get_token_info-credits chain (c ∷ cs) env w = ground arith

-- The credits are the given ones, or these and one more for the transaction.
RecordOf : List Credit → Transaction → World → Type 0
RecordOf before tx w =
    (w.db.credits ≡ before)
    ⊎ ((wallet : Wallet) × (token : Token) × (id : ℕ) × (w.db.credits
          ≡ insert (deposit_credit tx wallet token id) before))

pub add_credit-credits :
    (tx : Transaction) (wallet : Wallet) (token : Token) (env : Env) (w : World)
    → let after = (add_credit tx wallet token env w).1.db.credits in
      (after ≡ w.db.credits)
      ⊎ (after ≡ insert (deposit_credit tx wallet token w.next_id) w.db.credits)
unfolding add_credit fresh_id query guard commit pure ◌>>=◌
add_credit-credits tx wallet token env w = ground arith

-- What crediting does to the credits: nothing, or one more.
create_credit-credits :
    (tx : Transaction) (env : Env) (w : World) → RecordOf w.db.credits tx (create_credit tx env w).1
unfolding create_credit if_no_rows query_one RecordOf
create_credit-credits tx env w =
    bind_reaches env Same (RecordOf w.db.credits tx) _ _ w refl (λ _ k. inl k)
      λ wallet w₁ k.
        bind_reaches env Same (RecordOf w.db.credits tx) _ _ w₁
          (cc (k, get_token_info-credits tx.chain_id (text_or_empty tx.token_addr) env w₁))
          (λ _ l. inl l)
          λ token w₂ l. elim (add_credit-credits tx wallet token env w₂) [
            | inl e ↦ inl (cc (e, l))
            | inr e ↦ inr (wallet, token, w₂.next_id, cc (e, l))
          ]
  where
    Same : World → Type 0
    Same w' = w'.db.credits ≡ w.db.credits

once-insert :
    (tx : Transaction) (wallet : Wallet) (token : Token) (n : ℕ) (before : List Credit)
    → any (is_credit_of tx.id) before ≡ false
    → ((id : ℕ) → count_where (is_credit_of id) before ≤ 1)
    → (id : ℕ)
    → count_where (is_credit_of id) (insert (deposit_credit tx wallet token n) before) ≤ 1
once-insert tx wallet token n before none_yet once id =
    rw (count_where-insert (is_credit_of id) (deposit_credit tx wallet token n) before)
      (elim (Bool-cases (tx.id == id)) [
        | inl e ↦
            let zero_yet : count_where (is_credit_of id) before ≡ 0 =
              subst (λ (i : ℕ). count_where (is_credit_of i) before ≡ 0) ((==_iff tx.id id).0 e)
                (count_of_not_any (is_credit_of tx.id) before none_yet) in
            ground arith
        | inr e ↦ ground (arith, once id)
      ])

-- Processing a deposit changes no credit, or it is final, has no credit yet, and is credited.
process_deposit-cases :
    (tx : Transaction) (env : Env) (w : World)
    → ((process_deposit tx env w).1.db.credits ≡ w.db.credits)
      ⊎ ((any (is_credit_of tx.id) w.db.credits ≡ false)
          × ((process_deposit tx env w).1
              ≡ (create_credit tx env (record w { tick = w.tick + 1 })).1))
unfolding process_deposit credit_unless query pure ◌>>=◌
process_deposit-cases tx env w = ground arith

-- Processing a deposit keeps every transaction credited at most once.
pub process_deposit-CreditedOnce :
    (tx : Transaction) (env : Env) (w : World)
    → CreditedOnce w.db
    → CreditedOnce (process_deposit tx env w).1.db
unfolding CreditedOnce RecordOf
process_deposit-CreditedOnce tx env w once id = elim (process_deposit-cases tx env w) [
  | inl e ↦ rw e (once id)
  | inr (none_yet, e) ↦ elim (create_credit-credits tx env (record w { tick = w.tick + 1 })) [
    | inl k ↦ rw (e, k) (once id)
    | inr (wallet, token, n, k) ↦
        rw (e, k) (once-insert tx wallet token n w.db.credits none_yet once id)
  ]
]

-- Crediting the final deposits of a chain keeps every transaction credited at most once, whatever
-- fails and however often it runs.
pub process_finalized_deposits-CreditedOnce :
    (chain : ℕ) (env : Env) (w : World)
    → CreditedOnce w.db
    → CreditedOnce (process_finalized_deposits chain env w).1.db
unfolding process_finalized_deposits query
process_finalized_deposits-CreditedOnce chain env w once =
    bind_keeps env (λ w'. CreditedOnce w'.db) _ _ w once
      λ rows w₁ k.
        for_each_keeps env (λ w'. CreditedOnce w'.db) process_deposit
          (λ tx w₂ l. process_deposit-CreditedOnce tx env w₂ l) rows w₁ k

-- A deposit that is not final credits nothing and changes no table.
pub process_deposit-not_final :
    (tx : Transaction) (env : Env) (w : World)
    → transaction_status_eq tx.status TransactionStatus.finalized ≡ false
    → process_deposit tx env w ≡ (ok tt, w)
unfolding process_deposit pure
process_deposit-not_final tx env w h = ground arith
