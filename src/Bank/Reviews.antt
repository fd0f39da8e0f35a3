-- ===== src/Bank/Reviews.antt =====
-- internal/wallet/withdraw/service.go: the approval of a withdrawal and the follow-up of its
-- confirmations make no entry in the account book.
use go_wallet.Prelude.{
  ◌-◌, ◌||◌, ltb, Bool-cases, ℕ, ◌≡◌, refl, inl, inr, Text, List, [], ◌∷◌, insert, ap, arith,
}
use go_wallet.Store.{Transaction, Withdraw, Db, withdraw_status_eq}
use go_wallet.World.{
  Env, World, Result, ok, err, pure, raise, or_raise, ask, call, guard, query, query_one,
  if_no_rows, try_action, statement, commit, send, get_client, no_rows, ◌>>=◌,
}
use go_wallet.World.Bind.{Result-cases}
use go_wallet.World.Loops.{bind_keeps, for_each_keeps}
use go_wallet.HotWallet.{get_hot_wallet, get_next_nonce}
use go_wallet.Withdraw.Process.{
  process_withdraw, pay, spend, prepare, build_request, broadcast, check_hot_wallet_balance,
}
use go_wallet.Withdraw.Process.Outcome.{process_withdraw-Processed, process_withdraw-error}
use go_wallet.Withdraw.Review.{approve_withdraw, after_process, update_withdraw_status_on_error}
use go_wallet.Withdraw.Status.{
  update_withdraw_status, update_one, apply_confirmations, get_or_create_transaction_record,
  or_create, create_transaction_record_if_confirmed, status_at, set_withdraw_status,
}
use go_wallet.Bank.{Book}
use go_wallet.Bank.Sound.{AreIncoming, IsIncoming}
use go_wallet.Bank.Service.{Served, Served-same}
use go_wallet.Bank.Calls.{
  statement-Served, query-Served, query_one-Served, ask-Served, get_client-Served, guard-Served,
  fresh_id-Served, commit-Served, try-Served, if_no_rows-Served,
}

process_numbers :
    (id : ℕ) (env : Env) (w : World) → (process_withdraw id env w).1.next_id ≡ w.next_id
unfolding process_withdraw pay spend prepare build_request broadcast check_hot_wallet_balance
    get_hot_wallet get_next_nonce pure raise or_raise ask call guard query query_one if_no_rows
    statement commit send get_client ◌>>=◌
process_numbers id env w = ground arith

process_withdraw-Served :
    (id : ℕ) (env : Env) (w : World) (b : Book)
    → Served b w
    → Served b (process_withdraw id env w).1
process_withdraw-Served id env w b s =
    let w' = (process_withdraw id env w).1 in
    let numbers = process_numbers id env w in
    elim (Result-cases (process_withdraw id env w).0) [
      | inl (_, done) ↦
          let p = process_withdraw-Processed id env w done in
          Served-same b w w' (ap (λ (db : Db). db.credits) p.paid.written)
            (rw (ap (λ (db : Db). db.transactions) p.paid.written) s.sound.incoming) (omega arith) s
      | inr (e, failed) ↦
          let (same, _) = process_withdraw-error id env w failed in
          Served-same b w w' (ap (λ (db : Db). db.credits) same)
            (rw (ap (λ (db : Db). db.transactions) same) s.sound.incoming) (omega arith) s
    ]

on_error_same :
    (id : ℕ) (env : Env) (w : World)
    → let w' = (update_withdraw_status_on_error id env w).1 in
      (w'.db.credits ≡ w.db.credits)
      × (w'.db.transactions ≡ w.db.transactions)
      × (w'.next_id ≡ w.next_id)
unfolding update_withdraw_status_on_error statement query_one query commit ◌>>=◌
on_error_same id env w = (ground arith, ground arith, ground arith)

after_process-Served :
    (id : ℕ) (r : Result (Unit {0})) (env : Env) (w : World) (b : Book)
    → Served b w
    → Served b (after_process id r env w).1
unfolding after_process query_one try_action raise
after_process-Served id (ok _) env w b s = Served-same b w _ refl s.sound.incoming (omega arith) s
after_process-Served id (err e) env w b s =
    bind_keeps env (Served b) _ _ w
      (let (credits, transactions, numbers) = on_error_same id env w in
        Served-same b w _ credits (rw transactions s.sound.incoming) (omega arith) s)
      (λ _ w' k. k)

pub approve_withdraw-Served :
    (id : ℕ) (env : Env) (w : World) (b : Book)
    → Served b w
    → Served b (approve_withdraw id env w).1
unfolding approve_withdraw
approve_withdraw-Served id env w b s =
    bind_keeps env (Served b) _ _ w (statement-Served b env w s) λ _ w₁ k.
      bind_keeps env (Served b) _ _ w₁
        (if_no_rows-Served b env w₁ _ _ (query_one-Served b env w₁ k _))
        λ x w₂ l. bind_keeps env (Served b) _ _ w₂ (guard-Served b env w₂ l _ _) λ _ w₃ m.
          bind_keeps env (Served b) _ _ w₃ (commit-Served b env w₃ m _ refl m.sound.incoming)
            λ _ w₄ n.
              bind_keeps env (Served b) _ _ w₄
                (try-Served b env w₄ _ (process_withdraw-Served id env w₄ b n))
                λ r w₅ o. after_process-Served id r env w₅ b o

incoming-insert :
    (t : Transaction) (ts : List Transaction)
    → IsIncoming t
    → AreIncoming ts
    → AreIncoming (insert t ts)
unfolding insert
incoming-insert t [] h i = (h, tt)
incoming-insert t (u ∷ ts) h (k, i) = (k, incoming-insert t ts h i)

create_record-Served :
    (chain : ℕ) (hash : Text) (x : Withdraw) (latest : ℕ) (env : Env) (w : World) (b : Book)
    → Served b w
    → Served b (create_transaction_record_if_confirmed chain hash x latest env w).1
unfolding create_transaction_record_if_confirmed
create_record-Served chain hash x latest env w b s =
    bind_keeps env (Served b) _ _ w (get_client-Served b env w s) λ _ w₁ k.
      bind_keeps env (Served b) _ _ w₁ (ask-Served b env w₁ k _ _) λ r w₂ l.
        bind_keeps env (Served b) _ _ w₂ (try-Served b env w₂ _ (query_one-Served b env w₂ l _))
          λ token w₃ m. bind_keeps env (Served b) _ _ w₃ (fresh_id-Served b env w₃ m) λ id w₄ n.
            bind_keeps env (Served b) _ _ w₄ (query-Served b env w₄ n _) λ free w₅ o.
              bind_keeps env (Served b) _ _ w₅ (guard-Served b env w₅ o _ _) λ _ w₆ q.
                commit-Served b env w₆ q _ refl (
                  incoming-insert _ w₆.db.transactions (λ f. absurd (ground arith))
                    q.sound.incoming)

or_create-Served :
    (chain : ℕ) (hash : Text) (x : Withdraw) (latest : ℕ) (r : Result Transaction) (env : Env)
    (w : World) (b : Book)
    → Served b w
    → Served b (or_create chain hash x latest r env w).1
unfolding or_create pure raise
or_create-Served chain hash x latest (ok t) env w b s = s
or_create-Served chain hash x latest (err no_rows) env w b s =
    bind_keeps env (Served b) _ _ w (create_record-Served chain hash x latest env w b s)
      (λ _ w₁ k. query_one-Served b env w₁ k _)
or_create-Served chain hash x latest (err e) env w b s = s

apply-Served :
    (blocks latest : ℕ) (x : Withdraw) (t : Transaction) (env : Env) (w : World) (b : Book)
    → Served b w
    → Served b (apply_confirmations blocks latest x t env w).1
unfolding apply_confirmations pure
apply-Served blocks latest x t env w b s =
    let status = status_at blocks (latest - t.block_no) in
    elim (Bool-cases (ltb latest t.block_no || withdraw_status_eq x.status status)) [
      | inl e ↦ rw e s
      | inr e ↦
          rw e (commit-Served b env w s (set_withdraw_status x.id status) refl s.sound.incoming)
    ]

update_one-Served :
    (chain blocks latest : ℕ) (x : Withdraw) (env : Env) (w : World) (b : Book)
    → Served b w
    → Served b (update_one chain blocks latest x env w).1
unfolding update_one get_or_create_transaction_record
update_one-Served chain blocks latest x env w b s =
    bind_keeps env (Served b) _ _ w
      (bind_keeps env (Served b) _ _ w (try-Served b env w _ (query_one-Served b env w s _))
        (λ found w₁ k. or_create-Served chain _ x latest found env w₁ b k))
      λ t w₁ k. apply-Served blocks latest x t env w₁ b k

pub update_withdraw_status-Served :
    (chain latest : ℕ) (env : Env) (w : World) (b : Book)
    → Served b w
    → Served b (update_withdraw_status chain latest env w).1
unfolding update_withdraw_status
update_withdraw_status-Served chain latest env w b s =
    bind_keeps env (Served b) _ _ w (query_one-Served b env w s _) λ _ w₁ k.
      bind_keeps env (Served b) _ _ w₁ (query-Served b env w₁ k _) λ rows w₂ l.
        for_each_keeps env (Served b) _ (λ x w₃ m. update_one-Served _ _ _ x env w₃ b m) rows w₂ l
