-- ===== src/Withdraw/Review/Approval.antt =====
-- internal/wallet/withdraw/service.go, `ApproveWithdraw`: how it ends, and a rejection after it.
use go_wallet.Prelude.{ℕ, ◌+◌, ◌≡◌, ◌⊎◌, some, refl, List, ◌∷◌, arith}
use go_wallet.Store.{Withdraw, WithdrawStatus, Db, Wallet, Token}
use go_wallet.World.{
  Env, World, Result, ok, err, SignRequest, raise, guard, query, query_one, if_no_rows, try_action,
  statement, commit, ◌>>=◌,
}
use go_wallet.Withdraw.Process.{withdraw_by_id, save_withdraw, process_withdraw, broadcasted}
use go_wallet.Withdraw.Process.Outcome.{process_withdraw-Processed, Processed-found}
use go_wallet.Withdraw.Process.Payment.{Paid}
use mathlib.Core.Path.{◌∙◌, ap, sym}
use go_wallet.Withdraw.Review.{
  approve_withdraw, after_process, update_withdraw_status_on_error, failed_by_error,
}

-- The status is set to failed by a write that stands as a whole, or not at all.
on_error_lem :
    (id : ℕ) (env : Env) (w : World) {x : Withdraw}
    → withdraw_by_id id w.db ≡ some x
    → let w' = (update_withdraw_status_on_error id env w).1 in
      (w'.sent ≡ w.sent) × ((w'.db ≡ w.db) ⊎ (w'.db ≡ save_withdraw (failed_by_error x) w.db))
unfolding update_withdraw_status_on_error statement query_one query commit ◌>>=◌
on_error_lem id env w f = (ground arith, ground arith)

-- What the approval hands to the processing.
abbrev pub reviewed : World → World
reviewed w = record w { tick = w.tick + 1 + 1 + 1 }

approve_reaches :
    (id : ℕ) (env : Env) (w : World) {y : Withdraw}
    → (approve_withdraw id env w).0 ≡ ok y
    → approve_withdraw id env w
      ≡ after_process id
          (process_withdraw id env (reviewed w)).0
          env
          (process_withdraw id env (reviewed w)).1
unfolding approve_withdraw statement guard if_no_rows query_one query commit try_action ◌>>=◌
approve_reaches id env w h = ground arith

after_ok :
    (id : ℕ) (r : Result (Unit {0})) (env : Env) (w : World) {y : Withdraw}
    → (after_process id r env w).0 ≡ ok y
    → let w' = (after_process id r env w).1 in
      (r ≡ ok tt) × (w'.db ≡ w.db) × (w'.sent ≡ w.sent) × (withdraw_by_id id w.db ≡ some y)
unfolding after_process query_one try_action raise ◌>>=◌
after_ok id (ok tt) env w h = (refl, ground arith, ground arith, ground arith)
after_ok id (err e) env w h = absurd (ground arith)

-- What was signed is under the stored nonce and for the hot wallet.
Paid-request :
    (x : Withdraw) (hot : Wallet) (token : Token) (db : Db) (sent : List SignRequest) (w' : World)
    → (p : Paid x hot token db sent w')
    → (p.request.nonce ≡ p.row.nonce) × (p.request.from_address ≡ hot.address)
Paid-request x hot token db sent w' p = let made = p.request_made in (ground arith, ground arith)

-- An approval that succeeds has sent exactly one transaction; the row that it returns is the one in
-- the table, it is pending, and it carries the nonce and the sender of what was sent. No credit
-- changes.
pub approve_withdraw-ok :
    (id : ℕ) (env : Env) (w : World) {y : Withdraw}
    → (approve_withdraw id env w).0 ≡ ok y
    → let w' = (approve_withdraw id env w).1 in
      (withdraw_by_id id w'.db ≡ some y)
      × (y.status ≡ WithdrawStatus.pending)
      × ((r : SignRequest) × (w'.sent ≡ r ∷ w.sent)
          × (y.nonce ≡ some r.nonce)
          × (y.from_address ≡ some r.from_address))
      × (w'.db.credits ≡ w.db.credits)
approve_withdraw-ok id env w {y = y} h =
    let w₁ = (process_withdraw id env (reviewed w)).1 in
    let e = approve_reaches id env w h in
    let (done, kept, sent, row) =
      after_ok id (process_withdraw id env (reviewed w)).0 env w₁ (rw e at h) in
    let p = process_withdraw-Processed id env (reviewed w) done in
    let found = Processed-found id (reviewed w) w₁ p in
    let signed = Paid-request p.x p.hot p.token w.db w.sent w₁ p.paid in
    let same : y ≡ broadcasted p.x p.hot p.paid.hash p.paid.row.nonce = cc in
    rw e (
      rw kept row,
      ap (λ (z : Withdraw). z.status) same,
      (
        p.paid.request,
        sent ∙ p.paid.sent_once,
        ap (λ (z : Withdraw). z.nonce) same ∙ ap some (sym signed.0),
        ap (λ (z : Withdraw). z.from_address) same ∙ ap some (sym signed.1),
      ),
      ap (λ (db : Db). db.credits) kept ∙ ap (λ (db : Db). db.credits) p.paid.written,
    )
