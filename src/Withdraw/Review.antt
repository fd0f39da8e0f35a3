-- ===== src/Withdraw/Review.antt =====
-- internal/wallet/withdraw/service.go, `ApproveWithdraw`, `RejectWithdraw` and
-- `updateWithdrawStatusOnError`: what an administrator does with a request.
use go_wallet.Prelude.{
  ℕ, Text, Bool, true, false, ◌&&◌, ◌||◌, not, some, List, [], ◌∷◌, ◌==◌, select, modify,
}
use go_wallet.Store.{
  Withdraw, WithdrawStatus, Credit, CreditStatus, Message, withdraw_status_eq, credit_status_eq,
  is_withdraw_ref,
}
use go_wallet.World.{
  Result, ok, err, Action, pure, raise, guard, query, query_one, if_no_rows, try_action, statement,
  commit, ◌>>=◌, ◌>>◌, bad_status, withdraw_not_found, nothing_frozen,
}
use go_wallet.Withdraw.Process.{withdraw_by_id, save_withdraw, process_withdraw}
pub mod Refund
pub mod Rejection
pub mod Approval

abbrev pub failed_by_error : Withdraw → Withdraw
failed_by_error x = record x {
  status = WithdrawStatus.failed;
  error_message = some Message.process_error;
}

-- The errors of these steps are logged and dropped by the caller.
unfoldable pub update_withdraw_status_on_error : ℕ → Action (Unit {0})
update_withdraw_status_on_error id = do
  statement
  x ← query_one (withdraw_by_id id)
  statement
  commit (save_withdraw (failed_by_error x))

-- What `ApproveWithdraw` does once `ProcessWithdraw` is back.
unfoldable pub after_process : ℕ → Result (Unit {0}) → Action Withdraw
after_process id (ok _) = query_one (withdraw_by_id id)
after_process id (err e) = do _ ← try_action (update_withdraw_status_on_error id); raise e

unfoldable pub approve_withdraw : ℕ → Action Withdraw
approve_withdraw id = do
  statement
  x ← if_no_rows withdraw_not_found (query_one (withdraw_by_id id))
  guard (withdraw_status_eq x.status WithdrawStatus.user_withdraw_request) bad_status
  commit (λ db. db)
  result ← try_action (process_withdraw id)
  after_process id result

abbrev pub is_frozen_for : ℕ → Credit → Bool
is_frozen_for id c =
    c.reference_id == id
    && is_withdraw_ref c.reference_type
    && credit_status_eq c.status CreditStatus.frozen

abbrev pub fail_credit : Credit → Credit
fail_credit c = record c { status = CreditStatus.failed }

-- The loop of `credit.Update`: the rows read are written back as failed, one statement each.
unfoldable pub fail_credits : List Credit → List Credit → List Credit
fail_credits [] rows = rows
fail_credits (c ∷ cs) rows =
    fail_credits cs (modify (λ (r : Credit). r.id == c.id) (λ _. fail_credit c) rows)

unfoldable pub statements : List Credit → Action (Unit {0})
statements [] = pure tt
statements (c ∷ cs) = statement >> statements cs

abbrev pub may_reject : WithdrawStatus → Bool
may_reject status =
    withdraw_status_eq status WithdrawStatus.user_withdraw_request
    || withdraw_status_eq status WithdrawStatus.failed

abbrev pub is_empty : {A : Type 0} → List A → Bool
is_empty [] = true
is_empty (x ∷ xs) = false

abbrev pub reject_message : Text → Message
reject_message [] = Message.rejected_by_admin
reject_message (c ∷ cs) = Message.reason (c ∷ cs)

abbrev pub rejected : Text → Withdraw → Withdraw
rejected reason x = record x {
  status = WithdrawStatus.failed;
  error_message = some (reject_message reason);
}

-- The writes of a rejection, once its tests have passed.
unfoldable pub write_rejection : Withdraw → List Credit → Text → Action Withdraw
write_rejection x credits reason = do
  statement
  statements credits
  commit λ db. record (save_withdraw (rejected reason x) db) {
    credits = fail_credits credits db.credits;
  }
  pure (rejected reason x)

unfoldable pub reject_withdraw : ℕ → Text → Action Withdraw
reject_withdraw id reason = do
  statement
  x ← if_no_rows withdraw_not_found (query_one (withdraw_by_id id))
  credits ← query (λ db. select (is_frozen_for id) db.credits)
  guard (not (is_empty credits)) nothing_frozen
  guard (may_reject x.status) bad_status
  write_rejection x credits reason
