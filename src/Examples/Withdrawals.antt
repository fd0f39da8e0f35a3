-- ===== src/Examples/Withdrawals.antt =====
-- The theorems on withdrawals at a request of 30 out of 100.

use go_wallet.Prelude.{
  ◌++◌, any, sum_where, text_eq, ℕ, ◌≤◌, suc, length, pos, ◌+ℤ◌, ◌-ℤ◌, ◌≤ℤ◌, ◌≡◌, ltb_ℤ, true, ◌⊎◌,
  inl, inr, refl, some, [], ◌∷◌, first, select, arith,
}
use go_wallet.Store.{Withdraw, WithdrawStatus}
use go_wallet.World.{
  World, ok, err, Error, bad_status, db_failure, pure, or_raise, ask, call, guard, query, query_one,
  if_no_rows, statement, commit, send, fresh_id, get_client, ◌>>=◌,
}
use go_wallet.Examples.{answering, failing_at, bank, order, native, user_wallet_row}
use go_wallet.Balance.{available, get_available_balance}
use go_wallet.HotWallet.{get_hot_wallet, get_next_nonce}
use go_wallet.Withdraw.Request.{request_withdraw, requested, frozen_credit}
use go_wallet.Withdraw.Request.Accounting.{request_withdraw-available}
use go_wallet.Withdraw.Process.{
  process_withdraw, pay, spend, prepare, build_request, broadcast, check_hot_wallet_balance,
  check_native_token_balance, withdraw_by_id,
}
use go_wallet.Withdraw.Process.Outcome.{process_withdraw_once, process_withdraw-error}
use go_wallet.Withdraw.Review.{
  reject_message, reject_withdraw, write_rejection, statements, is_frozen_for, rejected,
}
use go_wallet.Withdraw.Review.Refund.{HasDistinctIds, held}
use go_wallet.Withdraw.Review.Rejection.{
  reject_withdraw-refunds, reject_withdraw_once, reject_withdraw_total,
}

abbrev pub row : Withdraw
row = requested 1 order native 100

-- Once the request is in.
abbrev pub asked : World
asked = record bank {
  db = record bank.db {
    withdraws = row ∷ [];
    credits = bank.db.credits ++ frozen_credit 1 order native user_wallet_row 100 101 ∷ [];
  };
  next_id = 102;
}

request_ok : (request_withdraw 1 order answering bank).0 ≡ ok row
unfolding request_withdraw guard pure query query_one if_no_rows statement commit fresh_id ◌>>=◌
    get_available_balance available first select any sum_where ◌+ℤ◌
request_ok = refl

process_ok : (process_withdraw 100 answering asked).0 ≡ ok tt
unfolding process_withdraw pay spend prepare build_request broadcast check_hot_wallet_balance
    check_native_token_balance get_hot_wallet get_next_nonce pure or_raise ask call guard query
    query_one if_no_rows statement commit send get_client ◌>>=◌ first text_eq
process_ok = refl

request_withdraw-available_example :
    let db' = (request_withdraw 1 order answering bank).1.db in
    (available 1 1 1 db' ≡ available 1 1 1 bank.db -ℤ pos 30)
    × (pos 0 ≤ℤ available 1 1 1 db')
    × (ltb_ℤ (pos 0) (pos 30) ≡ true)
    × (row.status ≡ WithdrawStatus.user_withdraw_request)
request_withdraw-available_example = request_withdraw-available 1 order answering bank request_ok

process_withdraw_once_example :
    let w' = (process_withdraw 100 answering asked).1 in
    let (r, w'') = process_withdraw 100 answering w' in
    ((r ≡ err bad_status) ⊎ (r ≡ err db_failure)) × (w''.sent ≡ w'.sent) × (w''.db ≡ w'.db)
process_withdraw_once_example = process_withdraw_once 100 answering answering asked process_ok

process_fails : (process_withdraw 100 (failing_at 17) asked).0 ≡ err db_failure
unfolding process_withdraw pay spend prepare build_request broadcast check_hot_wallet_balance
    check_native_token_balance get_hot_wallet get_next_nonce pure or_raise ask call guard query
    query_one if_no_rows statement commit send get_client ◌>>=◌ first text_eq
process_fails = refl

process_withdraw-error_example :
    let w' = (process_withdraw 100 (failing_at 17) asked).1 in
    (w'.db ≡ record asked.db { nonces = w'.db.nonces }) × (length w'.sent ≤ suc (length asked.sent))
process_withdraw-error_example = process_withdraw-error 100 (failing_at 17) asked process_fails

distinct : HasDistinctIds asked.db.credits
distinct = (((λ e. omega arith), tt), (tt, tt))

reject_ok : (reject_withdraw 100 [] answering asked).0 ≡ ok (rejected [] row)
unfolding reject_withdraw write_rejection statements guard pure query query_one if_no_rows statement
    commit ◌>>=◌ first select
reject_ok = refl

reject_withdraw-refunds_example :
    let w' = (reject_withdraw 100 [] answering asked).1 in
    ((user chain token : ℕ)
      → available user chain token w'.db +ℤ held 100 user chain token asked.db.credits
        ≡ available user chain token asked.db)
    × (select (is_frozen_for 100) w'.db.credits ≡ [])
    × (withdraw_by_id 100 w'.db ≡ some (rejected [] row))
    × ((rejected [] row).status ≡ WithdrawStatus.failed)
    × (w'.sent ≡ asked.sent)
reject_withdraw-refunds_example = reject_withdraw-refunds 100 [] answering asked distinct reject_ok

reject_withdraw_once_example :
    let w' = (reject_withdraw 100 [] answering asked).1 in
    let (r, w'') = reject_withdraw 100 [] answering w' in
    ((e : Error) × (r ≡ err e)) × (w''.db ≡ w'.db)
reject_withdraw_once_example =
    reject_withdraw_once 100 [] [] answering answering asked distinct reject_ok

row_found : withdraw_by_id 100 asked.db ≡ some row
unfolding first
row_found = refl

reject_withdraw_total_example :
    (reject_withdraw 100 [] answering asked).0
    ≡ ok (record row { status = WithdrawStatus.failed; error_message = some (reject_message []) })
reject_withdraw_total_example =
    reject_withdraw_total answering (λ t. refl) 100 [] asked
      (frozen_credit 1 order native user_wallet_row 100 101) row_found (inl refl) (inr (inl refl))
      refl refl refl
