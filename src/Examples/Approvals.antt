-- ===== src/Examples/Approvals.antt =====
-- The theorems on approvals, nonces and confirmations of withdrawals, at the same request.
use go_wallet.Prelude.{◌≡◌, refl, text_eq, some, [], ◌∷◌, ◌==◌, first, modify, arith}
use go_wallet.Store.{Withdraw, WithdrawStatus, Transaction, TransactionStatus, TransactionType}
use go_wallet.World.{
  World, ok, SignRequest, pure, or_raise, ask, call, guard, query, query_one, if_no_rows,
  try_action, statement, commit, send, get_client, ◌>>=◌,
}
use go_wallet.Examples.{
  answering, failing_at, bank, nonce_row, hot_address, arrived, hot_wallet_row,
}
use go_wallet.Examples.Withdrawals.{asked, row}
use go_wallet.HotWallet.{get_hot_wallet, get_next_nonce, nonce_of}
use go_wallet.HotWallet.Nonces.{nonces, nonces_count_up, IsCountFrom}
use go_wallet.Withdraw.Process.{
  process_withdraw, pay, spend, prepare, build_request, broadcast, check_hot_wallet_balance,
  check_native_token_balance, withdraw_by_id, broadcasted,
}
use go_wallet.Withdraw.Review.{approve_withdraw, after_process}
use go_wallet.Withdraw.Review.Approval.{approve_withdraw-ok}
use go_wallet.Withdraw.Status.{update_one, transaction_by_hash}
use go_wallet.Withdraw.Status.Settled.{update_one-confirms_failed}

-- The row once it is broadcast under nonce 5.
abbrev pending_row : Withdraw
pending_row = broadcasted row hot_wallet_row (5 ∷ []) 5

approve_ok : (approve_withdraw 100 answering asked).0 ≡ ok pending_row
unfolding approve_withdraw after_process try_action process_withdraw pay spend prepare build_request
    broadcast check_hot_wallet_balance check_native_token_balance get_hot_wallet get_next_nonce pure
    or_raise ask call guard query query_one if_no_rows statement commit send get_client ◌>>=◌ first
    text_eq modify
approve_ok = refl

approve_withdraw-ok_example :
    let w' = (approve_withdraw 100 answering asked).1 in
    (withdraw_by_id 100 w'.db ≡ some pending_row)
    × (pending_row.status ≡ WithdrawStatus.pending)
    × ((r : SignRequest) × (w'.sent ≡ r ∷ asked.sent)
        × (pending_row.nonce ≡ some r.nonce)
        × (pending_row.from_address ≡ some r.from_address))
    × (w'.db.credits ≡ asked.db.credits)
approve_withdraw-ok_example = approve_withdraw-ok 100 answering asked approve_ok

nonce_found : first (nonce_of hot_address 1) bank.db.nonces ≡ some nonce_row
unfolding first text_eq
nonce_found = refl

nonces_count_up_example :
    IsCountFrom 5 (nonces hot_address 1 (answering ∷ failing_at 5 ∷ answering ∷ []) bank)
nonces_count_up_example =
    nonces_count_up hot_address 1 (answering ∷ failing_at 5 ∷ answering ∷ []) bank nonce_found

-- The broadcast transaction, reverted in block 40.
abbrev reverted : Transaction
reverted = record arrived {
  id = 200;
  tx_hash = 5 ∷ [];
  block_no = 40;
  type = TransactionType.withdraw;
  status = TransactionStatus.failed;
}

abbrev mined_world : World
mined_world = record asked {
  db = record asked.db { withdraws = pending_row ∷ []; transactions = reverted ∷ [] };
}

reverted_found : transaction_by_hash (5 ∷ []) mined_world.db ≡ some reverted
unfolding first text_eq
reverted_found = refl

pending_found : first (λ (y : Withdraw). y.id == 100) mined_world.db.withdraws ≡ some pending_row
unfolding first
pending_found = refl

update_one-confirms_failed_example :
    first
      (λ (y : Withdraw). y.id == 100)
      (update_one 1 12 60 pending_row answering mined_world).1.db.withdraws
    ≡ some (record pending_row { status = WithdrawStatus.confirmed })
update_one-confirms_failed_example =
    update_one-confirms_failed 1 12 60 pending_row answering mined_world refl refl reverted_found
      pending_found refl (omega arith)
