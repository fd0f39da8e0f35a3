-- ===== src/World/Transfer.antt =====
-- What collect/service.go and rebalance/service.go have in common: the fees, a transfer of the
-- chain's own coin, its broadcast, and the wait for its receipt.
use go_wallet.Prelude.{
  true, false, ℕ, zero, suc, ◌+◌, ◌*◌, pos, Text, Bool, Option, none, some, if◌then◌else◌, to_lower,
  insert,
}
use go_wallet.Store.{Wallet, Transaction, TransactionType, TransactionStatus, Db}
use go_wallet.World.{
  Action, Receipt, SignRequest, pure, raise, guard, ask, call, query, fresh_id, commit, read, send,
  ◌>>=◌, ◌>>◌, rpc_failure, sign_failure, receipt_timeout, not_unique, Result, Env,
}
use go_wallet.Queries.{number_or, transaction_key_free}
pub mod Receipts

abbrev pub native_gas_limit : ℕ
native_gas_limit = 21000

-- Tip and highest fee; a block without a base fee counts as one with 0.
unfoldable pub suggest_fees : Action (ℕ × ℕ)
suggest_fees = do
  tip ← ask (λ env. env.tip_cap) rpc_failure
  latest ← ask (λ env. env.base_fee) rpc_failure
  pure (tip, number_or latest 0 * 2 + tip)

-- A plain transfer between two wallets.
abbrev pub plain_transfer : Env → Wallet → Wallet → ℕ → ℕ → ℕ → ℕ → SignRequest
plain_transfer env source target amount max_fee tip nonce = record {
  chain_id = source.chain_id;
  to = env.checksum (to_lower target.address);
  value = amount;
  gas_limit = native_gas_limit;
  max_fee = max_fee;
  tip_cap = tip;
  nonce = nonce;
  from_address = env.checksum (to_lower source.address);
  derivation_path = source.derivation_path;
  call_data = none;
}

-- One poll: an error ends the wait, and a transaction that is not found does not.
unfoldable pub poll_receipt : Text → Action (Option Receipt)
poll_receipt hash env w = (
  if env.client_fails w.tick then Result.err rpc_failure else Result.ok (env.receipt w.tick hash),
  record w { tick = w.tick + 1 },
)

-- A poll every 3 seconds for 2 minutes is at most 41 polls, and fewer where they take time.
abbrev pub polls : ℕ
polls = 41

-- What follows a poll: the receipt, the end of the time, or the next poll.
unfoldable pub after_poll : Option Receipt → Bool → Action Receipt → Action Receipt
after_poll (some receipt) over next = pure receipt
after_poll none true next = raise receipt_timeout
after_poll none false next = next

unfoldable pub wait_for_receipt : ℕ → Text → Action Receipt
unfolding poll_receipt after_poll
wait_for_receipt zero hash = raise receipt_timeout
wait_for_receipt (suc fuel) hash = do
  found ← poll_receipt hash
  over ← read (λ env. env.timed_out)
  after_poll found over (wait_for_receipt fuel hash)

-- Sign, decode, send and wait: the hash and the receipt.
unfoldable pub send_and_wait : SignRequest → Action (Text × Receipt)
send_and_wait request = do
  hash ← ask (λ env t. env.sign t request) sign_failure
  call (λ env. env.decode_fails) sign_failure
  send request
  receipt ← wait_for_receipt polls hash
  pure (hash, receipt)

abbrev pub transfer_row :
    TransactionType → Wallet → Wallet → ℕ → Option Text → Text → Receipt → ℕ → Transaction
transfer_row type source target amount token hash receipt id = record {
  id = id;
  chain_id = source.chain_id;
  block_hash = receipt.block_hash;
  block_no = receipt.block_number;
  tx_hash = to_lower hash;
  from_addr = to_lower source.address;
  to_addr = to_lower target.address;
  token_addr = token;
  amount = pos amount;
  type = type;
  status = if receipt.successful then TransactionStatus.confirmed else TransactionStatus.failed;
  confirmation_count = some (pos 0);
}

-- The row's insertion, under the unique key of `transactions`.
unfoldable pub insert_transfer :
    TransactionType → Wallet → Wallet → ℕ → Option Text → Text → Receipt → Action (Unit {0})
insert_transfer type source target amount token hash receipt = do
  id ← fresh_id
  free ← query (transaction_key_free (to_lower hash) source.chain_id)
  guard free not_unique
  commit λ db. record db {
    transactions =
        insert (transfer_row type source target amount token hash receipt id) db.transactions;
  }
