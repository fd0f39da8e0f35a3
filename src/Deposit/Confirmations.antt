-- ===== src/Deposit/Confirmations.antt =====
-- internal/wallet/deposit/processor.go: the status of every recorded transaction follows its
-- confirmations, and the status of its credits follows its own.
use go_wallet.Prelude.{
  ℕ, ◌-◌, ℤ, pos, Bool, true, false, ◌&&◌, not, Option, none, some, List, ◌==◌, ltb, leb,
  if◌then◌else◌, select, modify, sort,
}
use go_wallet.Store.{
  Transaction, TransactionStatus, Credit, CreditStatus, Db, transaction_status_eq,
  is_blockchain_ref,
}
use go_wallet.World.{
  Result, Action, pure, query, query_one, try_action, commit, for_each, ◌>>=◌, ◌>>◌,
}
use go_wallet.Queries.{chain_by_id, number_or}
pub mod Synced

abbrev pub default_confirmation_blocks : ℕ
default_confirmation_blocks = 12

abbrev pub default_finalized_blocks : ℕ
default_finalized_blocks = 32

-- The status that a number of confirmations gives.
abbrev pub transaction_status_at : ℕ → ℕ → ℕ → TransactionStatus
transaction_status_at confirmation_blocks finalized_blocks count =
    if leb finalized_blocks count
    then TransactionStatus.finalized
    else if leb confirmation_blocks count
    then TransactionStatus.safe
    else TransactionStatus.confirmed

abbrev pub map_transaction_to_credit_status : TransactionStatus → Option CreditStatus
map_transaction_to_credit_status TransactionStatus.confirmed = some CreditStatus.confirmed
map_transaction_to_credit_status TransactionStatus.safe = some CreditStatus.confirmed
map_transaction_to_credit_status TransactionStatus.finalized = some CreditStatus.finalized
map_transaction_to_credit_status TransactionStatus.failed = some CreditStatus.failed

abbrev pub is_credit_of : ℕ → Credit → Bool
is_credit_of tx_id c = c.reference_id == tx_id && is_blockchain_ref c.reference_type

abbrev pub set_credit_status : ℕ → CreditStatus → Db → Db
set_credit_status tx_id status db = record db {
  credits = modify (is_credit_of tx_id) (λ c. record c { status = status }) db.credits;
}

-- The second half of `updateCreditStatus`, by whether the status has a counterpart.
unfoldable pub write_credit_status : ℕ → Option CreditStatus → Action (Unit {0})
write_credit_status tx_id none = pure tt
write_credit_status tx_id (some status) = commit (set_credit_status tx_id status)

unfoldable pub update_credit_status : Transaction → TransactionStatus → Action (Unit {0})
unfolding write_credit_status
update_credit_status tx status = write_credit_status tx.id (map_transaction_to_credit_status status)

abbrev pub set_status_and_count : ℕ → TransactionStatus → ℕ → Db → Db
set_status_and_count id status count db = record db {
  transactions =
      modify (λ (t : Transaction). t.id == id)
        (λ t. record t { status = status; confirmation_count = some (pos count) }) db.transactions;
}

abbrev pub set_count : ℕ → ℕ → Db → Db
set_count id count db = record db {
  transactions =
      modify (λ (t : Transaction). t.id == id)
        (λ t. record t { confirmation_count = some (pos count) }) db.transactions;
}

-- An error of the credits' update is logged and dropped.
unfoldable pub update_transaction_status_and_confirmation :
    Transaction → TransactionStatus → ℕ → Action (Unit {0})
update_transaction_status_and_confirmation tx status count = do
  commit (set_status_and_count tx.id status count)
  _ ← try_action (update_credit_status tx status)
  pure tt

-- The loop's body. A negative number of confirmations changes nothing.
unfoldable pub update_transaction : ℕ → ℕ → ℕ → Transaction → Action (Unit {0})
update_transaction confirmation_blocks finalized_blocks latest tx =
    let count = latest - tx.block_no in
    let status = transaction_status_at confirmation_blocks finalized_blocks count in
    if ltb latest tx.block_no
    then pure tt
    else if transaction_status_eq tx.status status
    then commit (set_count tx.id count)
    else update_transaction_status_and_confirmation tx status count

abbrev pub is_tracked : ℕ → Transaction → Bool
is_tracked chain tx =
    tx.chain_id == chain && not (transaction_status_eq tx.status TransactionStatus.failed)

-- `ORDER BY block_no ASC`
abbrev pub lower_block : Transaction → Transaction → Bool
lower_block a b = leb a.block_no b.block_no

unfoldable pub update_confirmation_status : ℕ → ℕ → Action (Unit {0})
update_confirmation_status chain_id latest = do
  chain ← query_one (chain_by_id chain_id)
  rows ← query (λ db. sort lower_block (select (is_tracked chain_id) db.transactions))
  for_each
      (update_transaction (number_or chain.confirmation_blocks default_confirmation_blocks)
        (number_or chain.finalized_blocks default_finalized_blocks) latest)
      rows
