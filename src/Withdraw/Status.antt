-- ===== src/Withdraw/Status.antt =====
-- internal/wallet/withdraw/service.go, `UpdateWithdrawStatus`: after a scan, the status of every
-- broadcast withdrawal follows the confirmations of its transaction. Block numbers are natural
-- numbers far below 2^63, so a difference of two of them does not wrap.
use go_wallet.Queries.{token_by_id, chain_by_id, text_or_empty, transaction_key_free, number_or}
use go_wallet.Prelude.{
  ℕ, ◌-◌, sub_ℕ, Text, Bool, true, false, ◌&&◌, ◌||◌, not, Option, none, some, List, ◌==◌, ltb, leb,
  if◌then◌else◌, text_eq, to_lower, first, select, any, modify, insert,
}
use go_wallet.Store.{
  Withdraw, WithdrawStatus, Transaction, TransactionStatus, TransactionType, Token, Chain, Db,
  withdraw_status_eq,
}
use go_wallet.World.{
  Result, ok, err, Action, Receipt, pure, raise, guard, ask, query, query_one, try_action, commit,
  fresh_id, get_client, for_each, ◌>>=◌, ◌>>◌, no_rows, receipt_missing, not_unique,
}
pub mod Settled

abbrev pub default_confirmation_blocks : ℕ
default_confirmation_blocks = 12

-- `tx_hash = $1`, on every chain.
abbrev pub transaction_by_hash : Text → Db → Option Transaction
transaction_by_hash hash db = first (λ (t : Transaction). text_eq t.tx_hash hash) db.transactions

-- The token's contract address, as far as the token is found and is no native one.
abbrev pub token_addr_of : Result Token → Option Text
token_addr_of (err e) = none
token_addr_of (ok token) =
    if token.is_native
    then none
    else elim token.token_address [ none ↦ none | some a ↦ some (to_lower a) ]

abbrev pub receipt_status : Receipt → TransactionStatus
receipt_status r = if r.successful then TransactionStatus.confirmed else TransactionStatus.failed

abbrev pub withdraw_transaction : ℕ → Text → Withdraw → ℕ → Receipt → Option Text → ℕ → Transaction
withdraw_transaction chain hash x latest r token_addr id = record {
  id = id;
  chain_id = chain;
  block_hash = r.block_hash;
  block_no = r.block_number;
  tx_hash = to_lower hash;
  from_addr = to_lower (text_or_empty x.from_address);
  to_addr = to_lower x.to_address;
  token_addr = token_addr;
  amount = x.amount;
  type = TransactionType.withdraw;
  status = receipt_status r;
  confirmation_count = some (sub_ℕ latest r.block_number);
}

unfoldable pub create_transaction_record_if_confirmed : ℕ → Text → Withdraw → ℕ → Action (Unit {0})
create_transaction_record_if_confirmed chain hash x latest = do
  get_client
  r ← ask (λ env t. env.receipt t hash) receipt_missing
  token ← try_action (query_one (token_by_id x.token_id))
  id ← fresh_id
  free ← query (transaction_key_free (to_lower hash) chain)
  guard free not_unique
  commit λ db. record db {
    transactions =
        insert (withdraw_transaction chain hash x latest r (token_addr_of token) id)
          db.transactions;
  }

-- After the first search: create the record where there was none, and search again.
unfoldable pub or_create : ℕ → Text → Withdraw → ℕ → Result Transaction → Action Transaction
or_create chain hash x latest (ok t) = pure t
or_create chain hash x latest (err no_rows) = do
  create_transaction_record_if_confirmed chain hash x latest
  query_one (transaction_by_hash hash)
or_create chain hash x latest (err e) = raise e

unfoldable pub get_or_create_transaction_record : ℕ → Text → Withdraw → ℕ → Action Transaction
get_or_create_transaction_record chain hash x latest = do
  found ← try_action (query_one (transaction_by_hash hash))
  or_create chain hash x latest found

-- The status that a number of confirmations gives.
abbrev pub status_at : ℕ → ℕ → WithdrawStatus
status_at confirmation_blocks count =
    if leb confirmation_blocks count
    then WithdrawStatus.confirmed
    else if ltb 0 count
    then WithdrawStatus.processing
    else WithdrawStatus.pending

-- `Whitelist(Status, UpdatedAt)`: the other columns are left alone.
abbrev pub set_withdraw_status : ℕ → WithdrawStatus → Db → Db
set_withdraw_status id status db = record db {
  withdraws =
      modify (λ (y : Withdraw). y.id == id) (λ y. record y { status = status }) db.withdraws;
}

-- The rest of the loop's body once the transaction is known. A negative count changes nothing.
unfoldable pub apply_confirmations : ℕ → ℕ → Withdraw → Transaction → Action (Unit {0})
apply_confirmations blocks latest x t =
    let status = status_at blocks (latest - t.block_no) in
    if ltb latest t.block_no || withdraw_status_eq x.status status
    then pure tt
    else commit (set_withdraw_status x.id status)

unfoldable pub update_one : ℕ → ℕ → ℕ → Withdraw → Action (Unit {0})
update_one chain blocks latest x = do
  t ← get_or_create_transaction_record chain (text_or_empty x.tx_hash) x latest
  apply_confirmations blocks latest x t

abbrev pub awaits_confirmation : ℕ → Withdraw → Bool
awaits_confirmation chain x =
    x.chain_id == chain
    && (withdraw_status_eq x.status WithdrawStatus.pending
        || withdraw_status_eq x.status WithdrawStatus.processing)
    && (elim x.tx_hash [ none ↦ false | some h ↦ true ])

unfoldable pub update_withdraw_status : ℕ → ℕ → Action (Unit {0})
update_withdraw_status chain_id latest = do
  chain ← query_one (chain_by_id chain_id)
  rows ← query (λ db. select (awaits_confirmation chain_id) db.withdraws)
  for_each
      (update_one chain_id (number_or chain.confirmation_blocks default_confirmation_blocks) latest)
      rows
