-- ===== src/Scan/Analyzer.antt =====
-- internal/wallet/scan/analyzer.go: the transfers to user wallets in a transaction.
use go_wallet.Prelude.{
  ℕ, ℤ, pos, Text, Bool, true, false, ◌&&◌, not, Option, none, some, List, [], ◌∷◌, ◌==◌,
  if◌then◌else◌, text_eq, to_lower, any, insert,
}
use go_wallet.Store.{Transaction, TransactionStatus, TransactionType, Wallet, Db}
use go_wallet.World.{
  Env, Action, ChainTx, Receipt, LogEntry, Error, pure, raise, guard, ask, query, commit, fresh_id,
  each, or_raise, ◌>>=◌, ◌>>◌, sign_failure, not_unique, rpc_failure,
}
use go_wallet.Queries.{transaction_key_free}
pub mod Recorded

-- 0xddf252ad1be2c89b69c2b068fc378daa952ba7f163c4a11628f55a4df523b3ef
abbrev pub transfer_event_signature : ℕ
transfer_event_signature = 0xddf252ad1be2c89b69c2b068fc378daa952ba7f163c4a11628f55a4df523b3ef

abbrev pub user_address : ℕ → Text → Db → Bool
user_address chain address db =
    any
      (λ (wallet : Wallet).
        wallet.chain_id == chain && text_eq (to_lower wallet.address) (to_lower address))
      db.wallets

unfoldable pub is_user_address : ℕ → Text → Action Bool
is_user_address chain address = query (user_address chain address)

abbrev pub recorded : ℕ → Text → Db → Bool
recorded chain hash db =
    any (λ (t : Transaction). t.chain_id == chain && text_eq (to_lower t.tx_hash) (to_lower hash))
      db.transactions

unfoldable pub transaction_exists : ℕ → Text → Action Bool
transaction_exists chain hash = query (recorded chain hash)

abbrev pub deposit_row : ℕ → ℕ → Text → Text → Text → Text → Option Text → ℕ → ℕ → Transaction
deposit_row chain block_no block_hash hash sender to_addr token_addr amount id = record {
  id = id;
  chain_id = chain;
  block_hash = block_hash;
  block_no = block_no;
  tx_hash = to_lower hash;
  from_addr = to_lower sender;
  to_addr = to_addr;
  token_addr = token_addr;
  amount = pos amount;
  type = TransactionType.deposit;
  status = TransactionStatus.confirmed;
  confirmation_count = some (pos 0);
}

-- The INSERT, under the unique key of `transactions`.
unfoldable pub insert_deposit : (ℕ → Transaction) → ℕ → Text → Action (Unit {0})
insert_deposit row chain hash = do
  id ← fresh_id
  free ← query (transaction_key_free (to_lower hash) chain)
  guard free not_unique
  commit (λ db. record db { transactions = insert (row id) db.transactions })

-- A transfer that arrives at a user's wallet, unless its transaction is recorded.
unfoldable pub record_transfer :
    ℕ → ℕ → Text → Text → Text → Text → Option Text → ℕ → Action (Unit {0})
record_transfer chain block_no block_hash hash sender to_addr token_addr amount = do
  is_deposit ← is_user_address chain to_addr
  elim is_deposit [
    | false ↦ pure tt
    | true ↦ do
      exists ← transaction_exists chain (to_lower hash)
      elim exists [
        | true ↦ pure tt
        | false ↦
            insert_deposit
              (deposit_row chain block_no block_hash hash sender to_addr token_addr amount) chain
              hash
      ]
  ]

-- The transfer of the native currency, unless the transaction creates a contract.
unfoldable pub record_eth_transfer : ℕ → ℕ → Text → ChainTx → Text → Option Text → Action (Unit {0})
record_eth_transfer chain block_no block_hash tx sender none = pure tt
record_eth_transfer chain block_no block_hash tx sender (some to) =
    record_transfer chain block_no block_hash tx.hash sender (to_lower to) none tx.value

unfoldable pub analyze_eth_transfer : ℕ → ℕ → Text → ChainTx → Receipt → Action (Unit {0})
unfolding record_eth_transfer
analyze_eth_transfer chain block_no block_hash tx receipt =
    if not receipt.successful then pure tt else (do
      sender ← or_raise tx.sender sign_failure
      record_eth_transfer chain block_no block_hash tx sender tx.to)

-- The topics of a log entry: at least three, the first of which is the signature.
unfoldable pub analyze_topics : ℕ → ℕ → Text → Text → Text → ℕ → List ℕ → Action (Unit {0})
analyze_topics chain block_no block_hash hash token amount [] env = pure tt env
analyze_topics chain block_no block_hash hash token amount (signature ∷ []) env = pure tt env
analyze_topics chain block_no block_hash hash token amount (signature ∷ sender ∷ []) env =
    pure tt env
analyze_topics chain block_no block_hash hash token amount (signature ∷ sender ∷ to ∷ more) env =
    if signature == transfer_event_signature
    then record_transfer chain block_no block_hash hash (env.address_of sender)
        (to_lower (env.address_of to)) (some (to_lower token)) amount env
    else pure tt env

unfoldable pub analyze_log : ℕ → ℕ → Text → Text → LogEntry → Action (Unit {0})
unfolding analyze_topics
analyze_log chain block_no block_hash hash entry =
    analyze_topics chain block_no block_hash hash entry.address entry.amount entry.topics

unfoldable pub analyze_erc20_transfers : ℕ → ℕ → Text → ChainTx → Receipt → Action (Unit {0})
analyze_erc20_transfers chain block_no block_hash tx receipt =
    if not receipt.successful
    then pure tt
    else each (analyze_log chain block_no block_hash tx.hash) receipt.logs

-- After the search for the transaction: one on record is not analysed again.
unfoldable pub analyze_unless : Bool → ℕ → ℕ → Text → ChainTx → Receipt → Action (Unit {0})
analyze_unless true chain block_no block_hash tx receipt = pure tt
analyze_unless false chain block_no block_hash tx receipt = do
  analyze_eth_transfer chain block_no block_hash tx receipt
  analyze_erc20_transfers chain block_no block_hash tx receipt

unfoldable pub analyze_transaction : ℕ → ℕ → Text → ChainTx → Receipt → Action (Unit {0})
analyze_transaction chain block_no block_hash tx receipt = do
  exists ← transaction_exists chain tx.hash
  analyze_unless exists chain block_no block_hash tx receipt
