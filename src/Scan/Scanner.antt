-- ===== src/Scan/Scanner.antt =====
-- internal/wallet/scan/scanner.go: the loop over the blocks of a chain.
use go_wallet.Prelude.{
  ℕ, zero, suc, ◌+◌, ◌-◌, Text, Bool, true, false, ◌&&◌, ◌||◌, not, Option, none, some, List, [],
  ◌∷◌, ◌==◌, ltb, leb, if◌then◌else◌, text_eq, any, insert,
}
use go_wallet.Store.{Block, BlockStatus, Db, is_orphaned}
use go_wallet.World.{
  Env, Error, Result, ok, err, Action, ChainBlock, ChainTx, pure, raise, ask, query, try_action,
  commit, for_each, ◌>>=◌, ◌>>◌, rpc_failure, receipt_missing, get_client,
}
use go_wallet.Scan.Analyzer.{analyze_transaction}
use go_wallet.Scan.Reorg.{detect_and_handle_reorg}
use go_wallet.Deposit.Confirmations.{update_confirmation_status}
use go_wallet.Deposit.Credits.{process_finalized_deposits}
use go_wallet.Withdraw.Status.{update_withdraw_status}
pub mod Credited
pub mod Progress

-- `MAX(number)` of the chain's blocks that are not orphaned.
unfoldable pub max_block : ℕ → List Block → Option ℕ
max_block chain [] = none
max_block chain (b ∷ bs) =
    let rest = max_block chain bs in
    if b.chain_id == chain && not (is_orphaned b.status)
    then (elim rest [
      | none ↦ some b.number
      | some n ↦ if ltb n b.number then some b.number else some n
    ])
    else rest

unfoldable pub start_after : Option ℕ → Action ℕ
start_after (some n) = pure (n + 1)
start_after none = ask (λ env. env.latest_block) rpc_failure

unfoldable pub get_start_block : ℕ → Action ℕ
get_start_block chain = do highest ← query (λ db. max_block chain db.blocks); start_after highest

abbrev pub known_block : ℕ → Text → ℕ → Db → Bool
known_block chain hash number db =
    any (λ (b : Block). b.chain_id == chain && (text_eq b.hash hash || b.number == number))
      db.blocks

abbrev pub block_row : ℕ → ChainBlock → Block
block_row chain block = record {
  hash = block.hash;
  chain_id = chain;
  parent_hash = block.parent_hash;
  number = block.number;
  status = BlockStatus.confirmed;
}

-- A missing receipt, or an error of the analysis, skips the transaction.
unfoldable pub process_transaction : ℕ → ChainBlock → ChainTx → Action (Unit {0})
process_transaction chain block tx = do
  receipt ← ask (λ env t. env.receipt t tx.hash) receipt_missing
  analyze_transaction chain block.number block.hash tx receipt

unfoldable pub process_block_transactions : ℕ → ChainBlock → Action (Unit {0})
process_block_transactions chain block =
    for_each (process_transaction chain block) block.transactions

-- The row's key (hash, chain) is free, since no block of that hash is known.
unfoldable pub save_unless : Bool → ℕ → ChainBlock → Action (Unit {0})
save_unless true chain block = pure tt
save_unless false chain block = do
  commit (λ db. record db { blocks = insert (block_row chain block) db.blocks })
  process_block_transactions chain block

unfoldable pub scan_block : ℕ → ℕ → Action (Unit {0})
scan_block chain number = do
  block ← ask (λ env t. env.block t number) rpc_failure
  detect_and_handle_reorg chain block
  exists ← query (known_block chain block.hash number)
  save_unless exists chain block

-- `scanBlockRange`, by the number of blocks left.
unfoldable pub scan_blocks : ℕ → ℕ → ℕ → Action (Unit {0})
scan_blocks chain zero number = pure tt
scan_blocks chain (suc left) number = scan_block chain number >> scan_blocks chain left (number + 1)

-- From the first block up to the one before `stop`, which is the source's `endBlock` and one.
unfoldable pub scan_block_range : ℕ → ℕ → ℕ → Action (Unit {0})
unfolding scan_blocks
scan_block_range chain start stop = scan_blocks chain (stop - start) start

-- One past the last block of the batch that begins at `current`.
abbrev pub batch_stop : ℕ → ℕ → ℕ → ℕ
batch_stop batch_size current latest =
    if ltb (latest + 1) (current + batch_size) then latest + 1 else current + batch_size

-- The loop of `scanOnce` over batches; the result is the next block to scan. `none` is fuel that
-- ran out, which a batch size of at least 1 rules out.
unfoldable pub scan_batches : ℕ → ℕ → ℕ → ℕ → ℕ → Action (Option ℕ)
scan_batches zero chain batch_size current latest = pure none
scan_batches (suc fuel) chain batch_size current latest = elim (leb current latest) [
  | false ↦ pure (some current)
  | true ↦ do
    scanned ← try_action (scan_block_range chain current (batch_stop batch_size current latest))
    elim scanned [
      | ok _ ↦ scan_batches fuel chain batch_size (batch_stop batch_size current latest) latest
      | err _ ↦ pure (some current)
    ]
]

-- Both services are given, as they are where the program is put together.
unfoldable pub run_post_scan_hooks : ℕ → ℕ → Action (Unit {0})
run_post_scan_hooks chain latest = do
  _ ← try_action (update_confirmation_status chain latest)
  _ ← try_action (process_finalized_deposits chain)
  _ ← try_action (update_withdraw_status chain latest)
  pure tt

-- `scanOnce` of `scanLoop`, from the next block to scan to the one after; its fuel is enough for
-- every batch size of at least 1.
unfoldable pub scan_once : ℕ → ℕ → ℕ → Action (Option ℕ)
scan_once chain batch_size current = do
  latest ← ask (λ env. env.latest_block) rpc_failure
  next ← scan_batches (suc (latest + 1)) chain batch_size current latest
  run_post_scan_hooks chain latest
  pure next

-- `ScanChainBlock`
unfoldable pub scan_chain_block : ℕ → ℕ → Action (Unit {0})
scan_chain_block chain number = do
  get_client
  scan_block chain number
  run_post_scan_hooks chain number
