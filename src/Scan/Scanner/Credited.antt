-- ===== src/Scan/Scanner/Credited.antt =====
-- internal/wallet/scan/scanner.go, reorg.go: the credits under a scan, with the rollback of a
-- reorganisation, the analysis of the blocks and the work after it.
use go_wallet.Prelude.{
  zero, suc, ◌+◌, ℕ, Bool, true, false, ◌≡◌, refl, arith, count_where, insert, text_eq, ◌-◌,
}
use go_wallet.Prelude.Rows.Find.{count_where-modify}
use go_wallet.Store.{Block, CreditStatus, Db}
use go_wallet.World.{
  get_client, call, Env, World, Result, ok, err, Error, ChainBlock, ChainTx, ask, query, query_one,
  statement, commit, try_action, pure, raise, ◌>>=◌,
}
use go_wallet.World.Loops.{each_keeps, for_each_keeps, bind_keeps, if_keeps}
use go_wallet.Deposit.Confirmations.{is_credit_of, update_confirmation_status}
use go_wallet.Deposit.Confirmations.Synced.{update_confirmation_status-credits}
use go_wallet.Deposit.Credits.Once.{CreditedOnce, process_finalized_deposits-CreditedOnce}
use go_wallet.Withdraw.Status.Settled.{update_withdraw_status-SameLedger}
use go_wallet.Scan.Analyzer.Recorded.{analyze_transaction-credits}
use go_wallet.Scan.Reorg.{
  rollback_block, handle_reorg, compare_parent, detect_and_handle_reorg, at_block,
}
use go_wallet.Scan.Scanner.{
  scan_blocks, scan_batches, scan_block_range, batch_stop, scan_once, process_transaction,
  process_block_transactions, save_unless, scan_block, run_post_scan_hooks, scan_chain_block,
  block_row,
}

-- The state that every step keeps.
abbrev Credited : World → Type 0
Credited w = CreditedOnce w.db

CreditedOnce-same :
    (db db' : Db)
    → ((id : ℕ)
        → count_where (is_credit_of id) db'.credits ≡ count_where (is_credit_of id) db.credits)
    → CreditedOnce db
    → CreditedOnce db'
unfolding CreditedOnce
CreditedOnce-same db db' e once id = rw (e id) (once id)

rollback_block-Credited :
    (chain : ℕ) (b : Block) (env : Env) (w : World)
    → Credited w
    → Credited (rollback_block chain b env w).1
unfolding rollback_block statement query commit ◌>>=◌
rollback_block-Credited chain b env w once = CreditedOnce-same w.db _ kept once
  where
    kept :
        (id : ℕ)
        → count_where (is_credit_of id) (rollback_block chain b env w).1.db.credits
          ≡ count_where (is_credit_of id) w.db.credits
    kept id =
        let k =
          count_where-modify (is_credit_of id) (at_block chain b.number)
            (λ c. record c { status = CreditStatus.failed }) (λ c. refl) w.db.credits in
        ground (arith, k)

compare_parent-err :
    (chain : ℕ) (block : ChainBlock) (e : Error) (env : Env) (w : World)
    → (compare_parent chain block (err e) env w).1 ≡ w
unfolding compare_parent pure raise
compare_parent-err chain block e env w = ground arith

compare_parent-Credited :
    (chain : ℕ) (block : ChainBlock) (found : Result Block) (env : Env) (w : World)
    → Credited w
    → Credited (compare_parent chain block found env w).1
unfolding compare_parent handle_reorg pure raise query
compare_parent-Credited chain block (ok parent) env w once =
    if_keeps env Credited (text_eq parent.hash block.parent_hash) (pure tt) _ w once (
      bind_keeps env Credited (query _) _ w once λ blocks w₁ k.
        each_keeps env Credited (rollback_block chain)
          (λ b w₂ l. rollback_block-Credited chain b env w₂ l) blocks w₁ k)
compare_parent-Credited chain block (err e) env w once =
    rw (compare_parent-err chain block e env w) once

-- One transaction: a missing receipt is an error, else its analysis.
process_transaction-Credited :
    (chain : ℕ) (block : ChainBlock) (tx : ChainTx) (env : Env) (w : World)
    → Credited w
    → Credited (process_transaction chain block tx env w).1
unfolding process_transaction ask CreditedOnce
process_transaction-Credited chain block tx env w once =
    bind_keeps env Credited _ _ w once λ receipt w₁ k id.
      rw (analyze_transaction-credits chain block.number block.hash tx receipt env w₁) (k id)

save_block-credits :
    (chain : ℕ) (block : ChainBlock) (env : Env) (w : World)
    → (commit
        (λ db. record db { blocks = insert (block_row chain block) db.blocks })
        env
        w).1.db.credits
      ≡ w.db.credits
unfolding commit
save_block-credits chain block env w = ground arith

save_unless-Credited :
    (known : Bool) (chain : ℕ) (block : ChainBlock) (env : Env) (w : World)
    → Credited w
    → Credited (save_unless known chain block env w).1
unfolding save_unless process_block_transactions pure CreditedOnce
save_unless-Credited true chain block env w once = once
save_unless-Credited false chain block env w once =
    bind_keeps env Credited
      (commit (λ db. record db { blocks = insert (block_row chain block) db.blocks })) _ w
      (λ id. rw (save_block-credits chain block env w) (once id))
      λ _ w₁ k.
        for_each_keeps env Credited (process_transaction chain block)
          (λ tx w₂ l. process_transaction-Credited chain block tx env w₂ l) block.transactions w₁ k

scan_block-Credited :
    (chain number : ℕ) (env : Env) (w : World)
    → Credited w
    → Credited (scan_block chain number env w).1
unfolding scan_block detect_and_handle_reorg ask query query_one try_action
scan_block-Credited chain number env w once = bind_keeps env Credited _ _ w once λ block w₁ k.
    bind_keeps env Credited (detect_and_handle_reorg chain block) _ w₁
      (bind_keeps env Credited _ _ w₁ k
        λ parent w₂ l. compare_parent-Credited chain block parent env w₂ l)
      λ _ w₂ l.
        bind_keeps env Credited _ _ w₂ l
          λ known w₃ m. save_unless-Credited known chain block env w₃ m

run_post_scan_hooks-Credited :
    (chain latest : ℕ) (env : Env) (w : World)
    → Credited w
    → Credited (run_post_scan_hooks chain latest env w).1
unfolding run_post_scan_hooks try_action pure CreditedOnce
run_post_scan_hooks-Credited chain latest env w once =
    bind_keeps env Credited _ _ w
      (CreditedOnce-same w.db (update_confirmation_status chain latest env w).1.db
        (update_confirmation_status-credits chain latest env w) once)
      λ _ w₁ k.
        bind_keeps env Credited _ _ w₁ (process_finalized_deposits-CreditedOnce chain env w₁ k)
          λ _ w₂ l.
            bind_keeps env Credited _ _ w₂
              (λ id. rw ((update_withdraw_status-SameLedger chain latest env w₂).credits) (l id))
              λ _ w₃ m. m

-- Scanning a block of a chain, with its rollback of a reorganisation, its analysis and the work
-- after it, keeps every transaction credited at most once, whatever fails.
scan_chain_block-CreditedOnce :
    (chain number : ℕ) (env : Env) (w : World)
    → CreditedOnce w.db
    → CreditedOnce (scan_chain_block chain number env w).1.db
unfolding scan_chain_block get_client call ask
scan_chain_block-CreditedOnce chain number env w once =
    bind_keeps env Credited get_client _ w once λ _ w₁ k.
      bind_keeps env Credited (scan_block chain number) _ w₁
        (scan_block-Credited chain number env w₁ k)
        λ _ w₂ l. run_post_scan_hooks-Credited chain number env w₂ l

scan_blocks-Credited :
    (left chain number : ℕ) (env : Env) (w : World)
    → Credited w
    → Credited (scan_blocks chain left number env w).1
unfolding scan_blocks pure
scan_blocks-Credited zero chain number env w once = once
scan_blocks-Credited (suc left) chain number env w once =
    bind_keeps env Credited (scan_block chain number) _ w
      (scan_block-Credited chain number env w once)
      λ _ w₁ k. scan_blocks-Credited left chain (number + 1) env w₁ k

scan_batches-Credited :
    (fuel chain batch_size current latest : ℕ) (env : Env) (w : World)
    → Credited w
    → Credited (scan_batches fuel chain batch_size current latest env w).1
unfolding scan_batches scan_block_range try_action pure ◌>>=◌ CreditedOnce
scan_batches-Credited zero chain batch_size current latest env w once id = once id
scan_batches-Credited (suc fuel) chain batch_size current latest env w once id =
    let stop = batch_stop batch_size current latest in
    let w₁ = (scan_block_range chain current stop env w).1 in
    let scanned = scan_blocks-Credited (stop - current) chain current env w once id in
    let rest =
      scan_batches-Credited fuel chain batch_size stop latest env w₁
        (scan_blocks-Credited (stop - current) chain current env w once) id in
    ground (arith, once id, scanned, rest)

-- A round of the scanner over all the new blocks of a chain, from any block and in batches of any
-- size, keeps every transaction credited at most once, whatever fails.
pub scan_once-CreditedOnce :
    (chain batch_size current : ℕ) (env : Env) (w : World)
    → CreditedOnce w.db
    → CreditedOnce (scan_once chain batch_size current env w).1.db
unfolding scan_once ask pure
scan_once-CreditedOnce chain batch_size current env w once =
    bind_keeps env Credited _ _ w once λ latest w₁ k.
      bind_keeps env Credited (scan_batches (suc (latest + 1)) chain batch_size current latest) _ w₁
        (scan_batches-Credited (suc (latest + 1)) chain batch_size current latest env w₁ k)
        λ next w₂ l.
          bind_keeps env Credited (run_post_scan_hooks chain latest) _ w₂
            (run_post_scan_hooks-Credited chain latest env w₂ l) λ _ w₃ m. m
