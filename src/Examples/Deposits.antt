-- ===== src/Examples/Deposits.antt =====
-- The theorems on deposits and scans at the small wallet.
use go_wallet.Prelude.{
  ℕ, suc, ◌≤◌, pos, ◌≡◌, ◌≢◌, ◌⊎◌, refl, true, some, [], ◌∷◌, ◌==◌, ◌&&◌, first, any, count_where,
  arith,
}
use go_wallet.Store.{Transaction, TransactionStatus, Block, BlockStatus, CreditStatus}
use go_wallet.World.{World, ok}
use go_wallet.Examples.{answering, bank, arrived, mined}
use go_wallet.Deposit.Confirmations.{update_transaction}
use go_wallet.Deposit.Confirmations.Synced.{update_transaction-synced, IsStatusAt, with_credits}
use go_wallet.Deposit.Credits.Once.{CreditedOnce}
use go_wallet.Scan.Reorg.{parent_of}
use go_wallet.Scan.Scanner.{scan_batches, scan_block, scan_once}
use go_wallet.Scan.Scanner.Credited.{scan_once-CreditedOnce}
use go_wallet.Scan.Scanner.Progress.{scan_batches-ends, scan_block-passed_over}

bank-CreditedOnce : CreditedOnce bank.db
unfolding CreditedOnce count_where
bank-CreditedOnce id = ground arith

arrived_found : first (λ (t : Transaction). t.id == 15) bank.db.transactions ≡ some arrived
unfolding first
arrived_found = refl

update_transaction-synced_example :
    let w' = (update_transaction 12 32 35 arrived answering bank).1 in
    (status : TransactionStatus) × IsStatusAt 12 32 15 status
    × (first (λ (t : Transaction). t.id == 15) w'.db.transactions
        ≡ some (record arrived { status = status; confirmation_count = some (pos 15) }))
    × (TransactionStatus.finalized ≡ status → w'.db.credits ≡ bank.db.credits)
    × (TransactionStatus.finalized ≢ status
        → status ≡ TransactionStatus.finalized
        → w'.db.credits ≡ with_credits 15 CreditStatus.finalized bank.db.credits)
    × (TransactionStatus.finalized ≢ status
        → status ≢ TransactionStatus.finalized
        → w'.db.credits ≡ with_credits 15 CreditStatus.confirmed bank.db.credits)
update_transaction-synced_example =
    update_transaction-synced 12 32 35 arrived answering bank refl refl (omega arith) arrived_found

scan_batches-ends_example :
    (next : ℕ) × ((scan_batches (suc 5) 1 2 8 12 answering bank).0 ≡ ok (some next))
    × (8 ≤ next)
    × ((next ≤ 13) ⊎ (next ≡ 8))
scan_batches-ends_example = scan_batches-ends 5 1 2 8 12 answering bank (omega arith) (omega arith)

-- The block that block 10 follows, and another one that was recorded for number 10.
abbrev parent_row : Block
parent_row = record {
  hash = b'a' ∷ [];
  chain_id = 1;
  parent_hash = b'0' ∷ [];
  number = 9;
  status = BlockStatus.confirmed;
}

abbrev forked : World
forked = record bank { db = record bank.db { blocks = parent_row ∷ bank.db.blocks } }

follows_parent :
    (parent : Block) → parent_of 1 10 forked.db ≡ some parent → parent.hash ≡ mined.parent_hash
unfolding first
follows_parent parent h = ground arith

row_listed : any (λ (b : Block). b.chain_id == 1 && b.number == 10) forked.db.blocks ≡ true
unfolding any
row_listed = refl

scan_block-passed_over_example : (scan_block 1 10 answering forked).1.db ≡ forked.db
scan_block-passed_over_example =
    scan_block-passed_over 1 10 answering forked {block = mined} refl follows_parent row_listed

scan_once-CreditedOnce_example : CreditedOnce (scan_once 1 4 10 answering bank).1.db
scan_once-CreditedOnce_example = scan_once-CreditedOnce 1 4 10 answering bank bank-CreditedOnce
