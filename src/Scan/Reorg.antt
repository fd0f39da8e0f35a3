-- ===== src/Scan/Reorg.antt =====
-- internal/wallet/scan/reorg.go: a block whose parent is not the recorded one rolls back the
-- recorded blocks above that parent.
use go_wallet.Prelude.{
  ℕ, zero, suc, ◌-◌, Text, Bool, ◌&&◌, not, Option, none, ◌==◌, ltb, if◌then◌else◌, text_eq, first,
  select, modify, sort, leb,
}
use go_wallet.Store.{
  Block, BlockStatus, Transaction, TransactionStatus, Credit, CreditStatus, Db, is_orphaned,
  is_some_nat,
}
use go_wallet.World.{
  Result, ok, err, Action, ChainBlock, pure, raise, query, query_one, try_action, statement, commit,
  each, ◌>>=◌, ◌>>◌, no_rows,
}
pub mod Fork

abbrev pub is_live_at : ℕ → ℕ → Block → Bool
is_live_at chain number b = b.chain_id == chain && b.number == number && not (is_orphaned b.status)

-- `getBlockByNumber(number - 1)`: below block 0 there is none.
abbrev pub parent_of : ℕ → ℕ → Db → Option Block
parent_of chain zero db = none
parent_of chain (suc n) db = first (is_live_at chain n) db.blocks

abbrev pub is_block : ℕ → Text → Block → Bool
is_block chain hash b = b.chain_id == chain && text_eq b.hash hash

abbrev pub orphan : Block → Block
orphan b = record b { status = BlockStatus.orphaned }

abbrev pub in_block : ℕ → Text → Transaction → Bool
in_block chain hash t = t.chain_id == chain && text_eq t.block_hash hash

abbrev pub at_block : ℕ → ℕ → Credit → Bool
at_block chain number c = is_some_nat c.chain_id chain && is_some_nat c.block_number number

-- The three updates of `rollbackBlock`.
abbrev pub rolled_back : ℕ → Block → Db → Db
rolled_back chain b db = record db {
  blocks = modify (is_block chain b.hash) orphan db.blocks;
  transactions =
      modify (in_block chain b.hash) (λ t. record t { status = TransactionStatus.failed })
        db.transactions;
  credits =
      modify (at_block chain b.number) (λ c. record c { status = CreditStatus.failed }) db.credits;
}

unfoldable pub rollback_block : ℕ → Block → Action (Unit {0})
rollback_block chain b = do statement; statement; statement; statement; commit (rolled_back chain b)

abbrev pub is_above : ℕ → ℕ → Block → Bool
is_above chain number b = b.chain_id == chain && ltb number b.number && not (is_orphaned b.status)

-- `ORDER BY number DESC`
abbrev pub higher : Block → Block → Bool
higher a b = leb b.number a.number

unfoldable pub handle_reorg : ℕ → ℕ → Action (Unit {0})
handle_reorg chain number = do
  blocks ← query (λ db. sort higher (select (is_above chain number) db.blocks))
  each (rollback_block chain) blocks

-- What the search for the parent leads to.
unfoldable pub compare_parent : ℕ → ChainBlock → Result Block → Action (Unit {0})
compare_parent chain block (err no_rows) = pure tt
compare_parent chain block (err e) = raise e
compare_parent chain block (ok parent) =
    if text_eq parent.hash block.parent_hash then pure tt else handle_reorg chain (block.number - 1)

unfoldable pub detect_and_handle_reorg : ℕ → ChainBlock → Action (Unit {0})
detect_and_handle_reorg chain block = do
  parent ← try_action (query_one (parent_of chain block.number))
  compare_parent chain block parent
