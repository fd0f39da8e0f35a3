-- ===== src/Scan/Scanner/Progress.antt =====
-- internal/wallet/scan/scanner.go: the rounds of the loop over batches, and the test for known
-- blocks.
use go_wallet.Prelude.{
  Option-cases, text_eq_refl, ℕ, zero, suc, some, Bool-cases, true, ◌≡◌, ◌≤◌, ◌+◌, ◌⊎◌, inl, inr,
  refl, arith, leb, any, ◌==◌, ◌&&◌, ◌||◌, text_eq,
}
use go_wallet.Prelude.Rows.Find.{any_mono}
use go_wallet.Store.{Block}
use go_wallet.World.{
  Env, World, ok, ChainBlock, ask, query, query_one, try_action, pure, raise, ◌>>=◌,
}
use go_wallet.World.Bind.{Result-cases}
use go_wallet.Scan.Reorg.{detect_and_handle_reorg, compare_parent, parent_of}
use go_wallet.Scan.Scanner.{
  scan_batches, batch_stop, scan_block_range, scan_block, save_unless, known_block,
}

-- With a batch of at least one block, the loop over batches ends within as many rounds as there are
-- blocks left, and one more; the next block to scan is not before the first one, and not more than
-- one past the latest where the first was not.
pub scan_batches-ends :
    (fuel chain batch_size current latest : ℕ) (env : Env) (w : World)
    → 1 ≤ batch_size
    → latest + 1 ≤ current + fuel
    → (next : ℕ) × ((scan_batches (suc fuel) chain batch_size current latest env w).0
        ≡ ok (some next))
      × (current ≤ next)
      × ((next ≤ latest + 1) ⊎ (next ≡ current))
unfolding scan_batches try_action pure ◌>>=◌
scan_batches-ends zero chain batch_size current latest env w size enough =
    (current, ground arith, ground arith, inr refl)
scan_batches-ends (suc fuel) chain batch_size current latest env w size enough =
    elim (Bool-cases (leb current latest)) [
      | inr done ↦ (current, ground arith, ground arith, inr refl)
      | inl more ↦
          elim (Result-cases
            (scan_block_range chain current (batch_stop batch_size current latest) env w).0) [
              | inr (e, stopped) ↦ (current, ground arith, ground arith, inr refl)
              | inl (_, scanned) ↦
                  let (next, e, after, before) =
                    scan_batches-ends fuel chain batch_size (batch_stop batch_size current latest)
                      latest env
                      (scan_block_range chain current (batch_stop batch_size current latest) env
                        w).1
                      size (ground arith) in
                  (next, ground (arith, e), ground (arith, after), ground (arith, before))
            ]
    ]

-- A block is passed over, and no table changes, where any recorded row of its chain has its number,
-- an orphaned one too, as long as the block follows the parent that is recorded, where one is.
pub scan_block-passed_over :
    (chain number : ℕ) (env : Env) (w : World) {block : ChainBlock}
    → env.block w.tick number ≡ some block
    → ((parent : Block)
        → parent_of chain block.number w.db ≡ some parent
        → parent.hash ≡ block.parent_hash)
    → any (λ (b : Block). b.chain_id == chain && b.number == number) w.db.blocks ≡ true
    → (scan_block chain number env w).1.db ≡ w.db
unfolding scan_block detect_and_handle_reorg compare_parent save_unless ask query query_one
    try_action pure raise ◌>>=◌
scan_block-passed_over chain number env w {block = block} given follows recorded =
    let known : known_block chain block.hash number w.db ≡ true =
      any_mono (λ (b : Block). b.chain_id == chain && b.number == number)
        (λ (b : Block). b.chain_id == chain && (text_eq b.hash block.hash || b.number == number))
        (λ b e. ground arith) w.db.blocks recorded in
    elim (Option-cases (parent_of chain block.number w.db)) [
      | inl top ↦ ground (arith, given, top, known)
      | inr (parent, at) ↦
          let same : text_eq parent.hash block.parent_hash ≡ true =
            rw (follows parent at) (text_eq_refl block.parent_hash) in
          ground (arith, given, at, known, same)
    ]
