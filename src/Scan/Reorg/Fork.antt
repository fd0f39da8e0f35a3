-- ===== src/Scan/Reorg/Fork.antt =====
-- internal/wallet/scan/reorg.go, `handleReorg`: the blocks above the fork.
use go_wallet.Prelude.{
  ℕ, ◌+◌, text_eq_refl, Bool, Bool-cases, true, false, ◌&&◌, not, List, [], ◌∷◌, ◌≡◌, inl, inr,
  refl, arith, any, select, modify, sort, if◌then◌else◌,
}
use go_wallet.Prelude.Rows.Pages.{any-sort}
use go_wallet.Store.{Block}
use go_wallet.World.{Env, World, ok, each, query, statement, commit, pure, ◌>>=◌}
use go_wallet.Scan.Reorg.{handle_reorg, rollback_block, is_above, is_block, orphan, higher}

-- The blocks after the given ones are rolled back, and what that makes of one row.
orphan_all : ℕ → List Block → List Block → List Block
orphan_all chain [] rows = rows
orphan_all chain (b ∷ bs) rows = orphan_all chain bs (modify (is_block chain b.hash) orphan rows)

orphan_row : ℕ → List Block → Block → Block
orphan_row chain [] r = r
orphan_row chain (b ∷ bs) r = orphan_row chain bs (if is_block chain b.hash r then orphan r else r)

abbrev is_covered : ℕ → List Block → Block → Bool
is_covered chain bs r = any (λ (b : Block). is_block chain b.hash r) bs

orphan_all-nil : (chain : ℕ) (bs : List Block) → orphan_all chain bs [] ≡ []
unfolding orphan_all modify
orphan_all-nil chain [] = refl
orphan_all-nil chain (b ∷ bs) = orphan_all-nil chain bs

orphan_all-cons :
    (chain : ℕ) (bs : List Block) (r : Block) (rows : List Block)
    → orphan_all chain bs (r ∷ rows) ≡ orphan_row chain bs r ∷ orphan_all chain bs rows
unfolding orphan_all orphan_row modify
orphan_all-cons chain [] r rows = refl
orphan_all-cons chain (b ∷ bs) r rows =
    orphan_all-cons chain bs (if is_block chain b.hash r then orphan r else r)
      (modify (is_block chain b.hash) orphan rows)

-- A row that is still above the fork was there before, and was not rolled back.
orphan_row-above :
    (chain n : ℕ) (bs : List Block) (r : Block)
    → is_above chain n (orphan_row chain bs r) ≡ true
    → (is_above chain n r ≡ true) × (is_covered chain bs r ≡ false)
unfolding orphan_row any
orphan_row-above chain n [] r h = (h, refl)
orphan_row-above chain n (b ∷ bs) r h =
    let (above, free) =
      orphan_row-above chain n bs (if is_block chain b.hash r then orphan r else r) h in
    elim (Bool-cases (is_block chain b.hash r)) [
      | inl e ↦
          let gone : is_above chain n (orphan r) ≡ true = rw e at above in absurd (ground arith)
      | inr e ↦
          let still : is_above chain n r ≡ true = rw e at above in
          let open_yet : is_covered chain bs r ≡ false = rw e at free in
          (still, ground (arith, e, open_yet))
    ]

abbrev is_missed : ℕ → ℕ → List Block → Block → Bool
is_missed chain n bs r = is_above chain n r && not (is_covered chain bs r)

above_is_missed :
    (chain n : ℕ) (bs rows : List Block)
    → any (is_missed chain n bs) rows ≡ false
    → any (is_above chain n) (orphan_all chain bs rows) ≡ false
unfolding any
above_is_missed chain n bs [] h = rw (orphan_all-nil chain bs) refl
above_is_missed chain n bs (r ∷ rows) h =
    rw (orphan_all-cons chain bs r rows)
      elim (Bool-cases (is_above chain n (orphan_row chain bs r))) [
        | inl e ↦
            let (above, free) = orphan_row-above chain n bs r e in
            absurd (ground (arith, above, free))
        | inr e ↦ ground (arith, e, above_is_missed chain n bs rows)
      ]

none_missed :
    (chain n : ℕ) (bs rows : List Block)
    → ((x : Block)
        → is_covered chain (select (is_above chain n) rows) x ≡ true
        → is_covered chain bs x ≡ true)
    → any (is_missed chain n bs) rows ≡ false
unfolding any select
none_missed chain n bs [] k = refl
none_missed chain n bs (r ∷ rows) k = elim (Bool-cases (is_above chain n r)) [
  | inl e ↦
      let self : is_block chain r.hash r ≡ true = ground (arith, text_eq_refl r.hash) in
      let here : is_covered chain bs r ≡ true = k r (rw e (ground (arith, self))) in
      let later = none_missed chain n bs rows (λ x c. k x (rw e (ground (arith, c)))) in
      ground (arith, here, later)
  | inr e ↦ ground (arith, e, none_missed chain n bs rows (λ x c. k x (rw e c)))
]

each-orphan_all :
    (chain : ℕ) (bs : List Block) (env : Env) (w : World)
    → (each (rollback_block chain) bs env w).0 ≡ ok tt
    → (each (rollback_block chain) bs env w).1.db.blocks ≡ orphan_all chain bs w.db.blocks
unfolding each rollback_block statement query commit pure ◌>>=◌ orphan_all
each-orphan_all chain [] env w h = refl
each-orphan_all chain (b ∷ bs) env w h =
    let w₁ = (rollback_block chain b env w).1 in
    let rest = each-orphan_all chain bs env w₁ in ground (arith, rest)

-- A rollback that succeeds leaves no block above the fork that is not orphaned.
handle_reorg-none_above :
    (chain n : ℕ) (env : Env) (w : World)
    → (handle_reorg chain n env w).0 ≡ ok tt
    → any (is_above chain n) (handle_reorg chain n env w).1.db.blocks ≡ false
unfolding handle_reorg query ◌>>=◌
handle_reorg-none_above chain n env w h =
    let above = select (is_above chain n) w.db.blocks in
    let live = sort higher above in
    let w₁ : World = record w { tick = w.tick + 1 } in
    let done : (each (rollback_block chain) live env w₁).0 ≡ ok tt = ground arith in
    let rows = each-orphan_all chain live env w₁ done in
    let same : (handle_reorg chain n env w).1 ≡ (each (rollback_block chain) live env w₁).1 =
      ground arith in
    rw (same, rows)
      (above_is_missed chain n live w.db.blocks (
        none_missed chain n live w.db.blocks
          (λ x c. rw (any-sort higher (λ (b : Block). is_block chain b.hash x) above) c)))

each_ok :
    (chain : ℕ) (bs : List Block) (env : Env) (w : World)
    → ((t : ℕ) → env.db_fails t ≡ false)
    → (each (rollback_block chain) bs env w).0 ≡ ok tt
unfolding each rollback_block statement query commit pure ◌>>=◌
each_ok chain [] env w up = refl
each_ok chain (b ∷ bs) env w up =
    let rest = each_ok chain bs env (rollback_block chain b env w).1 up in
    ground (
      arith,
      rest,
      up w.tick,
      up (w.tick + 1),
      up (w.tick + 1 + 1),
      up (w.tick + 1 + 1 + 1),
      up (w.tick + 1 + 1 + 1 + 1),
    )

-- While the database answers, a rollback succeeds, and no block above the fork is left that is not
-- orphaned.
handle_reorg-clears :
    (chain n : ℕ) (env : Env) (w : World)
    → ((t : ℕ) → env.db_fails t ≡ false)
    → let (r, w') = handle_reorg chain n env w in
      (r ≡ ok tt) × (any (is_above chain n) w'.db.blocks ≡ false)
unfolding handle_reorg query ◌>>=◌
handle_reorg-clears chain n env w up =
    let rest =
      each_ok chain (sort higher (select (is_above chain n) w.db.blocks)) env
        (record w { tick = w.tick + 1 }) up in
    let done : (handle_reorg chain n env w).0 ≡ ok tt = ground (arith, up w.tick, rest) in
    (done, handle_reorg-none_above chain n env w done)
