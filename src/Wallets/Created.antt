-- ===== src/Wallets/Created.antt =====
-- internal/wallet/service.go, `CreateWallet`: the wallet that a user gets.
use go_wallet.Prelude.{
  ◌&&◌, ◌∙◌, ℕ, Text, false, Option, Option-cases, none, some, List, ◌==◌, ◌≡◌, ◌+◌, inl, inr, refl,
  arith, first, ap, sym,
}
use go_wallet.Prelude.Rows.Find.{first-insert}
use go_wallet.Store.{Wallet, Chain}
use go_wallet.World.{
  Env, World, ok, err, pure, raise, guard, ask, call, query, query_one, if_no_rows, try_action,
  fresh_id, statement, commit, ◌>>=◌,
}
use go_wallet.World.Loops.{bind_succeeds}
use go_wallet.World.Transaction.{with_transaction, end_transaction, write}
use go_wallet.HotWallet.{get_next_address_index, next_index}
use go_wallet.Wallets.{
  create_wallet, or_new_wallet, insert_wallet, wallet_of, active_chain, user_wallet_row, no_rows,
}

-- Taking an address index leaves the wallets and the chains alone.
next_address_index-rest :
    (device : Option ℕ) (env : Env) (w : World)
    → let w' = (get_next_address_index device env w).1 in
      (w'.db.wallets ≡ w.db.wallets) × (w'.db.chains ≡ w.db.chains)
unfolding get_next_address_index next_index with_transaction end_transaction write try_action
    query_one fresh_id commit statement query pure raise ◌>>=◌
next_address_index-rest device env w = (ground arith, ground arith)

module _ (user chain : ℕ) (env : Env) (up : (t : ℕ) → env.db_fails t ≡ false) where
  -- The user's wallet is `x`, and the chains are the given ones.
  abbrev Owns : Wallet → List Chain → World → Type 0
  Owns x chains w = (wallet_of user chain w.db ≡ some x) × (w.db.chains ≡ chains)

  insert_wallet-found :
      (address : Text) (index : ℕ) (w : World) {x : Wallet}
      → wallet_of user chain w.db ≡ none
      → (insert_wallet user chain address index env w).0 ≡ ok x
      → (wallet_of user chain (insert_wallet user chain address index env w).1.db ≡ some x)
        × ((insert_wallet user chain address index env w).1.db.chains ≡ w.db.chains)
  unfolding insert_wallet with_transaction end_transaction write commit fresh_id query guard pure
      ◌>>=◌
  insert_wallet-found address index w none_yet h =
      let row = user_wallet_row user chain address index w.next_id in
      let found =
        first-insert (λ (v : Wallet). v.user_id == user && v.chain_id == chain) row w.db.wallets
          none_yet (ground arith) in
      (
        ground (
          arith,
          found,
          up w.tick,
          up (w.tick + 1),
          up (w.tick + 1 + 1),
          up (w.tick + 1 + 1 + 1),
        ),
        ground (arith, up w.tick, up (w.tick + 1), up (w.tick + 1 + 1), up (w.tick + 1 + 1 + 1)),
      )

  -- Where there was none, a new wallet is there afterwards.
  or_new_wallet-found :
      (w : World) {x : Wallet}
      → wallet_of user chain w.db ≡ none
      → (or_new_wallet user chain (err no_rows) env w).0 ≡ ok x
      → Owns x w.db.chains (or_new_wallet user chain (err no_rows) env w).1
  unfolding or_new_wallet call ask
  or_new_wallet-found w {x = x} none_yet h =
      bind_succeeds env Free (Owns x w.db.chains) _ _ w (none_yet, refl)
        (λ _ w₁ k.
          bind_succeeds env Free (Owns x w.db.chains) (get_next_address_index none) _ w₁
            (later w₁ k)
            (λ index w₂ l. bind_succeeds env Free (Owns x w.db.chains) _ _ w₂ l λ address w₃ m e.
              let (f, g) = insert_wallet-found address index w₃ m.0 e in (f, g ∙ m.1)))
        h
    where
      Free : World → Type 0
      Free v = (wallet_of user chain v.db ≡ none) × (v.db.chains ≡ w.db.chains)

      later : (v : World) → Free v → Free (get_next_address_index none env v).1
      later v k = let (a, b) = next_address_index-rest none env v in (rw a k.0, b ∙ k.1)

  abbrev seen : World → World
  seen w = record w { tick = w.tick + 1 + 1 }

  -- What a creation that succeeds did.
  created :
      (w : World) {x : Wallet} {n : Text}
      → (create_wallet user chain env w).0 ≡ ok (x, n)
      → (c : Chain) × (active_chain chain w.db ≡ some c)
        × (n ≡ c.chain_name)
        × Owns x w.db.chains (create_wallet user chain env w).1
  unfolding create_wallet or_new_wallet query_one if_no_rows try_action pure ◌>>=◌
  created w {x = x} {n = n} h = elim (Option-cases (active_chain chain w.db)) [
    | inl missing ↦ absurd (ground (arith, up w.tick))
    | inr (c, f) ↦ elim (Option-cases (wallet_of user chain w.db)) [
      | inl none_yet ↦
          let new =
            or_new_wallet-found (seen w) {x = x} none_yet
              (ground (arith, up w.tick, up (w.tick + 1))) in
          (
            c,
            f,
            ground (arith, up w.tick, up (w.tick + 1)),
            ground (arith, new, up w.tick, up (w.tick + 1)),
          )
      | inr (y, g) ↦ (
        c,
        f,
        ground (arith, up w.tick, up (w.tick + 1)),
        (ground (arith, up w.tick, up (w.tick + 1)), ground (arith, up w.tick, up (w.tick + 1))),
      )
    ]
  ]

-- The search that finds the chain and the wallet answers with them.
found_again :
    (user chain : ℕ) (env : Env) (w : World)
    → ((t : ℕ) → env.db_fails t ≡ false)
    → (c : Chain) (x : Wallet) → wallet_of user chain w.db ≡ some x
    → active_chain chain w.db ≡ some c
    → ((create_wallet user chain env w).0 ≡ ok (x, c.chain_name))
      × ((create_wallet user chain env w).1.db ≡ w.db)
unfolding create_wallet or_new_wallet query_one if_no_rows try_action pure ◌>>=◌
found_again user chain env w up c x has chain_there =
    (ground (arith, up w.tick, up (w.tick + 1)), ground (arith, up w.tick, up (w.tick + 1)))

-- While the database answers, a wallet that was created is stored as the user's, and creating it
-- again, whatever the node and the signer answer then, gives the same one under the same name and
-- changes no table.
created_once :
    (user chain : ℕ) (env again : Env) (w : World) {x : Wallet} {n : Text}
    → ((t : ℕ) → env.db_fails t ≡ false)
    → ((t : ℕ) → again.db_fails t ≡ false)
    → (create_wallet user chain env w).0 ≡ ok (x, n)
    → let w' = (create_wallet user chain env w).1 in
      (wallet_of user chain w'.db ≡ some x)
      × ((create_wallet user chain again w').0 ≡ ok (x, n))
      × ((create_wallet user chain again w').1.db ≡ w'.db)
created_once user chain env again w {x = x} {n = n} up up' h =
    let (c, f, named, own) = created user chain env up w {x = x} {n = n} h in
    let (same, rest) =
      found_again user chain again (create_wallet user chain env w).1 up' c x own.0
        (ap (λ cs. first (λ (v : Chain). v.chain_id == chain && v.is_active) cs) own.1 ∙ f) in
    (own.0, same ∙ ap (λ m. ok (x, m)) (sym named), rest)
