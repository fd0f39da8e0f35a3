-- ===== src/Keystore/Startup/Restart.antt =====
-- internal/wallet/init.go: the start after the first one.
use go_wallet.Prelude.{
  ℕ, ◌+◌, Text, true, false, ◌≡◌, refl, ◌∙◌, some, [], ◌∷◌, text_eq_refl, arith,
}
use go_wallet.Prelude.Bytes.{Bytes, AreBytes}
use go_wallet.Store.{KeystoreJson}
use go_wallet.World.{
  Env, World, ok, pure, guard, or_raise, ask, query, query_one, try_action, ◌>>=◌,
}
use go_wallet.HotWallet.Paths.{get_bip44_path}
use go_wallet.Keys.{Crypto, initialize_seed, require_seed, get_seed, seed_of}
use go_wallet.Keystore.{keystore_present, get_keystore, decrypt_mnemonic}
use go_wallet.Keystore.Unlocked.{IsCrypto, decrypt_mnemonic_lem}
use go_wallet.Keystore.Startup.{
  initialize_keystore, unlock, verify_password_by_address, check_stored, matches_stored,
  placeholder_mnemonic, repeat,
}
use go_wallet.Keystore.Startup.FirstStart.{
  Opened, Encrypted, derive_address_any, initialize_keystore-Opened,
}

placeholder-AreBytes : AreBytes placeholder_mnemonic
unfolding placeholder_mnemonic repeat
placeholder-AreBytes = omega arith

matches_self : (a : Text) → matches_stored a (some a) ≡ true
matches_self [] = refl
matches_self (c ∷ cs) = text_eq_refl (c ∷ cs)

module _ (c : Crypto) (laws : IsCrypto c) (env env' : Env)
    (bytes : (t n : ℕ) (bs : Bytes) → env.random t n ≡ some bs → AreBytes bs)
    (up : (t : ℕ) → env'.db_fails t ≡ false)
    (same_password : (t t' : ℕ) → env'.prompt t ≡ env.prompt t') where
  decrypted :
      (password : Text) (json : KeystoreJson) (w : World)
      → Encrypted c placeholder_mnemonic password env json
      → decrypt_mnemonic c json password env' w ≡ (ok placeholder_mnemonic, w)
  decrypted password json w e =
      let (t, salt_random) = e.salt_random in
      let (u, iv_random) = e.iv_random in
      rw e.written (
        decrypt_mnemonic_lem c laws placeholder_mnemonic password e.salt e.iv e.key e.cipher env' w
          placeholder-AreBytes (bytes t 32 e.salt salt_random) (bytes u 16 e.iv iv_random) e.derived
          e.encrypted)

  -- The memory after the restart.
  abbrev restarted : Bytes → World → World
  restarted seed w = record w {
    tick = w.tick + 1 + 1 + 1 + 1;
    seed = some seed;
    initialized = true;
  }

  unlock_lem :
      (w' w : World) (o : Opened c env w')
      → w.db.keystores ≡ w'.db.keystores
      → initialize_keystore c env' w
        ≡ (ok tt, restarted (seed_of c placeholder_mnemonic o.password) w)
  unfolding initialize_keystore unlock keystore_present get_keystore verify_password_by_address
      check_stored require_seed get_seed initialize_seed or_raise query query_one try_action guard
      ask pure ◌>>=◌
  unlock_lem w' w o kept =
      let seed = seed_of c placeholder_mnemonic o.password in
      let row = kept ∙ o.stored in
      let typed = same_password (w.tick + 1) o.typed.0 ∙ o.typed.1 in
      let opened =
        decrypted o.password o.row.keystore_data (record w { tick = w.tick + 1 + 1 + 1 }) o.made in
      let verified =
        derive_address_any c seed (get_bip44_path 0) env env' o.verified.0
          (record w { tick = w.tick + 1 + 1 + 1; seed = some seed; initialized = true })
          o.verified.1 in
      ground
        (arith, up w.tick, up (w.tick + 1 + 1), up (w.tick + 1 + 1 + 1), matches_self o.address)

  -- After a first start that ends well, every later start with the same keystore and the same
  -- password, while the database answers, ends well too, has the same seed in memory, and changes
  -- no table.
  pub restart_unlocks :
      (w w'' : World)
      → w.db.keystores ≡ []
      → (initialize_keystore c env w).0 ≡ ok tt
      → let w' = (initialize_keystore c env w).1 in
        w''.db.keystores ≡ w'.db.keystores
        → let (r, w₃) = initialize_keystore c env' w'' in
          (r ≡ ok tt)
          × ((seed : Bytes) × (get_seed w₃ ≡ some seed) × (get_seed w' ≡ some seed))
          × (w₃.db ≡ w''.db)
  unfolding get_seed
  restart_unlocks w w'' empty done kept =
      let w' = (initialize_keystore c env w).1 in
      let o = initialize_keystore-Opened c env w empty done in
      let seed = seed_of c placeholder_mnemonic o.password in
      rw (unlock_lem w' w'' o kept) (refl, (seed, refl, rw (o.ready, o.seeded)), refl)
