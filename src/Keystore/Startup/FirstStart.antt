-- ===== src/Keystore/Startup/FirstStart.antt =====
-- internal/wallet/init.go: what a first start leaves behind.
use go_wallet.Prelude.{
  ℕ, ◌+◌, Text, true, ◌≡◌, refl, ap, sym, ◌∙◌, Option-cases, none, some, [], ◌∷◌, inl, inr, insert,
  modify, arith,
}
use mathlib.Core.Path.{subst}
use go_wallet.Prelude.Bytes.{Bytes}
use go_wallet.Store.{Keystore, KeystoreJson}
use go_wallet.World.{
  Env, World, ok, pure, raise, guard, or_raise, ask, query, query_one, try_action, commit, ◌>>=◌,
  ◌>>◌,
}
use go_wallet.World.Bind.{Result-cases, >>=-ok}
use go_wallet.HotWallet.Paths.{get_bip44_path}
use go_wallet.Keys.{
  Crypto, derive_address, derive_private_key, initialize_seed, require_seed, get_seed, seed_of,
}
use go_wallet.Keystore.{
  keystore_present, create_keystore, encrypt_mnemonic, keystore_json, aes128_ctr, cipher_key,
}
use go_wallet.Keystore.Startup.{
  first_start, initialize_keystore, create_verification_address, store_address,
  placeholder_mnemonic,
}

-- The derivation of an address asks neither the database nor the node.
pub derive_address_any :
    (c : Crypto) (seed : Bytes) (path : Text) (env env' : Env) (w w' : World) {a : Text}
    → (derive_address c seed path env w).0 ≡ ok a
    → derive_address c seed path env' w' ≡ (ok a, w')
unfolding derive_address derive_private_key or_raise guard pure ◌>>=◌
derive_address_any c seed path env env' w w' h = ground arith

-- How a mnemonic was encrypted.
pub record Encrypted (c : Crypto) (mnemonic password : Text) (env : Env) (json : KeystoreJson)
    : Type 0 where
  pub salt : Bytes
  pub iv : Bytes
  pub key : Bytes
  pub cipher : Bytes
  pub salt_random : (t : ℕ) × (env.random t 32 ≡ some salt)
  pub iv_random : (t : ℕ) × (env.random t 16 ≡ some iv)
  pub derived : c.scrypt password salt 262144 8 1 32 ≡ some key
  pub encrypted : aes128_ctr c (cipher_key key) iv mnemonic ≡ some cipher
  pub written : json ≡ keystore_json c key salt iv cipher

module _ (c : Crypto) (env : Env) where
  encrypt_mnemonic-Encrypted :
      (mnemonic password : Text) (w : World) {json : KeystoreJson}
      → (encrypt_mnemonic c mnemonic password env w).0 ≡ ok json
      → Encrypted c mnemonic password env json
        × ((encrypt_mnemonic c mnemonic password env w).1.db ≡ w.db)
  unfolding encrypt_mnemonic ask or_raise pure ◌>>=◌
  encrypt_mnemonic-Encrypted mnemonic password w h = elim (Option-cases (env.random w.tick 32)) [
    | inl e ↦ absurd (ground arith)
    | inr (salt, e) ↦ elim (Option-cases (env.random (w.tick + 1) 16)) [
      | inl f ↦ absurd (ground arith)
      | inr (iv, f) ↦ elim (Option-cases (c.scrypt password salt 262144 8 1 32)) [
        | inl g ↦ absurd (ground arith)
        | inr (key, g) ↦ elim (Option-cases (aes128_ctr c (cipher_key key) iv mnemonic)) [
          | inl k ↦ absurd (ground arith)
          | inr (cipher, k) ↦ (
            record {
              salt = salt;
              iv = iv;
              key = key;
              cipher = cipher;
              salt_random = (w.tick, e);
              iv_random = (w.tick + 1, f);
              derived = g;
              encrypted = k;
              written = ground arith;
            },
            ground arith,
          )
        ]
      ]
    ]
  ]

  create_keystore_lem :
      (mnemonic password : Text) (w : World) {k : Keystore}
      → w.db.keystores ≡ []
      → (create_keystore c mnemonic password env w).0 ≡ ok k
      → (k.verification_address ≡ none)
        × Encrypted c mnemonic password env k.keystore_data
        × ((create_keystore c mnemonic password env w).1.db.keystores ≡ k ∷ [])
  unfolding create_keystore keystore_present query guard commit pure ◌>>=◌ insert
  create_keystore_lem mnemonic password w {k = k} empty h =
      let w₁ : World = record w { tick = w.tick + 1 } in
      elim (Result-cases (encrypt_mnemonic c mnemonic password env w₁).0) [
        | inr (e, failed) ↦ absurd (ground arith)
        | inl (json, done) ↦
            let (made, same) = encrypt_mnemonic-Encrypted mnemonic password w₁ done in
            let row : k ≡ record { keystore_data = json; verification_address = none } =
              ground arith in
            (
              ap (λ (r : Keystore). r.verification_address) row,
              subst (λ (j : KeystoreJson). Encrypted c mnemonic password env j)
                  (sym (ap (λ (r : Keystore). r.keystore_data) row)) made,
              ground arith,
            )
      ]

  -- The address is written into the row that had none.
  create_verification_address_lem :
      (w : World) {seed : Bytes} {k : Keystore}
      → w.db.keystores ≡ k ∷ []
      → k.verification_address ≡ none
      → w.seed ≡ some seed
      → w.initialized ≡ true
      → (create_verification_address c env w).0 ≡ ok tt
      → let w' = (create_verification_address c env w).1 in
        (address : Text) × ((derive_address c seed (get_bip44_path 0) env w).0 ≡ ok address)
        × (w'.db.keystores ≡ record k { verification_address = some address } ∷ [])
        × (w'.seed ≡ some seed)
        × (w'.initialized ≡ true)
  unfolding create_verification_address store_address require_seed get_seed or_raise query_one
      try_action commit pure raise ◌>>=◌ modify
  create_verification_address_lem w {seed = seed} there bare seeded on h =
      elim (Result-cases (derive_address c seed (get_bip44_path 0) env w).0) [
        | inr (e, failed) ↦ absurd (ground arith)
        | inl (address, done) ↦
            let any = derive_address_any c seed (get_bip44_path 0) env env w w done in
            (address, done, ground arith, ground arith, ground arith)
      ]

-- What a first start leaves: the mnemonic under the password that was typed, the address to verify
-- it by, and the seed in memory.
pub record Opened (c : Crypto) (env : Env) (w' : World) : Type 0 where
  pub password : Text
  pub row : Keystore
  pub address : Text
  pub typed : (t : ℕ) × (env.prompt t ≡ some password)
  pub made : Encrypted c placeholder_mnemonic password env row.keystore_data
  pub stored : w'.db.keystores ≡ record row { verification_address = some address } ∷ []
  pub verified :
      (w : World) × ((derive_address c
          (seed_of c placeholder_mnemonic password)
          (get_bip44_path 0)
          env
          w).0
        ≡ ok address)
  pub seeded : w'.seed ≡ some (seed_of c placeholder_mnemonic password)
  pub ready : w'.initialized ≡ true

module _ (c : Crypto) (env : Env) where
  first_start_end :
      (password : Text) (t : ℕ) (w : World)
      → env.prompt t ≡ some password
      → w.db.keystores ≡ []
      → ((create_keystore c placeholder_mnemonic password >>= λ _.
            initialize_seed c placeholder_mnemonic password >> create_verification_address c)
          env w).0
        ≡ ok tt
      → Opened c env
          ((create_keystore c placeholder_mnemonic password >>= λ _.
              initialize_seed c placeholder_mnemonic password >> create_verification_address c)
            env w).1
  unfolding initialize_seed
  first_start_end password t w typed empty h =
      let create = create_keystore c placeholder_mnemonic password in
      let seed = seed_of c placeholder_mnemonic password in
      let (k, done, rest) =
        >>=-ok create
          (λ _. initialize_seed c placeholder_mnemonic password >> create_verification_address c)
          env w h in
      let (bare, made, there) =
        create_keystore_lem c env placeholder_mnemonic password w empty done in
      let w₁ : World = record (create env w).1 { seed = some seed; initialized = true } in
      let reached : (create >>= λ _.
      initialize_seed c placeholder_mnemonic password >> create_verification_address c)
            env w
          ≡ create_verification_address c env w₁ =
        rest ∙ seeding (create env w).1 in
      let (address, verified, stored, seeded, ready) =
        create_verification_address_lem c env w₁ there bare refl refl (rw reached at h) in
      rw reached (record {
        password = password;
        row = k;
        address = address;
        typed = (t, typed);
        made = made;
        stored = stored;
        verified = (w₁, verified);
        seeded = seeded;
        ready = ready;
      })
    where
      seeding :
          (w : World)
          → (initialize_seed c placeholder_mnemonic password >> create_verification_address c) env w
            ≡ create_verification_address c env (record w {
              seed = some (seed_of c placeholder_mnemonic password);
              initialized = true;
            })
      seeding w = unfold ◌>>=◌ in refl

  first_start_reaches :
      (w : World)
      → w.db.keystores ≡ []
      → (initialize_keystore c env w).0 ≡ ok tt
      → (password : Text) × (env.prompt (w.tick + 1) ≡ some password)
        × (initialize_keystore c env w
            ≡ (create_keystore c placeholder_mnemonic password >>= λ _.
                  initialize_seed c placeholder_mnemonic password >> create_verification_address c)
                env
                (record w { tick = w.tick + 1 + 1 + 1 }))
  unfolding initialize_keystore first_start keystore_present query ask guard ◌>>=◌
  first_start_reaches w empty h = elim (Option-cases (env.prompt (w.tick + 1))) [
    | inl e ↦ absurd (ground arith)
    | inr (password, e) ↦ (password, e, ground arith)
  ]

  -- A start without a keystore that ends well.
  pub initialize_keystore-Opened :
      (w : World)
      → w.db.keystores ≡ []
      → (initialize_keystore c env w).0 ≡ ok tt
      → Opened c env (initialize_keystore c env w).1
  initialize_keystore-Opened w empty h =
      let (password, typed, e) = first_start_reaches w empty h in
      rw e (
        first_start_end password (w.tick + 1) (record w { tick = w.tick + 1 + 1 + 1 }) typed empty
          (rw e at h))
