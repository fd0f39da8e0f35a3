-- ===== src/Examples/Secrets.antt =====
-- The theorems on the keystore and the signer, with functions in place of the packages' that meet
-- what is asked of them.
use Prim.Native.Nat.{◌%◌}
use go_wallet.Prelude.{
  ℕ, zero, suc, ◌+◌, pos, true, false, ◌≡◌, refl, Option, some, none, [], ◌∷◌, length, arith, first,
  text_eq, insert,
}
use go_wallet.Prelude.Bytes.{Bytes, AreBytes, hex_encode}
use go_wallet.Prelude.Decimal.{parse_big, digits}
use go_wallet.Store.{User, UserRole, Wallet}
use go_wallet.World.{
  World, ok, err, wrong_password, pure, guard, or_raise, ask, query, query_one, if_no_rows,
  try_action, commit, ◌>>=◌,
}
use go_wallet.HotWallet.Paths.{get_bip44_path, parse_bip44_path, unquote, format, emit}
use go_wallet.Keys.{
  Crypto, get_seed, derive_private_key, derive_children, derive_address, require_seed,
  initialize_seed,
}
use go_wallet.Keys.Signer.{DynamicFeeTx, SignedTx, sign_evm_transaction, sign_eip1559_transaction}
use go_wallet.Keystore.{
  xor_key_stream, aes128_ctr, calculate_mac, keystore_json, decrypt_mnemonic, encrypt_mnemonic,
  create_keystore, keystore_present,
}
use go_wallet.Keystore.Unlocked.{IsCrypto, decrypt_mnemonic-mac}
use go_wallet.Keystore.Startup.{
  initialize_keystore, first_start, create_verification_address, store_address,
  placeholder_mnemonic, repeat,
}
use go_wallet.Keystore.Startup.Restart.{restart_unlocks}
use go_wallet.Api.Signing.{SignPayload, post_sign_transaction, sign_for_user, or_wallet_missing}
use go_wallet.Api.Signing.Own.{wallet_at, SignsAsked, post_sign_transaction-own}
use go_wallet.Wallets.{get_wallet_by_address}
use go_wallet.Examples.{answering, bank, user_address, zeros}

abbrev copies : ℕ → ℕ → Bytes
copies zero b = []
copies (suc n) b = b ∷ copies n b

abbrev total : Bytes → ℕ
total [] = 0
total (b ∷ bs) = b + total bs

-- The key repeats the length of the password, and the hash is the sum of the bytes.
abbrev toy : Crypto
toy = record {
  scrypt = λ password salt n r p l. some (copies l (length password));
  key_stream = λ key iv i. 7;
  sha256 = λ text. total text % 256 ∷ [];
  pbkdf2 = λ password salt rounds l. copies l 1;
  new_master_key = λ seed. some seed;
  new_child_key = λ key i. some key;
  key_bytes = λ key. key;
  is_private_key = λ key. true;
  address_of_key = λ key. user_address;
  hex = λ bytes. bytes;
  hex_to_address = λ text. text;
}

length-copies : (n b : ℕ) → length (copies n b) ≡ n
length-copies zero b = refl
length-copies (suc n) b = omega (arith, length-copies n b)

some_inj : {x y : Bytes} → some x ≡ some y → x ≡ y
some_inj e = ground arith

toy-IsCrypto : IsCrypto toy
toy-IsCrypto = record {
  scrypt_length = λ password salt n r p l e. rw (← some_inj e) (length-copies l (length password));
  stream_bytes = λ key iv i. omega arith;
  hash_bytes = λ text. (omega arith, tt);
}

-- A text encrypted under eight characters, tried with one.
decrypt_mnemonic-mac_example :
    decrypt_mnemonic toy
      (keystore_json toy (copies 32 8) (1 ∷ []) (copies 16 0) (b'x' ∷ []))
      (b'q' ∷ [])
      answering
      bank
    ≡ (err wrong_password, bank)
unfolding calculate_mac
decrypt_mnemonic-mac_example =
    decrypt_mnemonic-mac toy toy-IsCrypto (1 ∷ []) (copies 16 0) (copies 32 8) (b'x' ∷ [])
      (copies 32 1) (b'q' ∷ []) answering bank (omega arith, tt) (omega arith) (omega arith, tt)
      refl (λ e. ground arith)

abbrev started : World
started = (initialize_keystore toy answering bank).1

starts : (initialize_keystore toy answering bank).0 ≡ ok tt
unfolding initialize_keystore first_start create_keystore encrypt_mnemonic
    create_verification_address store_address initialize_seed placeholder_mnemonic repeat
    keystore_present require_seed get_seed derive_address derive_private_key derive_children
    get_bip44_path parse_bip44_path aes128_ctr xor_key_stream hex_encode calculate_mac ask query
    query_one try_action commit guard or_raise pure ◌>>=◌ text_eq unquote format emit insert
starts = refl

zeros-AreBytes : (n : ℕ) → AreBytes (zeros n)
zeros-AreBytes zero = tt
zeros-AreBytes (suc n) = (omega arith, zeros-AreBytes n)

random-AreBytes : (t n : ℕ) (bs : Bytes) → answering.random t n ≡ some bs → AreBytes bs
random-AreBytes t n bs e = rw (← some_inj e) (zeros-AreBytes n)

-- The memory after the server has stopped.
abbrev stopped : World
stopped = record started { seed = none; initialized = false }

restart_unlocks_example :
    let (r, w₃) = initialize_keystore toy answering stopped in
    (r ≡ ok tt)
    × ((seed : Bytes) × (get_seed w₃ ≡ some seed) × (get_seed started ≡ some seed))
    × (w₃.db ≡ stopped.db)
restart_unlocks_example =
    restart_unlocks toy toy-IsCrypto answering answering random-AreBytes (λ _. refl) (λ _ _. refl)
      bank stopped refl starts refl

abbrev toy_sign : DynamicFeeTx → Bytes → Option SignedTx
toy_sign tx key = some (record { raw_transaction = key; tx_hash = [] })

abbrev signing_user : User
signing_user = record {
  id = 1;
  username = none;
  password = none;
  is_active = true;
  requires_confirmation = false;
  last_authenticated_at = none;
  scopes = [];
  role = UserRole.user;
}

abbrev payment : SignPayload
payment = record {
  from_address = user_address;
  chain_id = 1;
  to = b'x' ∷ [];
  value = b'7' ∷ [];
  gas_limit = pos 21000;
  max_fee_per_gas = b'3' ∷ [];
  max_priority_fee_per_gas = b'1' ∷ [];
  nonce = pos 0;
  call_data = [];
}

abbrev unlocked : World
unlocked = record bank { seed = some (copies 64 1); initialized = true }

abbrev signature : SignedTx
signature = record { raw_transaction = copies 64 1; tx_hash = [] }

signs :
    (post_sign_transaction toy toy_sign true
      (some signing_user)
      (some payment)
      answering
      unlocked).0
    ≡ ok signature
unfolding post_sign_transaction sign_for_user sign_evm_transaction sign_eip1559_transaction
    or_wallet_missing get_wallet_by_address require_seed get_seed derive_private_key derive_children
    get_bip44_path parse_bip44_path parse_big digits query_one if_no_rows try_action guard or_raise
    pure ◌>>=◌ first text_eq unquote format emit
signs = refl

post_sign_transaction-own_example :
    let w' =
      (post_sign_transaction toy toy_sign true
        (some signing_user)
        (some payment)
        answering
        unlocked).1 in
    ((wallet : Wallet) × (wallet_at user_address 1 unlocked.db ≡ some wallet)
      × (wallet.user_id ≡ signing_user.id)
      × SignsAsked toy toy_sign true payment wallet w' signature)
    × (w'.db ≡ unlocked.db)
    × (w'.sent ≡ unlocked.sent)
post_sign_transaction-own_example =
    post_sign_transaction-own toy toy_sign true signing_user payment answering unlocked signs
