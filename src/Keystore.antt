-- ===== src/Keystore.antt =====
-- internal/wallet/keystore: the mnemonic, encrypted under a password in the one row of its table.
-- `encoding/json` writes the fields of a `KeystoreJSON` and reads them back.
use go_wallet.Prelude.{
  ℕ, zero, suc, ◌+◌, Text, Bool, true, false, ◌&&◌, ◌||◌, not, Option, none, some, List, [], ◌∷◌,
  ◌++◌, ◌==◌, leb, ltb, if◌then◌else◌, length, insert, any,
}
use Prim.Native.Nat.{bit_xor, bit_or}
use go_wallet.Prelude.Bytes.{Bytes, hex_encode, hex_decode}
use go_wallet.Prelude.Rows.Pages.{take, drop}
use go_wallet.Store.{Keystore, KeystoreJson, Db}
use go_wallet.World.{
  Action, pure, guard, or_raise, ask, query, query_one, commit, ◌>>=◌, ◌>>◌, keystore_exists,
  bad_keystore, wrong_password,
}
use go_wallet.Keys.{Crypto}
pub mod Startup
pub mod Unlocked

-- `XORKeyStream` from the given position of the stream.
unfoldable pub xor_key_stream : (ℕ → ℕ) → ℕ → Bytes → Bytes
xor_key_stream stream i [] = []
xor_key_stream stream i (b ∷ bs) = bit_xor b (stream i) ∷ xor_key_stream stream (suc i) bs

-- `aes.NewCipher` refuses a key of another length, and `cipher.NewCTR` panics at an initial vector
-- that is no block long; both end the call.
abbrev pub fits_aes : Bytes → Bytes → Bool
fits_aes key iv = (length key == 16 || length key == 24 || length key == 32) && length iv == 16

-- `encryptAES128CTR` and `decryptAES128CTR`, which are the same.
unfoldable pub aes128_ctr : Crypto → Bytes → Bytes → Bytes → Option Bytes
unfolding xor_key_stream
aes128_ctr c key iv text =
    if fits_aes key iv then some (xor_key_stream (c.key_stream key iv) 0 text) else none

-- `calculateMAC`
unfoldable pub calculate_mac : Crypto → Bytes → Bytes → Bytes
calculate_mac c key ciphertext = c.sha256 (key ++ ciphertext)

-- The loop of `constantTimeCompare`, with its result so far.
unfoldable pub compare_bytes : ℕ → Bytes → Bytes → ℕ
compare_bytes r [] ys = r
compare_bytes r (x ∷ xs) [] = r
compare_bytes r (x ∷ xs) (y ∷ ys) = compare_bytes (bit_or r (bit_xor x y)) xs ys

unfoldable pub constant_time_compare : Bytes → Bytes → Bool
unfolding compare_bytes
constant_time_compare a b = if length a == length b then compare_bytes 0 a b == 0 else false

-- `derivedKey[:16]` and `derivedKey[16:32]`
abbrev pub cipher_key : Bytes → Bytes
cipher_key key = take 16 key

abbrev pub mac_key : Bytes → Bytes
mac_key key = take 16 (drop 16 key)

abbrev pub keystore_json : Crypto → Bytes → Bytes → Bytes → Bytes → KeystoreJson
keystore_json c key salt iv ciphertext = record {
  version = 3;
  ciphertext = hex_encode ciphertext;
  iv = hex_encode iv;
  dk_len = 32;
  salt = hex_encode salt;
  n = 262144;
  r = 8;
  p = 1;
  mac = hex_encode (calculate_mac c (mac_key key) ciphertext);
}

unfoldable pub encrypt_mnemonic : Crypto → Text → Text → Action KeystoreJson
encrypt_mnemonic c mnemonic password = do
  salt ← ask (λ env t. env.random t 32) bad_keystore
  iv ← ask (λ env t. env.random t 16) bad_keystore
  key ← or_raise (c.scrypt password salt 262144 8 1 32) bad_keystore
  ciphertext ← or_raise (aes128_ctr c (cipher_key key) iv mnemonic) bad_keystore
  pure (keystore_json c key salt iv ciphertext)

-- A slice past the end of the key panics, which ends the call.
unfoldable pub decrypt_mnemonic : Crypto → KeystoreJson → Text → Action Text
decrypt_mnemonic c json password = do
  salt ← or_raise (hex_decode json.salt) bad_keystore
  iv ← or_raise (hex_decode json.iv) bad_keystore
  ciphertext ← or_raise (hex_decode json.ciphertext) bad_keystore
  mac ← or_raise (hex_decode json.mac) bad_keystore
  key ← or_raise (c.scrypt password salt json.n json.r json.p json.dk_len) bad_keystore
  guard (leb 32 (length key)) bad_keystore
  guard (constant_time_compare (calculate_mac c (mac_key key) ciphertext) mac) wrong_password
  or_raise (aes128_ctr c (cipher_key key) iv ciphertext) bad_keystore

abbrev pub has_rows : {A : Type 0} → List A → Bool
has_rows [] = false
has_rows (x ∷ xs) = true

unfoldable pub keystore_present : Action Bool
keystore_present = query (λ db. has_rows db.keystores)

abbrev pub first_keystore : Db → Option Keystore
first_keystore db = elim db.keystores [ [] ↦ none | k ∷ ks ↦ some k ]

-- The row has a fixed number, so a second one is refused by the table too.
unfoldable pub create_keystore : Crypto → Text → Text → Action Keystore
create_keystore c mnemonic password = do
  present ← keystore_present
  guard (not present) keystore_exists
  json ← encrypt_mnemonic c mnemonic password
  taken ← query (λ db. has_rows db.keystores)
  guard (not taken) keystore_exists
  commit λ db. record db {
    keystores = insert (record { keystore_data = json; verification_address = none }) db.keystores;
  }
  pure (record { keystore_data = json; verification_address = none })

unfoldable pub get_keystore : Action Keystore
get_keystore = query_one first_keystore
