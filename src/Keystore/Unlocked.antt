-- ===== src/Keystore/Unlocked.antt =====
-- internal/wallet/keystore/encrypt.go and decrypt.go: what a password opens.
use Prim.Native.Nat.{bit_xor, bit_or}
use mathlib.Core.Logic.{◌↔◌}
use go_wallet.Prelude.{
  ℕ, suc, ◌<◌, Text, true, ◌≢◌, leb, ◌≡◌, refl, ap, some, [], ◌∷◌, length, arith, inl, inr,
  Bool-cases,
}
use go_wallet.Prelude.Bytes.{Bytes, AreBytes, xor_twice, or_xor-zero, hex_decode-hex_encode}
use go_wallet.World.{Env, World, ok, err, guard, or_raise, ◌>>=◌, wrong_password}
use go_wallet.Keys.{Crypto}
use go_wallet.Keystore.{
  xor_key_stream, aes128_ctr, fits_aes, calculate_mac, compare_bytes, constant_time_compare,
  keystore_json, cipher_key, mac_key, decrypt_mnemonic,
}

-- What the packages document: a derived key has the length that was asked for, and keys, streams
-- and hashes are bytes.
pub record IsCrypto (c : Crypto) : Type 0 where
  pub scrypt_length :
      (password salt : Bytes) (n r p l : ℕ) {key : Bytes}
      → c.scrypt password salt n r p l ≡ some key
      → length key ≡ l
  pub stream_bytes : (key iv : Bytes) (i : ℕ) → c.key_stream key iv i < 256
  pub hash_bytes : (text : Bytes) → AreBytes (c.sha256 text)

zero_same :
    (r : ℕ) (xs ys : Bytes)
    → r < 256
    → AreBytes xs
    → AreBytes ys
    → length xs ≡ length ys
    → compare_bytes r xs ys ≡ 0
    → (r ≡ 0) × (xs ≡ ys)
unfolding compare_bytes
zero_same r [] [] g h k e z = (z, refl)
zero_same r [] (y ∷ ys) g h k e z = absurd (omega arith)
zero_same r (x ∷ xs) [] g h k e z = absurd (omega arith)
zero_same r (x ∷ xs) (y ∷ ys) g (hx, h) (ky, k) e z =
    let (small, test) = or_xor-zero r x y g hx ky in
    let (none_left, rest) = zero_same (bit_or r (bit_xor x y)) xs ys small h k (omega arith) z in
    let heads : x ≡ y = ground arith in (ground arith, cc (heads, rest))

same_zero : (xs : Bytes) → AreBytes xs → compare_bytes 0 xs xs ≡ 0
unfolding compare_bytes
same_zero [] h = refl
same_zero (x ∷ xs) (hx, h) =
    let (small, test) = or_xor-zero 0 x x (omega arith) hx hx in
    let zero_again : bit_or 0 (bit_xor x x) ≡ 0 = ground arith in rw zero_again (same_zero xs h)

-- Two byte strings pass the comparison in constant time exactly when they are the same.
constant_time_compare-eq :
    (xs ys : Bytes) → AreBytes xs → AreBytes ys → (constant_time_compare xs ys ≡ true) ↔ (xs ≡ ys)
unfolding constant_time_compare
constant_time_compare-eq xs ys h k = (
  (λ e. (zero_same 0 xs ys (omega arith) h k (ground arith) (ground arith)).1),
  (λ e. rw (← e) (let same = same_zero xs h in ground arith)),
)

module _ (stream : ℕ → ℕ) (small : (i : ℕ) → stream i < 256) where
  xor_key_stream_twice :
      (i : ℕ) (bs : Bytes) → AreBytes bs → xor_key_stream stream i (xor_key_stream stream i bs) ≡ bs
  unfolding xor_key_stream
  xor_key_stream_twice i [] h = refl
  xor_key_stream_twice i (b ∷ bs) (h, k) =
      rw ((xor_twice b (stream i) h (small i)).0, xor_key_stream_twice (suc i) bs k)

  xor_key_stream-bytes : (i : ℕ) (bs : Bytes) → AreBytes bs → AreBytes (xor_key_stream stream i bs)
  unfolding xor_key_stream
  xor_key_stream-bytes i [] h = tt
  xor_key_stream-bytes i (b ∷ bs) (h, k) =
      ((xor_twice b (stream i) h (small i)).1, xor_key_stream-bytes (suc i) bs k)

length-xor_key_stream :
    (stream : ℕ → ℕ) (i : ℕ) (bs : Bytes) → length (xor_key_stream stream i bs) ≡ length bs
unfolding xor_key_stream
length-xor_key_stream stream i [] = refl
length-xor_key_stream stream i (b ∷ bs) = omega (arith, length-xor_key_stream stream (suc i) bs)

module _ (c : Crypto) (laws : IsCrypto c) where
  -- What is encrypted under a key is decrypted under it.
  aes128_ctr_twice :
      (key iv text cipher : Bytes)
      → AreBytes text
      → aes128_ctr c key iv text ≡ some cipher
      → AreBytes cipher × (aes128_ctr c key iv cipher ≡ some text)
  unfolding aes128_ctr
  aes128_ctr_twice key iv text cipher h e = elim (Bool-cases (fits_aes key iv)) [
    | inl fits ↦
        let stream = c.key_stream key iv in
        let made : xor_key_stream stream 0 text ≡ cipher = ground arith in
        rw (← made, fits)
          (
            xor_key_stream-bytes stream (laws.stream_bytes key iv) 0 text h,
            ap some (xor_key_stream_twice stream (laws.stream_bytes key iv) 0 text h),
          )
    | inr unfit ↦ absurd (ground arith)
  ]

  -- The mnemonic that was encrypted under a password with bytes for the salt and the initial vector
  -- is what the keystore gives back to that password.
  pub decrypt_mnemonic_lem :
      (mnemonic password salt iv key cipher : Bytes) (env : Env) (w : World)
      → AreBytes mnemonic
      → AreBytes salt
      → AreBytes iv
      → c.scrypt password salt 262144 8 1 32 ≡ some key
      → aes128_ctr c (cipher_key key) iv mnemonic ≡ some cipher
      → decrypt_mnemonic c (keystore_json c key salt iv cipher) password env w ≡ (ok mnemonic, w)
  unfolding decrypt_mnemonic or_raise guard ◌>>=◌ calculate_mac
  decrypt_mnemonic_lem mnemonic password salt iv key cipher env w hm hs hi derived encrypted =
      let (bytes, back) = aes128_ctr_twice (cipher_key key) iv mnemonic cipher hm encrypted in
      let mac = calculate_mac c (mac_key key) cipher in
      let long : leb 32 (length key) ≡ true =
        let l = laws.scrypt_length password salt 262144 8 1 32 derived in ground arith in
      let accepted : constant_time_compare mac mac ≡ true =
        (constant_time_compare-eq mac mac (laws.hash_bytes _) (laws.hash_bytes _)).1 refl in
      rw (
        hex_decode-hex_encode salt hs,
        hex_decode-hex_encode iv hi,
        hex_decode-hex_encode cipher bytes,
        hex_decode-hex_encode mac (laws.hash_bytes _),
        derived,
        long,
        accepted,
        back,
      )

  -- A password whose key does not give the stored code of the text is refused, and opens nothing.
  pub decrypt_mnemonic-mac :
      (salt iv key cipher wrong : Bytes) (other : Text) (env : Env) (w : World)
      → AreBytes salt
      → AreBytes iv
      → AreBytes cipher
      → c.scrypt other salt 262144 8 1 32 ≡ some wrong
      → calculate_mac c (mac_key wrong) cipher ≢ calculate_mac c (mac_key key) cipher
      → decrypt_mnemonic c (keystore_json c key salt iv cipher) other env w
        ≡ (err wrong_password, w)
  unfolding decrypt_mnemonic or_raise guard ◌>>=◌ calculate_mac
  decrypt_mnemonic-mac salt iv key cipher wrong other env w hs hi hc derived differs =
      let mac = calculate_mac c (mac_key key) cipher in
      let tried = calculate_mac c (mac_key wrong) cipher in
      let long : leb 32 (length wrong) ≡ true =
        let l = laws.scrypt_length other salt 262144 8 1 32 derived in ground arith in
      elim (Bool-cases (constant_time_compare tried mac)) [
        | inl e ↦ absurd (
            differs
              ((constant_time_compare-eq tried mac (hash_bytes_of wrong) (hash_bytes_of key)).0 e))
        | inr refused ↦ rw (
          hex_decode-hex_encode salt hs,
          hex_decode-hex_encode iv hi,
          hex_decode-hex_encode cipher hc,
          hex_decode-hex_encode mac (hash_bytes_of key),
          derived,
          long,
          refused,
        )
      ]
    where
      hash_bytes_of : (k : Bytes) → AreBytes (calculate_mac c (mac_key k) cipher)
      hash_bytes_of k = laws.hash_bytes _
