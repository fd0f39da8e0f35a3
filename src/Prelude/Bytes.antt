-- ===== src/Prelude/Bytes.antt =====
-- Bytes: the exclusive or, and `encoding/hex`.
use Prim.Native.Nat.{ℕ, zero, suc, ◌+◌, ◌-◌, ◌*◌, ◌/◌, ◌%◌, ◌<◌, bit_xor, bit_or}
use mathlib.Core.Path.{◌≡◌, refl}
use mathlib.Core.Bool.{Bool, true, false, ◌&&◌}
use mathlib.Core.Option.{Option, none, some}
use mathlib.Core.List.{List, [], ◌∷◌}
use native.Mathlib.Omega.{arith}
use go_wallet.Prelude.Tests.{ltb, leb, ◌==◌, if◌then◌else◌}

abbrev pub Bytes : Type 0
Bytes = List ℕ

abbrev pub AreBytes : Bytes → Type 0
AreBytes [] = Unit
AreBytes (b ∷ bs) = (b < 256) × AreBytes bs

all_below : ℕ → (ℕ → Bool) → Bool
all_below zero p = true
all_below (suc n) p = p n && all_below n p

all_below_at : (n : ℕ) (p : ℕ → Bool) (x : ℕ) → all_below n p ≡ true → x < n → p x ≡ true
unfolding all_below
all_below_at zero p x h lt = absurd (omega arith)
all_below_at (suc n) p x h lt = ground (arith, all_below_at n p x)

abbrev same_test : Bool → Bool → Bool
same_test true b = b
same_test false true = false
same_test false false = true

-- What holds of each pair of bytes.
abbrev xor_facts : ℕ → ℕ → Bool
xor_facts a b =
    bit_xor (bit_xor a b) b == a
    && ltb (bit_xor a b) 256
    && same_test (bit_xor a b == 0) (a == b)
    && same_test (bit_or a b == 0) (a == 0 && b == 0)
    && ltb (bit_or a b) 256

xor_table : all_below 256 (λ a. all_below 256 (λ b. xor_facts a b)) ≡ true
unfolding all_below
xor_table = refl

xor_facts_at : (a b : ℕ) → a < 256 → b < 256 → xor_facts a b ≡ true
xor_facts_at a b h k =
    all_below_at 256 (λ b. xor_facts a b) b
      (all_below_at 256 (λ a. all_below 256 (λ b. xor_facts a b)) a xor_table h) k

pub xor_twice : (a b : ℕ) → a < 256 → b < 256 → (bit_xor (bit_xor a b) b ≡ a) × (bit_xor a b < 256)
xor_twice a b h k = let facts = xor_facts_at a b h k in (ground arith, ground arith)

-- `result |= int(a ^ b)` stays 0 as long as the bytes are the same.
pub or_xor-zero :
    (r a b : ℕ)
    → r < 256
    → a < 256
    → b < 256
    → (bit_or r (bit_xor a b) < 256) × ((bit_or r (bit_xor a b) == 0) ≡ ((r == 0) && (a == b)))
or_xor-zero r a b g h k =
    let facts = xor_facts_at a b h k in
    let more = xor_facts_at r (bit_xor a b) g (xor_twice a b h k).1 in (ground arith, ground arith)

-- A digit of a byte, in the lower case.
abbrev pub hex_digit : ℕ → ℕ
hex_digit n = if ltb n 10 then n + b'0' else n - 10 + b'a'

unfoldable pub hex_encode : Bytes → List ℕ
hex_encode [] = []
hex_encode (b ∷ bs) = hex_digit (b / 16) ∷ hex_digit (b % 16) ∷ hex_encode bs

abbrev pub hex_value : ℕ → Option ℕ
hex_value c =
    if leb b'0' c && leb c b'9'
    then some (c - b'0')
    else if leb b'a' c && leb c b'f'
    then some (c - b'a' + 10)
    else if leb b'A' c && leb c b'F'
    then some (c - b'A' + 10)
    else none

abbrev hex_byte : Option ℕ → Option ℕ → Option Bytes → Option Bytes
hex_byte none y rest = none
hex_byte (some h) none rest = none
hex_byte (some h) (some l) none = none
hex_byte (some h) (some l) (some bs) = some ((h * 16 + l) ∷ bs)

-- Pairs of digits of either case; an odd digit is an error.
unfoldable pub hex_decode : List ℕ → Option Bytes
hex_decode [] = some []
hex_decode (c ∷ []) = none
hex_decode (c ∷ d ∷ cs) = hex_byte (hex_value c) (hex_value d) (hex_decode cs)

hex_value-hex_digit : (n : ℕ) → n < 16 → hex_value (hex_digit n) ≡ some n
hex_value-hex_digit n h = ground arith

pub hex_decode-hex_encode : (bs : Bytes) → AreBytes bs → hex_decode (hex_encode bs) ≡ some bs
unfolding hex_decode hex_encode
hex_decode-hex_encode [] h = refl
hex_decode-hex_encode (b ∷ bs) (h, k) =
    let value : b / 16 * 16 + b % 16 ≡ b = omega arith in
    rw (
      hex_value-hex_digit (b / 16) (omega arith),
      hex_value-hex_digit (b % 16) (omega arith),
      hex_decode-hex_encode bs k,
      value,
    )
