-- ===== src/Prelude/Decimal.antt =====
-- Numbers in decimal digits: `strconv.Atoi`, and `SetString` of math/big with the base 10.
use Prim.Native.Nat.{ℕ, zero, suc, ◌+◌, ◌-◌, ◌*◌}
use mathlib.Core.Bool.{Bool, ◌&&◌}
use mathlib.Core.Option.{Option, none, some}
use mathlib.Core.List.{[], ◌∷◌}
use go_wallet.Prelude.Tests.{ltb, leb, ◌==◌, if◌then◌else◌}
use go_wallet.Prelude.Int.{ℤ, pos, negsuc}
use go_wallet.Prelude.Ascii.{Text}

-- `Exp` of big.Int with the base 10.
abbrev pub ten_to : ℕ → ℕ
ten_to zero = 1
ten_to (suc n) = 10 * ten_to n

abbrev pub is_digit : ℕ → Bool
is_digit c = leb b'0' c && leb c b'9'

-- `none` at the first code that is no digit.
unfoldable pub digits : Text → ℕ → Option ℕ
digits [] n = some n
digits (c ∷ cs) n = let rest = digits cs (n * 10 + (c - b'0')) in if is_digit c then rest else none

abbrev pub negated : ℕ → ℤ
negated n = if n == 0 then pos 0 else negsuc (n - 1)

abbrev in_int : ℕ → ℕ → (ℕ → ℤ) → Option ℤ
in_int n limit sign = if ltb n limit then some (sign n) else none

abbrev signed : Text → ℕ → (ℕ → ℤ) → Option ℤ
signed [] limit sign = none
signed (c ∷ cs) limit sign = elim (digits (c ∷ cs) 0) [ none ↦ none | some n ↦ in_int n limit sign ]

-- `strconv.Atoi`: a sign, at least one digit, and a value of 64 bits.
unfoldable pub atoi : Text → Option ℤ
unfolding digits
atoi [] = none
atoi (c ∷ cs) =
    if c == b'-'
    then signed cs 9223372036854775809 negated
    else if c == b'+'
    then signed cs 9223372036854775808 pos
    else signed (c ∷ cs) 9223372036854775808 pos

abbrev whole : Text → (ℕ → ℤ) → Option ℤ
whole [] sign = none
whole (c ∷ cs) sign = elim (digits (c ∷ cs) 0) [ none ↦ none | some n ↦ some (sign n) ]

-- `SetString(text, 10)`: the same without a bound.
unfoldable pub parse_big : Text → Option ℤ
unfolding digits
parse_big [] = none
parse_big (c ∷ cs) =
    if c == b'-' then whole cs negated else if c == b'+' then whole cs pos else whole (c ∷ cs) pos
