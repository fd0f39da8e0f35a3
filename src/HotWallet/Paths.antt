-- ===== src/HotWallet/Paths.antt =====
-- internal/wallet/address/service.go, `GetBIP44Path`, and internal/wallet/address/evm.go,
-- `parseBIP44Path`: derivation paths as texts, and as the child numbers of BIP-32.
use Prim.Native.Nat.{◌/◌, ◌%◌, ◌^◌}
use go_wallet.Prelude.{
  zero, suc, ◌||◌, ℕ, ◌+◌, ◌*◌, ◌-◌, Text, Bool, true, false, ◌&&◌, Option, none, some, List, [],
  ◌∷◌, ◌++◌, ◌==◌, ltb, leb, if◌then◌else◌,
}
pub mod RoundTrip

-- `%d`: the digits of a number, the last one first; the fuel is their largest count.
unfoldable pub emit : ℕ → ℕ → Text → Text
emit zero n out = out
emit (suc fuel) n out =
    let more = emit fuel (n / 10) ((b'0' + n % 10) ∷ out) in
    if n / 10 == 0 then (b'0' + n % 10) ∷ out else more

-- An `int` has at most 19 digits.
unfoldable pub format : ℕ → Text
format n = emit 20 n []

-- m/44'/60'/0'/0/
abbrev pub account_path : Text
account_path =
    b'm' ∷ b'/' ∷ b'4' ∷ b'4' ∷ 39 ∷ b'/' ∷ b'6' ∷ b'0' ∷ 39 ∷ b'/' ∷ b'0' ∷ 39 ∷ b'/' ∷ b'0' ∷ b'/'
    ∷ []

unfoldable pub get_bip44_path : ℕ → Text
get_bip44_path index = account_path ++ format index

-- The text without a prefix `m/`, where more than that is there.
abbrev pub remove_prefix : Text → Text
remove_prefix [] = []
remove_prefix (a ∷ []) = a ∷ []
remove_prefix (a ∷ b ∷ []) = a ∷ b ∷ []
remove_prefix (a ∷ b ∷ c ∷ cs) = if b == b'/' then c ∷ cs else a ∷ b ∷ c ∷ cs

-- An empty part is left out.
abbrev pub keep_part : Text → List Text → List Text
keep_part [] parts = parts
keep_part (c ∷ cs) parts = (c ∷ cs) ∷ parts

-- The loop that splits at `/`, with the part that it is in.
unfoldable pub split_path : Text → Text → List Text
split_path [] current = keep_part current []
split_path (c ∷ cs) current = elim (c == b'/') [
  | true ↦ keep_part current (split_path cs [])
  | false ↦ split_path cs (current ++ c ∷ [])
]

-- A part without its last apostrophe, and whether it had one.
unfoldable pub unquote : Text → Text × Bool
unquote [] = ([], false)
unquote (c ∷ []) = if c == 39 then ([], true) else (c ∷ [], false)
unquote (c ∷ d ∷ ds) = let rest = unquote (d ∷ ds) in (c ∷ rest.0, rest.1)

abbrev pub is_digit : ℕ → Bool
is_digit c = leb b'0' c && leb c b'9'

-- `Sscanf` with `%d` takes the digits there are and leaves the rest of the text alone.
unfoldable pub scan_digits : Text → ℕ → ℕ
scan_digits [] n = n
scan_digits (c ∷ cs) n =
    let rest = scan_digits cs (n * 10 + (c - b'0')) in if is_digit c then rest else n

-- The spaces in front; a new line among them is an error.
unfoldable pub skip_space : Text → Option Text
skip_space [] = some []
skip_space (c ∷ cs) =
    let rest = skip_space cs in
    if c == 10 then none else if c == 32 || (leb 9 c && leb c 13) then rest else some (c ∷ cs)

-- At least one digit, and a value of 32 bits.
unfoldable pub scan_uint32 : Text → Option ℕ
unfolding scan_digits
scan_uint32 [] = none
scan_uint32 (c ∷ cs) =
    let n = scan_digits (c ∷ cs) 0 in if is_digit c && ltb n (2 ^ 32) then some n else none

-- One part: the number of a child, the hardened ones from 0x80000000 on, in a `uint32`.
unfoldable pub parse_part : Text → Option ℕ
unfolding skip_space scan_uint32
parse_part part =
    let (digits, hardened) = unquote part in
    elim (skip_space digits) [
      | none ↦ none
      | some rest ↦ elim (scan_uint32 rest) [
        | none ↦ none
        | some n ↦ some (if hardened then (n + 0x80000000) % 2 ^ 32 else n)
      ]
    ]

unfoldable pub parse_parts : List Text → Option (List ℕ)
unfolding parse_part
parse_parts [] = some []
parse_parts (x ∷ xs) = elim (parse_part x) [
  | none ↦ none
  | some n ↦ elim (parse_parts xs) [ none ↦ none | some ns ↦ some (n ∷ ns) ]
]

unfoldable pub parse_bip44_path : Text → Option (List ℕ)
unfolding split_path parse_parts
parse_bip44_path [] = none
parse_bip44_path (c ∷ cs) =
    if c == b'm' then parse_parts (split_path (remove_prefix (c ∷ cs)) []) else none
