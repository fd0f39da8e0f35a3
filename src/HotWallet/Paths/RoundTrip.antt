-- ===== src/HotWallet/Paths/RoundTrip.antt =====
-- internal/wallet/address: the paths that the service makes are read back by the derivation.
use Prim.Native.Nat.{◌/◌, ◌%◌, ◌^◌}
use mathlib.Core.List.{append-nil, append_assoc}
use native.Mathlib.Nat.{pow-suc}
use go_wallet.Prelude.{
  zero, suc, ℕ, ◌+◌, ◌<◌, ◌≡◌, ◌≢◌, refl, arith, Text, true, false, some, List, [], ◌∷◌, ◌++◌, ap,
  sym, ◌∙◌,
}
use go_wallet.HotWallet.Paths.{
  emit, format, account_path, get_bip44_path, keep_part, split_path, unquote, is_digit, scan_digits,
  skip_space, scan_uint32, parse_part, parse_parts, parse_bip44_path,
}

abbrev AllDigits : Text → Type 0
AllDigits [] = Unit {0}
AllDigits (c ∷ cs) = (is_digit c ≡ true) × AllDigits cs

scan_last : (n : ℕ) (out : Text) → scan_digits ((b'0' + n % 10) ∷ out) (n / 10) ≡ scan_digits out n
unfolding scan_digits
scan_last n out = ground arith

-- Reading the digits that were printed gives the number back.
scan_digits-emit :
    (fuel n : ℕ) (out : Text)
    → n < 10 ^ suc fuel
    → scan_digits (emit (suc fuel) n out) 0 ≡ scan_digits out n
unfolding scan_digits emit
scan_digits-emit zero n out h = ground arith
scan_digits-emit (suc fuel) n out h =
    let small = pow-suc 10 (suc fuel) in
    let rest = scan_digits-emit fuel (n / 10) ((b'0' + n % 10) ∷ out) (omega (arith, small)) in
    let last = scan_last n out in ground (arith, rest, last)

last_digit : (n : ℕ) → is_digit (b'0' + n % 10) ≡ true
last_digit n = ground arith

emit-AllDigits : (fuel n : ℕ) (out : Text) → AllDigits out → AllDigits (emit fuel n out)
unfolding emit
emit-AllDigits zero n out h = h
emit-AllDigits (suc fuel) n out h =
    ground (arith, emit-AllDigits fuel (n / 10) ((b'0' + n % 10) ∷ out) (last_digit n, h))

emit-some : (fuel n : ℕ) (out : Text) → emit (suc fuel) n out ≢ []
unfolding emit
emit-some zero n out = ground arith
emit-some (suc fuel) n out = ground (arith, emit-some fuel (n / 10) ((b'0' + n % 10) ∷ out))

-- Digits are one part, and not a hardened one.
split_path-digits :
    (s current : Text) → AllDigits s → split_path s current ≡ keep_part (current ++ s) []
unfolding split_path
split_path-digits [] current h = ap (λ t. keep_part t []) (sym (append-nil current))
split_path-digits (c ∷ cs) current h =
    let rest =
      split_path-digits cs (current ++ c ∷ []) h.1
      ∙ ap (λ t. keep_part t []) (append_assoc current (c ∷ []) cs) in
    ground (arith, h.0, rest)

unquote-digits : (s : Text) → AllDigits s → unquote s ≡ (s, false)
unfolding unquote
unquote-digits [] h = refl
unquote-digits (c ∷ []) h = ground (arith, h.0)
unquote-digits (c ∷ d ∷ ds) h = ground (arith, unquote-digits (d ∷ ds) h.1)

parse_part-digits :
    (s : Text)
    → AllDigits s
    → s ≢ []
    → scan_digits s 0 < 2 ^ 32
    → parse_part s ≡ some (scan_digits s 0)
unfolding parse_part skip_space scan_uint32
parse_part-digits [] h some_digit small = absurd (some_digit refl)
parse_part-digits (c ∷ cs) h some_digit small =
    let plain = unquote-digits (c ∷ cs) h in ground (arith, plain, h.0)

one_number :
    (s : Text) (n : ℕ)
    → s ≢ []
    → split_path s [] ≡ keep_part s []
    → parse_part s ≡ some n
    → parse_parts (split_path s []) ≡ some (n ∷ [])
unfolding parse_parts
one_number [] n some_digit split part = absurd (some_digit refl)
one_number (c ∷ cs) n some_digit split part = rw split (ground (arith, part))

below_account :
    (t : Text) (ns : List ℕ)
    → parse_parts (split_path t []) ≡ some ns
    → parse_bip44_path (account_path ++ t)
      ≡ some ((0x80000000 + 44) ∷ (0x80000000 + 60) ∷ 0x80000000 ∷ 0 ∷ ns)
unfolding parse_bip44_path split_path parse_parts parse_part skip_space scan_uint32 scan_digits
    unquote
below_account t ns h = ground (arith, h)

-- For every index below 2^31, the path of `GetBIP44Path` is read back as the three hardened account
-- numbers 44', 60', 0', the plain number 0 and the index; and up to 2^32 the same, the last number
-- being the index of a hardened child from 2^31 on, though the path's text does not mark it.
pub parse_bip44_path-get_bip44_path :
    (index : ℕ)
    → index < 2 ^ 32
    → parse_bip44_path (get_bip44_path index)
      ≡ some ((0x80000000 + 44) ∷ (0x80000000 + 60) ∷ 0x80000000 ∷ 0 ∷ index ∷ [])
unfolding get_bip44_path format scan_digits
parse_bip44_path-get_bip44_path index h =
    let read = scan_digits-emit 19 index [] (omega arith) in
    let digits = emit-AllDigits 20 index [] tt in
    let there = emit-some 19 index [] in
    let one_part = split_path-digits (emit 20 index []) [] digits in
    let number = parse_part-digits (emit 20 index []) digits there (rw read h) ∙ ap some read in
    below_account (emit 20 index []) (index ∷ [])
      (one_number (emit 20 index []) index there one_part number)
