-- ===== src/Prelude/Rows.antt =====
-- Tables as lists of rows in the order of their insertion, and what SQL statements do with them.
use Prim.Native.Nat.{ℕ, suc}
use mathlib.Core.Bool.{Bool, false, ◌||◌}
use mathlib.Core.Option.{Option, none, some}
use mathlib.Core.List.{List, [], ◌∷◌, ◌++◌}
use go_wallet.Prelude.Tests.{if◌then◌else◌}
use go_wallet.Prelude.Int.{ℤ, pos, ◌+ℤ◌}
pub mod Sums
pub mod Find
pub mod Without
pub mod Pages

module _ {ℓ} {A : Type ℓ} where
  abbrev pub length : List A → ℕ
  length [] = 0
  length (x ∷ xs) = suc (length xs)

  -- `.All` with a `WHERE`.
  unfoldable pub select : (A → Bool) → List A → List A
  select p [] = []
  select p (x ∷ xs) = let rest = select p xs in if p x then x ∷ rest else rest

  -- `.One` with a `WHERE`: the first row, in the order of insertion.
  unfoldable pub first : (A → Bool) → List A → Option A
  first p [] = none
  first p (x ∷ xs) = let rest = first p xs in if p x then some x else rest

  -- `COUNT(*) > 0`.
  unfoldable pub any : (A → Bool) → List A → Bool
  any p [] = false
  any p (x ∷ xs) = p x || any p xs

  unfoldable pub count_where : (A → Bool) → List A → ℕ
  count_where p [] = 0
  count_where p (x ∷ xs) = let rest = count_where p xs in if p x then suc rest else rest

  -- `UPDATE … WHERE`.
  unfoldable pub modify : (A → Bool) → (A → A) → List A → List A
  modify p f [] = []
  modify p f (x ∷ xs) = (if p x then f x else x) ∷ modify p f xs

  unfoldable pub insert : A → List A → List A
  insert x xs = xs ++ x ∷ []

  -- `COALESCE(SUM(v), 0)` with a `WHERE`.
  unfoldable pub sum_where : (A → Bool) → (A → ℤ) → List A → ℤ
  sum_where p v [] = pos 0
  sum_where p v (x ∷ xs) = let rest = sum_where p v xs in if p x then v x +ℤ rest else rest
