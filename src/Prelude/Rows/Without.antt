-- ===== src/Prelude/Rows/Without.antt =====
-- Rows that were deleted, and the rows that a deletion spares.
use mathlib.Core.Path.{◌≡◌, refl}
use mathlib.Core.Bool.{Bool, true, false, not}
use mathlib.Core.List.{List, [], ◌∷◌}
use native.Mathlib.Omega.{arith}
use go_wallet.Prelude.Rows.{any, select}

module _ {A : Type 0} (p : A → Bool) where
  pub without_any : (xs : List A) → any p (select (λ x. not (p x)) xs) ≡ false
  unfolding any select
  without_any [] = refl
  without_any (x ∷ xs) = ground (arith, without_any xs)

  -- What is selected apart from the deleted rows is what it was.
  pub without_kept :
      (q : A → Bool) (xs : List A)
      → ((x : A) → q x ≡ true → p x ≡ false)
      → select q (select (λ x. not (p x)) xs) ≡ select q xs
  unfolding select
  without_kept q [] apart = refl
  without_kept q (x ∷ xs) apart = ground (arith, without_kept q xs apart, apart x)
