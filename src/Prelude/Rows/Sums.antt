-- ===== src/Prelude/Rows/Sums.antt =====
-- Sums under the changes of a table.
use go_wallet.Prelude.Tests.{if◌then◌else◌}
use mathlib.Core.Path.{◌≡◌}
use mathlib.Core.Bool.{Bool}
use mathlib.Core.List.{List, [], ◌∷◌}
use go_wallet.Prelude.Int.{ℤ, ◌+ℤ◌, int_laws}
use go_wallet.Prelude.Rows.{insert, sum_where}

module _ {ℓ} {A : Type ℓ} where
  pub sum_where-insert :
      (p : A → Bool) (v : A → ℤ) (x : A) (xs : List A)
      → sum_where p v (insert x xs) ≡ (if p x then sum_where p v xs +ℤ v x else sum_where p v xs)
  unfolding sum_where insert
  sum_where-insert p v x [] = grind int_laws
  sum_where-insert p v x (y ∷ ys) = grind (int_laws, sum_where-insert p v x ys)
