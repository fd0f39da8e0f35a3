-- ===== src/Prelude/Rows/Find.antt =====
-- What a search finds.
use mathlib.Core.Path.{◌≡◌, refl}
use mathlib.Core.Bool.{◌||◌, Bool, true}
use mathlib.Core.Option.{some}
use mathlib.Core.List.{List, [], ◌∷◌}
use native.Mathlib.Omega.{arith}
use go_wallet.Prelude.Rows.{
  first, modify, false, any, count_where, insert, if◌then◌else◌, suc, none,
}

module _ {ℓ} {A : Type ℓ} where
  -- The row that is found meets the condition.
  pub first_meets : (p : A → Bool) (xs : List A) {a : A} → first p xs ≡ some a → p a ≡ true
  unfolding first
  first_meets p [] h = ground arith
  first_meets p (x ∷ xs) {a = a} h = ground (arith, λ (e : first p xs ≡ some a). first_meets p xs e)

  -- The row that an update writes over the rows found is found again.
  pub first-modify :
      (p : A → Bool) (b : A) (xs : List A) {a : A}
      → first p xs ≡ some a
      → p b ≡ true
      → first p (modify p (λ _. b) xs) ≡ some b
  unfolding first modify
  first-modify p b [] h t = ground arith
  first-modify p b (x ∷ xs) {a = a} h t =
      ground (arith, λ (e : first p xs ≡ some a). first-modify p b xs e t)

  -- An update that keeps the condition changes the row found.
  pub first-modify_map :
      (p : A → Bool) (f : A → A)
      → ((x : A) → p (f x) ≡ p x)
      → (xs : List A) {a : A} → first p xs ≡ some a
      → first p (modify p f xs) ≡ some (f a)
  unfolding first modify
  first-modify_map p f k [] h = ground arith
  first-modify_map p f k (x ∷ xs) {a = a} h =
      ground (arith, k x, λ (e : first p xs ≡ some a). first-modify_map p f k xs e)

  -- An update elsewhere leaves the row found.
  pub first-modify_other :
      (p q : A → Bool) (f : A → A)
      → ((x : A) → q x ≡ true → p x ≡ false)
      → ((x : A) → q x ≡ true → p (f x) ≡ false)
      → (xs : List A) → first p (modify q f xs) ≡ first p xs
  unfolding first modify
  first-modify_other p q f k l [] = refl
  first-modify_other p q f k l (x ∷ xs) = ground (arith, k x, l x, first-modify_other p q f k l xs)

  pub any-insert : (p : A → Bool) (x : A) (xs : List A) → any p (insert x xs) ≡ any p xs || p x
  unfolding any insert
  any-insert p x [] = ground arith
  any-insert p x (y ∷ ys) = ground (arith, any-insert p x ys)

  pub count_where-insert :
      (p : A → Bool) (x : A) (xs : List A)
      → count_where p (insert x xs) ≡ (if p x then suc (count_where p xs) else count_where p xs)
  unfolding count_where insert
  count_where-insert p x [] = ground arith
  count_where-insert p x (y ∷ ys) = ground (arith, count_where-insert p x ys)

  -- Where no row meets the condition, there are 0 of them.
  pub count_of_not_any : (p : A → Bool) (xs : List A) → any p xs ≡ false → count_where p xs ≡ 0
  unfolding any count_where
  count_of_not_any p [] h = refl
  count_of_not_any p (x ∷ xs) h = ground (arith, count_of_not_any p xs)

  pub any-modify :
      (p q : A → Bool) (f : A → A)
      → ((x : A) → p (f x) ≡ p x)
      → (xs : List A) → any p (modify q f xs) ≡ any p xs
  unfolding any modify
  any-modify p q f k [] = refl
  any-modify p q f k (x ∷ xs) = ground (arith, k x, any-modify p q f k xs)

  -- Where no row meets a condition, none meets a stronger one.
  pub any_weaken :
      (p q : A → Bool)
      → ((x : A) → p x ≡ false → q x ≡ false)
      → (xs : List A) → any p xs ≡ false
      → any q xs ≡ false
  unfolding any
  any_weaken p q k [] h = refl
  any_weaken p q k (x ∷ xs) h = ground (arith, k x, any_weaken p q k xs)

  -- An update keeps the number of rows that meet a condition it keeps.
  pub count_where-modify :
      (p q : A → Bool) (f : A → A)
      → ((x : A) → p (f x) ≡ p x)
      → (xs : List A) → count_where p (modify q f xs) ≡ count_where p xs
  unfolding count_where modify
  count_where-modify p q f k [] = refl
  count_where-modify p q f k (x ∷ xs) = ground (arith, k x, count_where-modify p q f k xs)

  -- A row that meets a condition meets a weaker one.
  pub any_mono :
      (p q : A → Bool)
      → ((x : A) → p x ≡ true → q x ≡ true)
      → (xs : List A) → any p xs ≡ true
      → any q xs ≡ true
  unfolding any
  any_mono p q k [] h = h
  any_mono p q k (x ∷ xs) h = ground (arith, k x, any_mono p q k xs)

  -- A row that is inserted is found where none was.
  pub first-insert :
      (p : A → Bool) (x : A) (xs : List A)
      → first p xs ≡ none
      → p x ≡ true
      → first p (insert x xs) ≡ some x
  unfolding first insert
  first-insert p x [] h t = ground arith
  first-insert p x (y ∷ ys) h t = ground (arith, first-insert p x ys)
