-- ===== src/Prelude/Rows/Pages.antt =====
-- `LIMIT` and `OFFSET`: a part of a list.
use Prim.Native.Nat.{ℕ, zero, suc, ◌+◌, ◌≤◌}
use mathlib.Core.Path.{◌≡◌, refl, ap}
use mathlib.Core.Bool.{Bool, true}
use mathlib.Core.List.{List, [], ◌∷◌, ◌++◌, map, reverse, reverse_aux}
use native.Mathlib.Omega.{arith}
use mathlib.Core.Logic.{◌⊎◌, inl, inr}
use go_wallet.Prelude.Tests.{Bool-cases}
use go_wallet.Prelude.Order.{sorted_insert, sort}
use go_wallet.Prelude.Rows.{length, select, any}

module _ {A : Type 0} where
  abbrev pub take : ℕ → List A → List A
  take zero xs = []
  take (suc n) [] = []
  take (suc n) (x ∷ xs) = x ∷ take n xs

  abbrev pub drop : ℕ → List A → List A
  drop zero xs = xs
  drop (suc n) [] = []
  drop (suc n) (x ∷ xs) = drop n xs

  pub length-take : (n : ℕ) (xs : List A) → length (take n xs) ≤ n
  length-take zero xs = omega arith
  length-take (suc n) [] = omega arith
  length-take (suc n) (x ∷ xs) = omega (arith, length-take n xs)

  take-nil : (n : ℕ) → take n [] ≡ []
  take-nil zero = refl
  take-nil (suc n) = refl

  drop-nil : (n : ℕ) → drop n [] ≡ []
  drop-nil zero = refl
  drop-nil (suc n) = refl

  -- A page and the next one are the page of twice the size.
  pub take-drop-append : (m n : ℕ) (xs : List A) → take m xs ++ take n (drop m xs) ≡ take (m + n) xs
  take-drop-append zero n xs = let e : 0 + n ≡ n = omega arith in rw e refl
  take-drop-append (suc m) n [] = let e : suc m + n ≡ suc (m + n) = omega arith in rw e (take-nil n)
  take-drop-append (suc m) n (x ∷ xs) =
      let e : suc m + n ≡ suc (m + n) = omega arith in
      rw e (ap (λ (l : List A). x ∷ l) (take-drop-append m n xs))

  pub drop-drop : (m n : ℕ) (xs : List A) → drop n (drop m xs) ≡ drop (m + n) xs
  drop-drop zero n xs = let e : 0 + n ≡ n = omega arith in rw e refl
  drop-drop (suc m) n [] = let e : suc m + n ≡ suc (m + n) = omega arith in rw e (drop-nil n)
  drop-drop (suc m) n (x ∷ xs) =
      let e : suc m + n ≡ suc (m + n) = omega arith in rw e (drop-drop m n xs)

  abbrev pub All : (A → Type 0) → List A → Type 0
  All P [] = Unit
  All P (x ∷ xs) = P x × All P xs

  pub All-take : (P : A → Type 0) (n : ℕ) (xs : List A) → All P xs → All P (take n xs)
  All-take P zero xs h = tt
  All-take P (suc n) [] h = tt
  All-take P (suc n) (x ∷ xs) (h, k) = (h, All-take P n xs k)

  pub All-drop : (P : A → Type 0) (n : ℕ) (xs : List A) → All P xs → All P (drop n xs)
  All-drop P zero xs h = h
  All-drop P (suc n) [] h = tt
  All-drop P (suc n) (x ∷ xs) (h, k) = All-drop P n xs k

  pub All-append : (P : A → Type 0) (xs ys : List A) → All P xs → All P ys → All P (xs ++ ys)
  All-append P [] ys h k = k
  All-append P (x ∷ xs) ys (h, l) k = (h, All-append P xs ys l k)

  -- The rows that are selected meet the condition.
  pub All-select : (p : A → Bool) (xs : List A) → All (λ x. p x ≡ true) (select p xs)
  unfolding select
  All-select p [] = tt
  All-select p (x ∷ xs) = elim (Bool-cases (p x)) [
    | inl e ↦ rw e (e, All-select p xs)
    | inr e ↦ rw e (All-select p xs)
  ]

  -- What all rows meet, the selected ones meet.
  pub All-kept : (P : A → Type 0) (p : A → Bool) (xs : List A) → All P xs → All P (select p xs)
  unfolding select
  All-kept P p [] h = tt
  All-kept P p (x ∷ xs) (h, k) = elim (Bool-cases (p x)) [
    | inl e ↦ rw e (h, All-kept P p xs k)
    | inr e ↦ rw e (All-kept P p xs k)
  ]

  pub All-weaken : (P Q : A → Type 0) → ((x : A) → P x → Q x) → (xs : List A) → All P xs → All Q xs
  All-weaken P Q f [] h = tt
  All-weaken P Q f (x ∷ xs) (h, k) = (f x h, All-weaken P Q f xs k)

  abbrev pub In : A → List A → Type 0
  In x [] = ⊥
  In x (y ∷ ys) = (x ≡ y) ⊎ In x ys

  -- The rows that are selected stand in the table and meet the condition.
  pub All-In : (p : A → Bool) (xs : List A) → All (λ x. In x xs × (p x ≡ true)) (select p xs)
  unfolding select
  All-In p [] = tt
  All-In p (x ∷ xs) =
      let rest =
        All-weaken (λ y. In y xs × (p y ≡ true)) (λ y. In y (x ∷ xs) × (p y ≡ true))
          (λ y h. (inr h.0, h.1)) (select p xs) (All-In p xs) in
      elim (Bool-cases (p x)) [ inl e ↦ rw e ((inl refl, e), rest) | inr e ↦ rw e rest ]

  All-reverse_aux :
      (P : A → Type 0) (xs ys : List A) → All P xs → All P ys → All P (reverse_aux xs ys)
  All-reverse_aux P [] ys h k = k
  All-reverse_aux P (x ∷ xs) ys (h, l) k = All-reverse_aux P xs (x ∷ ys) l (h, k)

  -- What all rows meet, the rows of a page, newest first, meet too.
  pub All-page :
      (P : A → Type 0) (limit start : ℕ) (xs : List A)
      → All P xs
      → All P (take limit (drop start (reverse xs)))
  All-page P limit start xs h =
      All-take P limit (drop start (reverse xs))
        (All-drop P start (reverse xs) (All-reverse_aux P xs [] h tt))

pub All-map :
    {A B : Type 0} (f : A → B) (P : B → Type 0) (xs : List A)
    → All (λ x. P (f x)) xs
    → All P (map f xs)
All-map f P [] h = tt
All-map f P (x ∷ xs) (h, k) = (h, All-map f P xs k)

-- Sorting keeps what all rows meet.
module _ {A : Type 0} (P : A → Type 0) (before : A → A → Bool) where
  All-sorted_insert : (x : A) (xs : List A) → P x → All P xs → All P (sorted_insert before x xs)
  unfolding sorted_insert
  All-sorted_insert x [] h k = (h, tt)
  All-sorted_insert x (y ∷ ys) h (k, l) = elim (Bool-cases (before x y)) [
    | inl e ↦ rw e (h, (k, l))
    | inr e ↦ rw e (k, All-sorted_insert x ys h l)
  ]

  pub All-sort : (xs : List A) → All P xs → All P (sort before xs)
  unfolding sort
  All-sort [] h = tt
  All-sort (x ∷ xs) (h, k) = All-sorted_insert x (sort before xs) h (All-sort xs k)

-- A selection with a row that meets the condition is not empty.
pub In-select :
    {A : Type 0} (p : A → Bool) (x : A) (xs : List A)
    → In x xs
    → p x ≡ true
    → (y : A) × (ys : List A) × (select p xs ≡ y ∷ ys)
unfolding select
In-select p x [] i h = absurd i
In-select p x (z ∷ zs) i h = elim (Bool-cases (p z)) [
  | inl e ↦ (z, select p zs, rw e refl)
  | inr e ↦ elim i [
    | inl same ↦ absurd (let q = ap p same in ground arith)
    | inr later ↦ let (y, ys, f) = In-select p x zs later h in (y, ys, rw e f)
  ]
]

-- Sorting does not change whether some row meets a condition.
module _ {A : Type 0} (before : A → A → Bool) (p : A → Bool) where
  any-sorted_insert : (x : A) (xs : List A) → any p (sorted_insert before x xs) ≡ any p (x ∷ xs)
  unfolding sorted_insert any
  any-sorted_insert x [] = refl
  any-sorted_insert x (y ∷ ys) =
      let ih = any-sorted_insert x ys in
      elim (Bool-cases (before x y)) [ inl e ↦ rw e refl | inr e ↦ rw (e, ih) (ground arith) ]

  pub any-sort : (xs : List A) → any p (sort before xs) ≡ any p xs
  unfolding sort any
  any-sort [] = refl
  any-sort (x ∷ xs) =
      let ih = any-sort xs in
      let inserted = any-sorted_insert x (sort before xs) in ground (arith, ih, inserted)
