-- ===== src/World/Loops.antt =====
-- What the loops over rows keep.
use go_wallet.Prelude.{refl, Bool, true, false, if◌then◌else◌, List, [], ◌∷◌, ◌≡◌, arith}
use go_wallet.World.{Env, World, Action, Result, ok, err, for_each, each, pure, ◌>>=◌}

module _ {A : Type 0} (env : Env) (P : World → Type 0) (body : A → Action (Unit {0}))
    (keep : (x : A) (w : World) → P w → P (body x env w).1) where
  pub for_each_keeps : (xs : List A) (w : World) → P w → P (for_each body xs env w).1
  unfolding for_each
  for_each_keeps [] w h = h
  for_each_keeps (x ∷ xs) w h = for_each_keeps xs (body x env w).1 (keep x w h)

  pub each_keeps : (xs : List A) (w : World) → P w → P (each body xs env w).1
  unfolding each pure ◌>>=◌
  each_keeps [] w h = h
  each_keeps (x ∷ xs) w h = go (body x env w) (keep x w h) (λ w' k. each_keeps xs w' k)
    where
      go :
          (r : Result (Unit {0}) × World)
          → P r.1
          → ((w' : World) → P w' → P (each body xs env w').1)
          → P (◌>>=◌ (λ _ _. r) (λ _. each body xs) env w).1
      go (ok _, w') k rest = rest w' k
      go (err e, w') k rest = k

-- An action followed by another keeps what both keep.
pub bind_keeps :
    {A B : Type 0} (env : Env) (P : World → Type 0) (m : Action A) (k : A → Action B) (w : World)
    → P (m env w).1
    → ((a : A) (w' : World) → P w' → P (k a env w').1)
    → P ((m >>= k) env w).1
unfolding ◌>>=◌
bind_keeps {A = A} {B = B} env P m k w h keep = go (m env w) h
  where
    go : (r : Result A × World) → P r.1 → P (◌>>=◌ (λ _ _. r) k env w).1
    go (ok a, w') p = keep a w' p
    go (err e, w') p = p

-- An action that reaches `P`, followed by one that leads from `P` to `Q`, which all of `P` meets.
pub bind_reaches :
    {A B : Type 0} (env : Env) (P Q : World → Type 0) (m : Action A) (k : A → Action B) (w : World)
    → P (m env w).1
    → ((w' : World) → P w' → Q w')
    → ((a : A) (w' : World) → P w' → Q (k a env w').1)
    → Q ((m >>= k) env w).1
unfolding ◌>>=◌
bind_reaches {A = A} {B = B} env P Q m k w h weaken keep = go (m env w) h
  where
    go : (r : Result A × World) → P r.1 → Q (◌>>=◌ (λ _ _. r) k env w).1
    go (ok a, w') p = keep a w' p
    go (err e, w') p = weaken w' p

-- What both branches keep.
pub if_keeps :
    {A : Type 0} (env : Env) (P : World → Type 0) (b : Bool) (m k : Action A) (w : World)
    → P (m env w).1
    → P (k env w).1
    → P ((if b then m else k) env w).1
if_keeps env P true m k w p q = p
if_keeps env P false m k w p q = q

-- What a chain that succeeds reaches: its first call keeps `P`, and the rest, where it succeeds,
-- leads from `P` to `Q`.
pub bind_succeeds :
    {A B : Type 0} {b : B} (env : Env) (P Q : World → Type 0) (m : Action A) (k : A → Action B)
    (w : World)
    → P (m env w).1
    → ((a : A) (w' : World) → P w' → (k a env w').0 ≡ ok b → Q (k a env w').1)
    → ((m >>= k) env w).0 ≡ ok b
    → Q ((m >>= k) env w).1
unfolding ◌>>=◌
bind_succeeds {A = A} {B = B} {b = b} env P Q m k w h keep = go (m env w) h
  where
    go :
        (r : Result A × World)
        → P r.1
        → (◌>>=◌ (λ _ _. r) k env w).0 ≡ ok b
        → Q (◌>>=◌ (λ _ _. r) k env w).1
    go (ok a, w') p e = keep a w' p e
    go (err x, w') p e = absurd (ground arith)

-- The same where a branch may count on the test.
pub if_keeps_by :
    {A : Type 0} (env : Env) (P : World → Type 0) (b : Bool) (m k : Action A) (w : World)
    → (b ≡ true → P (m env w).1)
    → (b ≡ false → P (k env w).1)
    → P ((if b then m else k) env w).1
if_keeps_by env P true m k w p q = p refl
if_keeps_by env P false m k w p q = q refl

-- An action followed by another, which may count on the first one's answer.
pub bind_keeps_by :
    {A B : Type 0} (env : Env) (P : World → Type 0) (m : Action A) (k : A → Action B) (w : World)
    → P (m env w).1
    → ((a : A) (w' : World) → (m env w).0 ≡ ok a → P w' → P (k a env w').1)
    → P ((m >>= k) env w).1
unfolding ◌>>=◌
bind_keeps_by {A = A} {B = B} env P m k w h keep = go (m env w) h keep
  where
    go :
        (r : Result A × World)
        → P r.1
        → ((a : A) (w' : World) → r.0 ≡ ok a → P w' → P (k a env w').1)
        → P (◌>>=◌ (λ _ _. r) k env w).1
    go (ok a, w') p keep = keep a w' refl p
    go (err e, w') p keep = p

-- Both ends of a test.
pub either_end :
    {A : Type 0} (P : World → Type 0) (b : Bool) (x y : Result A × World)
    → P x.1
    → P y.1
    → P (if b then x else y).1
either_end P true x y p q = p
either_end P false x y p q = q

abbrev pub All : {A : Type 0} → (A → Type 0) → List A → Type 0
All P [] = Unit
All P (x ∷ xs) = P x × All P xs

-- A loop over rows of which the body may count on `Q`.
pub for_each_keeps_of :
    {A : Type 0} (env : Env) (P : World → Type 0) (Q : A → Type 0) (body : A → Action (Unit {0}))
    → ((x : A) (w : World) → Q x → P w → P (body x env w).1)
    → (xs : List A) (w : World) → All Q xs
    → P w
    → P (for_each body xs env w).1
unfolding for_each
for_each_keeps_of env P Q body keep [] w q h = h
for_each_keeps_of env P Q body keep (x ∷ xs) w (q, r) h =
    for_each_keeps_of env P Q body keep xs (body x env w).1 r (keep x w q h)
