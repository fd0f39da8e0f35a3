-- ===== src/World/Bind.antt =====
-- How a chain of calls ended, call by call.
use go_wallet.Prelude.{◌⊎◌, inl, inr, ◌≡◌, refl, arith}
use go_wallet.World.{Env, World, Result, ok, err, Action, ◌>>=◌, Error, query}
use go_wallet.Store.{Db}

module _ {A B : Type 0} (m : Action A) (f : A → Action B) (env : Env) (w : World) where
  -- A chain that returns went through its first call, and then did what the rest does.
  pub >>=-ok :
      {b : B}
      → ((m >>= f) env w).0 ≡ ok b
      → (a : A) × ((m env w).0 ≡ ok a) × ((m >>= f) env w ≡ f a env (m env w).1)
  unfolding ◌>>=◌
  >>=-ok h = go (m env w) refl h
    where
      go :
          {b : B} (r : Result A × World)
          → m env w ≡ r
          → (◌>>=◌ (λ _ _. r) f env w).0 ≡ ok b
          → (a : A) × (r.0 ≡ ok a) × (◌>>=◌ (λ _ _. r) f env w ≡ f a env r.1)
      go (ok a, w') e h = (a, refl, refl)
      go (err x, w') e h = ground arith

  -- A chain goes through its first call, or ends with that call's error.
  pub >>=-cases :
      ((a : A) × ((m env w).0 ≡ ok a) × ((m >>= f) env w ≡ f a env (m env w).1))
      ⊎ ((e : Error) × ((m env w).0 ≡ err e) × ((m >>= f) env w ≡ (err e, (m env w).1)))
  unfolding ◌>>=◌
  >>=-cases = go (m env w)
    where
      go :
          (r : Result A × World)
          → ((a : A) × (r.0 ≡ ok a) × (◌>>=◌ (λ _ _. r) f env w ≡ f a env r.1))
            ⊎ ((e : Error) × (r.0 ≡ err e) × (◌>>=◌ (λ _ _. r) f env w ≡ (err e, r.1)))
      go (ok a, w') = inl (a, refl, refl)
      go (err e, w') = inr (e, refl, refl)

pub Result-cases :
    {A : Type 0} (r : Result A) → ((a : A) × (r ≡ ok a)) ⊎ ((e : Error) × (r ≡ err e))
Result-cases (ok a) = inl (a, refl)
Result-cases (err e) = inr (e, refl)

-- What a query answers is what it finds in the committed tables.
pub query_answer :
    {A : Type 0} (f : Db → A) (env : Env) (w : World) {a : A}
    → (query f env w).0 ≡ ok a
    → a ≡ f w.db
unfolding query
query_answer f env w h = ground arith
