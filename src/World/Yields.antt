-- ===== src/World/Yields.antt =====
-- Actions that succeed whatever the environment answers.
use go_wallet.Prelude.{◌≡◌, refl, Bool, true, false, if◌then◌else◌, sym, arith}
use go_wallet.World.{Env, World, Action, Result, ok, err, pure, try_action, ◌>>=◌}
use mathlib.Core.Path.{subst}

pub ok_inj : {A : Type 0} {a b : A} → ok a ≡ ok b → a ≡ b
ok_inj h = cc

-- From every state the action succeeds, with a value of which `P` holds.
abbrev pub Yields : {A : Type 0} → Env → (A → Type 0) → Action A → Type 0
Yields {A = A} env P m = (w : World) → (a : A) × ((m env w).0 ≡ ok a) × P a

pub bind-Yields :
    {A B : Type 0} (env : Env) (P : A → Type 0) (Q : B → Type 0) (m : Action A) (k : A → Action B)
    → Yields env P m
    → ((a : A) → P a → Yields env Q (k a))
    → Yields env Q (m >>= k)
unfolding ◌>>=◌
bind-Yields {A = A} {B = B} env P Q m k first next w = let (a, e, p) = first w in go (m env w) a e p
  where
    go :
        (r : Result A × World) (a : A)
        → r.0 ≡ ok a
        → P a
        → (b : B) × ((◌>>=◌ (λ _ _. r) k env w).0 ≡ ok b) × Q b
    go (ok a', w') a e p = next a' (subst P (ok_inj (sym e)) p) w'
    go (err x, w') a e p = absurd (ground arith)

pub pure-Yields : {A : Type 0} (env : Env) (P : A → Type 0) (a : A) → P a → Yields env P (pure a)
unfolding pure
pure-Yields env P a p w = (a, refl, p)

pub try-Yields : {A : Type 0} (env : Env) (m : Action A) → Yields env (λ _. Unit {0}) (try_action m)
unfolding try_action
try-Yields env m w = ((m env w).0, refl, tt)

pub if_Yields :
    {A : Type 0} (env : Env) (P : A → Type 0) (b : Bool) (m k : Action A)
    → Yields env P m
    → Yields env P k
    → Yields env P (if b then m else k)
if_Yields env P true m k y z = y
if_Yields env P false m k y z = z
