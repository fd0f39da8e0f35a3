-- ===== src/Account/Gate/Passed.antt =====
-- internal/api/middleware/auth.go: what a request that passes has shown.
use go_wallet.Prelude.{
  ℕ, ◌+◌, ◌≤◌, ◌⊎◌, ◌==◌, ==_iff, Bool-cases, any, List, Text, Bool, true, false, Option,
  Option-cases, none, some, [], ◌∷◌, ◌≡◌, inl, inr, refl, arith,
}
use go_wallet.Store.{Db, User, AccessToken}
use go_wallet.World.{Env, World, ok, pure, raise, guard, query_one, try_action, read, ◌>>=◌}
use go_wallet.Account.{AuthConfig, user_by_id}
use go_wallet.Account.Gate.{
  AuthMode, Route, authorize, check_given, check_token, check_found, check_token_user, check_known,
  check_last_authenticated_at, check_user_scopes, access_token_row, has_expired, extract, is_none,
  passes_without, tries,
}

-- The user has a scope that the route asks for, where it asks for one.
abbrev pub HasScope : Route → User → Type 0
HasScope route user =
    (route.scopes ≡ [])
    ⊎ ((scope : ℕ) × (any (λ (s : ℕ). s == scope) route.scopes ≡ true)
        × (any (λ (s : ℕ). scope == s) user.scopes ≡ true))

-- The token is in the table and has not expired, and its user is active, has one of the route's
-- scopes where it has any, and was authenticated within the threshold if the route is a secure one.
pub record IsAllowed (config : AuthConfig) (route : Route) (env : Env) (db : Db) (token : ℕ)
    (user : User) : Type 0 where
  pub row :
      (r : AccessToken) × (access_token_row token db ≡ some r)
      × (user_by_id r.user_id db ≡ some user)
      × (t : ℕ) × ((r.valid_until ≡ 0) ⊎ (env.now t ≤ r.valid_until))
  pub active : user.is_active ≡ true
  pub scoped : HasScope route user
  pub recent :
      route.mode ≡ AuthMode.secure
      → (last : ℕ) × (user.last_authenticated_at ≡ some last)
        × (t : ℕ) × (env.now t ≤ last + config.last_authenticated_at_threshold)

scope_met :
    (held scopes : List ℕ)
    → any (λ (scope : ℕ). any (λ (s : ℕ). scope == s) held) scopes ≡ true
    → (scope : ℕ) × (any (λ (s : ℕ). s == scope) scopes ≡ true)
      × (any (λ (s : ℕ). scope == s) held ≡ true)
unfolding any
scope_met held [] h = absurd (ground arith)
scope_met held (x ∷ xs) h = elim (Bool-cases (any (λ (s : ℕ). x == s) held)) [
  | inl e ↦ (x, ground arith, e)
  | inr e ↦ let (scope, at, has) = scope_met held xs (ground arith) in (scope, ground arith, has)
]

scoped_lem :
    (scopes : List ℕ) (route : Route) (user : User)
    → route.scopes ≡ scopes
    → check_user_scopes route user ≡ true
    → HasScope route user
unfolding check_user_scopes
scoped_lem [] route user e h = inl e
scoped_lem (x ∷ xs) route user e h =
    let k = rw e at h in inr (rw e (scope_met user.scopes (x ∷ xs) k))

recent_lem :
    (config : AuthConfig) (route : Route) (user : User) (now : ℕ)
    → check_last_authenticated_at config route user now ≡ true
    → route.mode ≡ AuthMode.secure
    → (last : ℕ) × (user.last_authenticated_at ≡ some last)
      × (now ≤ last + config.last_authenticated_at_threshold)
unfolding check_last_authenticated_at
recent_lem config route user now h secure = elim (Option-cases user.last_authenticated_at) [
  | inl e ↦ absurd (ground (arith, secure))
  | inr (last, e) ↦ (last, e, ground (arith, secure))
]

expiry_lem :
    (valid_until now : ℕ)
    → has_expired valid_until now ≡ false
    → (valid_until ≡ 0) ⊎ (now ≤ valid_until)
expiry_lem valid_until now h = elim (Bool-cases (valid_until == 0)) [
  | inl e ↦ inl ((==_iff valid_until 0).0 e)
  | inr e ↦ inr (ground arith)
]

-- The route needs a token that is good.
abbrev pub is_strict : AuthMode → Bool
is_strict AuthMode.required = true
is_strict AuthMode.secure = true
is_strict _ = false

pub strict-tries : (m : AuthMode) → is_strict m ≡ true → tries m ≡ false
strict-tries AuthMode.required h = refl
strict-tries AuthMode.secure h = refl
strict-tries AuthMode.optional h = absurd (ground arith)
strict-tries AuthMode.try h = absurd (ground arith)
strict-tries AuthMode.no_auth h = absurd (ground arith)

pub strict-passes_without :
    (m : AuthMode) (given : Bool) → is_strict m ≡ true → passes_without m given ≡ false
strict-passes_without AuthMode.required given h = refl
strict-passes_without AuthMode.secure given h = refl
strict-passes_without AuthMode.optional given h = absurd (ground arith)
strict-passes_without AuthMode.try given h = absurd (ground arith)
strict-passes_without AuthMode.no_auth given h = absurd (ground arith)

pub strict-is_none : (m : AuthMode) → is_strict m ≡ true → is_none m ≡ false
strict-is_none AuthMode.required h = refl
strict-is_none AuthMode.secure h = refl
strict-is_none AuthMode.optional h = absurd (ground arith)
strict-is_none AuthMode.try h = absurd (ground arith)
strict-is_none AuthMode.no_auth h = absurd (ground arith)

check_token-ok :
    (config : AuthConfig) (route : Route) (presented : Option ℕ) (env : Env) (w : World)
    {x : Option User}
    → tries route.mode ≡ false
    → (check_token config route presented env w).0 ≡ ok x
    → (token : ℕ) × (user : User) × (presented ≡ some token)
      × (x ≡ some user)
      × IsAllowed config route env w.db token user
unfolding check_token check_found check_token_user check_known query_one try_action read guard raise
    pure ◌>>=◌
check_token-ok config route none env w strict h = absurd (ground (arith, strict))
check_token-ok config route (some token) env w strict h =
    elim (Option-cases (access_token_row token w.db)) [
      | inl missing ↦ absurd (ground (arith, strict))
      | inr (r, found) ↦ elim (Option-cases (user_by_id r.user_id w.db)) [
        | inl missing ↦ absurd (ground (arith, strict))
        | inr (user, there) ↦ (
          token,
          user,
          refl,
          ground (arith, strict),
          record {
            row = (
              r,
              found,
              there,
              w.tick + 1 + 1,
              expiry_lem r.valid_until (env.now (w.tick + 1 + 1)) (ground (arith, strict)),
            );
            active = ground (arith, strict);
            scoped = scoped_lem route.scopes route user refl (ground (arith, strict));
            recent = λ secure.
                let (last, at, le) =
                  recent_lem config route user (env.now (w.tick + 1 + 1)) (ground (arith, strict))
                    secure in
                (last, at, w.tick + 1 + 1, le);
          },
        )
      ]
    ]

-- A request without an earlier authentication reaches the handler of a route that requires one
-- only with a token in its header that is in the table, has not expired or has no expiry, and belongs
-- to an active user who has one of the route's scopes where it asks for any, and who was
-- authenticated within the threshold if the route is a secure one; and it reaches it as that user,
-- whatever else fails.
pub authorize-ok :
    (config : AuthConfig) (parse_uuid : Text → Option ℕ) (route : Route) (header : Text) (env : Env)
    (w : World) {x : Option User}
    → is_strict route.mode ≡ true
    → route.skipped ≡ false
    → (authorize config parse_uuid route none header env w).0 ≡ ok x
    → (token : ℕ) × (user : User) × (parse_uuid (extract header route.scheme).0 ≡ some token)
      × (x ≡ some user)
      × IsAllowed config route env w.db token user
unfolding authorize check_given raise pure
authorize-ok config parse_uuid route header env w {x = x} strict kept h =
    given (extract header route.scheme) (ground (arith, strict-is_none route.mode strict, kept))
  where
    given :
        (e : Text × Bool)
        → (check_given config parse_uuid route e env w).0 ≡ ok x
        → (token : ℕ) × (user : User) × (parse_uuid e.0 ≡ some token)
          × (x ≡ some user)
          × IsAllowed config route env w.db token user
    given ([], b) k = absurd (ground (arith, strict-passes_without route.mode b strict))
    given (c ∷ cs, b) k =
        check_token-ok config route (parse_uuid (c ∷ cs)) env w {x = x}
          (strict-tries route.mode strict) k
