-- ===== src/Account/Gate.antt =====
-- internal/api/middleware/auth.go: whether a request reaches its handler, and as which user.
use go_wallet.Prelude.{
  ℕ, zero, suc, ◌+◌, Text, Bool, true, false, ◌&&◌, ◌||◌, not, Option, none, some, List, [], ◌∷◌,
  ◌==◌, ltb, leb, text_eq, if◌then◌else◌, first, any, length,
}
use go_wallet.Store.{Db, User, AccessToken}
use go_wallet.World.{
  Action, Error, Result, ok, err, pure, raise, guard, query_one, try_action, read, ◌>>=◌, ◌>>◌,
  no_rows, user_deactivated, malformed_token, last_authenticated_at_exceeded, missing_scopes,
}
use go_wallet.Account.{AuthConfig, user_by_id}
pub mod Passed
pub mod LoggedOut

pub data AuthMode : Type 0 where
  required secure optional try no_auth : AuthMode

-- What a route asks for, and whether the skipper takes it out; `failure` is the error of its
-- failure mode.
pub record Route : Type 0 where
  pub mode : AuthMode
  pub failure : Error
  pub scheme : Text
  pub scopes : List ℕ
  pub skipped : Bool

abbrev pub drop : ℕ → Text → Text
drop zero s = s
drop (suc n) [] = []
drop (suc n) (c ∷ cs) = drop n cs

abbrev pub take : ℕ → Text → Text
take zero s = []
take (suc n) [] = []
take (suc n) (c ∷ cs) = c ∷ take n cs

-- The token behind the scheme, and whether anything was given. What stands between them is not
-- read.
unfoldable pub extract : Text → Text → Text × Bool
extract [] scheme = ([], false)
extract (c ∷ cs) [] = (c ∷ cs, true)
extract (c ∷ cs) (s ∷ ss) =
    if ltb (length (c ∷ cs)) (length (s ∷ ss) + 1)
      || not (text_eq (take (length (s ∷ ss)) (c ∷ cs)) (s ∷ ss))
    then ([], true)
    else (drop (length (s ∷ ss) + 1) (c ∷ cs), true)

abbrev pub is_secure : AuthMode → Bool
is_secure AuthMode.secure = true
is_secure _ = false

-- The mode lets a request without a token pass; `optional` only if nothing was given.
abbrev pub passes_without : AuthMode → Bool → Bool
passes_without AuthMode.required given = false
passes_without AuthMode.secure given = false
passes_without AuthMode.optional given = not given
passes_without AuthMode.try given = true
passes_without AuthMode.no_auth given = true

-- The mode lets a request with a bad token pass.
abbrev pub tries : AuthMode → Bool
tries AuthMode.try = true
tries AuthMode.no_auth = true
tries _ = false

abbrev pub is_none : AuthMode → Bool
is_none AuthMode.no_auth = true
is_none _ = false

unfoldable pub check_last_authenticated_at : AuthConfig → Route → User → ℕ → Bool
check_last_authenticated_at config route user now =
    not (is_secure route.mode) || elim user.last_authenticated_at [
      | none ↦ false
      | some t ↦ leb now (t + config.last_authenticated_at_threshold)
    ]

abbrev pub has_none : List ℕ → Bool
has_none [] = true
has_none (s ∷ ss) = false

unfoldable pub check_user_scopes : Route → User → Bool
check_user_scopes route user =
    has_none route.scopes
    || any (λ (scope : ℕ). any (λ (s : ℕ). scope == s) user.scopes) route.scopes

-- The checks of a user who is known.
unfoldable pub check_known : AuthConfig → Route → User → Action (Option User)
check_known config route user = do
  now ← read (λ env. env.now)
  guard (check_last_authenticated_at config route user now) last_authenticated_at_exceeded
  guard (check_user_scopes route user) missing_scopes
  pure (some user)

-- A zero time is no expiry.
abbrev pub has_expired : ℕ → ℕ → Bool
has_expired valid_until now = not (valid_until == 0) && ltb valid_until now

unfoldable pub check_token_user : AuthConfig → Route → AccessToken → User → Action (Option User)
unfolding check_known
check_token_user config route token user = do
  now ← read (λ env. env.now)
  if has_expired token.valid_until now
      then (if tries route.mode then pure none else raise route.failure)
      else (do guard user.is_active user_deactivated; check_known config route user)

abbrev pub access_token_row : ℕ → Db → Option AccessToken
access_token_row token db = first (λ (t : AccessToken). t.token == token) db.accounts.access_tokens

-- By how the search for the token ended: without it, the mode decides.
unfoldable pub check_found : AuthConfig → Route → Result AccessToken → Action (Option User)
check_found config route (ok token) = do
  user ← query_one (user_by_id token.user_id)
  check_token_user config route token user
check_found config route (err no_rows) = if tries route.mode then pure none else raise route.failure
check_found config route (err e) = raise e

unfoldable pub check_token : AuthConfig → Route → Option ℕ → Action (Option User)
check_token config route none = if tries route.mode then pure none else raise malformed_token
check_token config route (some token) = do
  found ← try_action (query_one (access_token_row token))
  check_found config route found

unfoldable pub check_given :
    AuthConfig → (Text → Option ℕ) → Route → Text × Bool → Action (Option User)
check_given config parse_uuid route ([], given) =
    if passes_without route.mode given then pure none else raise route.failure
check_given config parse_uuid route (c ∷ cs, given) = check_token config route (parse_uuid (c ∷ cs))

-- The user that an earlier run of the middleware found, or the one of the token. `none` lets the
-- request pass without a user. The library's test of a UUID, and its value, are the parameter
-- `parse_uuid`.
unfoldable pub authorize :
    AuthConfig → (Text → Option ℕ) → Route → Option User → Text → Action (Option User)
authorize config parse_uuid route (some user) header =
    if is_none route.mode || route.skipped then pure (some user) else check_known config route user
authorize config parse_uuid route none header =
    if is_none route.mode || route.skipped
    then pure none
    else check_given config parse_uuid route (extract header route.scheme)
