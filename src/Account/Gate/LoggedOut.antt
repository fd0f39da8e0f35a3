-- ===== src/Account/Gate/LoggedOut.antt =====
-- internal/auth/service.go, `Logout`, and internal/api/middleware/auth.go: a token after its
-- logout.
use go_wallet.Prelude.{
  ℕ, ◌+◌, Text, Bool, true, false, not, Option, none, some, List, [], ◌∷◌, ◌==◌, ◌≡◌, refl, ap, ◌∙◌,
  arith, first, select,
}
use go_wallet.Store.{AccessToken}
use go_wallet.World.{Env, World, err, pure, raise, commit, query_one, try_action, ◌>>=◌}
use go_wallet.World.Transaction.{with_transaction, write, end_transaction}
use go_wallet.Account.{AuthConfig}
use go_wallet.Account.Login.{logout}
use go_wallet.Account.Gate.{
  Route, authorize, check_given, check_token, check_found, access_token_row, extract, tries,
}
use go_wallet.Account.Gate.Passed.{is_strict, strict-tries, strict-passes_without, strict-is_none}

access_token_gone :
    (token : ℕ) (rows : List AccessToken)
    → first
        (λ (t : AccessToken). t.token == token)
        (select (λ (t : AccessToken). not (t.token == token)) rows)
      ≡ none
unfolding first select
access_token_gone token [] = refl
access_token_gone token (x ∷ xs) = ground (arith, access_token_gone token xs)

logout_rows :
    (token : ℕ) (refresh_token : Option ℕ) (env : Env) (w : World)
    → ((t : ℕ) → env.db_fails t ≡ false)
    → (logout token refresh_token env w).1.db.accounts.access_tokens
      ≡ select (λ (t : AccessToken). not (t.token == token)) w.db.accounts.access_tokens
unfolding logout with_transaction end_transaction write commit pure ◌>>=◌
logout_rows token none env w up = ground (arith, up w.tick, up (w.tick + 1), up (w.tick + 1 + 1))
logout_rows token (some r) env w up =
    ground (arith, up w.tick, up (w.tick + 1), up (w.tick + 1 + 1), up (w.tick + 1 + 1 + 1))

check_token-missing :
    (config : AuthConfig) (route : Route) (token : ℕ) (env : Env) (w : World)
    → tries route.mode ≡ false
    → env.db_fails w.tick ≡ false
    → access_token_row token w.db ≡ none
    → (check_token config route (some token) env w).0 ≡ err route.failure
unfolding check_token check_found query_one try_action raise ◌>>=◌
check_token-missing config route token env w strict up missing = ground (arith, strict, up, missing)

refused :
    (config : AuthConfig) (parse_uuid : Text → Option ℕ) (route : Route) (token : ℕ) (env : Env)
    (w : World) (e : Text × Bool)
    → is_strict route.mode ≡ true
    → env.db_fails w.tick ≡ false
    → access_token_row token w.db ≡ none
    → parse_uuid e.0 ≡ some token
    → (check_given config parse_uuid route e env w).0 ≡ err route.failure
unfolding check_given raise
refused config parse_uuid route token env w ([], b) strict up missing k =
    ground (arith, strict-passes_without route.mode b strict)
refused config parse_uuid route token env w (c ∷ cs, b) strict up missing k =
    ap (λ o. (check_token config route o env w).0) k
    ∙ check_token-missing config route token env w (strict-tries route.mode strict) up missing

-- While the database answers, an access token that was logged out opens no route that requires a
-- token: every later request with it, on a connection without an earlier authentication, is
-- answered with the route's error.
pub logout-authorize :
    (config : AuthConfig) (parse_uuid : Text → Option ℕ) (route : Route) (header : Text) (token : ℕ)
    (refresh_token : Option ℕ) (env later : Env) (w : World)
    → ((t : ℕ) → env.db_fails t ≡ false)
    → ((t : ℕ) → later.db_fails t ≡ false)
    → is_strict route.mode ≡ true
    → route.skipped ≡ false
    → parse_uuid (extract header route.scheme).0 ≡ some token
    → (authorize config parse_uuid route none header later (logout token refresh_token env w).1).0
      ≡ err route.failure
unfolding authorize
logout-authorize config parse_uuid route header token refresh_token env later w up up' strict kept
      same =
    ground (arith, strict-is_none route.mode strict, kept, given (extract header route.scheme) same)
  where
    after : World
    after = (logout token refresh_token env w).1

    given :
        (e : Text × Bool)
        → parse_uuid e.0 ≡ some token
        → (check_given config parse_uuid route e later after).0 ≡ err route.failure
    given e k =
        refused config parse_uuid route token later after e strict (up' _)
          (ap (first (λ (t : AccessToken). t.token == token))
              (logout_rows token refresh_token env w up)
            ∙ access_token_gone token w.db.accounts.access_tokens)
          k
