-- ===== src/Account/Login.antt =====
-- internal/auth/service.go: `Login`, `Refresh` and `Logout`.
use go_wallet.Prelude.{ℕ, Text, Bool, true, false, not, Option, none, some, ◌==◌, first, select}
use go_wallet.Store.{Db, User, AccessToken, RefreshToken}
use go_wallet.World.{
  Action, Result, ok, err, pure, raise, guard, or_raise, ask, query_one, if_no_rows, try_action,
  ◌>>=◌, ◌>>◌, unauthorized, user_deactivated,
}
use go_wallet.World.Transaction.{with_transaction, write}
use go_wallet.Account.{AuthConfig, LoginResult, user_by_name, user_by_id, change, authenticate_user}
pub mod Sessions

-- Every failure to load the user is answered alike.
abbrev pub or_unauthorized : Result User → Action User
or_unauthorized (ok user) = pure user
or_unauthorized (err e) = raise unauthorized

-- The password, and a hash that cannot be read is one that does not match.
unfoldable pub check_login : User → Text → Action (Unit {0})
check_login user password = do
  guard user.is_active user_deactivated
  hash ← or_raise user.password unauthorized
  fits ← ask (λ env _. env.password_matches password hash) unauthorized
  guard fits unauthorized

unfoldable pub login : AuthConfig → Text → Text → Action LoginResult
login config username password = do
  found ← try_action (query_one (user_by_name username))
  user ← or_unauthorized found
  check_login user password
  with_transaction (authenticate_user config user.id false)

abbrev pub refresh_token_row : ℕ → Db → Option RefreshToken
refresh_token_row token db =
    first (λ (t : RefreshToken). t.token == token) db.accounts.refresh_tokens

abbrev pub delete_refresh_token : ℕ → Db → Db
delete_refresh_token token = change λ a. record a {
  refresh_tokens = select (λ (t : RefreshToken). not (t.token == token)) a.refresh_tokens;
}

unfoldable pub exchange : AuthConfig → RefreshToken → User → Action LoginResult
exchange config old user = do
  write (delete_refresh_token old.token)
  authenticate_user config user.id false

-- The token is used up, and new ones are given for it.
unfoldable pub refresh : AuthConfig → ℕ → Action LoginResult
refresh config token = do
  old ← if_no_rows unauthorized (query_one (refresh_token_row token))
  user ← query_one (user_by_id old.user_id)
  guard user.is_active user_deactivated
  with_transaction (exchange config old user)

abbrev pub delete_access_token : ℕ → Db → Db
delete_access_token token = change λ a. record a {
  access_tokens = select (λ (t : AccessToken). not (t.token == token)) a.access_tokens;
}

-- The refresh token goes with the access token if it is given.
abbrev pub delete_given : Option ℕ → Action (Unit {0})
delete_given none = pure tt
delete_given (some token) = write (delete_refresh_token token)

unfoldable pub logout : ℕ → Option ℕ → Action (Unit {0})
logout access refresh_token =
    with_transaction (do write (delete_access_token access); delete_given refresh_token)
