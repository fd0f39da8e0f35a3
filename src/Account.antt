-- ===== src/Account.antt =====
-- internal/auth/service.go: users, their sessions and their passwords.
use go_wallet.Prelude.{
  ℕ, ◌+◌, Text, Bool, true, false, ◌&&◌, not, Option, none, some, List, [], ◌∷◌, ◌==◌, text_eq,
  to_lower, if◌then◌else◌, first, any, select, modify, insert,
}
use go_wallet.Store.{Db, Accounts, User, AccessToken, RefreshToken, AppUserProfile}
use go_wallet.World.{
  Action, Error, Result, ok, err, pure, raise, guard, or_raise, ask, query, query_one, if_no_rows,
  fresh_id, read, ◌>>=◌, ◌>>◌, foreign_key, profile_missing, no_rows, unauthorized,
  user_deactivated, try_action,
}
use go_wallet.World.Transaction.{with_transaction, write}
use go_wallet.Chains.{trim_space}
pub mod Tokens
pub mod Login
pub mod Password
pub mod Registration
pub mod Deletion
pub mod Gate

-- The durations of the configuration, in seconds, whether a new user must confirm, and the scopes
-- that a new user gets.
pub record AuthConfig : Type 0 where
  pub access_token_validity : ℕ
  pub password_reset_token_validity : ℕ
  pub password_reset_token_debounce_duration : ℕ
  pub password_reset_token_reuse_duration : ℕ
  pub registration_requires_confirmation : Bool
  pub confirmation_token_validity : ℕ
  pub confirmation_token_debounce_duration : ℕ
  pub default_user_scopes : List ℕ
  pub last_authenticated_at_threshold : ℕ

-- The access token and the refresh token.
abbrev pub LoginResult : Type 0
LoginResult = ℕ × ℕ

unfoldable pub to_username_format : Text → Text
unfolding to_lower trim_space
to_username_format name = trim_space (to_lower name)

abbrev pub has_username : Text → User → Bool
has_username name user = elim user.username [
  | none ↦ false
  | some n ↦ text_eq n (to_username_format name)
]

abbrev pub user_by_name : Text → Db → Option User
user_by_name name db = first (has_username name) db.accounts.users

abbrev pub user_by_id : ℕ → Db → Option User
user_by_id id db = first (λ (user : User). user.id == id) db.accounts.users

abbrev pub change : (Accounts → Accounts) → Db → Db
change f db = record db { accounts = f db.accounts }

abbrev pub update_user : ℕ → (User → User) → Db → Db
update_user id f =
    change λ a. record a { users = modify (λ (user : User). user.id == id) f a.users }

-- A token's user must exist.
unfoldable pub check_user : ℕ → Action (Unit {0})
check_user id = do
  found ← query λ db. any (λ (user : User). user.id == id) db.accounts.users
  guard found foreign_key

-- All of the user's access tokens and refresh tokens.
unfoldable pub invalidate_tokens : ℕ → Action (Unit {0})
invalidate_tokens id = do
  write (
      change λ a. record a {
        access_tokens = select (λ (t : AccessToken). not (t.user_id == id)) a.access_tokens;
      })
  write (
      change λ a. record a {
        refresh_tokens = select (λ (t : RefreshToken). not (t.user_id == id)) a.refresh_tokens;
      })

unfoldable pub insert_access_token : AuthConfig → ℕ → Action ℕ
insert_access_token config id = do
  now ← read (λ env. env.now)
  token ← fresh_id
  check_user id
  write (
      change λ a. record a {
        access_tokens =
            insert
              (record {
                token = token;
                valid_until = now + config.access_token_validity;
                user_id = id;
              })
              a.access_tokens;
      })
  pure token

unfoldable pub insert_refresh_token : ℕ → Action ℕ
insert_refresh_token id = do
  token ← fresh_id
  check_user id
  write (
      change λ a. record a {
        refresh_tokens = insert (record { token = token; user_id = id }) a.refresh_tokens;
      })
  pure token

-- The two new tokens, and the time of the authentication.
unfoldable pub new_tokens : AuthConfig → ℕ → Action LoginResult
new_tokens config id = do
  access ← insert_access_token config id
  refresh ← insert_refresh_token id
  now ← read (λ env. env.now)
  write (update_user id λ user. record user { last_authenticated_at = some now })
  pure (access, refresh)

unfoldable pub authenticate_user : AuthConfig → ℕ → Bool → Action LoginResult
authenticate_user config id invalidate_existing =
    if invalidate_existing
    then (do invalidate_tokens id; new_tokens config id)
    else new_tokens config id

unfoldable pub get_app_user_profile : ℕ → Action AppUserProfile
get_app_user_profile id =
    if_no_rows profile_missing (
      query_one λ db. first (λ (p : AppUserProfile). p.user_id == id) db.accounts.app_user_profiles)
