-- ===== src/Account/Registration.antt =====
-- internal/auth/service.go: `Register` and `CompleteRegister`.
use go_wallet.Prelude.{
  ℕ, ◌+◌, Text, Bool, true, false, ◌&&◌, ◌||◌, not, Option, none, some, ◌==◌, ltb, if◌then◌else◌,
  first, any, select, insert, text_eq,
}
use go_wallet.Store.{UserRole, Db, User, ConfirmationToken, AppUserProfile}
use go_wallet.World.{
  Action, Result, ok, err, pure, raise, guard, ask, query, query_one, if_no_rows, try_action,
  fresh_id, commit, read, ◌>>=◌, ◌>>◌, user_exists, not_unique, invalid_password, token_missing,
  no_rows,
}
use go_wallet.World.Transaction.{with_transaction, write}
use go_wallet.Account.{
  AuthConfig, LoginResult, to_username_format, has_username, user_by_name, user_by_id, change,
  update_user, check_user, authenticate_user,
}
pub mod Registered

-- Whether the user must confirm, and the token to do it with.
abbrev pub RegisterResult : Type 0
RegisterResult = Bool × Option ℕ

abbrev pub is_recent_confirmation : ℕ → ℕ → ℕ → ConfirmationToken → Bool
is_recent_confirmation user duration now t =
    t.user_id == user && ltb now (t.created_at + duration) && ltb now t.valid_until

unfoldable pub insert_confirmation_token : AuthConfig → ℕ → Action ℕ
insert_confirmation_token config user = do
  now ← read (λ env. env.now)
  token ← fresh_id
  check_user user
  write (
      change λ a. record a {
        confirmation_tokens =
            insert
              (record {
                token = token;
                valid_until = now + config.confirmation_token_validity;
                user_id = user;
                created_at = now;
              })
              a.confirmation_tokens;
      })
  pure token

-- A user who has still to confirm gets another token, but not within the debounce time.
unfoldable pub confirm_again : AuthConfig → User → Action RegisterResult
confirm_again config user = do
  guard user.requires_confirmation user_exists
  now ← read (λ env. env.now)
  recent ← query λ db.
      any (is_recent_confirmation user.id config.confirmation_token_debounce_duration now)
        db.accounts.confirmation_tokens
  if recent then pure (user.requires_confirmation, none) else (do
    token ← insert_confirmation_token config user.id
    pure (user.requires_confirmation, some token))

abbrev pub new_user : AuthConfig → Text → Text → ℕ → ℕ → User
new_user config username hash now id = record {
  id = id;
  username = some (to_username_format username);
  password = some hash;
  is_active = not config.registration_requires_confirmation;
  requires_confirmation = config.registration_requires_confirmation;
  last_authenticated_at = some now;
  scopes = config.default_user_scopes;
  role = UserRole.user;
}

-- The user, under the unique key of `users`.
unfoldable pub insert_user : AuthConfig → Text → Text → Action ℕ
insert_user config username hash = do
  now ← read (λ env. env.now)
  id ← fresh_id
  taken ← query λ db. any (has_username username) db.accounts.users
  guard (not taken) not_unique
  write (change λ a. record a { users = insert (new_user config username hash now id) a.users })
  pure id

unfoldable pub insert_profile : ℕ → Action (Unit {0})
insert_profile user = write (
    change
      λ a. record a { app_user_profiles = insert (record { user_id = user }) a.app_user_profiles })

unfoldable pub first_token : AuthConfig → ℕ → Action (Option ℕ)
first_token config user =
    if config.registration_requires_confirmation
    then (do token ← insert_confirmation_token config user; pure (some token))
    else pure none

unfoldable pub add_user : AuthConfig → Text → Text → Action RegisterResult
add_user config username hash = do
  user ← insert_user config username hash
  insert_profile user
  token ← first_token config user
  pure (config.registration_requires_confirmation, token)

unfoldable pub register_new : AuthConfig → Text → Text → Action RegisterResult
register_new config username password = do
  hash ← ask (λ env t. env.hash_password t password) invalid_password
  with_transaction (add_user config username hash)

-- By how the search for the username ended.
unfoldable pub register_found : AuthConfig → Text → Text → Result User → Action RegisterResult
register_found config username password (ok user) = confirm_again config user
register_found config username password (err no_rows) = register_new config username password
register_found config username password (err e) = raise e

unfoldable pub register : AuthConfig → Text → Text → Action RegisterResult
register config username password = do
  found ← try_action (query_one (user_by_name username))
  register_found config username password found

abbrev pub confirmation_row : ℕ → ℕ → Db → Option ConfirmationToken
confirmation_row token now db =
    first (λ (t : ConfirmationToken). t.token == token && ltb now t.valid_until)
      db.accounts.confirmation_tokens

-- A user who is already active is answered with empty tokens, here `none`.
unfoldable pub confirm_user : AuthConfig → ℕ → User → Action (Option LoginResult)
confirm_user config token user =
    if user.is_active || not user.requires_confirmation then pure none else (do
      write (update_user user.id λ u. record u { is_active = true; requires_confirmation = false })
      write (
          change λ a. record a {
            confirmation_tokens =
                select (λ (t : ConfirmationToken). not (t.token == token)) a.confirmation_tokens;
          })
      tokens ← authenticate_user config user.id false
      pure (some tokens))

unfoldable pub complete_register : AuthConfig → ℕ → Action (Option LoginResult)
complete_register config token = with_transaction (do
  now ← read (λ env. env.now)
  row ← if_no_rows token_missing (query_one (confirmation_row token now))
  user ← query_one (user_by_id row.user_id)
  confirm_user config row.token user)
