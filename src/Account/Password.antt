-- ===== src/Account/Password.antt =====
-- internal/auth/service.go: `UpdatePassword`, `ResetPassword` and `InitPasswordReset`.
use go_wallet.Prelude.{
  ℕ, ◌+◌, Text, Bool, true, false, ◌&&◌, not, Option, none, some, ◌==◌, ltb, if◌then◌else◌, first,
  any, insert,
}
use go_wallet.Store.{Db, User, PasswordResetToken}
use go_wallet.World.{
  Action, Result, ok, err, pure, raise, guard, or_raise, ask, query, query_one, if_no_rows,
  try_action, fresh_id, read, ◌>>=◌, ◌>>◌, unauthorized, user_deactivated, not_local_user, bad_hash,
  invalid_password, token_missing, token_expired, no_rows,
}
use go_wallet.World.Transaction.{with_transaction, write}
use go_wallet.Account.{
  AuthConfig, LoginResult, user_by_name, user_by_id, change, update_user, check_user,
  authenticate_user, List,
}
pub mod Reset
pub mod Changed

-- The current password, unless the caller has verified the user otherwise.
unfoldable pub verify_password : Text → Text → Bool → Action (Unit {0})
verify_password current hash true = pure tt
verify_password current hash false = do
  fits ← ask (λ env _. env.password_matches current hash) bad_hash
  guard fits unauthorized

-- The new hash, and a new session that ends all others.
unfoldable pub set_password : AuthConfig → ℕ → Text → Action LoginResult
set_password config user hash = do
  write (update_user user λ u. record u { password = some hash })
  authenticate_user config user true

unfoldable pub update_password : AuthConfig → User → Text → Text → Bool → Action LoginResult
update_password config user current new skip = do
  guard user.is_active user_deactivated
  old ← or_raise user.password not_local_user
  verify_password current old skip
  hash ← ask (λ env t. env.hash_password t new) invalid_password
  with_transaction (set_password config user.id hash)

abbrev pub reset_token_row : ℕ → Db → Option PasswordResetToken
reset_token_row token db =
    first (λ (t : PasswordResetToken). t.token == token) db.accounts.password_reset_tokens

unfoldable pub reset_password : AuthConfig → ℕ → Text → Action LoginResult
reset_password config token new = do
  row ← if_no_rows token_missing (query_one (reset_token_row token))
  user ← query_one (user_by_id row.user_id)
  now ← read (λ env. env.now)
  guard (not (ltb row.valid_until now)) token_expired
  update_password config user List.[] new true

-- A token of the user that was made within the duration and still holds.
abbrev pub is_recent_reset : ℕ → ℕ → ℕ → PasswordResetToken → Bool
is_recent_reset user duration now t =
    t.user_id == user && ltb now (t.created_at + duration) && ltb now t.valid_until

-- The token that there is, or a new one.
unfoldable pub reset_token_or_new : AuthConfig → ℕ → Result PasswordResetToken → Action ℕ
reset_token_or_new config user (ok row) = pure row.token
reset_token_or_new config user (err no_rows) = do
  now ← read (λ env. env.now)
  token ← fresh_id
  check_user user
  write (
      change λ a. record a {
        password_reset_tokens =
            insert
              (record {
                token = token;
                valid_until = now + config.password_reset_token_validity;
                user_id = user;
                created_at = now;
              })
              a.password_reset_tokens;
      })
  pure token
reset_token_or_new config user (err e) = raise e

unfoldable pub give_reset_token : AuthConfig → ℕ → Action (Option ℕ)
give_reset_token config user = with_transaction (do
  now ← read (λ env. env.now)
  found ← try_action (
      query_one λ db.
        first (is_recent_reset user config.password_reset_token_reuse_duration now)
          db.accounts.password_reset_tokens)
  token ← reset_token_or_new config user found
  pure (some token))

-- Nothing within the debounce time of the last token.
unfoldable pub debounced_reset : AuthConfig → ℕ → Action (Option ℕ)
debounced_reset config user =
    if ltb 0 config.password_reset_token_debounce_duration
    then (do
      now ← read (λ env. env.now)
      recent ← query λ db.
          any (is_recent_reset user config.password_reset_token_debounce_duration now)
            db.accounts.password_reset_tokens
      if recent then pure none else give_reset_token config user)
    else give_reset_token config user

abbrev pub has_password : User → Bool
has_password user = elim user.password [ none ↦ false | some p ↦ true ]

-- A user that is not there, not active or without a password gets no token and no error.
unfoldable pub init_reset_of : AuthConfig → Result User → Action (Option ℕ)
init_reset_of config (ok user) =
    if user.is_active && has_password user then debounced_reset config user.id else pure none
init_reset_of config (err no_rows) = pure none
init_reset_of config (err e) = raise e

unfoldable pub init_password_reset : AuthConfig → Text → Action (Option ℕ)
init_password_reset config username = do
  found ← try_action (query_one (user_by_name username))
  init_reset_of config found
