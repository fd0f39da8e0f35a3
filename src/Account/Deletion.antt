-- ===== src/Account/Deletion.antt =====
-- internal/auth/service.go, `DeleteUserAccount`, with the foreign keys of migrations/ that delete
-- the user's rows in the other tables along with the user.
use go_wallet.Prelude.{ℕ, Text, Bool, not, Option, some, none, ◌==◌, select}
use go_wallet.Store.{
  Db, Accounts, User, AccessToken, RefreshToken, PasswordResetToken, ConfirmationToken,
  AppUserProfile, Wallet, Credit, Withdraw,
}
use go_wallet.World.{
  Action, guard, or_raise, ask, ◌>>=◌, ◌>>◌, unauthorized, user_deactivated, not_local_user,
}
use go_wallet.World.Transaction.{with_transaction, write}
pub mod Deleted

abbrev pub accounts_without : ℕ → Accounts → Accounts
accounts_without user a = record {
  users = select (λ (x : User). not (x.id == user)) a.users;
  access_tokens = select (λ (x : AccessToken). not (x.user_id == user)) a.access_tokens;
  refresh_tokens = select (λ (x : RefreshToken). not (x.user_id == user)) a.refresh_tokens;
  password_reset_tokens =
      select (λ (x : PasswordResetToken). not (x.user_id == user)) a.password_reset_tokens;
  confirmation_tokens =
      select (λ (x : ConfirmationToken). not (x.user_id == user)) a.confirmation_tokens;
  app_user_profiles = select (λ (x : AppUserProfile). not (x.user_id == user)) a.app_user_profiles;
}

-- `ON DELETE CASCADE`
unfoldable pub delete_user : ℕ → Db → Db
delete_user user db = record db {
  accounts = accounts_without user db.accounts;
  wallets = select (λ (x : Wallet). not (x.user_id == user)) db.wallets;
  credits = select (λ (x : Credit). not (x.user_id == user)) db.credits;
  withdraws = select (λ (x : Withdraw). not (x.user_id == user)) db.withdraws;
}

unfoldable pub delete_user_account : User → Text → Action (Unit {0})
delete_user_account user current = do
  guard user.is_active user_deactivated
  hash ← or_raise user.password not_local_user
  fits ← ask (λ env _. env.password_matches current hash) unauthorized
  guard fits unauthorized
  with_transaction (write (delete_user user.id))
