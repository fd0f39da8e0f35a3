-- ===== src/Account/Deletion/Deleted.antt =====
-- internal/auth/service.go, `DeleteUserAccount`: what is gone with a user.
use go_wallet.Prelude.{◌==◌, ◌≢◌, sym, any, select, ℕ, ◌+◌, Text, true, false, some, ◌≡◌, arith}
use go_wallet.Prelude.Rows.Without.{without_any, without_kept}
use go_wallet.Store.{AccessToken, RefreshToken, Credit, Withdraw, Wallet, User}
use go_wallet.World.{Env, World, ok, guard, or_raise, ask, commit, ◌>>=◌}
use go_wallet.World.Transaction.{with_transaction, end_transaction, write}
use go_wallet.Account.Deletion.{delete_user, delete_user_account, select, Db}
use mathlib.Core.Path.{subst}

other_user : (n user other : ℕ) → user ≢ other → (n == other) ≡ true → (n == user) ≡ false
other_user n user other differ h = ground (arith, differ)

-- Nothing of the user is left, and of another user all is left.
pub record IsGone (user other : ℕ) (old : Db) (new : Db) : Type 0 where
  pub no_user : any (λ (x : User). x.id == user) new.accounts.users ≡ false
  pub no_access : any (λ (x : AccessToken). x.user_id == user) new.accounts.access_tokens ≡ false
  pub no_refresh : any (λ (x : RefreshToken). x.user_id == user) new.accounts.refresh_tokens ≡ false
  pub no_wallet : any (λ (x : Wallet). x.user_id == user) new.wallets ≡ false
  pub no_credit : any (λ (x : Credit). x.user_id == user) new.credits ≡ false
  pub no_withdraw : any (λ (x : Withdraw). x.user_id == user) new.withdraws ≡ false
  pub same_wallets :
      select (λ (x : Wallet). x.user_id == other) new.wallets
      ≡ select (λ (x : Wallet). x.user_id == other) old.wallets
  pub same_credits :
      select (λ (x : Credit). x.user_id == other) new.credits
      ≡ select (λ (x : Credit). x.user_id == other) old.credits
  pub same_withdraws :
      select (λ (x : Withdraw). x.user_id == other) new.withdraws
      ≡ select (λ (x : Withdraw). x.user_id == other) old.withdraws

delete_user-IsGone :
    (user other : ℕ) (db : Db) → user ≢ other → IsGone user other db (delete_user user db)
unfolding delete_user
delete_user-IsGone user other db differ = record {
  no_user = without_any (λ (x : User). x.id == user) db.accounts.users;
  no_access = without_any (λ (x : AccessToken). x.user_id == user) db.accounts.access_tokens;
  no_refresh = without_any (λ (x : RefreshToken). x.user_id == user) db.accounts.refresh_tokens;
  no_wallet = without_any (λ (x : Wallet). x.user_id == user) db.wallets;
  no_credit = without_any (λ (x : Credit). x.user_id == user) db.credits;
  no_withdraw = without_any (λ (x : Withdraw). x.user_id == user) db.withdraws;
  same_wallets =
      without_kept (λ (x : Wallet). x.user_id == user) (λ (x : Wallet). x.user_id == other)
        db.wallets (λ x. other_user x.user_id user other differ);
  same_credits =
      without_kept (λ (x : Credit). x.user_id == user) (λ (x : Credit). x.user_id == other)
        db.credits (λ x. other_user x.user_id user other differ);
  same_withdraws =
      without_kept (λ (x : Withdraw). x.user_id == user) (λ (x : Withdraw). x.user_id == other)
        db.withdraws (λ x. other_user x.user_id user other differ);
}

deletion_steps :
    (user : User) (current hash : Text) (env : Env) (w : World)
    → ((t : ℕ) → env.db_fails t ≡ false)
    → user.password ≡ some hash
    → (delete_user_account user current env w).0 ≡ ok tt
    → (user.is_active ≡ true)
      × (env.password_matches current hash ≡ some true)
      × ((delete_user_account user current env w).1.db ≡ delete_user user.id w.db)
unfolding delete_user_account with_transaction end_transaction write commit guard or_raise ask ◌>>=◌
deletion_steps user current hash env w up p h = (
  ground (arith, p),
  ground (arith, p),
  ground (arith, p, up (w.tick + 1), up (w.tick + 1 + 1), up (w.tick + 1 + 1 + 1)),
)

-- A deletion that succeeds while the database answers is of an active user whose current password
-- was given. Afterwards no user row, session, wallet, credit or withdrawal of the user is left,
-- whatever its status, and the wallets, credits and withdrawals of any other user are what they
-- were.
delete_user_account-ok :
    (user : User) (other : ℕ) (current hash : Text) (env : Env) (w : World)
    → ((t : ℕ) → env.db_fails t ≡ false)
    → user.password ≡ some hash
    → user.id ≢ other
    → (delete_user_account user current env w).0 ≡ ok tt
    → (user.is_active ≡ true)
      × (env.password_matches current hash ≡ some true)
      × IsGone user.id other w.db (delete_user_account user current env w).1.db
delete_user_account-ok user other current hash env w up p differ h =
    let (active, fits, after) = deletion_steps user current hash env w up p h in
    (
      active,
      fits,
      subst (IsGone user.id other w.db) (sym after) (delete_user-IsGone user.id other w.db differ),
    )
