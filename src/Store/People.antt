-- ===== src/Store/People.antt =====
-- The tables of the accounts (internal/models, migrations).
use go_wallet.Prelude.{ℕ, Text, Bool, Option, List}

pub data UserRole : Type 0 where
  admin user : UserRole

-- The accounts (scopes are codes; push tokens and legal texts are left out); times are in
-- seconds.
pub record User : Type 0 where
  pub id : ℕ
  pub username : Option Text
  pub password : Option Text
  pub is_active : Bool
  pub requires_confirmation : Bool
  pub last_authenticated_at : Option ℕ
  pub scopes : List ℕ
  pub role : UserRole

pub record AccessToken : Type 0 where
  pub token : ℕ
  pub valid_until : ℕ
  pub user_id : ℕ

pub record RefreshToken : Type 0 where
  pub token : ℕ
  pub user_id : ℕ

pub record PasswordResetToken : Type 0 where
  pub token : ℕ
  pub valid_until : ℕ
  pub user_id : ℕ
  pub created_at : ℕ

pub record ConfirmationToken : Type 0 where
  pub token : ℕ
  pub valid_until : ℕ
  pub user_id : ℕ
  pub created_at : ℕ

pub record AppUserProfile : Type 0 where
  pub user_id : ℕ

pub record Accounts : Type 0 where
  pub users : List User
  pub access_tokens : List AccessToken
  pub refresh_tokens : List RefreshToken
  pub password_reset_tokens : List PasswordResetToken
  pub confirmation_tokens : List ConfirmationToken
  pub app_user_profiles : List AppUserProfile
