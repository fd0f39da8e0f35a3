-- ===== src/Account/Password/Reset.antt =====
-- internal/auth/service.go: what a change of the password and a request for a reset do.
use go_wallet.Prelude.{
  ℕ, Text, Bool, true, false, ◌&&◌, none, some, List, [], ◌≡◌, ◌⊎◌, inl, inr, refl, ◌∙◌, arith,
}
use go_wallet.Store.{Db, User, PasswordResetToken}
use go_wallet.World.{
  Env, World, ok, ask, query, query_one, if_no_rows, try_action, guard, or_raise, commit, fresh_id,
  read, pure, ◌>>=◌,
}
use go_wallet.World.Loops.{either_end, bind_keeps}
use go_wallet.World.Transaction.{write, with_transaction_keeps}
use go_wallet.Account.{
  AuthConfig, authenticate_user, new_tokens, invalidate_tokens, insert_access_token,
  insert_refresh_token, check_user, user_by_name,
}
use go_wallet.Account.Password.{
  update_password, reset_password, verify_password, init_password_reset, init_reset_of,
  has_password, not_local_user, set_password,
}

-- While the database answers, a request for the reset of an unknown user's password, of a user who
-- is not active or of one without a password ends without an error, without a token, and without a
-- change of any table.
init_password_reset-none :
    (config : AuthConfig) (username : Text) (env : Env) (w : World)
    → ((t : ℕ) → env.db_fails t ≡ false)
    → (user_by_name username w.db ≡ none)
      ⊎ ((user : User) × (user_by_name username w.db ≡ some user)
          × ((user.is_active && has_password user) ≡ false))
    → ((init_password_reset config username env w).0 ≡ ok none)
      × ((init_password_reset config username env w).1.db ≡ w.db)
unfolding init_password_reset init_reset_of query_one try_action pure ◌>>=◌
init_password_reset-none config username env w up (inl missing) =
    (ground (arith, up w.tick, missing), ground (arith, up w.tick, missing))
init_password_reset-none config username env w up (inr (user, found, unfit)) =
    (ground (arith, up w.tick, found, unfit), ground (arith, up w.tick, found, unfit))

-- The tokens for a password reset are the same.
abbrev SameResets : List PasswordResetToken → World → Type 0
SameResets rows w = w.db.accounts.password_reset_tokens ≡ rows

write_same :
    (f : Db → Db) (env : Env) (rows : List PasswordResetToken) (w : World)
    → ((db : Db) → (f db).accounts.password_reset_tokens ≡ db.accounts.password_reset_tokens)
    → SameResets rows w
    → SameResets rows (write f env w).1
unfolding write commit
write_same f env rows w same h =
    either_end (SameResets rows) (env.db_fails w.tick) _ _ h (same w.db ∙ h)

check_user_same :
    (user : ℕ) (env : Env) (rows : List PasswordResetToken) (w : World)
    → SameResets rows w
    → SameResets rows (check_user user env w).1
unfolding check_user query guard
check_user_same user env rows w h = bind_keeps env (SameResets rows) (query _) _ w h λ _ v k. k

authenticate_same :
    (config : AuthConfig) (user : ℕ) (env : Env) (rows : List PasswordResetToken) (w : World)
    → SameResets rows w
    → SameResets rows (authenticate_user config user true env w).1
unfolding authenticate_user invalidate_tokens new_tokens insert_access_token insert_refresh_token
    read fresh_id pure
authenticate_same config user env rows w h =
    bind_keeps env P (invalidate_tokens user) _ w
      (bind_keeps env P (write _) _ w (write_same _ env rows w (λ db. refl) h)
        λ _ w₁ h₁. write_same _ env rows w₁ (λ db. refl) h₁)
      λ _ w₂ h₂.
        bind_keeps env P (insert_access_token config user) _ w₂
          (bind_keeps env P (read _) _ w₂ h₂ λ now w₃ h₃.
            bind_keeps env P fresh_id _ w₃ h₃ λ token w₄ h₄.
              bind_keeps env P (check_user user) _ w₄ (check_user_same user env rows w₄ h₄)
                λ _ w₅ h₅.
                  bind_keeps env P (write _) _ w₅ (write_same _ env rows w₅ (λ db. refl) h₅)
                    λ _ w₆ h₆. h₆)
          λ access w₃ h₃.
            bind_keeps env P (insert_refresh_token user) _ w₃
              (bind_keeps env P fresh_id _ w₃ h₃ λ token w₄ h₄.
                bind_keeps env P (check_user user) _ w₄ (check_user_same user env rows w₄ h₄)
                  λ _ w₅ h₅.
                    bind_keeps env P (write _) _ w₅ (write_same _ env rows w₅ (λ db. refl) h₅)
                      λ _ w₆ h₆. h₆)
              λ refresh w₄ h₄. bind_keeps env P (read _) _ w₄ h₄ λ now w₅ h₅.
                bind_keeps env P (write _) _ w₅ (write_same _ env rows w₅ (λ db. refl) h₅)
                  λ _ w₆ h₆. h₆
  where
    P : World → Type 0
    P = SameResets rows

verify_same :
    (current hash : Text) (skip : Bool) (env : Env) (rows : List PasswordResetToken) (w : World)
    → SameResets rows w
    → SameResets rows (verify_password current hash skip env w).1
unfolding verify_password pure ask guard
verify_same current hash true env rows w h = h
verify_same current hash false env rows w h =
    bind_keeps env (SameResets rows) (ask _ _) _ w h λ _ v k. k

-- Whatever fails, a reset leaves the table of reset tokens as it was: the token that was used is
-- still there, and good for another reset until it expires.
reset_password-SameResets :
    (config : AuthConfig) (token : ℕ) (new : Text) (env : Env) (w : World)
    → (reset_password config token new env w).1.db.accounts.password_reset_tokens
      ≡ w.db.accounts.password_reset_tokens
unfolding reset_password update_password set_password query_one if_no_rows guard or_raise read ask
reset_password-SameResets config token new env w =
    bind_keeps env P (if_no_rows _ (query_one _)) _ w refl λ row w₁ h₁.
      bind_keeps env P (query_one _) _ w₁ h₁ λ user w₂ h₂.
        bind_keeps env P (read _) _ w₂ h₂ λ now w₃ h₃.
          bind_keeps env P (guard _ _) _ w₃ h₃ λ _ w₄ h₄.
            bind_keeps env P (guard _ _) _ w₄ h₄ λ _ w₅ h₅.
              bind_keeps env P (or_raise user.password _) _ w₅ (raised user w₅ h₅) λ old w₆ h₆.
                bind_keeps env P (verify_password [] old true) _ w₆
                  (verify_same [] old true env _ w₆ h₆)
                  λ _ w₇ h₇. bind_keeps env P (ask _ _) _ w₇ h₇ λ hash w₈ h₈.
                    with_transaction_keeps
                      (λ db.
                        db.accounts.password_reset_tokens ≡ w.db.accounts.password_reset_tokens)
                      _ env w₈ h₈
                      λ v k.
                        bind_keeps env P (write _) _ v (write_same _ env _ v (λ db. refl) k)
                          λ _ v' k'. authenticate_same config user.id env _ v' k'
  where
    P : World → Type 0
    P = SameResets w.db.accounts.password_reset_tokens

    raised : (user : User) (v : World) → P v → P (or_raise user.password not_local_user env v).1
    raised user v k = elim user.password as (λ o. P (or_raise o not_local_user env v).1) [
      | none ↦ k
      | some p ↦ k
    ]
