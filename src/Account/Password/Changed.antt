-- ===== src/Account/Password/Changed.antt =====
-- internal/auth/service.go, `UpdatePassword`: the sessions after a change of the password.
use go_wallet.Prelude.{
  ℕ, ◌+◌, Text, Bool, true, false, not, Option, none, some, ◌==◌, ◌≡◌, refl, sym, ap, ◌∙◌, arith,
  insert, select,
}
use go_wallet.Store.{Db, User, AccessToken, RefreshToken}
use go_wallet.World.{pure, Env, World, ok, ask, guard, or_raise, commit, ◌>>=◌}
use go_wallet.World.Loops.{bind_succeeds}
use go_wallet.World.Transaction.{write, with_transaction-ok}
use go_wallet.Account.{
  AuthConfig, LoginResult, authenticate_user, new_tokens, invalidate_tokens, change, update_user,
  Error, pure,
}
use go_wallet.Account.Tokens.{new_tokens-rows, new_tokens-missing, access_row, refresh_row}
use go_wallet.Account.Password.{update_password, set_password, verify_password, not_local_user}

-- The access tokens and the refresh tokens are those of the other users, and the two that were
-- given.
abbrev pub OnlySession : ℕ → LoginResult → Db → World → Type 0
OnlySession user tokens old w =
    (row : AccessToken) × (row.token ≡ tokens.0)
    × (row.user_id ≡ user)
    × (w.db.accounts.access_tokens
        ≡ insert row
            (select (λ (t : AccessToken). not (t.user_id == user)) old.accounts.access_tokens))
    × (fresh : RefreshToken) × (fresh.token ≡ tokens.1)
    × (fresh.user_id ≡ user)
    × (w.db.accounts.refresh_tokens
        ≡ insert fresh
            (select (λ (t : RefreshToken). not (t.user_id == user)) old.accounts.refresh_tokens))

set_password-OnlySession :
    (config : AuthConfig) (user : ℕ) (hash : Text) (env : Env) (w : World) {tokens : LoginResult}
    → ((t : ℕ) → env.db_fails t ≡ false)
    → (set_password config user hash env w).0 ≡ ok tokens
    → OnlySession user tokens w.db (set_password config user hash env w).1
unfolding set_password authenticate_user invalidate_tokens write commit ◌>>=◌
set_password-OnlySession config user hash env w {tokens = tokens} up h =
    let w₃ : World = record w { tick = w.tick + 1 + 1 + 1; db = cleared } in
    let step : set_password config user hash env w ≡ new_tokens config user env w₃ =
      ground (arith, up w.tick, up (w.tick + 1), up (w.tick + 1 + 1)) in
    let done = sym (ap (λ r. r.0) step) ∙ h in
    let rows =
      new_tokens-rows config user env up w₃
        (new_tokens-missing config user env up w₃ {tokens = tokens} done) in
    (
      access_row config user env up w₃,
      given (sym rows.0 ∙ done),
      refl,
      ap (λ r. r.1.db.accounts.access_tokens) step ∙ rows.1,
      refresh_row config user env up w₃,
      given_refresh (sym rows.0 ∙ done),
      refl,
      ap (λ r. r.1.db.accounts.refresh_tokens) step ∙ rows.2,
    )
  where
    cleared : Db
    cleared =
        change
          (λ a. record a {
            refresh_tokens =
                select (λ (t : RefreshToken). not (t.user_id == user)) a.refresh_tokens;
          })
          (change
            (λ a. record a {
              access_tokens = select (λ (t : AccessToken). not (t.user_id == user)) a.access_tokens;
            })
            (update_user user (λ u. record u { password = some hash }) w.db))

    given : {n m : ℕ} → ok (n, m) ≡ ok tokens → n ≡ tokens.0
    given e = cc

    given_refresh : {n m : ℕ} → ok (n, m) ≡ ok tokens → m ≡ tokens.1
    given_refresh e = cc

or_raise-db :
    {A : Type 0} (o : Option A) (e : Error) (env : Env) (w : World)
    → (or_raise o e env w).1.db ≡ w.db
unfolding or_raise
or_raise-db none e env w = refl
or_raise-db (some a) e env w = refl

verify_password-db :
    (current hash : Text) (skip : Bool) (env : Env) (w : World)
    → (verify_password current hash skip env w).1.db ≡ w.db
unfolding verify_password ask guard pure ◌>>=◌
verify_password-db current hash true env w = refl
verify_password-db current hash false env w = ground arith

-- While the database answers, a change of the password that succeeds ends all the user's other
-- sessions: the access tokens and the refresh tokens afterwards are the other users' and the new
-- ones that are answered.
pub update_password-OnlySession :
    (config : AuthConfig) (user : User) (current new : Text) (skip : Bool) (env : Env) (w : World)
    {tokens : LoginResult}
    → ((t : ℕ) → env.db_fails t ≡ false)
    → (update_password config user current new skip env w).0 ≡ ok tokens
    → OnlySession user.id tokens w.db (update_password config user current new skip env w).1
unfolding update_password guard ask
update_password-OnlySession config user current new skip env w {tokens = tokens} up =
    bind_succeeds env P Q (guard _ _) _ w refl λ _ w₁ h₁.
      bind_succeeds env P Q (or_raise user.password _) _ w₁
        (or_raise-db user.password not_local_user env w₁ ∙ h₁)
        λ old w₂ h₂.
          bind_succeeds env P Q (verify_password current old skip) _ w₂
            (verify_password-db current old skip env w₂ ∙ h₂)
            λ _ w₃ h₃. bind_succeeds env P Q (ask _ _) _ w₃ h₃ λ hash w₄ h₄ e.
              let (done, kept) =
                with_transaction-ok (set_password config user.id hash) env w₄ up e in
              let (row, a, b, c, fresh, d, u, v) =
                set_password-OnlySession config user.id hash env (record w₄ { tick = w₄.tick + 1 })
                  {tokens = tokens} up done in
              (
                row,
                a,
                b,
                ap (λ db. db.accounts.access_tokens) kept
                    ∙ c
                    ∙ ap
                        (λ db. insert row (
                          select (λ (t : AccessToken). not (t.user_id == user.id))
                            db.accounts.access_tokens))
                        h₄,
                fresh,
                d,
                u,
                ap (λ db. db.accounts.refresh_tokens) kept
                    ∙ v
                    ∙ ap
                        (λ db. insert fresh (
                          select (λ (t : RefreshToken). not (t.user_id == user.id))
                            db.accounts.refresh_tokens))
                        h₄,
              )
  where
    P : World → Type 0
    P v = v.db ≡ w.db

    Q : World → Type 0
    Q = OnlySession user.id tokens w.db
