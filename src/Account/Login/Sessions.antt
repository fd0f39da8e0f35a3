-- ===== src/Account/Login/Sessions.antt =====
-- internal/auth/service.go, `Login`, `Refresh` and `Logout`: who gets tokens, and which tokens go.
use go_wallet.Prelude.{
  ℕ, ◌+◌, ◌<◌, Text, true, false, not, Option-cases, none, some, List, [], ◌∷◌, ◌==◌, ◌≡◌, inl, inr,
  arith, insert, first, select, ap, ◌∙◌, Bool-cases, sym,
}
use go_wallet.Store.{User, RefreshToken}
use go_wallet.World.{
  Env, World, ok, err, ask, query_one, if_no_rows, try_action, guard, or_raise, raise, commit, pure,
  ◌>>=◌, unauthorized,
}
use go_wallet.World.Transaction.{with_transaction, write, with_transaction-ok}
use go_wallet.Account.{
  AuthConfig, LoginResult, authenticate_user, user_by_name, user_by_id, new_tokens,
}
use go_wallet.Account.Login.{
  login, check_login, refresh, refresh_token_row, delete_refresh_token, exchange,
}
use go_wallet.Prelude.Rows.Find.{first_meets}
use go_wallet.Account.Tokens.{new_tokens-missing, new_tokens-rows}

-- A login gives tokens only for the name of an active user with a password, to a password that
-- Argon2 finds to belong to the stored hash, whatever else fails.
pub login-ok :
    (config : AuthConfig) (username password : Text) (env : Env) (w : World) {tokens : LoginResult}
    → (login config username password env w).0 ≡ ok tokens
    → (user : User) × (hash : Text) × (user_by_name username w.db ≡ some user)
      × (user.is_active ≡ true)
      × (user.password ≡ some hash)
      × (env.password_matches password hash ≡ some true)
unfolding login check_login query_one try_action guard or_raise ask raise pure ◌>>=◌
login-ok config username password env w h = elim (Option-cases (user_by_name username w.db)) [
  | inl missing ↦ absurd (ground arith)
  | inr (user, found) ↦ elim (Option-cases user.password) [
    | inl none_set ↦ absurd (ground arith)
    | inr (hash, set) ↦ (user, hash, found, ground arith, set, ground arith)
  ]
]

-- What a deletion by its token leaves cannot be found by it.
first_gone :
    (token other user : ℕ) (rows : List RefreshToken)
    → token < other
    → first
        (λ (t : RefreshToken). t.token == token)
        (insert
          (record { token = other; user_id = user })
          (select (λ (t : RefreshToken). not (t.token == token)) rows))
      ≡ none
unfolding first insert select
first_gone token other user [] h = ground (arith, h)
first_gone token other user (x ∷ xs) h = ground (arith, first_gone token other user xs h)

-- The refresh tokens after an exchange that succeeds.
exchange-rows :
    (config : AuthConfig) (old : RefreshToken) (user : User) (env : Env) (w : World)
    {tokens : LoginResult}
    → ((t : ℕ) → env.db_fails t ≡ false)
    → (exchange config old user env w).0 ≡ ok tokens
    → (exchange config old user env w).1.db.accounts.refresh_tokens
      ≡ insert
          (record { token = w.next_id + 1; user_id = user.id })
          (select (λ (t : RefreshToken). not (t.token == old.token)) w.db.accounts.refresh_tokens)
unfolding exchange authenticate_user write commit ◌>>=◌
exchange-rows config old user env w {tokens = tokens} up h =
    let w₂ : World = record w { tick = w.tick + 1; db = delete_refresh_token old.token w.db } in
    let step : exchange config old user env w ≡ new_tokens config user.id env w₂ =
      ground (arith, up w.tick) in
    let there =
      new_tokens-missing config user.id env up w₂ {tokens = tokens}
        (sym (ap (λ r. r.0) step) ∙ h) in
    let rows = new_tokens-rows config user.id env up w₂ there in
    ap (λ r. r.1.db.accounts.refresh_tokens) step ∙ rows.2

eq_of_test : (a b : ℕ) → (a == b) ≡ true → a ≡ b
eq_of_test a b h = ground arith

-- What an exchange that succeeds went through.
refresh-steps :
    (config : AuthConfig) (token : ℕ) (env : Env) (w : World) {tokens : LoginResult}
    → ((t : ℕ) → env.db_fails t ≡ false)
    → (refresh config token env w).0 ≡ ok tokens
    → let w₁ : World = record w { tick = w.tick + 1 + 1 } in
      (old : RefreshToken) × (user : User) × (old.token ≡ token)
      × (refresh config token env w ≡ with_transaction (exchange config old user) env w₁)
unfolding refresh query_one if_no_rows guard ◌>>=◌
refresh-steps config token env w up h = elim (Option-cases (refresh_token_row token w.db)) [
  | inl missing ↦ absurd (ground (arith, up w.tick))
  | inr (old, found) ↦ elim (Option-cases (user_by_id old.user_id w.db)) [
    | inl missing ↦ absurd (ground (arith, up w.tick, up (w.tick + 1)))
    | inr (user, there) ↦ elim (Bool-cases user.is_active) [
      | inl active ↦ (
        old,
        user,
        eq_of_test _ _ (
            first_meets (λ (t : RefreshToken). t.token == token) w.db.accounts.refresh_tokens
              found),
        ground (arith, up w.tick, up (w.tick + 1), active),
      )
      | inr inactive ↦ absurd (ground (arith, up w.tick, up (w.tick + 1), inactive))
    ]
  ]
]

-- A token that is not there is refused.
refused :
    (config : AuthConfig) (token : ℕ) (env : Env) (w : World)
    → env.db_fails w.tick ≡ false
    → refresh_token_row token w.db ≡ none
    → (refresh config token env w).0 ≡ err unauthorized
unfolding refresh query_one if_no_rows ◌>>=◌
refused config token env w up missing = ground (arith, up, missing)

-- While the database answers, a refresh token that was exchanged for new tokens is not there any
-- more: whatever the second time is and the other calls answer, a second exchange of it is
-- refused.
pub refresh_once :
    (config : AuthConfig) (token : ℕ) (env again : Env) (w : World) {tokens : LoginResult}
    → ((t : ℕ) → env.db_fails t ≡ false)
    → ((t : ℕ) → again.db_fails t ≡ false)
    → token < w.next_id
    → (refresh config token env w).0 ≡ ok tokens
    → (refresh config token again (refresh config token env w).1).0 ≡ err unauthorized
refresh_once config token env again w {tokens = tokens} up up' fresh h =
    let w₁ : World = record w { tick = w.tick + 1 + 1 } in
    let w₂ : World = record w { tick = w.tick + 1 + 1 + 1 } in
    let (old, user, same, step) = refresh-steps config token env w {tokens = tokens} up h in
    let (done, kept) =
      with_transaction-ok (exchange config old user) env w₁ up (sym (ap (λ r. r.0) step) ∙ h) in
    let rows = exchange-rows config old user env w₂ {tokens = tokens} up done in
    let gone =
      first_gone old.token (w.next_id + 1) user.id w.db.accounts.refresh_tokens
        (omega (arith, same, fresh)) in
    let after =
      ap (λ r. r.1.db.accounts.refresh_tokens) step
      ∙ ap (λ db. db.accounts.refresh_tokens) kept
      ∙ rows in
    refused config token again (refresh config token env w).1 (up' _)
      (missing_by old.token same after gone)
  where
    missing_by :
        (t : ℕ)
        → t ≡ token
        → {rows : List RefreshToken}
        → (refresh config token env w).1.db.accounts.refresh_tokens ≡ rows
        → first (λ (x : RefreshToken). x.token == t) rows ≡ none
        → refresh_token_row token (refresh config token env w).1.db ≡ none
    missing_by t e {rows = rows} after gone =
        ap (first (λ (x : RefreshToken). x.token == token)) after
        ∙ ap (λ n. first (λ (x : RefreshToken). x.token == n) rows) (sym e)
        ∙ gone
