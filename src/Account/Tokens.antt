-- ===== src/Account/Tokens.antt =====
-- internal/auth/service.go, `authenticateUser`: the tokens that it leaves while the database
-- answers.
use go_wallet.Prelude.{ℕ, ◌+◌, true, false, ◌==◌, ◌≡◌, arith, any, insert}
use go_wallet.Store.{User, AccessToken, RefreshToken}
use go_wallet.World.{Env, World, ok, query, guard, commit, read, fresh_id, pure, ◌>>=◌}
use go_wallet.World.Transaction.{write}
use go_wallet.Account.{
  AuthConfig, LoginResult, new_tokens, insert_access_token, insert_refresh_token, check_user,
}

module _ (config : AuthConfig) (user : ℕ) (env : Env) (up : (t : ℕ) → env.db_fails t ≡ false) where
  -- The rows that a new session adds.
  abbrev pub access_row : World → AccessToken
  access_row w = record {
    token = w.next_id;
    valid_until = env.now w.tick + config.access_token_validity;
    user_id = user;
  }

  abbrev pub refresh_row : World → RefreshToken
  refresh_row w = record { token = w.next_id + 1; user_id = user }

  pub new_tokens-rows :
      (w : World)
      → any (λ (u : User). u.id == user) w.db.accounts.users ≡ true
      → let r = new_tokens config user env w in
        (r.0 ≡ ok (w.next_id, w.next_id + 1))
        × (r.1.db.accounts.access_tokens ≡ insert (access_row w) w.db.accounts.access_tokens)
        × (r.1.db.accounts.refresh_tokens ≡ insert (refresh_row w) w.db.accounts.refresh_tokens)
  unfolding new_tokens insert_access_token insert_refresh_token check_user query guard commit read
      fresh_id pure write ◌>>=◌
  new_tokens-rows w there =
      let a = up w.tick in
      let b = up (w.tick + 1) in
      let c = up (w.tick + 1 + 1) in
      let d = up (w.tick + 1 + 1 + 1) in
      let e = up (w.tick + 1 + 1 + 1 + 1) in
      (
        ground (arith, there, a, b, c, d, e),
        ground (arith, there, a, b, c, d, e),
        ground (arith, there, a, b, c, d, e),
      )

  -- Without the user there is no session.
  pub new_tokens-missing :
      (w : World) {tokens : LoginResult}
      → (new_tokens config user env w).0 ≡ ok tokens
      → any (λ (u : User). u.id == user) w.db.accounts.users ≡ true
  unfolding new_tokens insert_access_token check_user query guard read fresh_id pure ◌>>=◌
  new_tokens-missing w h = ground (arith, up w.tick)
