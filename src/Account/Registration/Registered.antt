-- ===== src/Account/Registration/Registered.antt =====
-- internal/auth/service.go, `Register` and then `Login`.
use go_wallet.Prelude.{
  ℕ, ◌+◌, Text, Bool, true, false, not, ◌||◌, none, some, List, [], ◌∷◌, ◌==◌, ◌≡◌, refl, ap, ◌∙◌,
  arith, any, insert, first, text_eq_refl,
}
use go_wallet.Prelude.Rows.Find.{first-insert, any-insert}
use go_wallet.Store.{Db, User}
use go_wallet.World.{
  Env, World, ok, ask, query, query_one, try_action, guard, or_raise, commit, fresh_id, read, pure,
  ◌>>=◌,
}
use go_wallet.World.Transaction.{
  with_transaction, write, with_transaction-answer, with_transaction-ok,
}
use go_wallet.Account.{
  AuthConfig, LoginResult, to_username_format, has_username, user_by_name, authenticate_user,
  new_tokens,
}
use go_wallet.Account.Tokens.{new_tokens-rows}
use go_wallet.Account.Login.{login, check_login}
use go_wallet.Account.Registration.{
  register, register_found, register_new, insert_user, insert_profile, first_token, new_user,
  add_user,
}

any_of_first : {A : Type 0} (p : A → Bool) (xs : List A) → first p xs ≡ none → any p xs ≡ false
unfolding first any
any_of_first p [] h = refl
any_of_first p (x ∷ xs) h = ground (arith, any_of_first p xs)

last_is_true : (b : Bool) (n : ℕ) → (b || n == n) ≡ true
last_is_true b n = ground arith

module _ (config : AuthConfig) (username password hash : Text) (env : Env)
    (up : (t : ℕ) → env.db_fails t ≡ false) where
  -- The tables with the new user.
  abbrev with_user : World → Db
  with_user w = record w.db {
    accounts = record w.db.accounts {
      users = insert (new_user config username hash (env.now w.tick) w.next_id) w.db.accounts.users;
      app_user_profiles = insert (record { user_id = w.next_id }) w.db.accounts.app_user_profiles;
    };
  }

  add_user-ok :
      (w : World)
      → any (has_username username) w.db.accounts.users ≡ false
      → config.registration_requires_confirmation ≡ false
      → ((add_user config username hash env w).0 ≡ ok (false, none))
        × ((add_user config username hash env w).1.db ≡ with_user w)
  unfolding add_user insert_user insert_profile first_token query guard write commit fresh_id read
      pure ◌>>=◌
  add_user-ok w free plain = (
    ground (arith, free, plain, up w.tick, up (w.tick + 1), up (w.tick + 1 + 1)),
    ground (arith, free, plain, up w.tick, up (w.tick + 1), up (w.tick + 1 + 1)),
  )

  register-new :
      (w : World)
      → user_by_name username w.db ≡ none
      → ((t : ℕ) → env.hash_password t password ≡ some hash)
      → register config username password env w
        ≡ with_transaction (add_user config username hash) env (record w { tick = w.tick + 1 + 1 })
  unfolding register register_found register_new query_one try_action ask ◌>>=◌
  register-new w missing hashed = ground (arith, up w.tick, missing, hashed (w.tick + 1))

  login-found :
      (w : World) (user : User) {tokens : LoginResult}
      → user_by_name username w.db ≡ some user
      → user.is_active ≡ true
      → user.password ≡ some hash
      → env.password_matches password hash ≡ some true
      → (new_tokens config user.id env (record w { tick = w.tick + 1 + 1 + 1 })).0 ≡ ok tokens
      → (login config username password env w).0 ≡ ok tokens
  unfolding login check_login query_one try_action guard or_raise ask pure authenticate_user ◌>>=◌
  login-found w user found active set fits done =
      let answer =
        with_transaction-answer (authenticate_user config user.id false) env
          (record w { tick = w.tick + 1 + 1 }) (up (w.tick + 1 + 1)) done in
      ground (arith, up w.tick, found, active, set, fits, answer)

  -- Where the database answers, Argon2 makes `hash` of the password and finds the password to
  -- belong to it, no confirmation is required and the username is free, a user who registers can
  -- log in at once with that username and password.
  pub register-login :
      (w : World)
      → config.registration_requires_confirmation ≡ false
      → user_by_name username w.db ≡ none
      → ((t : ℕ) → env.hash_password t password ≡ some hash)
      → env.password_matches password hash ≡ some true
      → let r = register config username password env w in
        (r.0 ≡ ok (false, none))
        × (tokens : LoginResult) × ((login config username password env r.1).0 ≡ ok tokens)
  register-login w plain missing hashed fits =
      let w₂ : World = record w { tick = w.tick + 1 + 1 } in
      let w₃ : World = record w { tick = w.tick + 1 + 1 + 1 } in
      let whole = register-new w missing hashed in
      let (answer, rows) = add_user-ok w₃ (any_of_first _ _ missing) plain in
      let given = with_transaction-answer (add_user config username hash) env w₂ (up _) answer in
      let (_, kept) = with_transaction-ok (add_user config username hash) env w₂ up given in
      let after = ap (λ r. r.1.db) whole ∙ kept ∙ rows in
      let v = (register config username password env w).1 in
      let user = new_user config username hash (env.now w₃.tick) w.next_id in
      let found =
        ap (user_by_name username) after
        ∙ first-insert (has_username username) user w.db.accounts.users missing
            (text_eq_refl (to_username_format username)) in
      let there =
        ap (λ db. any (λ (u : User). u.id == user.id) db.accounts.users) after
        ∙ any-insert (λ (u : User). u.id == user.id) user w.db.accounts.users
        ∙ last_is_true _ w.next_id in
      let tokens =
        new_tokens-rows config user.id env up (record v { tick = v.tick + 1 + 1 + 1 }) there in
      (
        ap (λ r. r.0) whole ∙ given,
        (v.next_id, v.next_id + 1),
        login-found v user found (ap not plain) refl fits tokens.0,
      )
