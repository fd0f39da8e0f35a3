-- ===== src/Api/Withdrawals/Reviewed.antt =====
-- internal/api/handlers/wallet/post_approve_withdraw.go behind the middleware of
-- internal/api/router/router.go: whose approval sends money.
use go_wallet.Prelude.{
  ℕ, Text, Bool, true, false, ◌≡◌, refl, ap, inl, inr, Bool-cases, List, ◌||◌, if◌then◌else◌,
  Option, none, some, [], ◌∷◌, arith, ◌∙◌,
}
use go_wallet.Store.{User, Withdraw, WithdrawStatus, Db}
use go_wallet.World.{
  Env, World, Action, Result, ok, err, SignRequest, pure, raise, or_raise, guard, read, query_one,
  try_action, ◌>>=◌, internal_server_error,
}
use go_wallet.World.Bind.{>>=-ok}
use go_wallet.World.Yields.{ok_inj}
use go_wallet.Account.{AuthConfig}
use go_wallet.Account.Gate.{
  Route, authorize, check_given, check_token, check_found, check_token_user, check_known, extract,
  is_none,
}
use go_wallet.Account.Gate.Passed.{is_strict, IsAllowed, authorize-ok}
use go_wallet.Withdraw.Process.{withdraw_by_id}
use go_wallet.Withdraw.Review.{approve_withdraw}
use go_wallet.Withdraw.Review.Approval.{approve_withdraw-ok}
use go_wallet.Api.{or_answer, is_admin}
use go_wallet.Api.Withdrawals.{WithdrawItem, withdraw_item, post_approve_withdraw}

-- `POST /withdraw/:withdrawId/approve`, a route of the group that the middleware guards.
unfoldable pub serve_approve_withdraw :
    AuthConfig → (Text → Option ℕ) → Route → Text → Option ℕ → Action WithdrawItem
serve_approve_withdraw config parse_uuid route header id = do
  user ← authorize config parse_uuid route none header
  post_approve_withdraw user id

-- An answer that is no error is the service's.
pub or_answer-ok :
    {A : Type 0} (m : Action A) (env : Env) (w : World) {a : A}
    → (or_answer internal_server_error m env w).0 ≡ ok a
    → ((m env w).0 ≡ ok a) × ((or_answer internal_server_error m env w).1 ≡ (m env w).1)
unfolding or_answer
or_answer-ok {A} m env w {a = a} h = go (m env w) h
  where
    go :
        (r : Result A × World)
        → (or_answer internal_server_error (λ _ _. r) env w).0 ≡ ok a
        → (r.0 ≡ ok a) × ((or_answer internal_server_error (λ _ _. r) env w).1 ≡ r.1)
    go (ok b, w') h = (h, refl)
    go (err e, w') h = absurd (ground arith)

-- What a handler that ends with a call of a service gives back.
pub answered :
    {A B : Type 0} (m : Action A) (f : A → B) (env : Env) (w : World) {b : B}
    → ((or_answer internal_server_error m >>= λ a. pure (f a)) env w).0 ≡ ok b
    → (a : A) × ((m env w).0 ≡ ok a)
      × (b ≡ f a)
      × (((or_answer internal_server_error m >>= λ a. pure (f a)) env w).1 ≡ (m env w).1)
unfolding pure
answered m f env w {b = b} h =
    let (a, first, rest) = >>=-ok (or_answer internal_server_error m) (λ a. pure (f a)) env w h in
    let (done, same) = or_answer-ok m env w first in
    (a, done, ok_inj (cc (rest, h)), ap (λ (r : Result _ × World). r.1) rest ∙ same)

-- The parts of the world that a check of the request leaves alone.
abbrev pub Untouched : World → World → Type 0
Untouched w w' = (w'.db ≡ w.db) × (w'.sent ≡ w.sent)

check_token-Untouched :
    (config : AuthConfig) (route : Route) (presented : Option ℕ) (env : Env) (w : World)
    → Untouched w (check_token config route presented env w).1
unfolding check_token check_found check_token_user check_known query_one try_action read guard raise
    pure ◌>>=◌
check_token-Untouched config route none env w = (ground arith, ground arith)
check_token-Untouched config route (some token) env w = (ground arith, ground arith)

pub authorize-Untouched :
    (config : AuthConfig) (parse_uuid : Text → Option ℕ) (route : Route) (header : Text) (env : Env)
    (w : World)
    → Untouched w (authorize config parse_uuid route none header env w).1
unfolding authorize check_given raise pure
authorize-Untouched config parse_uuid route header env w = given (extract header route.scheme)
  where
    given :
        (e : Text × Bool)
        → Untouched w
            ((if is_none route.mode || route.skipped
                then pure none
                else check_given config parse_uuid route e)
              env w).1
    given ([], b) = (ground arith, ground arith)
    given (c ∷ cs, b) =
        let same = check_token-Untouched config route (parse_uuid (c ∷ cs)) env w in
        (ground arith, ground arith)

post_approve_lem :
    (user : User) (withdraw_id : Option ℕ) (env : Env) (w : World) {item : WithdrawItem}
    → (post_approve_withdraw (some user) withdraw_id env w).0 ≡ ok item
    → (id : ℕ) × (y : Withdraw) × (withdraw_id ≡ some id)
      × (is_admin user.role ≡ true)
      × ((approve_withdraw id env w).0 ≡ ok y)
      × (item ≡ withdraw_item y)
      × ((post_approve_withdraw (some user) withdraw_id env w).1 ≡ (approve_withdraw id env w).1)
unfolding post_approve_withdraw or_raise guard pure ◌>>=◌
post_approve_lem user none env w h = absurd (ground arith)
post_approve_lem user (some id) env w h = elim (Bool-cases (is_admin user.role)) [
  | inr other ↦ absurd (ground arith)
  | inl admin ↦
      let (y, done, same, rest) =
        answered (approve_withdraw id) withdraw_item env w (rw admin at h) in
      (id, y, refl, admin, done, same, rw admin rest)
]

-- A request to approve a withdrawal, on a route that requires a token, is answered without an error
-- only if its header holds a token that is in the table and has no expiry or has not expired, of an
-- active user who is an administrator, and who has one of the route's scopes where it asks for any.
-- Then exactly one transaction was sent, no credit has changed, and the answer describes the row in
-- the table, which is pending.
pub serve_approve_withdraw-ok :
    (config : AuthConfig) (parse_uuid : Text → Option ℕ) (route : Route) (header : Text)
    (withdraw_id : Option ℕ) (env : Env) (w : World) {item : WithdrawItem}
    → is_strict route.mode ≡ true
    → route.skipped ≡ false
    → (serve_approve_withdraw config parse_uuid route header withdraw_id env w).0 ≡ ok item
    → let w' = (serve_approve_withdraw config parse_uuid route header withdraw_id env w).1 in
      ((token : ℕ) × (user : User) × (parse_uuid (extract header route.scheme).0 ≡ some token)
        × IsAllowed config route env w.db token user
        × (is_admin user.role ≡ true))
      × ((id : ℕ) × (y : Withdraw) × (withdraw_id ≡ some id)
          × (withdraw_by_id id w'.db ≡ some y)
          × (item ≡ withdraw_item y)
          × (y.status ≡ WithdrawStatus.pending))
      × ((r : SignRequest) × (w'.sent ≡ r ∷ w.sent))
      × (w'.db.credits ≡ w.db.credits)
unfolding serve_approve_withdraw
serve_approve_withdraw-ok config parse_uuid route header withdraw_id env w strict kept h =
    let gate = authorize config parse_uuid route none header in
    let w₁ = (gate env w).1 in
    let (x, passed, rest) = >>=-ok gate (λ user. post_approve_withdraw user withdraw_id) env w h in
    let (token, user, presented, known, allowed) =
      authorize-ok config parse_uuid route header env w strict kept passed in
    let (same_db, same_sent) = authorize-Untouched config parse_uuid route header env w in
    let reached : serve_approve_withdraw config parse_uuid route header withdraw_id env w
        ≡ post_approve_withdraw (some user) withdraw_id env w₁ =
      rw (← known) rest in
    let (id, y, named, admin, done, item_of, after) =
      post_approve_lem user withdraw_id env w₁ (rw reached at h) in
    let (row, pending, (r, sent, _, _), credits) = approve_withdraw-ok id env w₁ done in
    rw (reached, after)
      (
        (token, user, presented, allowed, admin),
        (id, y, named, row, item_of, pending),
        (r, sent ∙ ap (λ (l : List SignRequest). r ∷ l) same_sent),
        credits ∙ ap (λ (db : Db). db.credits) same_db,
      )
