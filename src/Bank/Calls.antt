-- ===== src/Bank/Calls.antt =====
-- Calls that make no entry in the account book of `Bank`, whatever they answer (World).
use go_wallet.Prelude.{ℕ, ◌+◌, ◌≡◌, refl, Bool, Option, arith}
use go_wallet.Store.{Db}
use go_wallet.World.{
  Env, World, Error, Action, ask, call, guard, query, query_one, if_no_rows, try_action, statement,
  commit, get_client, fresh_id,
}
use go_wallet.World.Loops.{either_end}
use go_wallet.Bank.{Book}
use go_wallet.Bank.Sound.{AreIncoming}
use go_wallet.Bank.Service.{Served, Served-same}

module _ (b : Book) (env : Env) (w : World) (s : Served b w) where
  pub tick-Served : (n : ℕ) → Served b (record w { tick = n })
  tick-Served n = Served-same b w (record w { tick = n }) refl s.sound.incoming (omega arith) s

  pub query-Served : {A : Type 0} (f : Db → A) → Served b (query f env w).1
  unfolding query
  query-Served f = tick-Served _

  pub query_one-Served : {A : Type 0} (f : Db → Option A) → Served b (query_one f env w).1
  unfolding query_one
  query_one-Served f = tick-Served _

  pub statement-Served : Served b (statement env w).1
  unfolding statement
  statement-Served = query-Served {A = Unit {0}} (λ _. tt)

  pub ask-Served : {A : Type 0} (f : Env → ℕ → Option A) (e : Error) → Served b (ask f e env w).1
  unfolding ask
  ask-Served f e = tick-Served _

  pub get_client-Served : Served b (get_client env w).1
  unfolding get_client call ask
  get_client-Served = tick-Served _

  pub guard-Served : (c : Bool) (e : Error) → Served b (guard c e env w).1
  unfolding guard
  guard-Served c e = s

  pub fresh_id-Served : Served b (fresh_id env w).1
  unfolding fresh_id
  fresh_id-Served =
      Served-same b w (record w { next_id = w.next_id + 1 }) refl s.sound.incoming (omega arith) s

  -- Writes that leave the credits alone and bring no negative deposit.
  pub commit-Served :
      (f : Db → Db)
      → (f w.db).credits ≡ w.db.credits
      → AreIncoming (f w.db).transactions
      → Served b (commit f env w).1
  unfolding commit
  commit-Served f same incoming =
      either_end (Served b) (env.db_fails w.tick) _ _ (tick-Served _) (
        Served-same b w (record w { tick = w.tick + 1; db = f w.db }) same incoming (omega arith) s)

pub try-Served :
    {A : Type 0} (b : Book) (env : Env) (w : World) (m : Action A)
    → Served b (m env w).1
    → Served b (try_action m env w).1
unfolding try_action
try-Served b env w m s = s

pub if_no_rows-Served :
    {A : Type 0} (b : Book) (env : Env) (w : World) (e : Error) (m : Action A)
    → Served b (m env w).1
    → Served b (if_no_rows e m env w).1
unfolding if_no_rows
if_no_rows-Served b env w e m s = s
