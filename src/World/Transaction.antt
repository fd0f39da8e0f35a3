-- ===== src/World/Transaction.antt =====
-- internal/util/db/db.go, `WithTransaction`: a body of statements that see each other's writes.
use go_wallet.Prelude.{◌+◌, if◌then◌else◌, ℕ, ◌≡◌, false, arith, sym, ap, ◌∙◌}
use go_wallet.Store.{Db}
use go_wallet.World.Loops.{either_end}
use go_wallet.World.{Env, World, Result, ok, err, Action, commit, db_failure}

-- What is left when the transaction is rolled back.
abbrev rolled_back_to : Db → World → World
rolled_back_to db w = record w { db = db }

-- The deferred function writes the error of `tx.Commit` to a local variable, after `return nil` has
-- set the result: a commit that fails rolls back, and the caller is told that all went well.
unfoldable pub end_transaction : {A : Type 0} → Db → Result A × World → Env → Result A × World
end_transaction before (err e, w) env = (err e, rolled_back_to before w)
end_transaction before (ok a, w) env =
    if env.db_fails w.tick
    then (ok a, rolled_back_to before (record w { tick = w.tick + 1 }))
    else (ok a, record w { tick = w.tick + 1 })

unfoldable pub with_transaction : {A : Type 0} → Action A → Action A
unfolding end_transaction
with_transaction body env w =
    if env.db_fails w.tick
    then (err db_failure, record w { tick = w.tick + 1 })
    else end_transaction w.db (body env (record w { tick = w.tick + 1 })) env

-- A statement in a transaction: it fails, or the later statements see what it wrote.
unfoldable pub write : (Db → Db) → Action (Unit {0})
unfolding commit
write f = commit f

begins :
    {A : Type 0} (body : Action A) (env : Env) (w : World)
    → env.db_fails w.tick ≡ false
    → with_transaction body env w
      ≡ end_transaction w.db (body env (record w { tick = w.tick + 1 })) env
unfolding with_transaction
begins body env w up = ground (arith, up)

ends :
    {A : Type 0} {a : A} (before : Db) (r : Result A × World) (env : Env)
    → ((t : ℕ) → env.db_fails t ≡ false)
    → (end_transaction before r env).0 ≡ ok a
    → (r.0 ≡ ok a) × ((end_transaction before r env).1.db ≡ r.1.db)
unfolding end_transaction
ends before (ok b, v) env up e = (ground (arith, up v.tick), ground (arith, up v.tick))
ends before (err x, v) env up e = absurd (ground arith)

-- A transaction that returns had a body that returned, and while the database answers its writes
-- stand.
pub with_transaction-ok :
    {A : Type 0} {a : A} (body : Action A) (env : Env) (w : World)
    → ((t : ℕ) → env.db_fails t ≡ false)
    → (with_transaction body env w).0 ≡ ok a
    → let r = body env (record w { tick = w.tick + 1 }) in
      (r.0 ≡ ok a) × ((with_transaction body env w).1.db ≡ r.1.db)
with_transaction-ok body env w up h =
    let e = begins body env w (up w.tick) in
    let (f, g) =
      ends w.db (body env (record w { tick = w.tick + 1 })) env up (sym (ap (λ r. r.0) e) ∙ h) in
    (f, ap (λ r. r.1.db) e ∙ g)

-- A body that returns is answered with what it returns, and also if the commit fails.
pub with_transaction-answer :
    {A : Type 0} {a : A} (body : Action A) (env : Env) (w : World)
    → env.db_fails w.tick ≡ false
    → (body env (record w { tick = w.tick + 1 })).0 ≡ ok a
    → (with_transaction body env w).0 ≡ ok a
unfolding end_transaction
with_transaction-answer {A = A} {a = a} body env w up h =
    ap (λ r. r.0) (begins body env w up) ∙ go (body env (record w { tick = w.tick + 1 })) h
  where
    go : (r : Result A × World) → r.0 ≡ ok a → (end_transaction w.db r env).0 ≡ ok a
    go (ok b, v) e = ground (arith, e)
    go (err x, v) e = absurd (ground arith)

-- What the tables meet before, and the body keeps, they meet afterwards, committed or not.
pub with_transaction_keeps :
    {A : Type 0} (P : Db → Type 0) (body : Action A) (env : Env) (w : World)
    → P w.db
    → ((v : World) → P v.db → P (body env v).1.db)
    → P (with_transaction body env w).1.db
unfolding with_transaction end_transaction
with_transaction_keeps {A = A} P body env w h keep =
    either_end On (env.db_fails w.tick) (err db_failure, record w { tick = w.tick + 1 }) _ h
      (ended (body env (record w { tick = w.tick + 1 })) (keep (record w { tick = w.tick + 1 }) h))
  where
    On : World → Type 0
    On v = P v.db

    ended : (r : Result A × World) → P r.1.db → P (end_transaction w.db r env).1.db
    ended (ok a, v) k =
        either_end On (env.db_fails v.tick)
          (ok a, rolled_back_to w.db (record v { tick = v.tick + 1 }))
          (ok a, record v { tick = v.tick + 1 }) h k
    ended (err e, v) k = h
