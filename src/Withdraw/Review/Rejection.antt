-- ===== src/Withdraw/Review/Rejection.antt =====
-- internal/wallet/withdraw/service.go, `RejectWithdraw`: how it ends, by what it finds.
use go_wallet.Prelude.{
  ℕ, Text, ◌+◌, ◌+ℤ◌, ◌≡◌, inl, inr, true, false, some, Option-cases, refl, List, [], ◌∷◌, select,
  ap, arith, first, ◌⊎◌, ◌==◌, ==_iff,
}
use go_wallet.Prelude.Rows.Pages.{In, In-select}
use go_wallet.Store.{Withdraw, WithdrawStatus, Credit, CreditStatus, ReferenceType, Db}
use go_wallet.World.{
  Env, World, ok, err, Error, pure, guard, query, query_one, if_no_rows, statement, commit, ◌>>=◌,
}
use go_wallet.Balance.{available}
use go_wallet.Withdraw.Process.{withdraw_by_id, save_withdraw}
use go_wallet.Withdraw.Process.Outcome.{saved_found, withdraw_id_of}
use go_wallet.Withdraw.Review.{
  reject_withdraw, write_rejection, statements, rejected, is_frozen_for, fail_credits, may_reject,
  is_empty, Result, reject_message,
}
use go_wallet.Withdraw.Review.Refund.{
  HasDistinctIds, held, available-fail_credits, select-fail_credits,
}
use go_wallet.World.Bind.{Result-cases}

statements-same :
    (cs : List Credit) (env : Env) (w : World)
    → let w' = (statements cs env w).1 in (w'.db ≡ w.db) × (w'.sent ≡ w.sent)
unfolding statements statement query pure ◌>>=◌
statements-same [] env w = (refl, refl)
statements-same (c ∷ cs) env w =
    let ih = statements-same cs env (record w { tick = w.tick + 1 }) in
    (ground (arith, ih), ground (arith, ih))

-- The tables after a rejection.
abbrev pub rejected_db : Withdraw → List Credit → Text → Db → Db
rejected_db x credits reason db = record (save_withdraw (rejected reason x) db) {
  credits = fail_credits credits db.credits;
}

-- How a rejection that began at `w` ended: the tables are written as a whole, or not at all, and
-- nothing is sent.
abbrev pub Wrote : Withdraw → List Credit → Text → World → Result Withdraw × World → Type 0
Wrote x cs reason w (ok y, w') =
    (y ≡ rejected reason x) × (w'.db ≡ rejected_db x cs reason w.db) × (w'.sent ≡ w.sent)
Wrote x cs reason w (err e, w') = (w'.db ≡ w.db) × (w'.sent ≡ w.sent)

write_rejection-Wrote :
    (x : Withdraw) (cs : List Credit) (reason : Text) (env : Env) (w : World)
    → Wrote x cs reason w (write_rejection x cs reason env w)
unfolding write_rejection statement query commit pure ◌>>=◌
write_rejection-Wrote x cs reason env w =
    ground (arith, statements-same cs env (record w { tick = w.tick + 1 }))

-- A rejection that fails, at a test or at any statement, changes no table and sends nothing.
pub reject_withdraw-error_unchanged :
    (id : ℕ) (reason : Text) (env : Env) (w : World) {e : Error}
    → (reject_withdraw id reason env w).0 ≡ err e
    → let w' = (reject_withdraw id reason env w).1 in (w'.db ≡ w.db) × (w'.sent ≡ w.sent)
unfolding reject_withdraw statement guard if_no_rows query_one query ◌>>=◌
reject_withdraw-error_unchanged id reason env w h = elim (Option-cases (withdraw_by_id id w.db)) [
  | inl missing ↦ (ground arith, ground arith)
  | inr (x, found) ↦
      let wrote =
        write_rejection-Wrote x (select (is_frozen_for id) w.db.credits) reason env
          (record w { tick = w.tick + 1 + 1 + 1 }) in
      (ground (arith, wrote), ground (arith, wrote))
]

-- What a rejection that succeeds has found, and what it has written.
pub record Rejected (id : ℕ) (reason : Text) (w : World) (y : Withdraw) (w' : World) : Type 0 where
  pub x : Withdraw
  pub found : withdraw_by_id id w.db ≡ some x
  pub frozen : is_empty (select (is_frozen_for id) w.db.credits) ≡ false
  pub allowed : may_reject x.status ≡ true
  pub row : y ≡ rejected reason x
  pub written : w'.db ≡ rejected_db x (select (is_frozen_for id) w.db.credits) reason w.db
  pub nothing_sent : w'.sent ≡ w.sent

pub reject_withdraw-Rejected :
    (id : ℕ) (reason : Text) (env : Env) (w : World) {y : Withdraw}
    → (reject_withdraw id reason env w).0 ≡ ok y
    → Rejected id reason w y (reject_withdraw id reason env w).1
unfolding reject_withdraw statement guard if_no_rows query_one query ◌>>=◌
reject_withdraw-Rejected id reason env w h = elim (Option-cases (withdraw_by_id id w.db)) [
  | inl missing ↦ absurd (ground arith)
  | inr (x, found) ↦
      let wrote =
        write_rejection-Wrote x (select (is_frozen_for id) w.db.credits) reason env
          (record w { tick = w.tick + 1 + 1 + 1 }) in
      record {
        x = x;
        found = found;
        frozen = ground (arith, wrote);
        allowed = ground (arith, wrote);
        row = ground (arith, wrote);
        written = ground (arith, wrote);
        nothing_sent = ground (arith, wrote);
      }
]

-- A rejection that succeeds sends nothing, marks the withdrawal as failed, and gives the available
-- balance of every user, chain and token back what the withdrawal's frozen credits held of it, and
-- leaves none of them frozen. The credits have distinct row numbers.
pub reject_withdraw-refunds :
    (id : ℕ) (reason : Text) (env : Env) (w : World) {y : Withdraw}
    → HasDistinctIds w.db.credits
    → (reject_withdraw id reason env w).0 ≡ ok y
    → let w' = (reject_withdraw id reason env w).1 in
      ((user chain token : ℕ)
        → available user chain token w'.db +ℤ held id user chain token w.db.credits
          ≡ available user chain token w.db)
      × (select (is_frozen_for id) w'.db.credits ≡ [])
      × (withdraw_by_id id w'.db ≡ some y)
      × (y.status ≡ WithdrawStatus.failed)
      × (w'.sent ≡ w.sent)
reject_withdraw-refunds id reason env w distinct h =
    let r = reject_withdraw-Rejected id reason env w h in
    let w' = (reject_withdraw id reason env w).1 in
    let credits : w'.db.credits
        ≡ fail_credits (select (is_frozen_for id) w.db.credits) w.db.credits =
      ap (λ (db : Db). db.credits) r.written in
    (
      (λ user chain token. available-fail_credits id user chain token w.db w'.db distinct credits),
      rw credits (select-fail_credits id w.db.credits distinct),
      rw (ap (λ (db : Db). db.withdraws) r.written, r.row)
          (saved_found id r.x (rejected reason r.x) w.db (withdraw_id_of id r.x w.db r.found)
            r.found),
      ap (λ (z : Withdraw). z.status) r.row,
      r.nothing_sent,
    )

-- No money is given back twice: after a rejection that succeeds, a further one, with any answers
-- of the database, fails and changes no table.
pub reject_withdraw_once :
    (id : ℕ) (reason reason' : Text) (env env' : Env) (w : World) {y : Withdraw}
    → HasDistinctIds w.db.credits
    → (reject_withdraw id reason env w).0 ≡ ok y
    → let w' = (reject_withdraw id reason env w).1 in
      let (r, w'') = reject_withdraw id reason' env' w' in
      ((e : Error) × (r ≡ err e)) × (w''.db ≡ w'.db)
reject_withdraw_once id reason reason' env env' w distinct h =
    let w' = (reject_withdraw id reason env w).1 in
    let (_, none_left, _, _, _) = reject_withdraw-refunds id reason env w distinct h in
    elim (Result-cases (reject_withdraw id reason' env' w').0) [
      | inl (z, again) ↦
          let r = reject_withdraw-Rejected id reason' env' w' again in
          absurd (cc (ap (λ (cs : List Credit). is_empty cs) none_left, r.frozen))
      | inr (e, failed) ↦
          ((e, failed), (reject_withdraw-error_unchanged id reason' env' w' failed).0)
    ]

module _ (env : Env) (up : (t : ℕ) → env.db_fails t ≡ false) where
  statements_ok : (cs : List Credit) (w : World) → (statements cs env w).0 ≡ ok tt
  unfolding statements statement query pure ◌>>=◌
  statements_ok [] w = refl
  statements_ok (c ∷ cs) w =
      ground (arith, up w.tick, statements_ok cs (record w { tick = w.tick + 1 }))

  write_rejection_ok :
      (x : Withdraw) (cs : List Credit) (reason : Text) (w : World)
      → (write_rejection x cs reason env w).0 ≡ ok (rejected reason x)
  unfolding write_rejection statement query commit pure ◌>>=◌
  write_rejection_ok x cs reason w =
      let w₁ : World = record w { tick = w.tick + 1 } in
      ground (arith, up w.tick, statements_ok cs w₁, up (statements cs env w₁).1.tick)

  total_lem :
      (id : ℕ) (reason : Text) (w : World) {x : Withdraw}
      → withdraw_by_id id w.db ≡ some x
      → may_reject x.status ≡ true
      → is_empty (select (is_frozen_for id) w.db.credits) ≡ false
      → (reject_withdraw id reason env w).0 ≡ ok (rejected reason x)
  unfolding reject_withdraw statement guard if_no_rows query_one query ◌>>=◌
  total_lem id reason w {x = x} f m n =
      let w₃ : World = record w { tick = w.tick + 1 + 1 + 1 } in
      ground (
        arith,
        up w.tick,
        up (w.tick + 1),
        up (w.tick + 1 + 1),
        write_rejection_ok x (select (is_frozen_for id) w.db.credits) reason w₃,
      )

  -- While the database answers, every withdrawal that is requested or failed, and that a frozen
  -- credit in the table refers to, can be rejected, and is then answered as failed, with the
  -- administrator's text or the default one.
  pub reject_withdraw_total :
      (id : ℕ) (reason : Text) (w : World) {x : Withdraw} (credit : Credit)
      → first (λ (y : Withdraw). y.id == id) w.db.withdraws ≡ some x
      → (x.status ≡ WithdrawStatus.user_withdraw_request) ⊎ (x.status ≡ WithdrawStatus.failed)
      → In credit w.db.credits
      → credit.reference_id ≡ id
      → credit.reference_type ≡ ReferenceType.withdraw
      → credit.status ≡ CreditStatus.frozen
      → (reject_withdraw id reason env w).0
        ≡ ok (record x {
          status = WithdrawStatus.failed;
          error_message = some (reject_message reason);
        })
  reject_withdraw_total id reason w {x = x} credit f status listed of_it kind frozen =
      let allowed : may_reject x.status ≡ true = elim status [
        | inl e ↦ rw e refl
        | inr e ↦ rw e refl
      ] in
      let same : credit.reference_id == id ≡ true = (==_iff credit.reference_id id).1 of_it in
      let holds : is_frozen_for id credit ≡ true = rw (same, kind, frozen) refl in
      let (y, ys, e) = In-select (is_frozen_for id) credit w.db.credits listed holds in
      total_lem id reason w f allowed (rw e refl)
