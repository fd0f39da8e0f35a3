-- ===== src/Withdraw/Status/Settled.antt =====
-- internal/wallet/withdraw/service.go, `UpdateWithdrawStatus`: one withdrawal, and the other
-- tables.
use go_wallet.Prelude.{
  ℕ, zero, suc, some, ◌≡◌, ◌≤◌, ◌-◌, ◌+◌, arith, refl, first, true, false, ◌==◌, ltb, if◌then◌else◌,
  ==_iff, ap, ◌<◌,
}
use go_wallet.Prelude.Rows.Find.{first-modify_map}
use go_wallet.Queries.{text_or_empty}
use go_wallet.Store.{
  Withdraw, WithdrawStatus, withdraw_status_no, withdraw_status_eq, Transaction, TransactionStatus,
}
use go_wallet.World.{
  Env, World, ok, get_client, call, ask, try_action, fresh_id, query, query_one, guard, commit,
  pure, raise, ◌>>=◌,
}
use go_wallet.World.Loops.{for_each_keeps, bind_keeps}
use go_wallet.Withdraw.Status.{
  update_withdraw_status, update_one, apply_confirmations, status_at,
  get_or_create_transaction_record, or_create, create_transaction_record_if_confirmed,
  transaction_by_hash,
}

-- The parts of the world that following the confirmations never touches.
pub record SameLedger (w w' : World) : Type 0 where
  pub credits : w'.db.credits ≡ w.db.credits
  pub nonces : w'.db.nonces ≡ w.db.nonces
  pub sent : w'.sent ≡ w.sent

update_one-SameLedger :
    (chain blocks latest : ℕ) (x : Withdraw) (env : Env) (w₀ w : World)
    → SameLedger w₀ w
    → SameLedger w₀ (update_one chain blocks latest x env w).1
unfolding update_one apply_confirmations get_or_create_transaction_record or_create
    create_transaction_record_if_confirmed get_client call ask try_action fresh_id query query_one
    guard commit pure raise ◌>>=◌
update_one-SameLedger chain blocks latest x env w₀ w s = record {
  credits = ground (arith, s.credits);
  nonces = ground (arith, s.nonces);
  sent = ground (arith, s.sent);
}

-- Following the confirmations of the withdrawals of a chain changes no credit and no nonce and
-- sends nothing, whatever fails.
pub update_withdraw_status-SameLedger :
    (chain latest : ℕ) (env : Env) (w : World)
    → SameLedger w (update_withdraw_status chain latest env w).1
unfolding update_withdraw_status query query_one
update_withdraw_status-SameLedger chain latest env w =
    bind_keeps env (SameLedger w) _ _ w (record { credits = refl; nonces = refl; sent = refl })
      λ _ w₁ k.
        bind_keeps env (SameLedger w) _ _ w₁
          (record { credits = k.credits; nonces = k.nonces; sent = k.sent })
          λ rows w₂ l.
            for_each_keeps env (SameLedger w) _ (λ x w₃ m. update_one-SameLedger _ _ _ x env w w₃ m)
              rows w₂ l

status_of_no : ℕ → WithdrawStatus
status_of_no zero = WithdrawStatus.user_withdraw_request
status_of_no (suc zero) = WithdrawStatus.signing
status_of_no (suc (suc zero)) = WithdrawStatus.pending
status_of_no (suc (suc (suc zero))) = WithdrawStatus.processing
status_of_no (suc (suc (suc (suc zero)))) = WithdrawStatus.confirmed
status_of_no _ = WithdrawStatus.failed

of-no : (s : WithdrawStatus) → status_of_no (withdraw_status_no s) ≡ s
unfolding status_of_no
of-no WithdrawStatus.user_withdraw_request = refl
of-no WithdrawStatus.signing = refl
of-no WithdrawStatus.pending = refl
of-no WithdrawStatus.processing = refl
of-no WithdrawStatus.confirmed = refl
of-no WithdrawStatus.failed = refl

withdraw_status_eq-≡ : (s t : WithdrawStatus) → withdraw_status_eq s t ≡ true → s ≡ t
withdraw_status_eq-≡ s t h =
    let e : withdraw_status_no s ≡ withdraw_status_no t = (==_iff _ _).0 h in
    cc (ap status_of_no e, of-no s, of-no t)

-- The withdrawal as the confirmations of its transaction make it.
abbrev pub settled : ℕ → ℕ → Transaction → Withdraw → Withdraw
settled blocks latest t x =
    if ltb latest t.block_no
    then x
    else record x { status = status_at blocks (latest - t.block_no) }

update_one_lem :
    (chain blocks latest : ℕ) (x : Withdraw) (env : Env) (w : World) {t : Transaction}
    → env.db_fails w.tick ≡ false
    → env.db_fails (w.tick + 1) ≡ false
    → transaction_by_hash (text_or_empty x.tx_hash) w.db ≡ some t
    → first (λ (y : Withdraw). y.id == x.id) w.db.withdraws ≡ some x
    → let (r, w') = update_one chain blocks latest x env w in
      (r ≡ ok tt)
      × (first (λ (y : Withdraw). y.id == x.id) w'.db.withdraws ≡ some (settled blocks latest t x))
unfolding update_one apply_confirmations get_or_create_transaction_record or_create try_action
    query_one commit pure ◌>>=◌
update_one_lem chain blocks latest x env w {t = t} a b f g =
    let s : WithdrawStatus = status_at blocks (latest - t.block_no) in
    let written =
      first-modify_map (λ (y : Withdraw). y.id == x.id) (λ y. record y { status = s }) (λ y. refl)
        w.db.withdraws g in
    let same : withdraw_status_eq x.status s ≡ true → x ≡ record x { status = s } = λ e.
      ap (λ (r : WithdrawStatus). record x { status = r }) (withdraw_status_eq-≡ x.status s e) in
    (ground arith, ground (arith, written, same))

-- The status that a number of confirmations stands for: confirmed from the threshold on, processing
-- from the first confirmation on, and pending without one.
abbrev pub IsStatusAt : ℕ → ℕ → WithdrawStatus → Type 0
IsStatusAt blocks count status =
    (blocks ≤ count → status ≡ WithdrawStatus.confirmed)
    × (count < blocks → 1 ≤ count → status ≡ WithdrawStatus.processing)
    × (count < blocks → count ≡ 0 → status ≡ WithdrawStatus.pending)

-- A withdrawal whose recorded transaction has failed on the chain is set to confirmed as soon as
-- that transaction's block is deep enough, where the database answers.
pub update_one-confirms_failed :
    (chain blocks latest : ℕ) (x : Withdraw) (env : Env) (w : World) {t : Transaction}
    → env.db_fails w.tick ≡ false
    → env.db_fails (w.tick + 1) ≡ false
    → transaction_by_hash (text_or_empty x.tx_hash) w.db ≡ some t
    → first (λ (y : Withdraw). y.id == x.id) w.db.withdraws ≡ some x
    → t.status ≡ TransactionStatus.failed
    → t.block_no + blocks ≤ latest
    → first (λ (y : Withdraw). y.id == x.id) (update_one chain blocks latest x env w).1.db.withdraws
      ≡ some (record x { status = WithdrawStatus.confirmed })
update_one-confirms_failed chain blocks latest x env w {t = t} a b f g failed deep =
    let (_, e) = update_one_lem chain blocks latest x env w a b f g in rw e (ground arith)
