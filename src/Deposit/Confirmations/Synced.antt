-- ===== src/Deposit/Confirmations/Synced.antt =====
-- internal/wallet/deposit/processor.go: one transaction and its credits.
use go_wallet.Prelude.{
  ℕ, zero, suc, pos, some, List, ◌≡◌, ◌≤◌, ◌<◌, ◌≢◌, ◌∙◌, ◌&&◌, inl, inr, Bool-cases, ◌-◌, ◌+◌,
  arith, refl, true, false, Bool, ◌==◌, ==_iff, ap, if◌then◌else◌, first, modify, count_where,
}
use go_wallet.Prelude.Rows.Find.{first-modify_map, count_where-modify}
use go_wallet.Store.{
  Transaction, TransactionStatus, Credit, CreditStatus, transaction_status_eq,
  transaction_status_no, is_blockchain_ref,
}
use go_wallet.World.{Env, World, try_action, query, query_one, commit, pure, ◌>>=◌}
use go_wallet.World.Loops.{for_each_keeps, bind_keeps}
use go_wallet.Deposit.Confirmations.{
  update_transaction, update_transaction_status_and_confirmation, update_credit_status,
  write_credit_status, transaction_status_at, is_credit_of, update_confirmation_status,
}

tx_status_of_no : ℕ → TransactionStatus
tx_status_of_no zero = TransactionStatus.confirmed
tx_status_of_no (suc zero) = TransactionStatus.safe
tx_status_of_no (suc (suc zero)) = TransactionStatus.finalized
tx_status_of_no (suc (suc (suc n))) = TransactionStatus.failed

tx_status_of-no : (s : TransactionStatus) → tx_status_of_no (transaction_status_no s) ≡ s
unfolding tx_status_of_no
tx_status_of-no TransactionStatus.confirmed = refl
tx_status_of-no TransactionStatus.safe = refl
tx_status_of-no TransactionStatus.finalized = refl
tx_status_of-no TransactionStatus.failed = refl

transaction_status_eq-≡ : (s t : TransactionStatus) → transaction_status_eq s t ≡ true → s ≡ t
transaction_status_eq-≡ s t h =
    let e : transaction_status_no s ≡ transaction_status_no t = (==_iff _ _).0 h in
    cc (ap tx_status_of_no e, tx_status_of-no s, tx_status_of-no t)

refl_eq : (s : TransactionStatus) → transaction_status_eq s s ≡ true
refl_eq TransactionStatus.confirmed = refl
refl_eq TransactionStatus.safe = refl
refl_eq TransactionStatus.finalized = refl
refl_eq TransactionStatus.failed = refl

-- The credit status that follows a transaction's status, as the update writes it.
abbrev pub credit_status_at : ℕ → ℕ → ℕ → CreditStatus
credit_status_at confirmation_blocks finalized_blocks count =
    if transaction_status_eq (transaction_status_at confirmation_blocks finalized_blocks count)
      TransactionStatus.finalized
    then CreditStatus.finalized
    else CreditStatus.confirmed

-- The credits after a transaction's status went from one value to another.
abbrev pub synced_credits :
    ℕ → TransactionStatus → TransactionStatus → CreditStatus → List Credit → List Credit
synced_credits id before after status credits =
    if transaction_status_eq before after
    then credits
    else modify (is_credit_of id) (λ c. record c { status = status }) credits

update_transaction_lem :
    (confirmation_blocks finalized_blocks latest : ℕ) (tx : Transaction) (env : Env) (w : World)
    → env.db_fails w.tick ≡ false
    → env.db_fails (w.tick + 1) ≡ false
    → tx.block_no ≤ latest
    → first (λ (t : Transaction). t.id == tx.id) w.db.transactions ≡ some tx
    → let count = latest - tx.block_no in
      let status = transaction_status_at confirmation_blocks finalized_blocks count in
      let w' = (update_transaction confirmation_blocks finalized_blocks latest tx env w).1 in
      (first (λ (t : Transaction). t.id == tx.id) w'.db.transactions
        ≡ some (record tx { status = status; confirmation_count = some (pos count) }))
      × (w'.db.credits
          ≡ synced_credits tx.id tx.status status
              (credit_status_at confirmation_blocks finalized_blocks count)
              w.db.credits)
unfolding update_transaction update_transaction_status_and_confirmation update_credit_status
    write_credit_status try_action commit pure ◌>>=◌
update_transaction_lem c f latest tx env w a b le found =
    let count = latest - tx.block_no in
    let s : TransactionStatus = transaction_status_at c f count in
    let p : Transaction → Bool = λ t. t.id == tx.id in
    let counted =
      first-modify_map p (λ t. record t { confirmation_count = some (pos count) }) (λ t. refl)
        w.db.transactions found in
    let written =
      first-modify_map p (λ t. record t { status = s; confirmation_count = some (pos count) })
        (λ t. refl) w.db.transactions found in
    let same : transaction_status_eq tx.status s ≡ true → tx.status ≡ s =
      transaction_status_eq-≡ tx.status s in
    (ground (arith, counted, written, same), ground arith)

-- The status that a number of confirmations stands for: final from the second threshold on, safe
-- from the first one on, and confirmed below.
abbrev pub IsStatusAt : ℕ → ℕ → ℕ → TransactionStatus → Type 0
IsStatusAt confirmation_blocks finalized_blocks count status =
    (finalized_blocks ≤ count → status ≡ TransactionStatus.finalized)
    × (count < finalized_blocks → confirmation_blocks ≤ count → status ≡ TransactionStatus.safe)
    × (count < finalized_blocks
        → count < confirmation_blocks
        → status ≡ TransactionStatus.confirmed)

transaction_status_at_lem : (c f count : ℕ) → IsStatusAt c f count (transaction_status_at c f count)
transaction_status_at_lem c f count =
    ((λ h. ground arith), (λ h k. ground arith), (λ h k. ground arith))

-- The credits of a transaction, given a status.
abbrev pub with_credits : ℕ → CreditStatus → List Credit → List Credit
with_credits id status =
    modify (λ (c : Credit). c.reference_id == id && is_blockchain_ref c.reference_type)
      (λ c. record c { status = status })

-- Where the database answers and the latest block is not below the transaction's, the recorded
-- transaction takes the number of its confirmations, and the status final from the second threshold
-- on, safe from the first one on, and confirmed below. Where its status stays, the credits stay;
-- where it changes, exactly the credits that refer to the transaction change, and only in their
-- status: final with it, confirmed otherwise.
pub update_transaction-synced :
    (confirmation_blocks finalized_blocks latest : ℕ) (tx : Transaction) (env : Env) (w : World)
    → env.db_fails w.tick ≡ false
    → env.db_fails (w.tick + 1) ≡ false
    → tx.block_no ≤ latest
    → first (λ (t : Transaction). t.id == tx.id) w.db.transactions ≡ some tx
    → let count = latest - tx.block_no in
      let w' = (update_transaction confirmation_blocks finalized_blocks latest tx env w).1 in
      (status : TransactionStatus) × IsStatusAt confirmation_blocks finalized_blocks count status
      × (first (λ (t : Transaction). t.id == tx.id) w'.db.transactions
          ≡ some (record tx { status = status; confirmation_count = some (pos count) }))
      × (tx.status ≡ status → w'.db.credits ≡ w.db.credits)
      × (tx.status ≢ status
          → status ≡ TransactionStatus.finalized
          → w'.db.credits ≡ with_credits tx.id CreditStatus.finalized w.db.credits)
      × (tx.status ≢ status
          → status ≢ TransactionStatus.finalized
          → w'.db.credits ≡ with_credits tx.id CreditStatus.confirmed w.db.credits)
update_transaction-synced c f latest tx env w a b le found =
    let (row, credits) = update_transaction_lem c f latest tx env w a b le found in
    let status : TransactionStatus = transaction_status_at c f (latest - tx.block_no) in
    let differs : tx.status ≢ status → transaction_status_eq tx.status status ≡ false = λ n.
      elim (Bool-cases (transaction_status_eq tx.status status)) [
        | inl e ↦ absurd (n (transaction_status_eq-≡ tx.status status e))
        | inr e ↦ e
      ] in
    (
      status,
      transaction_status_at_lem c f (latest - tx.block_no),
      row,
      (λ e.
          let same : transaction_status_eq tx.status status ≡ true = rw e (refl_eq status) in
          credits ∙ rw same refl),
      (λ n e.
          let final : transaction_status_eq status TransactionStatus.finalized ≡ true = rw e refl in
          credits ∙ rw (differs n, final) refl),
      (λ n m.
          let open_still : transaction_status_eq status TransactionStatus.finalized ≡ false =
            elim (Bool-cases (transaction_status_eq status TransactionStatus.finalized)) [
              | inl e ↦ absurd (m (transaction_status_eq-≡ status TransactionStatus.finalized e))
              | inr e ↦ e
            ] in
          credits ∙ rw (differs n, open_still) refl),
    )

update_transaction-credits :
    (c f latest : ℕ) (tx : Transaction) (env : Env) (w : World) (id : ℕ)
    → count_where (is_credit_of id) (update_transaction c f latest tx env w).1.db.credits
      ≡ count_where (is_credit_of id) w.db.credits
unfolding update_transaction update_transaction_status_and_confirmation update_credit_status
    write_credit_status try_action commit pure ◌>>=◌
update_transaction-credits c f latest tx env w id =
    let k = λ (s : CreditStatus).
      count_where-modify (is_credit_of id) (is_credit_of tx.id) (λ c. record c { status = s })
        (λ c. refl) w.db.credits in
    ground (arith, k CreditStatus.confirmed, k CreditStatus.finalized, k CreditStatus.failed)

-- Following the confirmations of a chain adds and removes no credit of any transaction.
pub update_confirmation_status-credits :
    (chain latest : ℕ) (env : Env) (w : World) (id : ℕ)
    → count_where (is_credit_of id) (update_confirmation_status chain latest env w).1.db.credits
      ≡ count_where (is_credit_of id) w.db.credits
unfolding update_confirmation_status query query_one
update_confirmation_status-credits chain latest env w id = bind_keeps env P _ _ w refl λ _ w₁ k.
    bind_keeps env P _ _ w₁ k λ rows w₂ l.
      for_each_keeps env P _ (λ tx w₃ m. cc (m, update_transaction-credits _ _ latest tx env w₃ id))
        rows w₂ l
  where
    P : World → Type 0
    P w' = count_where (is_credit_of id) w'.db.credits ≡ count_where (is_credit_of id) w.db.credits
