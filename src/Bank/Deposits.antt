-- ===== src/Bank/Deposits.antt =====
-- internal/wallet/deposit/service.go: the crediting of deposits, as entries in the account book.
use go_wallet.Prelude.{
  ℕ, pos, ◌≤ℤ◌, ◌≤◌, ◌+◌, Text, Bool, true, false, not, ◌≡◌, refl, List, [], ◌∷◌, insert, select,
  if◌then◌else◌, int_laws, Bool-cases, inl, inr, arith, sort,
}
use go_wallet.Prelude.Rows.Pages.{All-sort}
use go_wallet.Prelude.Rows.Sums.{sum_where-insert}
use go_wallet.Store.{Transaction, TransactionStatus, Token, Wallet, Db, transaction_status_eq}
use go_wallet.World.{
  Env, World, try_action, fresh_id, query, query_one, if_no_rows, guard, commit, pure, ◌>>=◌,
}
use go_wallet.World.Loops.{bind_keeps, bind_keeps_by, if_keeps, for_each_keeps_of, All}
use go_wallet.World.Bind.{query_answer}
use go_wallet.Balance.{available, counts_as_available}
use go_wallet.Queries.{text_or_empty}
use go_wallet.Deposit.Confirmations.{lower_block}
use go_wallet.Deposit.Credits.{
  get_token_info, or_create_native, create_native_token, create_credit, deposit_credit,
  process_deposit, credit_unless, process_finalized_deposits, add_credit, is_uncredited,
}
use go_wallet.Deposit.Credits.Once.{get_token_info-credits, add_credit-credits}
use go_wallet.Bank.{Book, Entry, then_entry, given}
use go_wallet.Bank.Sound.{IsSound-insert, AreIncoming, book}
use go_wallet.Bank.Service.{Served, Served-same}
use go_wallet.Bank.Calls.{query-Served}

get_token_info_rest :
    (chain : ℕ) (address : Text) (env : Env) (w : World)
    → let w' = (get_token_info chain address env w).1 in
      (w'.db.transactions ≡ w.db.transactions) × (w.next_id ≤ w'.next_id)
unfolding get_token_info or_create_native create_native_token try_action fresh_id query query_one
    if_no_rows commit pure ◌>>=◌
get_token_info_rest chain [] env w = (ground arith, ground arith)
get_token_info_rest chain (c ∷ cs) env w = (ground arith, ground arith)

add_credit_rest :
    (tx : Transaction) (wallet : Wallet) (token : Token) (env : Env) (w : World)
    → let w' = (add_credit tx wallet token env w).1 in
      (w'.db.transactions ≡ w.db.transactions) × (w'.next_id ≡ w.next_id + 1)
unfolding add_credit fresh_id query guard commit pure ◌>>=◌
add_credit_rest tx wallet token env w = (ground arith, ground arith)

module _ (tx : Transaction) (positive : pos 0 ≤ℤ tx.amount) (b : Book) where
  -- The credit of a deposit gives its amount to the accounts that count it.
  credit-Entry :
      (wallet : Wallet) (token : Token) (n : ℕ) (db db' : Db)
      → db'.credits ≡ insert (deposit_credit tx wallet token n) db.credits
      → Entry (book db) (book db')
  unfolding book available
  credit-Entry wallet token n db db' e =
      let new = deposit_credit tx wallet token n in
      given (λ u c t. if counts_as_available u c t new then tx.amount else pos 0)
        (λ u c t. elim (Bool-cases (counts_as_available u c t new)) [
          | inl counts ↦ rw counts positive
          | inr passed ↦ rw passed (omega arith)
        ])
        (λ u c t.
          rw (e, sum_where-insert (counts_as_available u c t) (λ d. d.amount) new db.credits)
            (elim (Bool-cases (counts_as_available u c t new)) [
              | inl counts ↦ rw counts refl
              | inr passed ↦ rw passed (omega int_laws)
            ]))

  add_credit-Served :
      (wallet : Wallet) (token : Token) (env : Env) (w : World)
      → Served b w
      → Served b (add_credit tx wallet token env w).1
  add_credit-Served wallet token env w s =
      let w' = (add_credit tx wallet token env w).1 in
      let (same, numbers) = add_credit_rest tx wallet token env w in
      elim (add_credit-credits tx wallet token env w) [
        | inl e ↦ Served-same b w w' e (rw same s.sound.incoming) (omega arith) s
        | inr e ↦ record {
          sound =
              IsSound-insert (deposit_credit tx wallet token w.next_id) w w' e same (omega arith)
                (omega arith) (λ f. absurd (ground arith)) s.sound;
          entries = then_entry s.entries (credit-Entry wallet token w.next_id w.db w'.db e);
        }
      ]

  create_credit-Served : (env : Env) (w : World) → Served b w → Served b (create_credit tx env w).1
  unfolding create_credit if_no_rows query_one
  create_credit-Served env w s =
      bind_keeps env (Served b) _ _ w (Served-same b w _ refl s.sound.incoming (omega arith) s)
        λ wallet w₁ k.
          bind_keeps env (Served b) _ _ w₁
            (let (same, numbers) =
                get_token_info_rest tx.chain_id (text_or_empty tx.token_addr) env w₁ in
              Served-same b w₁ _
                (get_token_info-credits tx.chain_id (text_or_empty tx.token_addr) env w₁)
                (rw same k.sound.incoming) numbers k)
            λ token w₂ l. add_credit-Served wallet token env w₂ l

  credit_unless-Served :
      (exists : Bool) (env : Env) (w : World)
      → Served b w
      → Served b (credit_unless exists tx env w).1
  unfolding credit_unless pure
  credit_unless-Served true env w s = s
  credit_unless-Served false env w s =
      bind_keeps env (Served b) _ _ w (create_credit-Served env w s) (λ _ w' k. k)

  process_deposit-Served :
      (env : Env) (w : World) → Served b w → Served b (process_deposit tx env w).1
  unfolding process_deposit query pure
  process_deposit-Served env w s =
      if_keeps env (Served b) (not (transaction_status_eq tx.status TransactionStatus.finalized)) _
        _ w s
        (bind_keeps env (Served b) _ _ w (Served-same b w _ refl s.sound.incoming (omega arith) s)
          (λ exists w₁ k. credit_unless-Served exists env w₁ k))

positive_rows :
    (chain : ℕ) (db : Db) (ts : List Transaction)
    → AreIncoming ts
    → All (λ (t : Transaction). pos 0 ≤ℤ t.amount) (select (is_uncredited chain db) ts)
unfolding select
positive_rows chain db [] i = tt
positive_rows chain db (t ∷ ts) (h, i) = elim (Bool-cases (is_uncredited chain db t)) [
  | inl e ↦ rw e (h (ground arith), positive_rows chain db ts i)
  | inr e ↦ rw e (positive_rows chain db ts i)
]

pub process_finalized_deposits-Served :
    (chain : ℕ) (env : Env) (w : World) (b : Book)
    → Served b w
    → Served b (process_finalized_deposits chain env w).1
unfolding process_finalized_deposits
process_finalized_deposits-Served chain env w b s =
    bind_keeps_by env (Served b) _ _ w (query-Served b env w s _) λ rows w₁ e k.
      let same : rows ≡ sort lower_block (select (is_uncredited chain w.db) w.db.transactions) =
        query_answer
          (λ (db : Db). sort lower_block (select (is_uncredited chain db) db.transactions)) env w
          e in
      for_each_keeps_of env (Served b) (λ (t : Transaction). pos 0 ≤ℤ t.amount) process_deposit
        (λ tx w₂ positive l. process_deposit-Served tx positive b env w₂ l) rows w₁
        (rw same (
          All-sort (λ (t : Transaction). pos 0 ≤ℤ t.amount) lower_block
            (select (is_uncredited chain w.db) w.db.transactions)
            (positive_rows chain w.db w.db.transactions s.sound.incoming)))
        k
