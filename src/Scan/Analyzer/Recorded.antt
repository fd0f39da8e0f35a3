-- ===== src/Scan/Analyzer/Recorded.antt =====
-- internal/wallet/scan/analyzer.go: the rows that the analysis of a transaction records.
use mathlib.Core.Path.{subst}
use go_wallet.Prelude.{
  not, ℕ, Text, Option, some, none, List, [], ◌∷◌, ◌≡◌, ◌≤◌, ◌⊎◌, inl, inr, arith, refl, true,
  false, Bool, Bool-cases, any, insert, count_where, ◌==◌, ◌&&◌, ==_iff, text_eq, to_lower,
  eq_of_text_eq,
}
use go_wallet.Prelude.Rows.Find.{count_where-insert, count_of_not_any}
use go_wallet.Store.{Transaction, Db}
use go_wallet.World.{
  Env, World, ChainTx, Receipt, fresh_id, query, guard, commit, pure, or_raise, ◌>>=◌,
}
use go_wallet.World.Loops.{if_keeps, each_keeps, bind_keeps}
use go_wallet.Scan.Analyzer.{
  record_eth_transfer, analyze_unless, transfer_event_signature, analyze_topics, record_transfer,
  is_user_address, transaction_exists, insert_deposit, deposit_row, analyze_eth_transfer,
  analyze_log, analyze_erc20_transfers, analyze_transaction, sign_failure,
}

-- The rows of a chain with a hash, given in lower case.
abbrev pub has_hash : ℕ → Text → Transaction → Bool
has_hash chain hash t = t.chain_id == chain && text_eq (to_lower t.tx_hash) hash

-- No transaction of a chain is recorded twice.
unfoldable pub RecordedOnce : Db → Type 0
RecordedOnce db = (chain : ℕ) (hash : Text) → count_where (has_hash chain hash) db.transactions ≤ 1

-- Recording a transfer changes nothing, or its transaction is not on record and gets a row; the
-- credits stay.
pub record_transfer-cases :
    (chain block_no : ℕ) (block_hash hash sender to_addr : Text) (token_addr : Option Text)
    (amount : ℕ) (env : Env) (w : World)
    → let db' =
        (record_transfer chain block_no block_hash hash sender to_addr token_addr amount env
          w).1.db in
      (db' ≡ w.db)
      ⊎ ((any (has_hash chain (to_lower (to_lower hash))) w.db.transactions ≡ false)
          × (db' ≡ record w.db {
            transactions =
                insert
                  (deposit_row chain block_no block_hash hash sender to_addr token_addr amount
                    w.next_id)
                  w.db.transactions;
          }))
unfolding record_transfer is_user_address transaction_exists insert_deposit fresh_id query guard
    commit pure ◌>>=◌
record_transfer-cases chain block_no block_hash hash sender to_addr token_addr amount env w =
    ground arith

RecordedOnce-insert :
    (db : Db) (row : Transaction)
    → any (has_hash row.chain_id (to_lower row.tx_hash)) db.transactions ≡ false
    → RecordedOnce db
    → RecordedOnce (record db { transactions = insert row db.transactions })
unfolding RecordedOnce
RecordedOnce-insert db row new once chain hash =
    rw (count_where-insert (has_hash chain hash) row db.transactions)
      (elim (Bool-cases (has_hash chain hash row)) [
        | inl e ↦
            let c : row.chain_id ≡ chain = (==_iff row.chain_id chain).0 (ground arith) in
            let h : to_lower row.tx_hash ≡ hash =
              eq_of_text_eq (to_lower row.tx_hash) hash (ground arith) in
            let zero_yet : count_where (has_hash chain hash) db.transactions ≡ 0 =
              subst (λ (n : ℕ). count_where (has_hash n hash) db.transactions ≡ 0) c
                (subst (λ (l : Text). count_where (has_hash row.chain_id l) db.transactions ≡ 0) h
                  (count_of_not_any (has_hash row.chain_id (to_lower row.tx_hash)) db.transactions
                    new)) in
            ground arith
        | inr e ↦ ground (arith, once chain hash)
      ])

-- The analysis keeps the credits, and what is recorded once.
record Sound (before : Db) (w : World) : Type 0 where
  pub once : RecordedOnce before → RecordedOnce w.db
  pub same : w.db.credits ≡ before.credits

record_transfer-Sound :
    (chain block_no : ℕ) (block_hash hash sender to_addr : Text) (token_addr : Option Text)
    (amount : ℕ) (env : Env) (cs : Db) (w : World)
    → Sound cs w
    → Sound cs
        (record_transfer chain block_no block_hash hash sender to_addr token_addr amount env w).1
record_transfer-Sound chain block_no block_hash hash sender to_addr token_addr amount env cs w s =
    elim (record_transfer-cases chain block_no block_hash hash sender to_addr token_addr amount env
      w) [
        | inl e ↦ record { once = λ o. rw e (s.once o); same = rw e s.same }
        | inr (new, e) ↦ record {
          once = λ o. rw e (RecordedOnce-insert w.db _ new (s.once o));
          same = rw e s.same;
        }
      ]

analyze_topics-Sound :
    (chain block_no : ℕ) (block_hash hash token : Text) (amount : ℕ) (env : Env) (cs : Db)
    (topics : List ℕ) (w : World)
    → Sound cs w
    → Sound cs (analyze_topics chain block_no block_hash hash token amount topics env w).1
unfolding analyze_topics pure
analyze_topics-Sound chain block_no block_hash hash token amount env cs [] w s = s
analyze_topics-Sound chain block_no block_hash hash token amount env cs (a ∷ []) w s = s
analyze_topics-Sound chain block_no block_hash hash token amount env cs (a ∷ b ∷ []) w s = s
analyze_topics-Sound chain block_no block_hash hash token amount env cs (a ∷ b ∷ c ∷ more) w s =
    elim (Bool-cases (a == transfer_event_signature)) [
      | inl e ↦ rw e (record_transfer-Sound chain block_no block_hash hash _ _ _ amount env cs w s)
      | inr e ↦ rw e s
    ]

analyze_erc20_transfers-Sound :
    (chain block_no : ℕ) (block_hash : Text) (tx : ChainTx) (receipt : Receipt) (env : Env)
    (cs : Db) (w : World)
    → Sound cs w
    → Sound cs (analyze_erc20_transfers chain block_no block_hash tx receipt env w).1
unfolding analyze_erc20_transfers analyze_log pure
analyze_erc20_transfers-Sound chain block_no block_hash tx receipt env cs w s =
    if_keeps env (Sound cs) (not receipt.successful) (pure tt) _ w s (
      each_keeps env (Sound cs) _
        (λ entry w₁ k.
          analyze_topics-Sound chain block_no block_hash tx.hash entry.address entry.amount env cs
            entry.topics w₁ k)
        receipt.logs w s)

record_eth_transfer-Sound :
    (chain block_no : ℕ) (block_hash : Text) (tx : ChainTx) (sender : Text) (to : Option Text)
    (env : Env) (cs : Db) (w : World)
    → Sound cs w
    → Sound cs (record_eth_transfer chain block_no block_hash tx sender to env w).1
unfolding record_eth_transfer pure
record_eth_transfer-Sound chain block_no block_hash tx sender none env cs w s = s
record_eth_transfer-Sound chain block_no block_hash tx sender (some to) env cs w s =
    record_transfer-Sound chain block_no block_hash tx.hash sender (to_lower to) none tx.value env
      cs w s

analyze_eth_transfer-Sound :
    (chain block_no : ℕ) (block_hash : Text) (tx : ChainTx) (receipt : Receipt) (env : Env)
    (cs : Db) (w : World)
    → Sound cs w
    → Sound cs (analyze_eth_transfer chain block_no block_hash tx receipt env w).1
unfolding analyze_eth_transfer or_raise pure
analyze_eth_transfer-Sound chain block_no block_hash tx receipt env cs w s =
    if_keeps env (Sound cs) (not receipt.successful) (pure tt) _ w s (
      bind_keeps env (Sound cs) (or_raise tx.sender sign_failure) _ w (or_raise-Sound tx.sender)
        λ sender w₁ k.
          record_eth_transfer-Sound chain block_no block_hash tx sender tx.to env cs w₁ k)
  where
    or_raise-Sound : (x : Option Text) → Sound cs (or_raise x sign_failure env w).1
    or_raise-Sound none = s
    or_raise-Sound (some t) = s

analyze_unless-Sound :
    (known : Bool) (chain block_no : ℕ) (block_hash : Text) (tx : ChainTx) (receipt : Receipt)
    (env : Env) (cs : Db) (w : World)
    → Sound cs w
    → Sound cs (analyze_unless known chain block_no block_hash tx receipt env w).1
unfolding analyze_unless pure
analyze_unless-Sound true chain block_no block_hash tx receipt env cs w s = s
analyze_unless-Sound false chain block_no block_hash tx receipt env cs w s =
    bind_keeps env (Sound cs) (analyze_eth_transfer chain block_no block_hash tx receipt) _ w
      (analyze_eth_transfer-Sound chain block_no block_hash tx receipt env cs w s)
      (λ _ w₂ l. analyze_erc20_transfers-Sound chain block_no block_hash tx receipt env cs w₂ l)

analyze_transaction-Sound :
    (chain block_no : ℕ) (block_hash : Text) (tx : ChainTx) (receipt : Receipt) (env : Env)
    (w : World)
    → Sound w.db (analyze_transaction chain block_no block_hash tx receipt env w).1
unfolding analyze_transaction transaction_exists query
analyze_transaction-Sound chain block_no block_hash tx receipt env w =
    bind_keeps env (Sound w.db) (transaction_exists chain tx.hash) _ w
      (record { once = λ o. o; same = refl })
      λ known w₁ k. analyze_unless-Sound known chain block_no block_hash tx receipt env w.db w₁ k

-- Analysing a transaction keeps every transaction of a chain recorded at most once.
analyze_transaction-once :
    (chain block_no : ℕ) (block_hash : Text) (tx : ChainTx) (receipt : Receipt) (env : Env)
    (w : World)
    → RecordedOnce w.db
    → RecordedOnce (analyze_transaction chain block_no block_hash tx receipt env w).1.db
analyze_transaction-once chain block_no block_hash tx receipt env w once =
    (analyze_transaction-Sound chain block_no block_hash tx receipt env w).once once

-- Analysing a transaction changes no credit.
pub analyze_transaction-credits :
    (chain block_no : ℕ) (block_hash : Text) (tx : ChainTx) (receipt : Receipt) (env : Env)
    (w : World)
    → (analyze_transaction chain block_no block_hash tx receipt env w).1.db.credits ≡ w.db.credits
analyze_transaction-credits chain block_no block_hash tx receipt env w =
    (analyze_transaction-Sound chain block_no block_hash tx receipt env w).same
