-- ===== src/World/Sent.antt =====
-- What an action hands to the node, and what it leaves in the tables.
use go_wallet.Prelude.{
  refl, ℕ, zero, suc, ◌+◌, Text, Option, some, none, Bool, true, false, List, ◌∷◌, ◌≡◌,
}
use go_wallet.Store.{Db, Transaction, TransactionType, Wallet}
use go_wallet.World.{
  Env, World, SignRequest, Action, Receipt, ask, query, guard, pure, raise, call, fresh_id, commit,
  send, read, ◌>>=◌, sign_failure, not_unique, rpc_failure,
}
use go_wallet.World.Loops.{either_end, bind_keeps}
use go_wallet.World.Transfer.{
  suggest_fees, send_and_wait, insert_transfer, wait_for_receipt, poll_receipt, after_poll, polls,
}

-- The requests handed over since `old`, each of which meets `P`.
pub data Extends (P : SignRequest → Type 0) (old : List SignRequest)
    : List SignRequest → Type 0 where
  same : Extends P old old
  more : (r : SignRequest) (rs : List SignRequest) → P r → Extends P old rs → Extends P old (r ∷ rs)

-- Requests that meet `P` are all that was sent since `start`, and the tables meet `Tables`.
pub record Within (P : SignRequest → Type 0) (Tables : Db → Type 0) (start : World) (w : World)
    : Type 0 where
  pub sent : Extends P start.sent w.sent
  pub tables : Tables w.db

module _ (P : SignRequest → Type 0) (Tables : Db → Type 0) (start : World) (env : Env) where
  -- Another tick changes nothing.
  pub later :
      (w : World) (t : ℕ) → Within P Tables start w → Within P Tables start (record w { tick = t })
  later w t h = record { sent = h.sent; tables = h.tables }

  pub ask-Within :
      {A B : Type 0} (f : Env → ℕ → Option A) (e : _) (k : A → Action B) (w : World)
      → Within P Tables start w
      → ((a : A) (w' : World) → Within P Tables start w' → Within P Tables start (k a env w').1)
      → Within P Tables start ((ask f e >>= k) env w).1
  unfolding ask
  ask-Within f e k w h rest =
      bind_keeps env (Within P Tables start) (ask f e) k w (later w (w.tick + 1) h) rest

  -- The same where the rest may count on the answer.
  pub asked-Within :
      {A B : Type 0} (f : Env → ℕ → Option A) (e : _) (k : A → Action B) (w : World)
      → Within P Tables start w
      → ((a : A) (w' : World)
          → f env w.tick ≡ some a
          → Within P Tables start w'
          → Within P Tables start (k a env w').1)
      → Within P Tables start ((ask f e >>= k) env w).1
  unfolding ask ◌>>=◌
  asked-Within {A = A} {B = B} f e k w h rest = go (f env w.tick) refl
    where
      go :
          (o : Option A)
          → f env w.tick ≡ o
          → Within P Tables start (◌>>=◌ (ask (λ _ _. o) e) k env w).1
      go none found = later w (w.tick + 1) h
      go (some a) found = rest a (record w { tick = w.tick + 1 }) found (later w (w.tick + 1) h)

  -- What comes after a guard may count on it.
  pub guard-Within :
      {B : Type 0} (b : Bool) (e : _) (k : Unit {0} → Action B) (w : World)
      → Within P Tables start w
      → (b ≡ true → Within P Tables start (k tt env w).1)
      → Within P Tables start ((guard b e >>= k) env w).1
  unfolding guard ◌>>=◌
  guard-Within true e k w h rest = rest refl
  guard-Within false e k w h rest = h

  pub read-Within :
      {A B : Type 0} (f : Env → ℕ → A) (k : A → Action B) (w : World)
      → Within P Tables start (k (f env w.tick) env w).1
      → Within P Tables start ((read f >>= k) env w).1
  unfolding read ◌>>=◌
  read-Within f k w h = h

  after_poll-Within :
      (found : Option Receipt) (over : Bool) (next : Action Receipt) (w : World)
      → Within P Tables start w
      → Within P Tables start (next env w).1
      → Within P Tables start (after_poll found over next env w).1
  unfolding after_poll pure raise
  after_poll-Within (some receipt) over next w h rest = h
  after_poll-Within none true next w h rest = h
  after_poll-Within none false next w h rest = rest

  wait-Within :
      (fuel : ℕ) (hash : Text) (w : World)
      → Within P Tables start w
      → Within P Tables start (wait_for_receipt fuel hash env w).1
  unfolding wait_for_receipt poll_receipt read raise
  wait-Within zero hash w h = h
  wait-Within (suc fuel) hash w h =
      bind_keeps env (Within P Tables start) (poll_receipt hash) _ w (later w (w.tick + 1) h)
        λ found w₁ h₁.
          bind_keeps env (Within P Tables start) (read (λ env. env.timed_out)) _ w₁ h₁ λ over w₂ h₂.
            after_poll-Within found over (wait_for_receipt fuel hash) w₂ h₂
              (wait-Within fuel hash w₂ h₂)

  send-Within :
      (r : SignRequest) (w : World)
      → P r
      → Within P Tables start w
      → Within P Tables start (send r env w).1
  unfolding send
  send-Within r w p h =
      either_end (Within P Tables start) (env.send_fails w.tick) _ _ (later w (w.tick + 1) h)
        (record { sent = Extends.more r w.sent p h.sent; tables = h.tables })

  pub send_and_wait-Within :
      (r : SignRequest) (w : World)
      → P r
      → Within P Tables start w
      → Within P Tables start (send_and_wait r env w).1
  unfolding send_and_wait call pure
  send_and_wait-Within r w p h =
      ask-Within (λ env t. env.sign t r) sign_failure _ w h
        λ hash w₁ h₁. ask-Within _ sign_failure _ w₁ h₁ λ _ w₂ h₂.
          bind_keeps env (Within P Tables start) (send r) _ w₂ (send-Within r w₂ p h₂) λ _ w₃ h₃.
            bind_keeps env (Within P Tables start) (wait_for_receipt polls hash) _ w₃
              (wait-Within polls hash w₃ h₃) λ receipt w₄ h₄. h₄

  pub suggest_fees-Within :
      {B : Type 0} (k : ℕ × ℕ → Action B) (w : World)
      → Within P Tables start w
      → ((fees : ℕ × ℕ) (w' : World)
          → Within P Tables start w'
          → Within P Tables start (k fees env w').1)
      → Within P Tables start ((suggest_fees >>= k) env w).1
  unfolding suggest_fees pure
  suggest_fees-Within k w h rest =
      bind_keeps env (Within P Tables start) suggest_fees k w
        (ask-Within _ rpc_failure _ w h
          λ tip w₁ h₁. ask-Within _ rpc_failure _ w₁ h₁ λ latest w₂ h₂. h₂)
        rest

  pub insert_transfer-Within :
      ((db : Db) (ts : List Transaction) → Tables db → Tables (record db { transactions = ts }))
      → (type : TransactionType) (source target : Wallet) (amount : ℕ) (token : Option Text)
        (hash : Text) (receipt : Receipt) (w : World)
      → Within P Tables start w
      → Within P Tables start (insert_transfer type source target amount token hash receipt env w).1
  unfolding insert_transfer fresh_id query guard commit
  insert_transfer-Within only type source target amount token hash receipt w h =
      bind_keeps env (Within P Tables start) fresh_id _ w
        (record { sent = h.sent; tables = h.tables })
        λ id w₁ h₁.
          bind_keeps env (Within P Tables start) (query _) _ w₁ (later w₁ (w₁.tick + 1) h₁)
            λ free w₂ h₂.
              bind_keeps env (Within P Tables start) (guard free not_unique) _ w₂ h₂ λ _ w₃ h₃.
                either_end (Within P Tables start) (env.db_fails w₃.tick) _ _
                  (later w₃ (w₃.tick + 1) h₃)
                  (record { sent = h₃.sent; tables = only w₃.db _ h₃.tables })
