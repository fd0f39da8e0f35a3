-- ===== src/Collect/Sweeps.antt =====
-- internal/wallet/collect/service.go: what the collection of a chain sends, and what it writes.
use go_wallet.Prelude.{
  ℕ, ◌+◌, ◌*◌, ◌-◌, ◌≤◌, ◌≡◌, refl, arith, ◌||◌, none, some, List, ltb, leb, to_lower,
}
use go_wallet.Store.{Wallet, Transaction, TransactionType, Db}
use go_wallet.World.{Env, World, SignRequest, pure, call, get_client, rpc_failure}
use go_wallet.World.Loops.{bind_keeps, if_keeps, if_keeps_by}
use go_wallet.World.Transfer.{native_gas_limit, plain_transfer, send_and_wait}
use go_wallet.World.Sent.{
  Within, ask-Within, send_and_wait-Within, suggest_fees-Within, insert_transfer-Within,
  read-Within, asked-Within,
}
use go_wallet.Collect.{
  min_collect_amount, sweep, sweep_balance, collect_wallet_native, min_balance_with_gas_buff,
  plain_transfer,
}

module _ (env : Env) (hot : Wallet) where
  -- The whole balance that the node told for the wallet goes to the hot wallet, the highest fee
  -- taken off, and what goes is no less than the minimum.
  pub record IsSweep (wallet : Wallet) (r : SignRequest) : Type 0 where
    pub target : r.to ≡ env.checksum (to_lower hot.address)
    pub source : r.derivation_path ≡ wallet.derivation_path
    pub sender : r.from_address ≡ env.checksum (to_lower wallet.address)
    pub on_chain : r.chain_id ≡ wallet.chain_id
    pub least : min_collect_amount ≤ r.value
    pub plain : r.call_data ≡ none
    pub whole :
        (t : ℕ) × (balance : ℕ) × (env.balance_at t (to_lower wallet.address) ≡ some balance)
        × (r.value + r.gas_limit * r.max_fee ≡ balance)

-- Of the tables, only the transactions and the blocks may differ.
pub record OnlyTransactions (old : Db) (new : Db) : Type 0 where
  pub withdraws : new.withdraws ≡ old.withdraws
  pub credits : new.credits ≡ old.credits
  pub wallets : new.wallets ≡ old.wallets
  pub tokens : new.tokens ≡ old.tokens
  pub chains : new.chains ≡ old.chains
  pub nonces : new.nonces ≡ old.nonces
  pub address_indexes : new.address_indexes ≡ old.address_indexes

pub still_only :
    (old db : Db) (ts : List Transaction)
    → OnlyTransactions old db
    → OnlyTransactions old (record db { transactions = ts })
still_only old db ts h = record {
  withdraws = h.withdraws;
  credits = h.credits;
  wallets = h.wallets;
  tokens = h.tokens;
  chains = h.chains;
  nonces = h.nonces;
  address_indexes = h.address_indexes;
}

pub only_start : (db : Db) → OnlyTransactions db db
only_start db = record {
  withdraws = refl;
  credits = refl;
  wallets = refl;
  tokens = refl;
  chains = refl;
  nonces = refl;
  address_indexes = refl;
}

module _ (env : Env) (P : SignRequest → Type 0) (start : World) (wallet hot : Wallet) where
  abbrev Fine : World → Type 0
  Fine = Within P (OnlyTransactions start.db) start

  sweep-Within :
      (amount max_fee tip : ℕ) (w : World)
      → ((nonce : ℕ) → P (plain_transfer env wallet hot amount max_fee tip nonce))
      → Fine w
      → Fine (sweep wallet hot amount max_fee tip env w).1
  unfolding sweep
  sweep-Within amount max_fee tip w right h =
      ask-Within P (OnlyTransactions start.db) start env _ rpc_failure _ w h λ nonce w₁ h₁.
        read-Within P (OnlyTransactions start.db) start env _ _ w₁ (
          bind_keeps env Fine (send_and_wait _) _ w₁
            (send_and_wait-Within P (OnlyTransactions start.db) start env _ w₁ (right nonce) h₁)
            λ done w₂ h₂.
              insert_transfer-Within P (OnlyTransactions start.db) start env
                (λ db ts k. still_only start.db db ts k) TransactionType.collect wallet hot amount
                none done.0 done.1 w₂ h₂)

  sweep_balance-Within :
      (balance t : ℕ) (w : World)
      → env.balance_at t (to_lower wallet.address) ≡ some balance
      → ((r : SignRequest) → IsSweep env hot wallet r → P r)
      → Fine w
      → Fine (sweep_balance wallet hot balance env w).1
  unfolding sweep_balance pure
  sweep_balance-Within balance t w told right h =
      suggest_fees-Within P (OnlyTransactions start.db) start env _ w h λ fees w₁ h₁.
        let gas_fee = fees.1 * native_gas_limit in
        let amount = balance - gas_fee in
        if_keeps_by env Fine
          (leb balance gas_fee
            || ltb amount min_collect_amount
            || leb amount min_balance_with_gas_buff)
          (pure tt) (sweep wallet hot amount fees.1 fees.0) w₁ (λ _. h₁)
          λ enough.
            sweep-Within amount fees.1 fees.0 w₁
              (λ nonce. right _ (record {
                target = refl;
                source = refl;
                sender = refl;
                on_chain = refl;
                least = ground (arith, enough);
                plain = refl;
                whole = (t, balance, told, ground (arith, enough));
              }))
              h₁

  pub collect_wallet_native-Within :
      (w : World)
      → ((r : SignRequest) → IsSweep env hot wallet r → P r)
      → Fine w
      → Fine (collect_wallet_native wallet hot env w).1
  unfolding collect_wallet_native get_client call pure
  collect_wallet_native-Within w right h =
      read-Within P (OnlyTransactions start.db) start env _ _ w (
        if_keeps env Fine (env.collecting w.tick wallet.id) (pure tt) _ w h (
          ask-Within P (OnlyTransactions start.db) start env _ rpc_failure _ w h λ _ w₁ h₁.
            asked-Within P (OnlyTransactions start.db) start env _ rpc_failure _ w₁ h₁
              λ balance w₂ told h₂.
                if_keeps env Fine (ltb balance min_collect_amount) (pure tt)
                  (sweep_balance wallet hot balance) w₂ h₂
                  (sweep_balance-Within balance w₁.tick w₂ told right h₂)))
