-- ===== src/Collect/Tokens.antt =====
-- internal/wallet/collect/service.go: what the collection of tokens sends, and the whole of
-- `CollectForChain`.
use go_wallet.Prelude.{
  ℕ, ◌+◌, ◌*◌, ◌-◌, ◌<◌, ◌≡◌, refl, arith, Text, ◌||◌, none, some, List, [], ◌∷◌, ltb, leb, ◌==◌,
  to_lower, ltb→lt,
}
use go_wallet.Store.{Wallet, Token, TransactionType}
use go_wallet.World.{
  Env, World, SignRequest, Action, guard, pure, call, get_client, try_action, ◌>>=◌, rpc_failure,
}
use go_wallet.World.Loops.{bind_keeps, if_keeps}
use go_wallet.World.Transfer.{native_gas_limit, send_and_wait, insert_transfer}
use go_wallet.World.Sent.{
  Within, ask-Within, asked-Within, read-Within, send_and_wait-Within, suggest_fees-Within,
  insert_transfer-Within, guard-Within,
}
use go_wallet.Collect.Sweeps.{IsSweep, OnlyTransactions, still_only, collect_wallet_native-Within}
use go_wallet.Collect.{insufficient_hot_balance, get_hot_wallet, query_one}
use go_wallet.Collect

module _ (env : Env) (hot wallet : Wallet) where
  -- All that the node told the wallet to hold of a token goes to the hot wallet.
  pub record IsTokenSweep (r : SignRequest) : Type 0 where
    pub source : r.derivation_path ≡ wallet.derivation_path
    pub sender : r.from_address ≡ env.checksum (to_lower wallet.address)
    pub on_chain : r.chain_id ≡ wallet.chain_id
    pub no_value : r.value ≡ 0
    pub whole :
        (t : ℕ) × (token_address : Text) × (amount : ℕ) × (r.to ≡ env.checksum token_address)
        × (env.token_balance t token_address (to_lower wallet.address) ≡ some amount)
        × (r.call_data ≡ some (to_lower hot.address, amount))

  -- The hot wallet pays the wallet's gas, under the nonce that the node told, from a balance that
  -- is larger than the amount and the highest fee.
  pub record IsTopUp (r : SignRequest) : Type 0 where
    pub target : r.to ≡ env.checksum (to_lower wallet.address)
    pub source : r.derivation_path ≡ hot.derivation_path
    pub sender : r.from_address ≡ env.checksum (to_lower hot.address)
    pub on_chain : r.chain_id ≡ wallet.chain_id
    pub plain : r.call_data ≡ none
    pub told : (t : ℕ) × (env.pending_nonce t (to_lower hot.address) ≡ some r.nonce)
    pub funded :
        (t : ℕ) × (balance : ℕ) × (env.balance_at t (to_lower hot.address) ≡ some balance)
        × (r.value + r.gas_limit * r.max_fee < balance)

module _ (env : Env) (P : SignRequest → Type 0) (start : World) (wallet hot : Wallet)
    (sweeps : (r : SignRequest) → IsSweep env hot wallet r → P r)
    (token_sweeps : (r : SignRequest) → IsTokenSweep env hot wallet r → P r)
    (top_ups : (r : SignRequest) → IsTopUp env hot wallet r → P r) where
  abbrev Fine : World → Type 0
  Fine = Within P (OnlyTransactions start.db) start

  top_up-Within :
      (current shortfall max_fee tip t balance : ℕ) (w : World)
      → env.balance_at t (to_lower hot.address) ≡ some balance
      → shortfall + max_fee * native_gas_limit < balance
      → Fine w
      → Fine (Collect.top_up wallet hot current shortfall max_fee tip env w).1
  unfolding Collect.top_up guard pure
  top_up-Within current shortfall max_fee tip t balance w told enough h =
      asked-Within P (OnlyTransactions start.db) start env _ rpc_failure _ w h λ nonce w₁ next h₁.
        read-Within P (OnlyTransactions start.db) start env _ _ w₁ (
          bind_keeps env Fine (send_and_wait _) _ w₁
            (send_and_wait-Within P (OnlyTransactions start.db) start env _ w₁
              (top_ups _ (record {
                target = refl;
                source = refl;
                sender = refl;
                on_chain = refl;
                plain = refl;
                told = (w.tick, next);
                funded = (t, balance, told, omega (arith, enough));
              }))
              h₁)
            λ done w₂ h₂. bind_keeps env Fine (guard _ _) _ w₂ h₂ λ _ w₃ h₃. h₃)

  ensure_native_gas-Within :
      (current required : ℕ) (w : World)
      → Fine w
      → Fine (Collect.ensure_native_gas wallet hot current required env w).1
  unfolding Collect.ensure_native_gas guard pure
  ensure_native_gas-Within current required w h =
      if_keeps env Fine (leb required current) (pure current) _ w h (
        asked-Within P (OnlyTransactions start.db) start env _ rpc_failure _ w h
          λ balance w₁ told h₁.
            suggest_fees-Within P (OnlyTransactions start.db) start env _ w₁ h₁ λ fees w₂ h₂.
              guard-Within P (OnlyTransactions start.db) start env _ insufficient_hot_balance _ w₂
                h₂
                λ enough.
                  top_up-Within current (required - current + Collect.native_top_up_buffer) fees.1
                    fees.0 w.tick balance w₂ told (ltb→lt _ _ enough) h₂)

  sweep_token-Within :
      (token_address : Text) (amount max_fee tip native t : ℕ) (w : World)
      → env.token_balance t token_address (to_lower wallet.address) ≡ some amount
      → Fine w
      → Fine (Collect.sweep_token wallet hot token_address amount max_fee tip native env w).1
  unfolding Collect.sweep_token pure
  sweep_token-Within token_address amount max_fee tip native t w told h =
      ask-Within P (OnlyTransactions start.db) start env _ rpc_failure _ w h λ nonce w₁ h₁.
        read-Within P (OnlyTransactions start.db) start env _ _ w₁ (
          bind_keeps env Fine (send_and_wait _) _ w₁
            (send_and_wait-Within P (OnlyTransactions start.db) start env _ w₁
              (token_sweeps _ (record {
                source = refl;
                sender = refl;
                on_chain = refl;
                no_value = refl;
                whole = (t, token_address, amount, refl, told, refl);
              }))
              h₁)
            λ done w₂ h₂.
              bind_keeps env Fine (insert_transfer _ _ _ _ _ _ _) _ w₂
                (insert_transfer-Within P (OnlyTransactions start.db) start env
                  (λ db ts k. still_only start.db db ts k) TransactionType.collect wallet hot amount
                  (some token_address) done.0 done.1 w₂ h₂)
                λ _ w₃ h₃. h₃)

  or_keep-Within :
      (kept : ℕ) (m : Action ℕ) (w : World)
      → Fine (m env w).1
      → Fine (Collect.or_keep kept m env w).1
  unfolding Collect.or_keep try_action pure ◌>>=◌
  or_keep-Within kept m w h = h

  enough_gas-Within :
      (native gas_fee : ℕ) (w : World)
      → Fine w
      → Fine (Collect.enough_gas wallet hot native gas_fee env w).1
  unfolding Collect.enough_gas pure
  enough_gas-Within native gas_fee w h =
      if_keeps env Fine (leb native gas_fee) _ (pure native) w
        (ensure_native_gas-Within native _ w h) h

  collect_amount-Within :
      (max_fee tip : ℕ) (token_address : Text) (native amount least t : ℕ) (w : World)
      → env.token_balance t token_address (to_lower wallet.address) ≡ some amount
      → Fine w
      → Fine
          (Collect.collect_amount wallet hot max_fee tip token_address native amount least env w).1
  unfolding Collect.collect_amount pure
  collect_amount-Within max_fee tip token_address native amount least t w told h =
      let gas_fee = max_fee * Collect.default_erc20_collect_gas_limit in
      if_keeps env Fine (amount == 0 || ltb amount least) (pure native)
        (Collect.enough_gas wallet hot native gas_fee >>= λ enough.
          Collect.or_keep enough
            (Collect.sweep_token wallet hot token_address amount max_fee tip enough))
        w h
        (bind_keeps env Fine (Collect.enough_gas wallet hot native gas_fee)
          (λ enough.
            Collect.or_keep enough
              (Collect.sweep_token wallet hot token_address amount max_fee tip enough))
          w (enough_gas-Within native gas_fee w h)
          λ enough w₁ h₁.
            or_keep-Within enough
              (Collect.sweep_token wallet hot token_address amount max_fee tip enough) w₁
              (sweep_token-Within token_address amount max_fee tip enough t w₁ told h₁))

  collect_token-Within :
      (max_fee tip : ℕ) (token : Token) (token_address : Text) (native : ℕ) (w : World)
      → Fine w
      → Fine (Collect.collect_token wallet hot max_fee tip token token_address native env w).1
  unfolding Collect.collect_token Collect.get_token_min_collect_amount
  collect_token-Within max_fee tip token token_address native w h = or_keep-Within native _ w (
      asked-Within P (OnlyTransactions start.db) start env _ rpc_failure _ w h λ amount w₁ told h₁.
        read-Within P (OnlyTransactions start.db) start env _ _ w₁
          (collect_amount-Within max_fee tip token_address native amount _ w.tick w₁ told h₁))

  collect_tokens-Within :
      (max_fee tip : ℕ) (tokens : List Token) (native : ℕ) (w : World)
      → Fine w
      → Fine (Collect.collect_tokens wallet hot max_fee tip tokens native env w).1
  unfolding Collect.collect_tokens pure
  collect_tokens-Within max_fee tip [] native w h = h
  collect_tokens-Within max_fee tip (token ∷ tokens) native w h =
      elim (Collect.contract_of token)
        as (λ o.
          Fine
            ((elim o as (λ _. Action (Unit {0})) [
              | none ↦ Collect.collect_tokens wallet hot max_fee tip tokens native
              | some address ↦
                  Collect.collect_token wallet hot max_fee tip token address native
                  >>= Collect.collect_tokens wallet hot max_fee tip tokens
            ])
              env w).1) [
                | none ↦ collect_tokens-Within max_fee tip tokens native w h
                | some address ↦
                    bind_keeps env Fine
                      (Collect.collect_token wallet hot max_fee tip token address native)
                      (Collect.collect_tokens wallet hot max_fee tip tokens) w
                      (collect_token-Within max_fee tip token address native w h)
                      λ left w₁ h₁. collect_tokens-Within max_fee tip tokens left w₁ h₁
              ]

  collect_wallet_erc20-Within :
      (tokens : List Token) (w : World)
      → Fine w
      → Fine (Collect.collect_wallet_erc20 wallet hot tokens env w).1
  unfolding Collect.collect_wallet_erc20 get_client call pure
  collect_wallet_erc20-Within [] w h = h
  collect_wallet_erc20-Within (token ∷ tokens) w h =
      ask-Within P (OnlyTransactions start.db) start env _ rpc_failure _ w h λ _ w₁ h₁.
        ask-Within P (OnlyTransactions start.db) start env _ rpc_failure _ w₁ h₁ λ native w₂ h₂.
          suggest_fees-Within P (OnlyTransactions start.db) start env _ w₂ h₂
            λ fees w₃ h₃. collect_tokens-Within fees.1 fees.0 (token ∷ tokens) native w₃ h₃

  pub collect_both-Within :
      (tokens : List Token) (w : World)
      → Fine w
      → Fine (Collect.collect_both hot tokens wallet env w).1
  unfolding Collect.collect_both try_action ◌>>=◌
  collect_both-Within tokens w h =
      collect_wallet_native-Within env P start wallet hot _ sweeps
        (collect_wallet_erc20-Within tokens w h)
