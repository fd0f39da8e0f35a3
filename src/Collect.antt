-- ===== src/Collect.antt =====
-- internal/wallet/collect/service.go: what the users' wallets hold is swept into the hot wallet.
use go_wallet.Prelude.{
  ℕ, ◌+◌, ◌-◌, ◌*◌, pos, ℤ, Text, Bool, true, false, ◌&&◌, ◌||◌, not, Option, none, some, List, [],
  ◌∷◌, ◌==◌, ltb, leb, to_lower, if◌then◌else◌, first, select, length,
}
use go_wallet.Prelude.Decimal.{ten_to}
use go_wallet.Store.{Wallet, Token, TransactionType, Chain, Db, is_user_type}
use go_wallet.World.{
  Action, SignRequest, Env, Result, ok, err, pure, raise, guard, ask, query, query_one, try_action,
  for_each, get_client, read, ◌>>=◌, ◌>>◌, rpc_failure, insufficient_hot_balance, top_up_failed,
  user_wallet_only,
}
use go_wallet.World.Transfer.{
  native_gas_limit, suggest_fees, plain_transfer, send_and_wait, insert_transfer,
}
use go_wallet.HotWallet.{get_hot_wallet}
use go_wallet.Chains.{get_active_chains, is_blank}
pub mod Sweeps
pub mod Tokens
pub mod Cycle

abbrev pub min_collect_amount : ℕ
min_collect_amount = 5000000000000000

abbrev pub min_balance_with_gas_buff : ℕ
min_balance_with_gas_buff = 100000000000000

abbrev pub native_top_up_buffer : ℕ
native_top_up_buffer = 50000000000000

abbrev pub default_erc20_collect_gas_limit : ℕ
default_erc20_collect_gas_limit = 120000

-- From the amount to the record.
unfoldable pub sweep : Wallet → Wallet → ℕ → ℕ → ℕ → Action (Unit {0})
sweep wallet hot amount max_fee tip = do
  nonce ← ask (λ env t. env.pending_nonce t (to_lower wallet.address)) rpc_failure
  request ← read (λ env _. plain_transfer env wallet hot amount max_fee tip nonce)
  done ← send_and_wait request
  insert_transfer TransactionType.collect wallet hot amount none done.0 done.1

-- All of the balance less the fee is swept, where that is enough.
unfoldable pub sweep_balance : Wallet → Wallet → ℕ → Action (Unit {0})
sweep_balance wallet hot balance = do
  fees ← suggest_fees
  let gas_fee = fees.1 * native_gas_limit
  let amount = balance - gas_fee
  if leb balance gas_fee || ltb amount min_collect_amount || leb amount min_balance_with_gas_buff
      then pure tt
      else sweep wallet hot amount fees.1 fees.0

unfoldable pub collect_wallet_native : Wallet → Wallet → Action (Unit {0})
collect_wallet_native wallet hot = do
  busy ← read (λ env t. env.collecting t wallet.id)
  if busy then pure tt else (do
    get_client
    balance ← ask (λ env t. env.balance_at t (to_lower wallet.address)) rpc_failure
    if ltb balance min_collect_amount then pure tt else sweep_balance wallet hot balance)

-- The amount by the power of ten that the decimals stand for, which is 1 without decimals.
abbrev pub convert_amount_to_wei : Env → ℤ → ℕ → Option ℕ
convert_amount_to_wei env amount decimals = env.times amount (ten_to decimals)

-- The amount of a text in the least unit, if it is positive.
abbrev pub positive_wei : Env → Token → Option ℤ → Option ℕ
positive_wei env token none = none
positive_wei env token (some amount) = elim (convert_amount_to_wei env amount token.decimals) [
  | none ↦ none
  | some n ↦ if n == 0 then none else some n
]

unfoldable pub get_token_min_collect_amount : Token → Action ℕ
get_token_min_collect_amount token = read λ env _.
    elim (positive_wei env token token.min_withdraw_amount) [
      | some n ↦ n
      | none ↦ elim (convert_amount_to_wei env (pos env.one) token.decimals) [
        | none ↦ 1
        | some n ↦ n
      ]
    ]

-- The transfer goes by the chain of the wallet that is topped up.
abbrev pub top_up_request : Env → Wallet → Wallet → ℕ → ℕ → ℕ → ℕ → SignRequest
top_up_request env wallet hot shortfall max_fee tip nonce =
    let r = plain_transfer env hot wallet shortfall max_fee tip nonce in
    record r { chain_id = wallet.chain_id }

-- The top-up itself, and what the wallet holds after it.
unfoldable pub top_up : Wallet → Wallet → ℕ → ℕ → ℕ → ℕ → Action ℕ
top_up wallet hot current shortfall max_fee tip = do
  nonce ← ask (λ env t. env.pending_nonce t (to_lower hot.address)) rpc_failure
  request ← read (λ env _. top_up_request env wallet hot shortfall max_fee tip nonce)
  done ← send_and_wait request
  guard done.1.successful top_up_failed
  pure (current + shortfall)

-- The hot wallet pays for the gas that the wallet lacks.
unfoldable pub ensure_native_gas : Wallet → Wallet → ℕ → ℕ → Action ℕ
ensure_native_gas wallet hot current required = if leb required current then pure current else (do
  let shortfall = required - current + native_top_up_buffer
  hot_balance ← ask (λ env t. env.balance_at t (to_lower hot.address)) rpc_failure
  fees ← suggest_fees
  guard (ltb (shortfall + fees.1 * native_gas_limit) hot_balance) insufficient_hot_balance
  top_up wallet hot current shortfall fees.1 fees.0)

abbrev pub number_of : ℕ → Result ℕ → ℕ
number_of kept (ok n) = n
number_of kept (err e) = kept

-- `continue` after an error, with the native balance as it was.
unfoldable pub or_keep : ℕ → Action ℕ → Action ℕ
or_keep kept m = do answer ← try_action m; pure (number_of kept answer)

-- The call of `transfer` on the token's contract.
abbrev pub erc20_transfer_request : Env → Wallet → Wallet → Text → ℕ → ℕ → ℕ → ℕ → SignRequest
erc20_transfer_request env wallet hot token_address amount max_fee tip nonce =
    let r = plain_transfer env wallet hot 0 max_fee tip nonce in
    record r {
      to = env.checksum token_address;
      gas_limit = default_erc20_collect_gas_limit;
      call_data = some (to_lower hot.address, amount);
    }

-- All of the token's balance is swept, and the fee is taken off the native balance.
unfoldable pub sweep_token : Wallet → Wallet → Text → ℕ → ℕ → ℕ → ℕ → Action ℕ
sweep_token wallet hot token_address amount max_fee tip native = do
  nonce ← ask (λ env t. env.pending_nonce t (to_lower wallet.address)) rpc_failure
  request ←
      read (λ env _. erc20_transfer_request env wallet hot token_address amount max_fee tip nonce)
  done ← send_and_wait request
  insert_transfer TransactionType.collect wallet hot amount (some token_address) done.0 done.1
  pure (native - max_fee * default_erc20_collect_gas_limit)

-- A wallet that cannot pay the fee is topped up first.
unfoldable pub enough_gas : Wallet → Wallet → ℕ → ℕ → Action ℕ
enough_gas wallet hot native gas_fee =
    if leb native gas_fee
    then ensure_native_gas wallet hot native (gas_fee + min_balance_with_gas_buff)
    else pure native

-- An amount that is worth it is swept.
unfoldable pub collect_amount : Wallet → Wallet → ℕ → ℕ → Text → ℕ → ℕ → ℕ → Action ℕ
collect_amount wallet hot max_fee tip token_address native amount least =
    if amount == 0 || ltb amount least then pure native else (do
      enough ← enough_gas wallet hot native (max_fee * default_erc20_collect_gas_limit)
      or_keep enough (sweep_token wallet hot token_address amount max_fee tip enough))

-- One token with a contract: the native balance before and after it.
unfoldable pub collect_token : Wallet → Wallet → ℕ → ℕ → Token → Text → ℕ → Action ℕ
collect_token wallet hot max_fee tip token token_address native = or_keep native (do
  amount ← ask (λ env t. env.token_balance t token_address (to_lower wallet.address)) rpc_failure
  least ← get_token_min_collect_amount token
  collect_amount wallet hot max_fee tip token_address native amount least)

-- The contract's address in lower case, unless the token is native or has none.
abbrev pub contract_of : Token → Option Text
contract_of token = elim token.token_address [
  | none ↦ none
  | some address ↦ if token.is_native || is_blank address then none else some (to_lower address)
]

unfoldable pub collect_tokens : Wallet → Wallet → ℕ → ℕ → List Token → ℕ → Action (Unit {0})
collect_tokens wallet hot max_fee tip [] native = pure tt
collect_tokens wallet hot max_fee tip (token ∷ tokens) native = elim (contract_of token) [
  | none ↦ collect_tokens wallet hot max_fee tip tokens native
  | some address ↦ do
    left ← collect_token wallet hot max_fee tip token address native
    collect_tokens wallet hot max_fee tip tokens left
]

unfoldable pub collect_wallet_erc20 : Wallet → Wallet → List Token → Action (Unit {0})
collect_wallet_erc20 wallet hot [] = pure tt
collect_wallet_erc20 wallet hot (token ∷ tokens) = do
  get_client
  native ← ask (λ env t. env.balance_at t (to_lower wallet.address)) rpc_failure
  fees ← suggest_fees
  collect_tokens wallet hot fees.1 fees.0 (token ∷ tokens) native

unfoldable pub collect_both : Wallet → List Token → Wallet → Action (Unit {0})
collect_both hot tokens wallet = do
  _ ← try_action (collect_wallet_erc20 wallet hot tokens)
  collect_wallet_native wallet hot

unfoldable pub collect_wallets : ℕ → List Wallet → Action (Unit {0})
collect_wallets chain [] = pure tt
collect_wallets chain (wallet ∷ wallets) = do
  tokens ← query (λ db. select (λ (t : Token). t.chain_id == chain && t.is_active) db.tokens)
  hot ← get_hot_wallet chain
  for_each (collect_both hot tokens) (wallet ∷ wallets)

abbrev pub is_user_wallet : ℕ → Wallet → Bool
is_user_wallet chain wallet = wallet.chain_id == chain && is_user_type wallet.wallet_type

unfoldable pub collect_for_chain : ℕ → Action (Unit {0})
collect_for_chain chain = do
  wallets ← query (λ db. select (is_user_wallet chain) db.wallets)
  collect_wallets chain wallets

unfoldable pub collect_wallet : ℕ → Action (Unit {0})
collect_wallet id = do
  wallet ← query_one (λ db. first (λ (w : Wallet). w.id == id) db.wallets)
  guard (is_user_type wallet.wallet_type) user_wallet_only
  hot ← get_hot_wallet wallet.chain_id
  collect_wallet_native wallet hot

unfoldable pub run_auto_collect : Action (Unit {0})
run_auto_collect = do
  chains ← get_active_chains
  for_each (λ (c : Chain). collect_for_chain c.chain_id) chains
