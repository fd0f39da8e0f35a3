-- ===== src/Withdraw/Process.antt =====
-- internal/wallet/withdraw/service.go, `ProcessWithdraw` and the balance checks: an approved
-- withdrawal is signed with the hot wallet's key and handed to the node.
use go_wallet.Prelude.{
  ℕ, ◌+◌, ◌*◌, Text, Option, none, some, ◌==◌, if◌then◌else◌, leb, first, modify,
}
use go_wallet.Prelude.Decimal.{ten_to}
use go_wallet.Store.{Withdraw, WithdrawStatus, Token, Wallet, Db, withdraw_status_eq}
use go_wallet.World.{
  Action, SignRequest, pure, guard, or_raise, ask, call, query_one, statement, commit, send,
  get_client, ◌>>=◌, ◌>>◌, rpc_failure, sign_failure, bad_status, no_base_fee, bad_amount,
  insufficient_hot_balance, insufficient_token_balance, insufficient_gas, token_address_invalid,
}
use go_wallet.HotWallet.{get_hot_wallet, get_next_nonce}
use go_wallet.Queries.{token_by_id}
pub mod Payment
pub mod Outcome

abbrev pub default_erc20_gas_limit : ℕ
default_erc20_gas_limit = 100000

abbrev pub default_eth_gas_limit : ℕ
default_eth_gas_limit = 21000

abbrev pub eip1559_fee_multiplier : ℕ
eip1559_fee_multiplier = 2

abbrev pub withdraw_by_id : ℕ → Db → Option Withdraw
withdraw_by_id id db = first (λ (x : Withdraw). x.id == id) db.withdraws

-- `withdraw.Update`, which writes every column of the row that was read.
abbrev pub save_withdraw : Withdraw → Db → Db
save_withdraw x db = record db {
  withdraws = modify (λ (y : Withdraw). y.id == x.id) (λ _. x) db.withdraws;
}

unfoldable pub check_native_token_balance : Text → ℕ → ℕ → Action (Unit {0})
check_native_token_balance address amount_wei max_fee = do
  balance ← ask (λ env t. env.balance_at t address) rpc_failure
  guard (leb (amount_wei + default_eth_gas_limit * max_fee) balance) insufficient_hot_balance

unfoldable pub check_erc20_token_balance : Token → Text → ℕ → ℕ → Action (Unit {0})
check_erc20_token_balance token address amount_wei max_fee = do
  token_address ← or_raise token.token_address token_address_invalid
  token_balance ← ask (λ env t. env.token_balance t token_address address) rpc_failure
  guard (leb amount_wei token_balance) insufficient_token_balance
  balance ← ask (λ env t. env.balance_at t address) rpc_failure
  guard (leb (default_erc20_gas_limit * max_fee) balance) insufficient_gas

unfoldable pub check_hot_wallet_balance : Token → Text → ℕ → ℕ → Action (Unit {0})
unfolding check_native_token_balance check_erc20_token_balance
check_hot_wallet_balance token address amount_wei max_fee =
    if token.is_native
    then check_native_token_balance address amount_wei max_fee
    else check_erc20_token_balance token address amount_wei max_fee

abbrev pub native_request : Withdraw → Wallet → ℕ → ℕ → ℕ → ℕ → SignRequest
native_request x hot amount_wei max_fee tip nonce = record {
  chain_id = x.chain_id;
  to = x.to_address;
  value = amount_wei;
  gas_limit = default_eth_gas_limit;
  max_fee = max_fee;
  tip_cap = tip;
  nonce = nonce;
  from_address = hot.address;
  derivation_path = hot.derivation_path;
  call_data = none;
}

-- An ERC20 withdrawal calls `transfer` of the token's contract.
abbrev pub erc20_request : Withdraw → Wallet → Text → ℕ → ℕ → ℕ → ℕ → SignRequest
erc20_request x hot token_address amount_wei max_fee tip nonce =
    let r = native_request x hot amount_wei max_fee tip nonce in
    record r {
      to = token_address;
      value = 0;
      gas_limit = default_erc20_gas_limit;
      call_data = some (x.to_address, amount_wei);
    }

unfoldable pub build_request : Withdraw → Wallet → Token → ℕ → ℕ → ℕ → ℕ → Action SignRequest
build_request x hot token amount_wei max_fee tip nonce =
    if token.is_native then pure (native_request x hot amount_wei max_fee tip nonce) else (do
      token_address ← or_raise token.token_address token_address_invalid
      pure (erc20_request x hot token_address amount_wei max_fee tip nonce))

-- The row after the broadcast.
abbrev pub broadcasted : Withdraw → Wallet → Text → ℕ → Withdraw
broadcasted x hot hash nonce = record x {
  status = WithdrawStatus.pending;
  tx_hash = some hash;
  from_address = some hot.address;
  nonce = some nonce;
}

-- From the signing request to the end: sign, decode, send, and record it.
unfoldable pub broadcast : Withdraw → Wallet → ℕ → SignRequest → Action (Unit {0})
broadcast x hot nonce request = do
  hash ← ask (λ env t. env.sign t request) sign_failure
  call (λ env. env.decode_fails) sign_failure
  send request
  statement
  commit (save_withdraw (broadcasted x hot hash nonce))

-- The fees and the funds: what `ProcessWithdraw` does before it takes a nonce.
unfoldable pub prepare : Withdraw → Wallet → Token → Action (ℕ × ℕ × ℕ)
prepare x hot token = do
  amount_wei ← ask (λ env _. env.times x.amount (ten_to token.decimals)) bad_amount
  tip ← ask (λ env. env.tip_cap) rpc_failure
  latest ← ask (λ env. env.base_fee) rpc_failure
  base_fee ← or_raise latest no_base_fee
  let max_fee = base_fee * eip1559_fee_multiplier + tip
  check_hot_wallet_balance token hot.address amount_wei max_fee
  pure (amount_wei, max_fee, tip)

-- From the nonce to the broadcast. The nonce is taken in a transaction of its own, which stands
-- whatever becomes of the rest.
unfoldable pub spend : Withdraw → Wallet → Token → ℕ → ℕ → ℕ → Action (Unit {0})
spend x hot token amount_wei max_fee tip = do
  nonce ← get_next_nonce hot.address x.chain_id
  request ← build_request x hot token amount_wei max_fee tip nonce
  broadcast x hot nonce request

-- All that follows once the rows are at hand.
unfoldable pub pay : Withdraw → Wallet → Token → Action (Unit {0})
pay x hot token = do funds ← prepare x hot token; spend x hot token funds.0 funds.1 funds.2

unfoldable pub process_withdraw : ℕ → Action (Unit {0})
process_withdraw id = do
  statement
  x ← query_one (withdraw_by_id id)
  guard (withdraw_status_eq x.status WithdrawStatus.user_withdraw_request) bad_status
  hot ← get_hot_wallet x.chain_id
  get_client
  token ← query_one (token_by_id x.token_id)
  pay x hot token
