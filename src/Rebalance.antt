-- ===== src/Rebalance.antt =====
-- internal/wallet/rebalance/service.go: coins moved from full hot wallets to empty ones.
use go_wallet.Prelude.{
  ℕ, ◌+◌, ◌-◌, ◌*◌, Text, Bool, true, false, ◌&&◌, ◌||◌, Option, none, some, List, [], ◌∷◌, ◌==◌,
  ltb, leb, text_eq, to_lower, if◌then◌else◌, first, select, length, sort,
}
use go_wallet.Store.{Wallet, TransactionType, Chain, Db, is_hot}
use go_wallet.World.{
  Action, Result, ok, err, pure, raise, guard, ask, query, query_one, try_action, for_each,
  get_client, ◌>>=◌, ◌>>◌, rpc_failure, insufficient_source_balance, insufficient_gas,
  invalid_request, read,
}
use go_wallet.World.Transfer.{
  native_gas_limit, suggest_fees, plain_transfer, send_and_wait, insert_transfer,
}
use go_wallet.HotWallet.{get_next_nonce, is_hot_wallet}
use go_wallet.Chains.{get_active_chains}
pub mod Books
pub mod Moves
pub mod Cycle
pub mod Held

abbrev pub rebalance_min_balance : ℕ
rebalance_min_balance = 3000000000000000000

abbrev pub rebalance_max_balance : ℕ
rebalance_max_balance = 8000000000000000000

abbrev pub rebalance_gas_buffer : ℕ
rebalance_gas_buffer = 200000000000000

-- From the funds at hand to the broadcast and the record.
unfoldable pub transfer_funded : Wallet → Wallet → ℕ → ℕ → ℕ → Action (Unit {0})
transfer_funded source target amount max_fee tip = do
  nonce ← get_next_nonce (to_lower source.address) source.chain_id
  request ← read (λ env _. plain_transfer env source target amount max_fee tip nonce)
  done ← send_and_wait request
  insert_transfer TransactionType.rebalance source target amount none done.0 done.1

unfoldable pub transfer_between_hot_wallets : Wallet → Wallet → ℕ → Action (Unit {0})
transfer_between_hot_wallets source target amount = do
  get_client
  balance ← ask (λ env t. env.balance_at t (to_lower source.address)) rpc_failure
  guard (leb (amount + rebalance_gas_buffer) balance) insufficient_source_balance
  fees ← suggest_fees
  guard (leb (amount + fees.1 * native_gas_limit) balance) insufficient_gas
  transfer_funded source target amount fees.1 fees.0

-- A request without an amount, or with one that is not positive, has the amount 0 here.
pub record RebalanceRequest : Type 0 where
  pub chain_id : ℕ
  pub from_address : Text
  pub to_address : Text
  pub amount : ℕ

abbrev pub hot_wallet_at : Text → ℕ → Db → Option Wallet
hot_wallet_at address chain db =
    first (λ (w : Wallet). text_eq w.address (to_lower address) && is_hot_wallet chain w) db.wallets

unfoldable pub rebalance : RebalanceRequest → Action (Unit {0})
rebalance r = do
  guard (ltb 0 r.amount) invalid_request
  source ← query_one (hot_wallet_at r.from_address r.chain_id)
  target ← query_one (hot_wallet_at r.to_address r.chain_id)
  transfer_between_hot_wallets source target r.amount

-- A hot wallet and what it is taken to hold.
pub record WalletBalance : Type 0 where
  pub wallet : Wallet
  pub balance : ℕ

-- The balances that the node tells; a wallet whose balance it does not tell is left out.
unfoldable pub load_balances : List Wallet → Action (List WalletBalance)
load_balances [] = pure []
load_balances (x ∷ xs) = do
  answer ← try_action (ask (λ env t. env.balance_at t (to_lower x.address)) rpc_failure)
  rest ← load_balances xs
  pure (elim answer [ ok balance ↦ record { wallet = x; balance = balance } ∷ rest | err e ↦ rest ])

abbrev pub is_donor : WalletBalance → Bool
is_donor x = ltb rebalance_max_balance x.balance

abbrev pub is_receiver : WalletBalance → Bool
is_receiver x = ltb x.balance rebalance_min_balance

-- What a donor gives: its balance above the maximum and the gas buffer, or what is needed if that
-- is less.
unfoldable pub share : WalletBalance → ℕ → ℕ
share donor needed =
    let available = donor.balance - rebalance_max_balance - rebalance_gas_buffer in
    if ltb needed available then needed else available

abbrev pub give : WalletBalance → ℕ → WalletBalance
give x amount = record x { balance = x.balance - amount }

abbrev pub take : WalletBalance → ℕ → WalletBalance
take x amount = record x { balance = x.balance + amount }

abbrev pub Round : Type 0
Round = Action (WalletBalance × List WalletBalance)

-- The rest of the inner loop, with this donor in front of the others.
unfoldable pub then_donors : WalletBalance → Round → Round
then_donors donor rest = do one ← rest; pure (one.0, donor ∷ one.1)

-- How the loop goes on after a transfer: `skip` after an error, and `next` unless it ends.
unfoldable pub after_transfer :
    WalletBalance
    → ℕ
    → WalletBalance
    → List WalletBalance
    → ℕ
    → Round
    → Round
    → Result (Unit {0})
    → Round
after_transfer receiver needed donor donors amount skip next (err e) = skip
after_transfer receiver needed donor donors amount skip next (ok _) =
    if ltb rebalance_max_balance (donor.balance - amount) && needed - amount == 0
    then pure (take receiver amount, give donor amount ∷ donors)
    else next

-- The inner loop: the receiver and the donors after it.
unfoldable pub ask_donors : WalletBalance → ℕ → List WalletBalance → Round
unfolding share then_donors after_transfer
ask_donors receiver needed [] = pure (receiver, [])
ask_donors receiver needed (donor ∷ donors) =
    let amount = share donor needed in
    let skip = then_donors donor (ask_donors receiver needed donors) in
    let next =
      then_donors (give donor amount)
        (ask_donors (take receiver amount) (needed - amount) donors) in
    if amount == 0 then skip else (do
      answer ← try_action (transfer_between_hot_wallets donor.wallet receiver.wallet amount)
      after_transfer receiver needed donor donors amount skip next answer)

-- The outer loop: the receivers and the donors after it.
unfoldable pub fund_receivers :
    List WalletBalance → List WalletBalance → Action (List WalletBalance × List WalletBalance)
fund_receivers [] donors = pure ([], donors)
fund_receivers (receiver ∷ receivers) donors = do
  one ← ask_donors receiver (rebalance_min_balance - receiver.balance) donors
  rest ← fund_receivers receivers one.1
  pure (one.0 ∷ rest.0, rest.1)

abbrev pub fullest_first : WalletBalance → WalletBalance → Bool
fullest_first x y = leb y.balance x.balance

abbrev pub emptiest_first : WalletBalance → WalletBalance → Bool
emptiest_first x y = leb x.balance y.balance

-- The two lists, sorted; with no donor or no receiver nothing is done.
unfoldable pub rebalance_wallets : List WalletBalance → Action (Unit {0})
rebalance_wallets balances = do
  let donors = select is_donor balances
  let receivers = select is_receiver balances
  if length donors == 0 || length receivers == 0 then pure tt else (do
    _ ← fund_receivers (sort emptiest_first receivers) (sort fullest_first donors)
    pure tt)

unfoldable pub rebalance_for_chain : ℕ → Action (Unit {0})
rebalance_for_chain chain = do
  wallets ← query (λ db. select (is_hot_wallet chain) db.wallets)
  if ltb (length wallets) 2
      then pure tt
      else (do get_client; balances ← load_balances wallets; rebalance_wallets balances)

unfoldable pub run_auto_rebalance : Action (Unit {0})
run_auto_rebalance = do
  chains ← get_active_chains
  for_each (λ (c : Chain). rebalance_for_chain c.chain_id) chains
