-- ===== src/Api/Reads.antt =====
-- internal/api/handlers/wallet: the handlers that pass a call of a service on. post_create_wallet.go,
-- get_wallet_address.go, get_wallet_list.go, get_chains.go, get_total_balance.go,
-- get_pending_deposit_balance.go and get_balance_by_token.go.
use go_wallet.Prelude.{ℕ, ℤ, pos, negsuc, Text, Option, none, some, List, [], select}
use go_wallet.Store.{User, Wallet, Chain}
use go_wallet.World.{
  Action, Result, ok, err, or_raise, query, ◌>>=◌, bad_request, chain_not_found,
  internal_server_error,
}
use go_wallet.Balance.{Balance, TokenBalance, get_total_balance, get_pending_deposit_balance}
use go_wallet.Balance.Tokens.{get_balance_by_token}
use go_wallet.Wallets.{create_wallet, get_wallet, list_wallets}
use go_wallet.Api.{require_user, or_answer, parse_chain_id_param}
use go_wallet.Api.Signing.{or_wallet_missing}

-- "chain not found or inactive" is an answer of its own.
abbrev pub chain_answer : {A : Type 0} → Result A → Result A
chain_answer (ok a) = ok a
chain_answer (err chain_not_found) = err bad_request
chain_answer (err other) = err other

unfoldable pub or_chain_missing : {A : Type 0} → Action A → Action A
or_chain_missing m env w = let (r, w') = m env w in (chain_answer r, w')

-- The payload is its chain, which may be absent.
unfoldable pub post_create_wallet : Option User → Option (Option ℕ) → Action (Wallet × Text)
post_create_wallet given payload = do
  user ← require_user given
  body ← or_raise payload bad_request
  chain_id ← or_raise body bad_request
  or_chain_missing (create_wallet user.id chain_id)

unfoldable pub get_wallet_address : Option User → Option ℕ → Action (Wallet × Text)
get_wallet_address given params = do
  user ← require_user given
  chain_id ← or_raise params bad_request
  or_wallet_missing (get_wallet user.id chain_id)

unfoldable pub get_wallet_list : Option User → Action (List (Wallet × Text))
get_wallet_list given = do user ← require_user given; list_wallets user.id

-- Asks for no user.
unfoldable pub get_chains : Action (List Chain)
get_chains = query (λ db. select (λ (c : Chain). c.is_active) db.chains)

-- A balance on a chain with a negative number, which no row has, is asked for as it is.
abbrev pub on_chain_param : {A : Type 0} → (Option ℕ → Action A) → Action A → Option ℤ → Action A
on_chain_param ask_for nothing none = ask_for none
on_chain_param ask_for nothing (some (pos n)) = ask_for (some n)
on_chain_param ask_for nothing (some (negsuc n)) = nothing

abbrev pub no_balance : Action Balance
no_balance = query (λ db. record { total_amount = pos 0; token_count = 0 })

unfoldable pub get_total_balance_route : Option User → Text → Action Balance
get_total_balance_route given text = do
  user ← require_user given
  chain_id ← parse_chain_id_param text
  or_answer internal_server_error (on_chain_param (get_total_balance user.id) no_balance chain_id)

unfoldable pub get_pending_deposit_balance_route : Option User → Text → Action Balance
get_pending_deposit_balance_route given text = do
  user ← require_user given
  chain_id ← parse_chain_id_param text
  or_answer internal_server_error
      (on_chain_param (get_pending_deposit_balance user.id) no_balance chain_id)

unfoldable pub get_balance_by_token_route : Option User → Text → Action (List TokenBalance)
get_balance_by_token_route given text = do
  user ← require_user given
  chain_id ← parse_chain_id_param text
  or_answer internal_server_error
      (on_chain_param (get_balance_by_token user.id) (query (λ db. [])) chain_id)
