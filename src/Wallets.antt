-- ===== src/Wallets.antt =====
-- internal/wallet/service.go: the wallets of users.
use mathlib.Core.List.{map}
use go_wallet.Prelude.{
  ℕ, Text, Bool, ◌&&◌, not, Option, none, some, List, [], ◌∷◌, ◌==◌, text_eq, to_lower, first,
  select, insert,
}
use go_wallet.Store.{Wallet, WalletType, Chain, Db}
use go_wallet.World.{
  Error, Result, ok, err, Action, pure, raise, guard, ask, call, query, query_one, if_no_rows,
  try_action, fresh_id, ◌>>=◌, ◌>>◌, no_rows, seed_missing, derive_failure, not_unique,
  chain_not_found, wallet_not_found,
}
use go_wallet.World.Transaction.{with_transaction, write}
use go_wallet.Queries.{chain_by_id}
use go_wallet.HotWallet.{get_next_address_index, wallet_key_free}
pub mod Created

abbrev pub active_chain : ℕ → Db → Option Chain
active_chain id db = first (λ (c : Chain). c.chain_id == id && c.is_active) db.chains

abbrev pub wallet_of : ℕ → ℕ → Db → Option Wallet
wallet_of user chain db =
    first (λ (wallet : Wallet). wallet.user_id == user && wallet.chain_id == chain) db.wallets

abbrev pub user_wallet_row : ℕ → ℕ → Text → ℕ → ℕ → Wallet
user_wallet_row user chain address index id = record {
  id = id;
  user_id = user;
  address = to_lower address;
  chain_id = chain;
  derivation_path = index;
  address_index = index;
  wallet_type = WalletType.user;
}

-- The row's insertion, under the unique key of `wallets`.
unfoldable pub insert_wallet : ℕ → ℕ → Text → ℕ → Action Wallet
insert_wallet user chain address index = with_transaction (do
  id ← fresh_id
  free ← query (wallet_key_free (to_lower address) chain)
  guard free not_unique
  write
      λ db. record db { wallets = insert (user_wallet_row user chain address index id) db.wallets }
  pure (user_wallet_row user chain address index id))

-- What follows the search for the user's wallet: the one there is, or a new one.
unfoldable pub or_new_wallet : ℕ → ℕ → Result Wallet → Action Wallet
or_new_wallet user chain (ok wallet) = pure wallet
or_new_wallet user chain (err no_rows) = do
  call (λ env t. not (env.seed_ready t)) seed_missing
  index ← get_next_address_index none
  address ← ask (λ env _. env.derive index) derive_failure
  insert_wallet user chain address index
or_new_wallet user chain (err e) = raise e

-- The wallet goes with its chain's name.
unfoldable pub create_wallet : ℕ → ℕ → Action (Wallet × Text)
create_wallet user chain_id = do
  chain ← if_no_rows chain_not_found (query_one (active_chain chain_id))
  existing ← try_action (query_one (wallet_of user chain_id))
  wallet ← or_new_wallet user chain_id existing
  pure (wallet, chain.chain_name)

-- The chain's name, or the empty one.
abbrev pub name_of : Result Chain → Text
name_of (ok chain) = chain.chain_name
name_of (err e) = []

unfoldable pub get_wallet : ℕ → ℕ → Action (Wallet × Text)
get_wallet user chain = do
  wallet ← if_no_rows wallet_not_found (query_one (wallet_of user chain))
  found ← try_action (query_one (chain_by_id chain))
  pure (wallet, name_of found)

unfoldable pub get_wallet_by_address : Text → ℕ → Action (Wallet × Text)
get_wallet_by_address address chain = do
  wallet ← if_no_rows wallet_not_found (
      query_one
        (λ db. first (λ (w : Wallet). text_eq w.address address && w.chain_id == chain) db.wallets))
  found ← try_action (query_one (chain_by_id chain))
  pure (wallet, name_of found)

-- The name in the map of names, which has none for a chain that was not found.
abbrev pub named : List Chain → Wallet → Wallet × Text
named chains wallet = (
  wallet,
  elim (first (λ (c : Chain). c.chain_id == wallet.chain_id) chains) [
    | none ↦ []
    | some c ↦ c.chain_name
  ],
)

abbrev pub chains_or_none : Result (List Chain) → List Chain
chains_or_none (ok chains) = chains
chains_or_none (err e) = []

-- The names are asked for only if there is a wallet, and without an answer they are empty.
unfoldable pub name_wallets : List Wallet → Action (List (Wallet × Text))
name_wallets [] = pure []
name_wallets (x ∷ xs) = do
  chains ← try_action (query (λ db. db.chains))
  pure (map (named (chains_or_none chains)) (x ∷ xs))

unfoldable pub list_wallets : ℕ → Action (List (Wallet × Text))
list_wallets user = do
  rows ← query (λ db. select (λ (wallet : Wallet). wallet.user_id == user) db.wallets)
  name_wallets rows
