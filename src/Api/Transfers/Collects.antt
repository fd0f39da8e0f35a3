-- ===== src/Api/Transfers/Collects.antt =====
-- internal/api/handlers/wallet/get_collects.go. The queries that only serve the log are left out.
use mathlib.Core.List.{map, reverse}
use go_wallet.Prelude.{
  ℕ, ℤ, Text, Bool, true, false, not, ◌&&◌, ◌||◌, Option, none, some, List, [], ◌∷◌, ◌==◌, any,
  if◌then◌else◌, text_eq, to_lower, select,
}
use go_wallet.Prelude.Rows.Pages.{take, drop}
use go_wallet.Store.{
  User, Wallet, Transaction, TransactionType, TransactionStatus, Db, is_user_type,
}
use go_wallet.World.{Action, pure, raise, query, ◌>>=◌, internal_server_error}
use go_wallet.Api.{require_user, is_admin, parse_offset, parse_limit}
use go_wallet.Api.Withdrawals.{meets_filter}
use go_wallet.Api.Transfers.{
  TransferQuery, chain_filter, in_status, no_such_status, is_among, or_zero,
}

-- `types.CollectItem`
pub record CollectItem : Type 0 where
  pub id : ℕ
  pub chain_id : ℕ
  pub tx_hash : Text
  pub from_addr : Text
  pub to_addr : Text
  pub amount : ℤ
  pub status : TransactionStatus
  pub block_no : ℕ
  pub confirmation_count : ℤ

abbrev pub collect_item : Transaction → CollectItem
collect_item tx = record {
  id = tx.id;
  chain_id = tx.chain_id;
  tx_hash = tx.tx_hash;
  from_addr = tx.from_addr;
  to_addr = tx.to_addr;
  amount = tx.amount;
  status = tx.status;
  block_no = tx.block_no;
  confirmation_count = or_zero tx.confirmation_count;
}

abbrev pub is_collect_tx : TransactionType → Bool
is_collect_tx TransactionType.collect = true
is_collect_tx _ = false

-- The addresses in lower case, each of them once; `seen` is the map.
unfoldable pub unique_addresses : List Text → List Wallet → List Text
unique_addresses seen [] = []
unique_addresses seen (x ∷ xs) =
    let rest = unique_addresses (to_lower x.address ∷ seen) xs in
    if any (λ (a : Text). text_eq (to_lower x.address) a) seen
    then rest
    else to_lower x.address ∷ rest

abbrev pub is_wallet_of : ℕ → Option ℤ → Wallet → Bool
is_wallet_of user chain wallet =
    wallet.user_id == user && is_user_type wallet.wallet_type && meets_filter chain wallet.chain_id

-- `getUserWalletsForCollect` without a chain, `getUserWalletsForChain` with one.
unfoldable pub get_user_wallets : ℕ → Option ℤ → Action (List Text)
unfolding unique_addresses
get_user_wallets user chain =
    query λ db. unique_addresses [] (select (is_wallet_of user chain) db.wallets)

-- With a chain, an administrator keeps the addresses, and another user has those on the chain.
unfoldable pub restrict_to : Bool → ℕ → List Text → Option ℤ → Action (Option ℤ × List Text)
restrict_to admin user addresses none = pure (none, addresses)
restrict_to true user addresses (some n) = pure (some n, addresses)
restrict_to false user addresses (some n) = do
  own ← get_user_wallets user (some n)
  pure (some n, own)

-- `applyChainIDFilter`: the chain and the addresses that the list is restricted to.
unfoldable pub apply_chain_id_filter : Text → Bool → ℕ → List Text → Action (Option ℤ × List Text)
apply_chain_id_filter text admin user addresses = do
  chain ← chain_filter text
  restrict_to admin user addresses chain

abbrev pub is_listed_collect : TransferQuery → Option ℤ → Bool → List Text → Transaction → Bool
is_listed_collect q chain admin addresses tx =
    is_collect_tx tx.type
    && meets_filter chain tx.chain_id
    && in_status q.status tx.status
    && (admin || is_among addresses tx.from_addr)

unfoldable pub listed_collects : TransferQuery → Option ℤ → Bool → List Text → Db → List Transaction
unfolding parse_offset parse_limit
listed_collects q chain admin addresses db = take (parse_limit q.limit) (
    drop (parse_offset q.offset)
      (reverse (select (is_listed_collect q chain admin addresses) db.transactions)))

abbrev pub no_address : Bool → List Text → Bool
no_address admin [] = not admin
no_address admin (a ∷ others) = false

-- The list, once it is known whose transactions it holds.
unfoldable pub list_collects :
    TransferQuery → Bool → Option ℤ × List Text → Action (List CollectItem)
unfolding listed_collects
list_collects q admin (chain, addresses) = if no_address admin addresses then pure [] else do
  rows ← query (listed_collects q chain admin addresses)
  if no_such_status q.status then raise internal_server_error else pure (map collect_item rows)

-- The addresses to begin with: none for an administrator, who is shown all.
unfoldable pub first_addresses : User → Action (List Text)
first_addresses user = if is_admin user.role then pure [] else get_user_wallets user.id none

-- The handler, once it has the addresses.
unfoldable pub collects_from : TransferQuery → Bool → ℕ → List Text → Action (List CollectItem)
collects_from q admin user addresses = if no_address admin addresses then pure [] else do
  restricted ← apply_chain_id_filter q.chain_id admin user addresses
  list_collects q admin restricted

unfoldable pub get_collects : Option User → TransferQuery → Action (List CollectItem)
get_collects given q = do
  user ← require_user given
  addresses ← first_addresses user
  collects_from q (is_admin user.role) user.id addresses
