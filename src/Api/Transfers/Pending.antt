-- ===== src/Api/Transfers/Pending.antt =====
-- internal/api/handlers/wallet/get_pending_deposits.go: what is on its way to a user, by token.
use go_wallet.Prelude.{
  ℕ, suc, ℤ, ◌+ℤ◌, Text, Bool, true, false, ◌&&◌, ◌||◌, Option, none, some, List, [], ◌∷◌, text_eq,
  select, if◌then◌else◌,
}
use go_wallet.Store.{
  User, Wallet, Token, Transaction, TransactionStatus, Db, is_deposit_tx, transaction_status_eq,
}
use go_wallet.World.{Action, pure, query, ◌>>=◌}
use go_wallet.Api.{require_user, is_int}
use go_wallet.Api.Withdrawals.{meets_filter}
use go_wallet.Api.Transfers.{chain_filter, among_or_all, belongs_to, lower_addresses_of}
use go_wallet.Api.Transfers.Deposits.{
  normalize_token_address, build_token_cache, symbol_at, or_text, or_addresses,
}
pub mod Expected
pub mod Groups

-- `types.PendingDepositItem`
pub record PendingDepositItem : Type 0 where
  pub token_symbol : Text
  pub pending_amount : ℤ
  pub transaction_count : ℕ

abbrev pub is_native_address : Option Text → Bool
is_native_address none = true
is_native_address (some []) = true
is_native_address (some (c ∷ cs)) = false

-- The native token's symbol is only taken for a transaction of the native token.
unfoldable pub get_token_symbol : List Token → Transaction → Text
unfolding symbol_at
get_token_symbol cache tx =
    or_text (symbol_at cache tx.chain_id (normalize_token_address tx.token_addr))
      (if is_native_address tx.token_addr then symbol_at cache tx.chain_id [] else [])

-- A group gets the amount, or is begun with it.
unfoldable pub add_to_group : Text → ℤ → List PendingDepositItem → List PendingDepositItem
add_to_group symbol amount [] =
    record { token_symbol = symbol; pending_amount = amount; transaction_count = 1 } ∷ []
add_to_group symbol amount (g ∷ gs) =
    let rest = add_to_group symbol amount gs in
    if text_eq g.token_symbol symbol
    then record g {
      pending_amount = g.pending_amount +ℤ amount;
      transaction_count = suc g.transaction_count;
    }
      ∷ gs
    else g ∷ rest

-- A group gets the amount that was read, and a transaction whose amount cannot be read is skipped.
abbrev pub add_read : Text → Option ℤ → List PendingDepositItem → List PendingDepositItem
add_read symbol none groups = groups
add_read symbol (some amount) groups = add_to_group symbol amount groups

-- The program answers the groups in the order of a map, which is any order. `set_string` is
-- `SetString` of big.Int on the text of a column's amount, which refuses a fraction.
unfoldable pub group_deposits :
    (ℤ → Option ℤ)
    → List Token
    → List PendingDepositItem
    → List Transaction
    → List PendingDepositItem
unfolding add_to_group get_token_symbol
group_deposits set_string cache groups [] = groups
group_deposits set_string cache groups (tx ∷ txs) =
    group_deposits set_string cache
      (add_read (get_token_symbol cache tx) (set_string tx.amount) groups) txs

unfoldable pub aggregate_pending_deposits :
    (ℤ → Option ℤ) → List Transaction → Action (List PendingDepositItem)
unfolding group_deposits build_token_cache
aggregate_pending_deposits set_string [] = pure []
aggregate_pending_deposits set_string (tx ∷ txs) = do
  cache ← query (build_token_cache (tx ∷ txs))
  pure (group_deposits set_string cache [] (tx ∷ txs))

-- The addresses of the wallets on the chain, or else all.
unfoldable pub pending_addresses : Option ℤ → List Wallet → List Text
pending_addresses none wallets = lower_addresses_of wallets
pending_addresses (some n) wallets =
    or_addresses (lower_addresses_of (select (λ (w : Wallet). is_int n w.chain_id) wallets))
      (lower_addresses_of wallets)

abbrev pub is_pending_tx : Option ℤ → List Text → Transaction → Bool
is_pending_tx chain addresses tx =
    is_deposit_tx tx.type
    && (transaction_status_eq tx.status TransactionStatus.confirmed
        || transaction_status_eq tx.status TransactionStatus.safe)
    && meets_filter chain tx.chain_id
    && among_or_all addresses tx.to_addr

unfoldable pub pending_transactions : Option ℤ → List Wallet → Db → List Transaction
unfolding pending_addresses
pending_transactions chain wallets db =
    select (is_pending_tx chain (pending_addresses chain wallets)) db.transactions

unfoldable pub list_pending : (ℤ → Option ℤ) → Text → List Wallet → Action (List PendingDepositItem)
unfolding pending_transactions
list_pending set_string text [] = pure []
list_pending set_string text (x ∷ xs) = do
  chain ← chain_filter text
  rows ← query (pending_transactions chain (x ∷ xs))
  aggregate_pending_deposits set_string rows

unfoldable pub get_pending_deposits :
    (ℤ → Option ℤ) → Option User → Text → Action (List PendingDepositItem)
get_pending_deposits set_string given text = do
  user ← require_user given
  wallets ← query (λ db. select (belongs_to user.id) db.wallets)
  list_pending set_string text wallets
