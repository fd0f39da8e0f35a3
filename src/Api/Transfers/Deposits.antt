-- ===== src/Api/Transfers/Deposits.antt =====
-- internal/api/handlers/wallet/get_deposits.go: the deposits of a user and their tokens' symbols.
use mathlib.Core.List.{map, reverse}
use go_wallet.Prelude.{
  ℕ, ℤ, Text, Bool, ◌&&◌, Option, none, some, List, [], ◌∷◌, ◌==◌, any, first, text_eq, to_lower,
  select, if◌then◌else◌,
}
use go_wallet.Prelude.Rows.Pages.{take, drop}
use go_wallet.Store.{
  User, Wallet, Credit, Token, Transaction, TransactionStatus, Db, is_deposit_tx, is_blockchain_ref,
}
use go_wallet.World.{Action, pure, raise, query, ◌>>=◌, internal_server_error}
use go_wallet.Queries.{text_or_empty}
use go_wallet.Api.{require_user, is_int, parse_offset, parse_limit}
use go_wallet.Api.Withdrawals.{meets_filter}
use go_wallet.Api.Transfers.{
  TransferQuery, chain_filter, in_status, no_such_status, among_or_all, or_zero, belongs_to,
  lower_addresses_of, addresses_of,
}

-- `types.DepositItem`
pub record DepositItem : Type 0 where
  pub id : ℕ
  pub chain_id : ℕ
  pub tx_hash : Text
  pub from_addr : Text
  pub to_addr : Text
  pub amount : ℤ
  pub status : TransactionStatus
  pub block_no : ℕ
  pub token_addr : Text
  pub confirmation_count : ℤ
  pub token_symbol : Text

abbrev pub normalize_token_address : Option Text → Text
normalize_token_address none = []
normalize_token_address (some address) = to_lower address

-- `buildTokenCache`: the tokens of the transactions' chains. Of tokens with one key the last stays.
unfoldable pub build_token_cache : List Transaction → Db → List Token
build_token_cache txs db =
    reverse
      (select (λ (t : Token). any (λ (tx : Transaction). tx.chain_id == t.chain_id) txs) db.tokens)

abbrev pub symbol_or_empty : Option Token → Text
symbol_or_empty none = []
symbol_or_empty (some token) = token.token_symbol

-- The symbol of the token with the key, or nothing.
unfoldable pub symbol_at : List Token → ℕ → Text → Text
symbol_at cache chain key = symbol_or_empty (
    first
      (λ (t : Token). t.chain_id == chain && text_eq (normalize_token_address t.token_address) key)
      cache)

abbrev pub or_text : Text → Text → Text
or_text [] other = other
or_text (c ∷ cs) other = c ∷ cs

abbrev pub credit_symbol : Option Credit → Text
credit_symbol none = []
credit_symbol (some credit) = credit.token_symbol

-- Any transaction without a symbol of its own gets the native token's.
unfoldable pub resolve_token_symbol : List Token → Option Credit → Transaction → Text
unfolding symbol_at
resolve_token_symbol cache credit tx = or_text (credit_symbol credit) (
    or_text (symbol_at cache tx.chain_id (normalize_token_address tx.token_addr))
      (symbol_at cache tx.chain_id []))

-- `fetchCreditsByTransaction`: of credits with one reference the last stays.
unfoldable pub credits_by_transaction : ℕ → List Transaction → Db → List Credit
credits_by_transaction user txs db = reverse (
    select
      (λ (c : Credit).
        any (λ (tx : Transaction). tx.id == c.reference_id) txs
        && is_blockchain_ref c.reference_type
        && c.user_id == user)
      db.credits)

abbrev pub credit_of : List Credit → Transaction → Option Credit
credit_of credits tx = first (λ (c : Credit). c.reference_id == tx.id) credits

unfoldable pub transaction_to_deposit_item : List Token → List Credit → Transaction → DepositItem
unfolding resolve_token_symbol
transaction_to_deposit_item cache credits tx = record {
  id = tx.id;
  chain_id = tx.chain_id;
  tx_hash = tx.tx_hash;
  from_addr = tx.from_addr;
  to_addr = tx.to_addr;
  amount = tx.amount;
  status = tx.status;
  block_no = tx.block_no;
  token_addr = text_or_empty tx.token_addr;
  confirmation_count = or_zero tx.confirmation_count;
  token_symbol =
      or_text (credit_symbol (credit_of credits tx))
        (resolve_token_symbol cache (credit_of credits tx) tx);
}

unfoldable pub build_deposit_response : ℕ → List Transaction → Action (List DepositItem)
build_deposit_response user [] = pure []
build_deposit_response user (tx ∷ txs) = do
  credits ← query (credits_by_transaction user (tx ∷ txs))
  cache ← query (build_token_cache (tx ∷ txs))
  pure (map (transaction_to_deposit_item cache credits) (tx ∷ txs))

abbrev pub or_addresses : List Text → List Text → List Text
or_addresses [] others = others
or_addresses (a ∷ own) others = a ∷ own

-- The addresses of the wallets on the chain, as they are written, or else all in lower case.
unfoldable pub deposit_addresses : Option ℤ → List Wallet → List Text
deposit_addresses none wallets = lower_addresses_of wallets
deposit_addresses (some n) wallets =
    or_addresses (addresses_of (select (λ (w : Wallet). is_int n w.chain_id) wallets))
      (lower_addresses_of wallets)

abbrev pub is_listed_deposit : TransferQuery → Option ℤ → List Text → Transaction → Bool
is_listed_deposit q chain addresses tx =
    is_deposit_tx tx.type
    && meets_filter chain tx.chain_id
    && in_status q.status tx.status
    && among_or_all addresses tx.to_addr

unfoldable pub listed_deposits : TransferQuery → Option ℤ → List Text → Db → List Transaction
unfolding parse_offset parse_limit
listed_deposits q chain addresses db = take (parse_limit q.limit) (
    drop (parse_offset q.offset)
      (reverse (select (is_listed_deposit q chain addresses) db.transactions)))

unfoldable pub list_deposits : User → TransferQuery → List Wallet → Action (List DepositItem)
unfolding listed_deposits deposit_addresses
list_deposits user q [] = pure []
list_deposits user q (x ∷ xs) = do
  chain ← chain_filter q.chain_id
  rows ← query (listed_deposits q chain (deposit_addresses chain (x ∷ xs)))
  if no_such_status q.status
      then raise internal_server_error
      else build_deposit_response user.id rows

unfoldable pub get_deposits : Option User → TransferQuery → Action (List DepositItem)
get_deposits given q = do
  user ← require_user given
  wallets ← query (λ db. select (belongs_to user.id) db.wallets)
  list_deposits user q wallets
