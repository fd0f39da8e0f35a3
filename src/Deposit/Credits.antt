-- ===== src/Deposit/Credits.antt =====
-- internal/wallet/deposit/service.go: a final deposit becomes a credit of the wallet's owner.
use go_wallet.Prelude.{
  ℕ, ◌-◌, ℤ, pos, Text, Bool, true, false, ◌&&◌, ◌||◌, not, Option, none, some, List, [], ◌∷◌, ◌==◌,
  if◌then◌else◌, text_eq, to_lower, select, first, any, insert, sort,
}
use go_wallet.Store.{
  Transaction, TransactionStatus, Credit, CreditStatus, CreditType, ReferenceType, Token, Wallet,
  Db, transaction_status_eq, is_blockchain_ref, is_deposit_tx,
}
use go_wallet.World.{
  Error, Result, ok, err, Action, pure, raise, guard, query, query_one, if_no_rows, try_action,
  commit, for_each, fresh_id, ◌>>=◌, ◌>>◌, no_rows, wallet_not_found, token_not_found, not_unique,
}
use go_wallet.Queries.{chain_by_id, text_or_empty}
use go_wallet.Deposit.Confirmations.{is_credit_of, lower_block}
pub mod Once

abbrev pub native_token_decimals : ℕ
native_token_decimals = 18

abbrev pub native_token_row : ℕ → Text → ℕ → Token
native_token_row chain symbol id = record {
  id = id;
  chain_id = chain;
  token_address = none;
  token_symbol = symbol;
  decimals = native_token_decimals;
  is_native = true;
  min_withdraw_amount = none;
  is_active = true;
}

-- The unique key (chain_id, token_address) never stops a NULL address.
unfoldable pub create_native_token : ℕ → Text → Action Token
create_native_token chain symbol = do
  id ← fresh_id
  commit (λ db. record db { tokens = insert (native_token_row chain symbol id) db.tokens })
  pure (native_token_row chain symbol id)

-- After the search for the native token: any error makes a new one.
unfoldable pub or_create_native : ℕ → Text → Result Token → Action Token
or_create_native chain symbol (ok token) = pure token
or_create_native chain symbol (err e) = create_native_token chain symbol

abbrev pub has_address : Text → Token → Bool
has_address address token = elim token.token_address [
  | none ↦ false
  | some a ↦ text_eq a (to_lower address)
]

unfoldable pub get_token_info : ℕ → Text → Action Token
get_token_info chain [] = do
  row ← query_one (chain_by_id chain)
  found ←
      try_action
        (query_one (λ db. first (λ (t : Token). t.chain_id == chain && t.is_native) db.tokens))
  or_create_native chain row.native_token_symbol found
get_token_info chain (c ∷ cs) = if_no_rows token_not_found (
    query_one
      (λ db. first (λ (t : Token). t.chain_id == chain && has_address (c ∷ cs) t) db.tokens))

abbrev pub deposit_credit : Transaction → Wallet → Token → ℕ → Credit
deposit_credit tx wallet token id = record {
  id = id;
  user_id = wallet.user_id;
  address = tx.to_addr;
  token_id = token.id;
  token_symbol = token.token_symbol;
  amount = tx.amount;
  credit_type = CreditType.deposit;
  reference_id = tx.id;
  reference_type = ReferenceType.blockchain_tx;
  chain_id = some tx.chain_id;
  status = CreditStatus.finalized;
  block_number = some tx.block_no;
  tx_hash = some tx.tx_hash;
  event_index = 0;
}

-- The key of `credits_user_reference_unique`. A NULL event index is left out of the INSERT, so the
-- column's default 0 is stored.
abbrev pub deposit_key_taken : ℕ → ℕ → Db → Bool
deposit_key_taken user tx_id db =
    any (λ (c : Credit). c.user_id == user && is_credit_of tx_id c && c.event_index == 0) db.credits

abbrev pub owner_of : ℕ → Text → Db → Option Wallet
owner_of chain address db =
    first
      (λ (wallet : Wallet). wallet.chain_id == chain && text_eq wallet.address (to_lower address))
      db.wallets

-- The end of `CreateCredit`, once the owner and the token are known.
unfoldable pub add_credit : Transaction → Wallet → Token → Action Credit
add_credit tx wallet token = do
  id ← fresh_id
  taken ← query (deposit_key_taken wallet.user_id tx.id)
  guard (not taken) not_unique
  commit (λ db. record db { credits = insert (deposit_credit tx wallet token id) db.credits })
  pure (deposit_credit tx wallet token id)

unfoldable pub create_credit : Transaction → Action Credit
create_credit tx = do
  wallet ← if_no_rows wallet_not_found (query_one (owner_of tx.chain_id tx.to_addr))
  token ← get_token_info tx.chain_id (text_or_empty tx.token_addr)
  add_credit tx wallet token

unfoldable pub credit_unless : Bool → Transaction → Action (Unit {0})
credit_unless true tx = pure tt
credit_unless false tx = do _ ← create_credit tx; pure tt

unfoldable pub process_deposit : Transaction → Action (Unit {0})
process_deposit tx =
    if not (transaction_status_eq tx.status TransactionStatus.finalized)
    then pure tt
    else (do exists ← query (λ db. any (is_credit_of tx.id) db.credits); credit_unless exists tx)

abbrev pub is_uncredited : ℕ → Db → Transaction → Bool
is_uncredited chain db tx =
    tx.chain_id == chain
    && is_deposit_tx tx.type
    && transaction_status_eq tx.status TransactionStatus.finalized
    && not (any (is_credit_of tx.id) db.credits)

-- An error at one deposit is logged, and the others go on.
unfoldable pub process_finalized_deposits : ℕ → Action (Unit {0})
process_finalized_deposits chain = do
  rows ← query (λ db. sort lower_block (select (is_uncredited chain db) db.transactions))
  for_each process_deposit rows

abbrev pub is_pending_deposit_tx : ℕ → Transaction → Bool
is_pending_deposit_tx chain tx =
    tx.chain_id == chain
    && is_deposit_tx tx.type
    && (transaction_status_eq tx.status TransactionStatus.confirmed
        || transaction_status_eq tx.status TransactionStatus.safe)

unfoldable pub get_pending_deposits : ℕ → Action (List Transaction)
get_pending_deposits chain =
    query (λ db. sort lower_block (select (is_pending_deposit_tx chain) db.transactions))
