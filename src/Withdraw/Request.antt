-- ===== src/Withdraw/Request.antt =====
-- internal/wallet/withdraw/service.go, `RequestWithdraw`: a user asks for a withdrawal, and the
-- amount is frozen by a negative credit.
use go_wallet.Prelude.{
  ℕ, ℤ, pos, ◌-ℤ◌, Text, Bool, true, false, ◌&&◌, not, Option, none, some, List, ◌==◌, ltb_ℤ, leb_ℤ,
  first, any, insert,
}
use go_wallet.Store.{
  Withdraw, WithdrawStatus, Credit, CreditStatus, CreditType, ReferenceType, Token, Wallet, Db,
  is_withdraw_ref,
}
use go_wallet.World.{
  Action, pure, guard, query, query_one, if_no_rows, statement, commit, fresh_id, ◌>>=◌, ◌>>◌,
  invalid_amount, token_not_found, insufficient_balance, not_unique,
}
use go_wallet.Balance.{get_available_balance}
use go_wallet.Queries.{token_by_id}
pub mod Accounting
pub mod Race

-- The amount is any positive or negative decimal number, as a whole number of the unit of amounts.
pub record Request : Type 0 where
  pub to_address : Text
  pub token_id : ℕ
  pub amount : ℤ

abbrev pub user_wallet : ℕ → ℕ → Db → Option Wallet
user_wallet user chain db =
    first (λ (wallet : Wallet). wallet.user_id == user && wallet.chain_id == chain) db.wallets

abbrev pub requested : ℕ → Request → Token → ℕ → Withdraw
requested user req token id = record {
  id = id;
  user_id = user;
  to_address = req.to_address;
  from_address = none;
  token_id = req.token_id;
  amount = req.amount;
  chain_id = token.chain_id;
  tx_hash = none;
  nonce = none;
  status = WithdrawStatus.user_withdraw_request;
  error_message = none;
}

abbrev pub frozen_credit : ℕ → Request → Token → Wallet → ℕ → ℕ → Credit
frozen_credit user req token wallet withdraw_id id = record {
  id = id;
  user_id = user;
  address = wallet.address;
  token_id = token.id;
  token_symbol = token.token_symbol;
  amount = pos 0 -ℤ req.amount;
  credit_type = CreditType.withdraw;
  reference_id = withdraw_id;
  reference_type = ReferenceType.withdraw;
  chain_id = some token.chain_id;
  status = CreditStatus.frozen;
  block_number = none;
  tx_hash = none;
  event_index = 0;
}

-- The key of `credits_user_reference_unique`, for a reference to a withdrawal.
abbrev pub withdraw_credit_exists : ℕ → ℕ → Db → Bool
withdraw_credit_exists user withdraw_id db =
    any
      (λ (c : Credit).
        c.user_id == user
        && c.reference_id == withdraw_id
        && is_withdraw_ref c.reference_type
        && c.event_index == 0)
      db.credits

-- Up to the transaction: the token, and the test of the balance, on the committed tables.
unfoldable pub check_request : ℕ → Request → Action Token
unfolding get_available_balance
check_request user req = do
  guard (ltb_ℤ (pos 0) req.amount) invalid_amount
  token ← if_no_rows token_not_found (query_one (token_by_id req.token_id))
  balance ← get_available_balance user token.chain_id token.id
  guard (leb_ℤ req.amount balance) insufficient_balance
  pure token

-- The transaction.
unfoldable pub book_request : ℕ → Request → Token → Action Withdraw
book_request user req token = do
  statement
  withdraw_id ← fresh_id
  statement
  wallet ← query_one (user_wallet user token.chain_id)
  credit_id ← fresh_id
  taken ← query (withdraw_credit_exists user withdraw_id)
  guard (not taken) not_unique
  commit λ db. record db {
    withdraws = insert (requested user req token withdraw_id) db.withdraws;
    credits = insert (frozen_credit user req token wallet withdraw_id credit_id) db.credits;
  }
  pure (requested user req token withdraw_id)

unfoldable pub request_withdraw : ℕ → Request → Action Withdraw
unfolding check_request book_request
request_withdraw user req = do token ← check_request user req; book_request user req token
