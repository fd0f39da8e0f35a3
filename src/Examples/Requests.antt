-- ===== src/Examples/Requests.antt =====
-- The theorems on the handlers, at concrete requests.
use go_wallet.Prelude.{
  ◌≤◌, ℤ, pos, negsuc, ◌==◌, if◌then◌else◌, ◌+ℤ◌, true, false, ◌≡◌, refl, Option, some, none, [],
  ◌∷◌, length, text_eq, select, any, sort, sorted_insert, to_lower, sum_where,
}
use go_wallet.Prelude.Rows.Pages.{All}
use go_wallet.Store.{User, UserRole, Withdraw, Transaction, TransactionType, TransactionStatus}
use go_wallet.World.{World, ok, err, forbidden, pure, or_raise, query, ◌>>=◌}
use go_wallet.Rebalance.{rebalance}
use go_wallet.Api.{or_answer}
use go_wallet.Api.Withdrawals.{
  WithdrawItem, withdraw_item, WithdrawQuery, get_withdraws, post_approve_withdraw,
  post_reject_withdraw,
}
use go_wallet.Api.Withdrawals.Listed.{get_withdraws-own}
use go_wallet.Api.Privileged.{
  RebalancePayload, rebalance_request, post_create_hot_wallet, post_collect, post_rebalance,
}
use go_wallet.Api.Privileged.Denied.{non_admin-forbidden}
use go_wallet.Api.Transfers.{TransferQuery, chain_filter, is_among}
use go_wallet.Api.Transfers.Collects.{
  CollectItem, collect_item, get_collects, first_addresses, get_user_wallets, collects_from,
  apply_chain_id_filter, restrict_to, list_collects,
}
use go_wallet.Api.Transfers.Own.{own_address, get_collects-own}
use go_wallet.Api.Transfers.Pending.{PendingDepositItem}
use go_wallet.Balance.{TokenBalance}
use go_wallet.Balance.Tokens.{
  group_rows, group_amount, finalized_rows, read_groups, get_balance_by_token,
}
use go_wallet.Balance.Tokens.Listed.{IsSumOf, get_balance_by_token-sums}
use go_wallet.Examples.Withdrawals.{asked, row}
use go_wallet.Examples.{answering, bank, arrived, user_address, hot_address}

abbrev pub customer : User
customer = record {
  id = 1;
  username = none;
  password = none;
  is_active = true;
  requires_confirmation = false;
  last_authenticated_at = none;
  scopes = 1 ∷ [];
  role = UserRole.user;
}

abbrev move : RebalancePayload
move = record {
  chain_id = 1;
  from_address = hot_address;
  to_address = hot_address;
  amount = b'7' ∷ [];
}

non_admin-forbidden_example :
    (post_approve_withdraw (some customer) (some 100) answering bank ≡ (err forbidden, bank))
    × (post_reject_withdraw (some customer) (some 100) [] none answering bank
        ≡ (err forbidden, bank))
    × (post_create_hot_wallet (some customer) none answering bank ≡ (err forbidden, bank))
    × (post_collect (some customer) none answering bank ≡ (err forbidden, bank))
    × (post_rebalance (λ _. some (pos 7)) (some customer) (some move) answering bank
        ≡ (ok move, (rebalance (rebalance_request move (pos 7)) answering bank).1))
non_admin-forbidden_example =
    non_admin-forbidden (λ _. some (pos 7)) customer (some 100) [] none none none move (pos 7)
      answering bank refl refl

-- A collection from the customer's wallet, and one from elsewhere.
abbrev swept : Transaction
swept = record arrived { id = 16; from_addr = user_address; type = TransactionType.collect }

abbrev swept_elsewhere : Transaction
swept_elsewhere = record swept { id = 17; from_addr = b'o' ∷ [] }

abbrev swept_bank : World
swept_bank = record bank {
  db = record bank.db { transactions = swept ∷ swept_elsewhere ∷ arrived ∷ [] };
}

abbrev all_transfers : TransferQuery
all_transfers = record { chain_id = b'1' ∷ []; status = none; offset = []; limit = [] }

shows :
    (get_collects (some customer) all_transfers answering swept_bank).0
    ≡ ok (collect_item swept ∷ [])
unfolding get_collects first_addresses get_user_wallets collects_from apply_chain_id_filter
    chain_filter restrict_to list_collects is_among query or_raise pure ◌>>=◌ select any text_eq
    to_lower
shows = refl

get_collects-own_example :
    All
      (λ (x : CollectItem). own_address 1 swept_bank.db.wallets x.from_addr ≡ true)
      (collect_item swept ∷ [])
get_collects-own_example = get_collects-own customer all_transfers answering swept_bank refl shows

-- Deposits of 40 of the contract's token that are safe, and not final: two to the customer, one of
-- another amount that is not read, and one to somebody else.
abbrev safe : Transaction
safe = record arrived { status = TransactionStatus.safe }

abbrev waiting : World
waiting = record bank {
  db = record bank.db {
    transactions =
        safe ∷ record safe { to_addr = b'o' ∷ [] } ∷ record safe { amount = pos 41 } ∷ safe ∷ [];
  };
}

abbrev reads : ℤ → Option ℤ
reads (pos n) = if n == 41 then none else some (pos n)
reads (negsuc n) = none

abbrev coins : PendingDepositItem
coins = record { token_symbol = b'C' ∷ []; pending_amount = pos 80; transaction_count = 2 }

-- Two withdrawals, of which the second is the newer.
abbrev second_row : Withdraw
second_row = record row { id = 101 }

abbrev listing : World
listing = record asked { db = record asked.db { withdraws = row ∷ second_row ∷ [] } }

abbrev one_each : WithdrawQuery
one_each = record { chain_id = []; token_id = []; status = none; offset = []; limit = b'1' ∷ [] }

lists_second :
    (get_withdraws (some customer) one_each answering listing).0
    ≡ ok (withdraw_item second_row ∷ [])
unfolding get_withdraws or_answer query or_raise pure ◌>>=◌ select
lists_second = refl

get_withdraws-own_example :
    All (λ (x : WithdrawItem). x.user_id ≡ 1) (withdraw_item second_row ∷ [])
    × (length (withdraw_item second_row ∷ []) ≤ 100)
get_withdraws-own_example = get_withdraws-own customer one_each answering listing lists_second

-- What the bank has for the customer.
abbrev ether : TokenBalance
ether = record { token_id = 1; token_symbol = b'E' ∷ []; chain_id = 1; amount = pos 100 }

balances : (get_balance_by_token 1 (some 1) answering bank).0 ≡ ok (ether ∷ [])
unfolding get_balance_by_token finalized_rows group_rows group_amount read_groups query pure ◌>>=◌
    select any text_eq sum_where sort sorted_insert ◌+ℤ◌
balances = refl

get_balance_by_token-sums_example : All (IsSumOf 1 (some 1) bank.db.credits) (ether ∷ [])
get_balance_by_token-sums_example = get_balance_by_token-sums 1 (some 1) answering bank balances
