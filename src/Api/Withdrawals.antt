-- ===== src/Api/Withdrawals.antt =====
-- internal/api/handlers/wallet: post_withdraw.go, post_approve_withdraw.go,
-- post_reject_withdraw.go and get_withdraws.go.
use mathlib.Core.List.{map, reverse}
use go_wallet.Prelude.{
  ℕ, zero, suc, ℤ, pos, negsuc, Text, Bool, true, false, ◌&&◌, Option, none, some, List, [], ◌∷◌,
  ◌==◌, ltb, leb, if◌then◌else◌, select,
}
use go_wallet.Prelude.Rows.Pages.{take, drop}
use go_wallet.Prelude.Decimal.{atoi}
use go_wallet.Store.{User, Withdraw, WithdrawStatus, Db, withdraw_status_eq}
use go_wallet.World.{
  Action, pure, raise, or_raise, query, ◌>>=◌, ◌>>◌, bad_request, internal_server_error,
}
use go_wallet.Queries.{text_or_empty}
use go_wallet.Withdraw.Request.{request_withdraw}
use go_wallet.Withdraw.Review.{approve_withdraw, reject_withdraw}
use go_wallet.Api.{require_user, require_admin, or_answer, is_int, parse_offset}
pub mod Reviewed
pub mod Listed

-- `types.WithdrawItem`; a hash that is NULL is left out.
pub record WithdrawItem : Type 0 where
  pub id : ℕ
  pub user_id : ℕ
  pub to_address : Text
  pub token_id : ℕ
  pub amount : ℤ
  pub status : WithdrawStatus
  pub tx_hash : Text

abbrev pub withdraw_item : Withdraw → WithdrawItem
withdraw_item x = record {
  id = x.id;
  user_id = x.user_id;
  to_address = x.to_address;
  token_id = x.token_id;
  amount = x.amount;
  status = x.status;
  tx_hash = text_or_empty x.tx_hash;
}

-- The body of a request, once the framework has bound and validated it.
pub record WithdrawPayload : Type 0 where
  pub amount : Text
  pub to_address : Text
  pub token_id : ℕ

-- `parse_float` is `big.ParseFloat`, with its number in the unit of amounts, of which 1.5 is a whole
-- number too; a body that the framework refuses is `none`.
unfoldable pub post_withdraw :
    (Text → Option ℤ) → Option User → Option WithdrawPayload → Action WithdrawItem
post_withdraw parse_float given payload = do
  user ← require_user given
  body ← or_raise payload bad_request
  amount ← or_raise (parse_float body.amount) bad_request
  x ← or_answer internal_server_error (
      request_withdraw user.id
        (record { to_address = body.to_address; token_id = body.token_id; amount = amount }))
  pure (withdraw_item x)

-- The number in the path is `none` where it is empty.
unfoldable pub post_approve_withdraw : Option User → Option ℕ → Action WithdrawItem
post_approve_withdraw given withdraw_id = do
  user ← require_user given
  require_admin user
  id ← or_raise withdraw_id bad_request
  x ← or_answer internal_server_error (approve_withdraw id)
  pure (withdraw_item x)

-- The reason in the query, or else the one in the body, where there is one that is a text.
abbrev pub reason_of : Text → Option Text → Text
reason_of [] body = text_or_empty body
reason_of (c ∷ cs) body = c ∷ cs

unfoldable pub post_reject_withdraw :
    Option User → Option ℕ → Text → Option Text → Action WithdrawItem
post_reject_withdraw given withdraw_id reason body = do
  user ← require_user given
  require_admin user
  id ← or_raise withdraw_id bad_request
  x ← or_answer internal_server_error (reject_withdraw id (reason_of reason body))
  pure (withdraw_item x)

-- The parameters of a list of withdrawals. The status is a text of the query that PostgreSQL reads
-- as a value of the column's enumeration: `none` where it is absent, `some none` where it is none
-- of the values.
pub record WithdrawQuery : Type 0 where
  pub chain_id : Text
  pub token_id : Text
  pub status : Option (Option WithdrawStatus)
  pub offset : Text
  pub limit : Text

-- A filter that is no number is left out.
abbrev pub meets_filter : Option ℤ → ℕ → Bool
meets_filter none m = true
meets_filter (some n) m = is_int n m

abbrev pub has_status : Option (Option WithdrawStatus) → WithdrawStatus → Bool
has_status none status = true
has_status (some none) status = false
has_status (some (some s)) status = withdraw_status_eq status s

unfoldable pub is_listed : User → WithdrawQuery → Withdraw → Bool
unfolding atoi
is_listed user q x =
    x.user_id == user.id
    && meets_filter (atoi q.chain_id) x.chain_id
    && meets_filter (atoi q.token_id) x.token_id
    && has_status q.status x.status

-- A limit that is no number, or outside 1 to 100, is the default.
abbrev pub limit_of : Option ℤ → ℕ
limit_of none = 20
limit_of (some (pos k)) = if ltb 0 k && leb k 100 then k else 20
limit_of (some (negsuc k)) = 20

unfoldable pub withdraw_limit : Text → ℕ
unfolding atoi
withdraw_limit text = limit_of (atoi text)

-- Newest first: the table has its rows in the order of their insertion.
unfoldable pub listed_withdraws : User → WithdrawQuery → Db → List Withdraw
unfolding parse_offset withdraw_limit is_listed
listed_withdraws user q db =
    take (withdraw_limit q.limit)
      (drop (parse_offset q.offset) (reverse (select (is_listed user q) db.withdraws)))

abbrev pub unknown_status : Option (Option WithdrawStatus) → Bool
unknown_status (some none) = true
unknown_status _ = false

unfoldable pub get_withdraws : Option User → WithdrawQuery → Action (List WithdrawItem)
unfolding listed_withdraws
get_withdraws given q = do
  user ← require_user given
  rows ← or_answer internal_server_error (query (listed_withdraws user q))
  if unknown_status q.status then raise internal_server_error else pure (map withdraw_item rows)
