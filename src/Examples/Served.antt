-- ===== src/Examples/Served.antt =====
-- The approval of a withdrawal behind the middleware, with an administrator's token.
use go_wallet.Prelude.{
  ℕ, Text, true, false, ◌≡◌, refl, Option, some, none, [], ◌∷◌, first, text_eq, any, modify,
}
use go_wallet.Store.{User, UserRole, Withdraw, WithdrawStatus}
use go_wallet.World.{
  World, SignRequest, ok, unauthorized, pure, guard, or_raise, ask, call, query, query_one,
  if_no_rows, try_action, statement, commit, send, get_client, read, ◌>>=◌,
}
use go_wallet.Account.{AuthConfig}
use go_wallet.Account.Gate.{
  Route, AuthMode, extract, authorize, check_given, check_token, check_found, check_token_user,
  check_known, check_last_authenticated_at, check_user_scopes,
}
use go_wallet.HotWallet.{get_hot_wallet, get_next_nonce}
use go_wallet.Withdraw.Review.{approve_withdraw, after_process}
use go_wallet.Account.Gate.Passed.{IsAllowed}
use go_wallet.Withdraw.Process.{
  withdraw_by_id, broadcasted, process_withdraw, pay, spend, prepare, build_request, broadcast,
  check_hot_wallet_balance, check_native_token_balance,
}
use go_wallet.Api.{is_admin, or_answer}
use go_wallet.Api.Withdrawals.{withdraw_item, post_approve_withdraw}
use go_wallet.Api.Withdrawals.Reviewed.{serve_approve_withdraw, serve_approve_withdraw-ok}
use go_wallet.Examples.Withdrawals.{asked, row}
use go_wallet.Examples.{answering, hot_wallet_row}
use go_wallet.Examples.Requests.{customer}

abbrev settings : AuthConfig
settings = record {
  access_token_validity = 86400;
  password_reset_token_validity = 900;
  password_reset_token_debounce_duration = 60;
  password_reset_token_reuse_duration = 0;
  registration_requires_confirmation = false;
  confirmation_token_validity = 86400;
  confirmation_token_debounce_duration = 60;
  default_user_scopes = 1 ∷ [];
  last_authenticated_at_threshold = 900;
}

abbrev manager : User
manager = record customer { id = 2; last_authenticated_at = some 500; role = UserRole.admin }

abbrev office : World
office = record asked {
  db = record asked.db {
    accounts = record asked.db.accounts {
      users = manager ∷ [];
      access_tokens = record { token = 20; valid_until = 5000; user_id = 2 } ∷ [];
    };
  };
}

abbrev token_route : Route
token_route = record {
  mode = AuthMode.required;
  failure = unauthorized;
  scheme = b'B' ∷ [];
  scopes = 1 ∷ [];
  skipped = false;
}

-- The value of the first digit stands for that of a UUID.
abbrev code : Text → Option ℕ
code [] = none
code (c ∷ cs) = some c

abbrev manager_header : Text
manager_header = b'B' ∷ b' ' ∷ 20 ∷ []

-- The row once it is broadcast under nonce 5.
abbrev pending_row : Withdraw
pending_row = broadcasted row hot_wallet_row (5 ∷ []) 5

serves :
    (serve_approve_withdraw settings code token_route manager_header (some 100) answering office).0
    ≡ ok (withdraw_item pending_row)
unfolding serve_approve_withdraw post_approve_withdraw or_answer authorize check_given check_token
    check_found check_token_user check_known check_last_authenticated_at check_user_scopes extract
    read approve_withdraw after_process try_action process_withdraw pay spend prepare build_request
    broadcast check_hot_wallet_balance check_native_token_balance get_hot_wallet get_next_nonce pure
    or_raise ask call guard query query_one if_no_rows statement commit send get_client ◌>>=◌ first
    any text_eq modify
serves = refl

serve_approve_withdraw-ok_example :
    let w' =
      (serve_approve_withdraw settings code token_route manager_header
        (some 100)
        answering
        office).1 in
    ((token : ℕ) × (user : User) × (code (extract manager_header (b'B' ∷ [])).0 ≡ some token)
      × IsAllowed settings token_route answering office.db token user
      × (is_admin user.role ≡ true))
    × ((id : ℕ) × (y : Withdraw) × (some 100 ≡ some id)
        × (withdraw_by_id id w'.db ≡ some y)
        × (withdraw_item pending_row ≡ withdraw_item y)
        × (y.status ≡ WithdrawStatus.pending))
    × ((r : SignRequest) × (w'.sent ≡ r ∷ office.sent))
    × (w'.db.credits ≡ office.db.credits)
serve_approve_withdraw-ok_example =
    serve_approve_withdraw-ok settings code token_route manager_header (some 100) answering office
      refl refl serves
