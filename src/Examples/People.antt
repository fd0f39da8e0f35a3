-- ===== src/Examples/People.antt =====
-- Users and their sessions on concrete inputs: one active member, with a refresh token and a token
-- for a password reset.
use go_wallet.Prelude.{
  Text, true, false, none, some, [], ◌∷◌, ◌≡◌, refl, arith, any, first, text_eq, modify,
}
use go_wallet.Store.{User, UserRole}
use go_wallet.World.{
  World, ok, err, unauthorized, commit, fresh_id, query, query_one, if_no_rows, try_action, guard,
  or_raise, read, ask, pure, raise, ◌>>=◌,
}
use go_wallet.World.Transaction.{with_transaction, write}
use go_wallet.Account.{
  AuthConfig, LoginResult, to_username_format, user_by_name, authenticate_user, new_tokens,
  insert_access_token, insert_refresh_token, check_user, invalidate_tokens,
}
use go_wallet.Account.Login.{login, check_login, refresh, exchange, logout}
use go_wallet.Account.Login.Sessions.{login-ok, refresh_once}
use go_wallet.Account.Password.{update_password, set_password, verify_password}
use go_wallet.Account.Password.Changed.{OnlySession, update_password-OnlySession}
use go_wallet.Account.Registration.{register}
use go_wallet.Account.Registration.Registered.{register-login}
use go_wallet.Account.Gate.{
  AuthMode, Route, authorize, check_given, check_token, check_found, check_token_user, check_known,
  check_last_authenticated_at, check_user_scopes, extract,
}
use go_wallet.Account.Gate.Passed.{IsAllowed, authorize-ok}
use go_wallet.Account.Gate.LoggedOut.{logout-authorize}
use go_wallet.Examples.{bank, answering, Option, ℕ}

abbrev settings : AuthConfig
settings = record {
  access_token_validity = 86400;
  password_reset_token_validity = 900;
  password_reset_token_debounce_duration = 60;
  password_reset_token_reuse_duration = 0;
  registration_requires_confirmation = false;
  confirmation_token_validity = 86400;
  confirmation_token_debounce_duration = 60;
  default_user_scopes = 1 ∷ [];
  last_authenticated_at_threshold = 900;
}

abbrev member : User
member = record {
  id = 1;
  username = some (b'm' ∷ []);
  password = some (b'p' ∷ []);
  is_active = true;
  requires_confirmation = false;
  last_authenticated_at = none;
  scopes = 1 ∷ [];
  role = UserRole.user;
}

abbrev people : World
people = record bank {
  db = record bank.db {
    accounts = record {
      users = member ∷ [];
      access_tokens = record { token = 20; valid_until = 5000; user_id = 1 } ∷ [];
      refresh_tokens = record { token = 21; user_id = 1 } ∷ [];
      password_reset_tokens =
          record { token = 22; valid_until = 1500; user_id = 1; created_at = 600 } ∷ [];
      confirmation_tokens = [];
      app_user_profiles = record { user_id = 1 } ∷ [];
    };
  };
}

logs_in : (login settings (b'M' ∷ []) (b'p' ∷ []) answering people).0 ≡ ok (100, 101)
unfolding login check_login authenticate_user new_tokens insert_access_token insert_refresh_token
    check_user with_transaction write commit fresh_id query query_one try_action guard or_raise read
    ask pure raise ◌>>=◌ first any text_eq to_username_format
logs_in = refl

login-ok_example :
    (user : User) × (hash : Text) × (user_by_name (b'M' ∷ []) people.db ≡ some user)
    × (user.is_active ≡ true)
    × (user.password ≡ some hash)
    × (answering.password_matches (b'p' ∷ []) hash ≡ some true)
login-ok_example = login-ok settings (b'M' ∷ []) (b'p' ∷ []) answering people logs_in

exchanged : (refresh settings 21 answering people).0 ≡ ok (100, 101)
unfolding refresh exchange authenticate_user new_tokens insert_access_token insert_refresh_token
    check_user with_transaction write commit fresh_id query query_one if_no_rows guard read pure
    ◌>>=◌ first any
exchanged = refl

refresh_once_example :
    (refresh settings 21 answering (refresh settings 21 answering people).1).0 ≡ err unauthorized
refresh_once_example =
    refresh_once settings 21 answering answering people (λ _. refl) (λ _. refl) (omega arith)
      exchanged

password_changed :
    (update_password settings member (b'p' ∷ []) (b'q' ∷ []) false answering people).0
    ≡ ok (100, 101)
unfolding update_password set_password verify_password authenticate_user invalidate_tokens
    new_tokens insert_access_token insert_refresh_token check_user with_transaction write commit
    fresh_id query guard or_raise read ask pure ◌>>=◌ any text_eq modify
password_changed = refl

update_password-OnlySession_example :
    OnlySession 1
      (100, 101)
      people.db
      (update_password settings member (b'p' ∷ []) (b'q' ∷ []) false answering people).1
update_password-OnlySession_example =
    update_password-OnlySession settings member (b'p' ∷ []) (b'q' ∷ []) false answering people
      (λ _. refl) password_changed

register-login_example :
    let r = register settings (b'n' ∷ []) (b'w' ∷ []) answering people in
    (r.0 ≡ ok (false, none))
    × (tokens : LoginResult) × ((login settings (b'n' ∷ []) (b'w' ∷ []) answering r.1).0
        ≡ ok tokens)
unfolding first text_eq to_username_format
register-login_example =
    register-login settings (b'n' ∷ []) (b'w' ∷ []) (b'w' ∷ []) answering (λ _. refl) people refl
      refl (λ _. refl) refl

abbrev private_route : Route
private_route = record {
  mode = AuthMode.secure;
  failure = unauthorized;
  scheme = b'B' ∷ [];
  scopes = 1 ∷ [];
  skipped = false;
}

-- The value of the first digit stands for that of a UUID.
abbrev first_code : Text → Option ℕ
first_code [] = none
first_code (c ∷ cs) = some c

-- The member was authenticated at 500, and has the access token 20.
abbrev recent_member : User
recent_member = record member { last_authenticated_at = some 500 }

abbrev recent_people : World
recent_people = record people {
  db = record people.db { accounts = record people.db.accounts { users = recent_member ∷ [] } };
}

passes :
    (authorize settings first_code private_route none
      (b'B' ∷ b' ' ∷ 20 ∷ [])
      answering
      recent_people).0
    ≡ ok (some recent_member)
unfolding authorize check_given check_token check_found check_token_user check_known
    check_last_authenticated_at check_user_scopes extract query_one try_action guard read raise pure
    ◌>>=◌ first any text_eq
passes = refl

authorize-ok_example :
    (token : ℕ) × (user : User) × (first_code (extract (b'B' ∷ b' ' ∷ 20 ∷ []) (b'B' ∷ [])).0
      ≡ some token)
    × (some recent_member ≡ some user)
    × IsAllowed settings private_route answering recent_people.db token user
authorize-ok_example =
    authorize-ok settings first_code private_route (b'B' ∷ b' ' ∷ 20 ∷ []) answering recent_people
      refl refl passes

logout-authorize_example :
    (authorize settings first_code private_route none
      (b'B' ∷ b' ' ∷ 20 ∷ [])
      answering
      (logout 20 none answering recent_people).1).0
    ≡ err unauthorized
unfolding extract text_eq
logout-authorize_example =
    logout-authorize settings first_code private_route (b'B' ∷ b' ' ∷ 20 ∷ []) 20 none answering
      answering recent_people (λ _. refl) (λ _. refl) refl refl refl
