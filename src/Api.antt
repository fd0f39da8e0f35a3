-- ===== src/Api.antt =====
-- internal/api/handlers/wallet: what the handlers have in common, and the parameters of requests.
use go_wallet.Prelude.{
  ℕ, ◌+◌, ◌-◌, ◌*◌, ◌<◌, ℤ, pos, negsuc, Text, Bool, true, false, ◌&&◌, ◌||◌, Option, none, some,
  List, [], ◌∷◌, ◌==◌, leb, ltb, if◌then◌else◌,
}
use go_wallet.Prelude.Decimal.{atoi}
use go_wallet.Store.{User, UserRole}
use go_wallet.World.{
  Action, Error, Result, ok, err, pure, raise, guard, or_raise, ◌>>=◌, ◌>>◌, unauthorized,
  forbidden, bad_request, internal_server_error,
}
pub mod Withdrawals
pub mod Signing
pub mod Privileged
pub mod Transfers
pub mod Reads

-- `auth.UserFromContext`, and `ErrUnauthorized` without a user.
abbrev pub require_user : Option User → Action User
require_user user = or_raise user unauthorized

abbrev pub is_admin : UserRole → Bool
is_admin UserRole.admin = true
is_admin UserRole.user = false

abbrev pub require_admin : User → Action (Unit {0})
require_admin user = guard (is_admin user.role) forbidden

-- An error of a service, logged and replaced by the handler's answer.
abbrev pub replaced : {A : Type 0} → Error → Result A → Result A
replaced e (ok a) = ok a
replaced e (err other) = err e

unfoldable pub or_answer : {A : Type 0} → Error → Action A → Action A
or_answer e m env w = let (r, w') = m env w in (replaced e r, w')

-- A number in a query, compared with a column.
abbrev pub is_int : ℤ → ℕ → Bool
is_int (pos n) m = n == m
is_int (negsuc n) m = false

-- `parseChainIDParam`: an absent parameter is an empty text, and asks for no filter.
unfoldable pub parse_chain_id_param : Text → Action (Option ℤ)
unfolding atoi
parse_chain_id_param [] = pure none
parse_chain_id_param (c ∷ cs) = elim (atoi (c ∷ cs)) [
  | none ↦ raise bad_request
  | some n ↦ pure (some n)
]

-- An offset that is no number, or negative, is 0.
unfoldable pub parse_offset : Text → ℕ
unfolding atoi
parse_offset text = elim (atoi text) [ none ↦ 0 | some n ↦ elim n [ pos k ↦ k | negsuc k ↦ 0 ] ]

-- `parsePaginationParams`: a limit that is no number is the default, others are cut to 1 to 500.
unfoldable pub parse_limit : Text → ℕ
unfolding atoi
parse_limit text = elim (atoi text) [
  | none ↦ 50
  | some n ↦ elim n [ pos k ↦ if ltb 500 k then 500 else if k == 0 then 1 else k | negsuc k ↦ 1 ]
]
