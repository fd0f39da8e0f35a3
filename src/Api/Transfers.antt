-- ===== src/Api/Transfers.antt =====
-- internal/api/handlers/wallet: what the lists of deposits and of collections have in common.
use go_wallet.Prelude.{
  ℕ, ℤ, pos, Text, Bool, true, false, not, ◌&&◌, ◌≡◌, refl, arith, Option, none, some, List, [],
  ◌∷◌, ◌==◌, any, first, if◌then◌else◌, text_eq, to_lower, select,
}
use go_wallet.Prelude.Decimal.{atoi}
use go_wallet.Store.{
  User, Wallet, Transaction, TransactionStatus, Db, is_hot, transaction_status_eq,
}
use go_wallet.World.{Env, World, Action, pure, raise, ◌>>=◌, bad_request}
use go_wallet.Api.{is_int}
pub mod Collects
pub mod Deposits
pub mod Pending
pub mod Own

-- The parameters of a list. The status is a text that PostgreSQL reads as a value of the column's
-- enumeration: `none` where it is absent, `some none` where it is none of the values.
pub record TransferQuery : Type 0 where
  pub chain_id : Text
  pub status : Option (Option TransactionStatus)
  pub offset : Text
  pub limit : Text

-- `strconv.Atoi` of a parameter that is given; an absent one is no filter.
unfoldable pub chain_filter : Text → Action (Option ℤ)
unfolding atoi
chain_filter [] = pure none
chain_filter (c ∷ cs) = elim (atoi (c ∷ cs)) [ none ↦ raise bad_request | some n ↦ pure (some n) ]

-- Nothing changes.
pub chain_filter-same : (text : Text) (env : Env) (w : World) → (chain_filter text env w).1 ≡ w
unfolding chain_filter pure raise
chain_filter-same [] env w = refl
chain_filter-same (c ∷ cs) env w = ground arith

pub chain_filter-any :
    (text : Text) (env : Env) (w w' : World)
    → (chain_filter text env w).0 ≡ (chain_filter text env w').0
unfolding chain_filter pure raise
chain_filter-any [] env w w' = refl
chain_filter-any (c ∷ cs) env w w' = ground arith

abbrev pub in_status : Option (Option TransactionStatus) → TransactionStatus → Bool
in_status none status = true
in_status (some none) status = false
in_status (some (some s)) status = transaction_status_eq status s

abbrev pub no_such_status : Option (Option TransactionStatus) → Bool
no_such_status (some none) = true
no_such_status _ = false

-- `IN (…)`
unfoldable pub is_among : List Text → Text → Bool
is_among addresses address = any (λ (a : Text). text_eq address a) addresses

-- An address condition is set only if there is an address.
abbrev pub among_or_all : List Text → Text → Bool
among_or_all [] address = true
among_or_all (a ∷ others) address = is_among (a ∷ others) address

-- A number that is NULL in the table is left out of the answer, where 0 stands for it.
abbrev pub or_zero : Option ℤ → ℤ
or_zero none = pos 0
or_zero (some n) = n

abbrev pub belongs_to : ℕ → Wallet → Bool
belongs_to user wallet = wallet.user_id == user

abbrev pub lower_addresses_of : List Wallet → List Text
lower_addresses_of [] = []
lower_addresses_of (x ∷ xs) = to_lower x.address ∷ lower_addresses_of xs

abbrev pub addresses_of : List Wallet → List Text
addresses_of [] = []
addresses_of (x ∷ xs) = x.address ∷ addresses_of xs
