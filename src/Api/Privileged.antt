-- ===== src/Api/Privileged.antt =====
-- internal/api/handlers/wallet: post_create_hot_wallet.go, post_collect.go and post_rebalance.go,
-- the requests that move or set up the service's own money.
use go_wallet.Prelude.{
  ℕ, ℤ, Text, Bool, true, false, not, ◌&&◌, ◌||◌, Option, none, some, List, [], ◌∷◌, ◌==◌, first,
  pos_part, if◌then◌else◌,
}
use go_wallet.Store.{User, Wallet, Chain, is_user_type}
use go_wallet.World.{
  Action, Result, ok, err, Error, pure, raise, guard, or_raise, query_one, try_action, ◌>>=◌, ◌>>◌,
  no_rows, bad_request, not_found, internal_server_error,
}
use go_wallet.Queries.{chain_by_id}
use go_wallet.HotWallet.{create_hot_wallet}
use go_wallet.Collect.{collect_wallet}
use go_wallet.Rebalance.{RebalanceRequest, rebalance}
use go_wallet.Api.{require_user, require_admin, is_admin, or_answer, is_int}
pub mod Denied

-- The chain and the name of the device are `none` where they are absent or empty.
pub record HotWalletPayload : Type 0 where
  pub chain_id : Option ℕ
  pub device_name : Option ℕ

-- "Unknown Chain"
abbrev pub unknown_chain : Text
unknown_chain =
    b'U' ∷ b'n' ∷ b'k' ∷ b'n' ∷ b'o' ∷ b'w' ∷ b'n' ∷ b' ' ∷ b'C' ∷ b'h' ∷ b'a' ∷ b'i' ∷ b'n' ∷ []

abbrev pub chain_name_or_unknown : Result Chain → Text
chain_name_or_unknown (ok chain) = chain.chain_name
chain_name_or_unknown (err e) = unknown_chain

-- The answer holds the wallet and the name of its chain.
unfoldable pub post_create_hot_wallet :
    Option User → Option HotWalletPayload → Action (Wallet × Text)
post_create_hot_wallet given payload = do
  user ← require_user given
  require_admin user
  body ← or_raise payload bad_request
  chain_id ← or_raise body.chain_id bad_request
  device ← or_raise body.device_name bad_request
  wallet ← or_answer internal_server_error (create_hot_wallet user.id chain_id device)
  chain ← try_action (query_one (chain_by_id chain_id))
  pure (wallet, chain_name_or_unknown chain)

-- An identifier that is absent or empty is `none`, and a chain that is absent is 0.
pub record CollectPayload : Type 0 where
  pub wallet_id : Option ℕ
  pub chain_id : ℤ

-- Without a row the handler has an answer of its own.
abbrev pub row_answer : {A : Type 0} → Error → Result A → Result A
row_answer missing (ok a) = ok a
row_answer missing (err no_rows) = err missing
row_answer missing (err other) = err internal_server_error

unfoldable pub or_missing : {A : Type 0} → Error → Action A → Action A
or_missing missing m env w = let (r, w') = m env w in (row_answer missing r, w')

-- An administrator reaches every wallet, another user the own ones.
abbrev pub may_collect : User → Wallet → Bool
may_collect user wallet = is_admin user.role || wallet.user_id == user.id

unfoldable pub wallet_to_collect : User → CollectPayload → Action Wallet
wallet_to_collect user body = elim body.wallet_id [
  | some id ↦
      or_missing not_found
        (query_one (λ db. first (λ (w : Wallet). w.id == id && may_collect user w) db.wallets))
  | none ↦
      if is_int body.chain_id 0
      then raise bad_request
      else or_missing (if is_admin user.role then bad_request else not_found) (
          query_one (λ db.
            first
              (λ (w : Wallet).
                is_int body.chain_id w.chain_id && is_user_type w.wallet_type && may_collect user w)
              db.wallets))
]

-- The answer is the number of the wallet that is collected.
unfoldable pub post_collect : Option User → Option CollectPayload → Action ℕ
post_collect given payload = do
  user ← require_user given
  require_admin user
  body ← or_raise payload bad_request
  wallet ← wallet_to_collect user body
  guard (is_user_type wallet.wallet_type) bad_request
  or_answer internal_server_error (collect_wallet wallet.id)
  pure wallet.id

-- The amount is the text of a number.
pub record RebalancePayload : Type 0 where
  pub chain_id : ℕ
  pub from_address : Text
  pub to_address : Text
  pub amount : Text

-- `parse_float` is `big.ParseFloat`, cut to an integer.
abbrev pub rebalance_request : RebalancePayload → ℤ → RebalanceRequest
rebalance_request body amount = record {
  chain_id = body.chain_id;
  from_address = body.from_address;
  to_address = body.to_address;
  amount = pos_part amount;
}

-- The transfer runs beside the answer: how it ends is logged, and not told.
unfoldable pub post_rebalance :
    (Text → Option ℤ) → Option User → Option RebalancePayload → Action RebalancePayload
post_rebalance parse_float given payload = do
  user ← require_user given
  body ← or_raise payload bad_request
  amount ← or_raise (parse_float body.amount) bad_request
  done ← try_action (rebalance (rebalance_request body amount))
  pure body
