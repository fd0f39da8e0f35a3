-- ===== src/Api/Signing.antt =====
-- internal/api/handlers/wallet/post_sign_transaction.go: a user signs with a wallet.
use go_wallet.Prelude.{
  ℕ, ℤ, pos, negsuc, Text, Bool, true, false, ◌≡◌, refl, Option, Option-cases, none, some, inl, inr,
  ◌==◌, ==_iff, leb_ℤ, pos_part, text_eq, ◌&&◌, first, arith, ap, ◌∙◌,
}
use go_wallet.Prelude.Bytes.{Bytes}
use go_wallet.Store.{User, Wallet, Db}
use go_wallet.World.{
  Env, World, Action, Error, Result, ok, err, pure, guard, or_raise, query_one, if_no_rows,
  try_action, ◌>>=◌, ◌>>◌, bad_request, forbidden, not_found, wallet_not_found,
}
use go_wallet.HotWallet.Paths.{get_bip44_path}
use go_wallet.Wallets.{get_wallet_by_address, name_of}
use go_wallet.Keys.{Crypto}
use go_wallet.Keys.Signer.{
  EvmRequest, DynamicFeeTx, SignedTx, sign_evm_transaction, IsSigned, sign_evm_transaction-IsSigned,
}
use go_wallet.Api.{require_user}
pub mod Own

pub record SignPayload : Type 0 where
  pub from_address : Text
  pub chain_id : ℕ
  pub to : Text
  pub value : Text
  pub gas_limit : ℤ
  pub max_fee_per_gas : Text
  pub max_priority_fee_per_gas : Text
  pub nonce : ℤ
  pub call_data : Bytes

-- "wallet not found" is answered by 404, another error as it is.
abbrev pub wallet_answer : {A : Type 0} → Result A → Result A
wallet_answer (ok a) = ok a
wallet_answer (err wallet_not_found) = err not_found
wallet_answer (err other) = err other

unfoldable pub or_wallet_missing : {A : Type 0} → Action A → Action A
or_wallet_missing m env w = let (r, w') = m env w in (wallet_answer r, w')

abbrev pub sign_request : SignPayload → Wallet → EvmRequest
sign_request body wallet = record {
  chain_id = body.chain_id;
  to = body.to;
  value = body.value;
  gas_limit = pos_part body.gas_limit;
  max_fee_per_gas = body.max_fee_per_gas;
  max_priority_fee_per_gas = body.max_priority_fee_per_gas;
  nonce = pos_part body.nonce;
  call_data = body.call_data;
  from_address = body.from_address;
  derivation_path = get_bip44_path wallet.derivation_path;
}

module _ (c : Crypto) (sign_tx : DynamicFeeTx → Bytes → Option SignedTx)
    (enable_signing : Bool) where
  -- The checks after the wallet is known, and the signature.
  unfoldable pub sign_for_user : User → SignPayload → Wallet → Action SignedTx
  sign_for_user user body wallet = do
    guard (wallet.user_id == user.id) forbidden
    guard (leb_ℤ (pos 0) body.gas_limit) bad_request
    guard (leb_ℤ (pos 0) body.nonce) bad_request
    sign_evm_transaction c sign_tx enable_signing (sign_request body wallet)

  unfoldable pub post_sign_transaction : Option User → Option SignPayload → Action SignedTx
  post_sign_transaction given payload = do
    user ← require_user given
    body ← or_raise payload bad_request
    found ← or_wallet_missing (get_wallet_by_address body.from_address body.chain_id)
    sign_for_user user body found.0
