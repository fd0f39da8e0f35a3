-- ===== src/Api/Signing/Own.antt =====
-- internal/api/handlers/wallet/post_sign_transaction.go: with whose keys, and what becomes of the
-- balances.
use go_wallet.Prelude.{
  ℕ, Text, Bool, ◌&&◌, ◌≡◌, refl, Option, Option-cases, some, inl, inr, ◌==◌, ==_iff, text_eq,
  first, arith, ap, ◌∙◌, ◌+◌, ℤ, pos, negsuc, pos_part, leb_ℤ, true,
}
use go_wallet.Prelude.Bytes.{Bytes}
use go_wallet.Store.{User, Wallet, Db}
use go_wallet.World.{
  Env, World, Result, ok, pure, guard, or_raise, query_one, if_no_rows, try_action, ◌>>=◌,
}
use go_wallet.World.Bind.{>>=-ok}
use go_wallet.Wallets.{get_wallet_by_address}
use go_wallet.Prelude.Decimal.{parse_big}
use go_wallet.HotWallet.Paths.{get_bip44_path}
use go_wallet.Keys.{Crypto, get_seed, derive_private_key}
use go_wallet.Keys.Signer.{DynamicFeeTx, SignedTx, transaction_of, sign_evm_transaction-IsSigned}
use go_wallet.Api.Signing.{
  SignPayload, sign_request, sign_for_user, post_sign_transaction, or_wallet_missing,
}

abbrev pub wallet_at : Text → ℕ → Db → Option Wallet
wallet_at address chain db =
    first (λ (w : Wallet). text_eq w.address address && w.chain_id == chain) db.wallets

found_lem :
    (address : Text) (chain : ℕ) (env : Env) (w : World) {r : Wallet × Text}
    → (or_wallet_missing (get_wallet_by_address address chain) env w).0 ≡ ok r
    → (wallet_at address chain w.db ≡ some r.0)
      × ((or_wallet_missing (get_wallet_by_address address chain) env w).1
          ≡ record w { tick = w.tick + 1 + 1 })
unfolding or_wallet_missing get_wallet_by_address query_one if_no_rows try_action pure ◌>>=◌
found_lem address chain env w h = elim (Option-cases (wallet_at address chain w.db)) [
  | inl e ↦ absurd (ground arith)
  | inr (wallet, e) ↦ (ground arith, ground arith)
]

pos_pos_part : (z : ℤ) → leb_ℤ (pos 0) z ≡ true → pos (pos_part z) ≡ z
pos_pos_part (pos n) h = refl
pos_pos_part (negsuc n) h = absurd (ground arith)

-- A transaction with the chain, the recipient, the numbers and the data that the body asks for.
abbrev pub IsAsked : Crypto → SignPayload → DynamicFeeTx → Type 0
IsAsked c body tx =
    (tx.chain_id ≡ body.chain_id)
    × (tx.to ≡ c.hex_to_address body.to)
    × (parse_big body.value ≡ some tx.value)
    × (parse_big body.max_fee_per_gas ≡ some tx.gas_fee_cap)
    × (parse_big body.max_priority_fee_per_gas ≡ some tx.gas_tip_cap)
    × (pos tx.gas ≡ body.gas_limit)
    × (pos tx.nonce ≡ body.nonce)
    × (tx.call_data ≡ body.call_data)

module _ (c : Crypto) (sign_tx : DynamicFeeTx → Bytes → Option SignedTx)
    (enable_signing : Bool) where
  -- The transaction is what the body asks for, and is signed with the key of the wallet's path, which
  -- comes from the seed in memory and has the sender's address.
  abbrev pub SignsAsked : SignPayload → Wallet → World → SignedTx → Type 0
  SignsAsked body wallet w s =
      (enable_signing ≡ true)
      × (seed : Bytes) × (get_seed w ≡ some seed)
      × (key : Bytes) × ((env : Env)
          → (derive_private_key c seed (get_bip44_path wallet.derivation_path) env w).0 ≡ ok key)
      × (c.address_of_key key ≡ c.hex_to_address body.from_address)
      × (tx : DynamicFeeTx) × IsAsked c body tx
      × (sign_tx tx key ≡ some s)

  sign_for_user_lem :
      (user : User) (body : SignPayload) (wallet : Wallet) (env : Env) (w : World) {s : SignedTx}
      → (sign_for_user c sign_tx enable_signing user body wallet env w).0 ≡ ok s
      → (wallet.user_id ≡ user.id)
        × SignsAsked body wallet w s
        × ((sign_for_user c sign_tx enable_signing user body wallet env w).1 ≡ w)
  unfolding sign_for_user guard ◌>>=◌
  sign_for_user_lem user body wallet env w h =
      let (t, same) =
        sign_evm_transaction-IsSigned c sign_tx enable_signing (sign_request body wallet) env w
          (ground arith) in
      let gas = pos_pos_part body.gas_limit (ground arith) in
      let nonce = pos_pos_part body.nonce (ground arith) in
      (
        (==_iff wallet.user_id user.id).0 (ground arith),
        (
          t.enabled,
          t.seed,
          t.in_memory,
          t.key,
          (λ env'. ap (λ (r : Result Bytes × World). r.0) (t.derived env')),
          t.own_key,
          transaction_of c (sign_request body wallet) t.value t.max_fee t.tip,
          (refl, refl, t.value_read, t.max_fee_read, t.tip_read, gas, nonce, refl),
          t.signed,
        ),
        ground arith,
      )

  -- A user is given a signed transaction only with a wallet that the table has as the user's own on
  -- the chain asked for, with the key of that wallet's path, if signing is enabled and the seed is in
  -- memory; the transaction has the chain, the recipient, the value, the fees, the gas limit, the
  -- nonce and the data asked for. No table changes and nothing is sent: what the transaction takes
  -- out of the wallet stays in the user's balance.
  pub post_sign_transaction-own :
      (user : User) (body : SignPayload) (env : Env) (w : World) {s : SignedTx}
      → (post_sign_transaction c sign_tx enable_signing (some user) (some body) env w).0 ≡ ok s
      → let w' = (post_sign_transaction c sign_tx enable_signing (some user) (some body) env w).1 in
        ((wallet : Wallet) × (wallet_at body.from_address body.chain_id w.db ≡ some wallet)
          × (wallet.user_id ≡ user.id)
          × SignsAsked body wallet w' s)
        × (w'.db ≡ w.db)
        × (w'.sent ≡ w.sent)
  unfolding post_sign_transaction or_raise ◌>>=◌
  post_sign_transaction-own user body env w h =
      let lookup = or_wallet_missing (get_wallet_by_address body.from_address body.chain_id) in
      let (found, first, rest) =
        >>=-ok lookup (λ (r : Wallet × Text). sign_for_user c sign_tx enable_signing user body r.0)
          env w h in
      let (at, after) = found_lem body.from_address body.chain_id env w first in
      let (own, signed, same) =
        sign_for_user_lem user body found.0 env (lookup env w).1 (rw (← rest) h) in
      let reached : (post_sign_transaction c sign_tx enable_signing (some user) (some body) env w).1
          ≡ record w { tick = w.tick + 1 + 1 } =
        ap (λ (r : Result SignedTx × World). r.1) rest ∙ same ∙ after in
      rw reached ((found.0, at, own, rw (← after) signed), refl, refl)
