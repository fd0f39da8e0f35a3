-- ===== src/Keys/Signer.antt =====
-- internal/wallet/signer: the checks before a transaction is signed. That the private key is
-- overwritten afterwards is not seen in the model.
use go_wallet.Prelude.{
  ℕ, ℤ, Text, Bool, true, ◌≡◌, Option, Option-cases, some, inl, inr, text_eq, eq_of_text_eq, arith,
}
use go_wallet.Prelude.Bytes.{Bytes}
use go_wallet.Prelude.Decimal.{parse_big}
use go_wallet.World.{
  Env, World, Action, ok, pure, guard, or_raise, ◌>>=◌, ◌>>◌, signing_disabled, bad_key,
  address_mismatch, bad_number, sign_failure,
}
use go_wallet.World.Bind.{Result-cases}
use go_wallet.Keys.{Crypto, derive_private_key, require_seed, get_seed}

-- signer.SignEVMRequest as it comes in, with numbers as texts.
pub record EvmRequest : Type 0 where
  pub chain_id : ℕ
  pub to : Text
  pub value : Text
  pub gas_limit : ℕ
  pub max_fee_per_gas : Text
  pub max_priority_fee_per_gas : Text
  pub nonce : ℕ
  pub call_data : Bytes
  pub from_address : Text
  pub derivation_path : Text

-- types.DynamicFeeTx
pub record DynamicFeeTx : Type 0 where
  pub chain_id : ℕ
  pub nonce : ℕ
  pub gas_tip_cap : ℤ
  pub gas_fee_cap : ℤ
  pub gas : ℕ
  pub to : Bytes
  pub value : ℤ
  pub call_data : Bytes

-- signer.SignEVMResponse
pub record SignedTx : Type 0 where
  pub raw_transaction : Bytes
  pub tx_hash : Text

abbrev pub transaction_of : Crypto → EvmRequest → ℤ → ℤ → ℤ → DynamicFeeTx
transaction_of c req value max_fee tip = record {
  chain_id = req.chain_id;
  nonce = req.nonce;
  gas_tip_cap = tip;
  gas_fee_cap = max_fee;
  gas = req.gas_limit;
  to = c.hex_to_address req.to;
  value = value;
  call_data = req.call_data;
}

-- `sign_tx` is `types.SignTx` of go-ethereum with the encoding and the hash of what it signs.
module _ (c : Crypto) (sign_tx : DynamicFeeTx → Bytes → Option SignedTx) where
  unfoldable pub sign_eip1559_transaction : EvmRequest → Bytes → Action SignedTx
  sign_eip1559_transaction req key = do
    guard (c.is_private_key key) bad_key
    guard (text_eq (c.address_of_key key) (c.hex_to_address req.from_address)) address_mismatch
    value ← or_raise (parse_big req.value) bad_number
    max_fee ← or_raise (parse_big req.max_fee_per_gas) bad_number
    tip ← or_raise (parse_big req.max_priority_fee_per_gas) bad_number
    or_raise (sign_tx (transaction_of c req value max_fee tip) key) sign_failure

  unfoldable pub sign_evm_transaction : Bool → EvmRequest → Action SignedTx
  sign_evm_transaction enable_signing req = do
    guard enable_signing signing_disabled
    seed ← require_seed
    key ← derive_private_key c seed req.derivation_path
    sign_eip1559_transaction req key

  -- What a signature rests on: the configuration, the seed in memory, the key of the request's path,
  -- whose address is the request's sender, and a transaction with the request's numbers.
  pub record IsSigned (enable_signing : Bool) (req : EvmRequest) (w : World) (s : SignedTx)
      : Type 0 where
    pub seed : Bytes
    pub key : Bytes
    pub value : ℤ
    pub max_fee : ℤ
    pub tip : ℤ
    pub enabled : enable_signing ≡ true
    pub in_memory : get_seed w ≡ some seed
    pub derived : (env : Env) → derive_private_key c seed req.derivation_path env w ≡ (ok key, w)
    pub own_key : c.address_of_key key ≡ c.hex_to_address req.from_address
    pub value_read : parse_big req.value ≡ some value
    pub max_fee_read : parse_big req.max_fee_per_gas ≡ some max_fee
    pub tip_read : parse_big req.max_priority_fee_per_gas ≡ some tip
    pub signed : sign_tx (transaction_of c req value max_fee tip) key ≡ some s

  derive_private_key_any :
      (seed : Bytes) (path : Text) (env env' : Env) (w : World) {key : Bytes}
      → (derive_private_key c seed path env w).0 ≡ ok key
      → derive_private_key c seed path env' w ≡ (ok key, w)
  unfolding derive_private_key or_raise pure ◌>>=◌
  derive_private_key_any seed path env env' w h = ground arith

  sign_with :
      (req : EvmRequest) (key : Bytes) (env : Env) (w : World) {s : SignedTx}
      → (sign_eip1559_transaction req key env w).0 ≡ ok s
      → (value : ℤ) × (max_fee : ℤ) × (tip : ℤ) × (c.address_of_key key
          ≡ c.hex_to_address req.from_address)
        × (parse_big req.value ≡ some value)
        × (parse_big req.max_fee_per_gas ≡ some max_fee)
        × (parse_big req.max_priority_fee_per_gas ≡ some tip)
        × (sign_tx (transaction_of c req value max_fee tip) key ≡ some s)
        × ((sign_eip1559_transaction req key env w).1 ≡ w)
  unfolding sign_eip1559_transaction guard or_raise ◌>>=◌
  sign_with req key env w h = elim (Option-cases (parse_big req.value)) [
    | inl e ↦ absurd (ground arith)
    | inr (value, e) ↦ elim (Option-cases (parse_big req.max_fee_per_gas)) [
      | inl f ↦ absurd (ground arith)
      | inr (max_fee, f) ↦ elim (Option-cases (parse_big req.max_priority_fee_per_gas)) [
        | inl g ↦ absurd (ground arith)
        | inr (tip, g) ↦ (
          value,
          max_fee,
          tip,
          eq_of_text_eq (c.address_of_key key) (c.hex_to_address req.from_address) (ground arith),
          e,
          f,
          g,
          ground arith,
          ground arith,
        )
      ]
    ]
  ]

  -- A transaction is signed only as `IsSigned` says, and nothing else happens.
  pub sign_evm_transaction-IsSigned :
      (enable_signing : Bool) (req : EvmRequest) (env : Env) (w : World) {s : SignedTx}
      → (sign_evm_transaction enable_signing req env w).0 ≡ ok s
      → IsSigned enable_signing req w s × ((sign_evm_transaction enable_signing req env w).1 ≡ w)
  unfolding sign_evm_transaction require_seed guard or_raise ◌>>=◌
  sign_evm_transaction-IsSigned enable_signing req env w h = elim (Option-cases (get_seed w)) [
    | inl e ↦ absurd (ground arith)
    | inr (seed, e) ↦ elim (Result-cases (derive_private_key c seed req.derivation_path env w).0) [
      | inr (x, f) ↦ absurd (ground arith)
      | inl (key, f) ↦
          let same = derive_private_key_any seed req.derivation_path env env w f in
          let (value, max_fee, tip, own, rv, rf, rt, signed, kept) =
            sign_with req key env w (ground arith) in
          (
            record {
              seed = seed;
              key = key;
              value = value;
              max_fee = max_fee;
              tip = tip;
              enabled = ground arith;
              in_memory = e;
              derived = λ env'. derive_private_key_any seed req.derivation_path env env' w f;
              own_key = own;
              value_read = rv;
              max_fee_read = rf;
              tip_read = rt;
              signed = signed;
            },
            ground arith,
          )
    ]
  ]
