-- ===== src/Withdraw/Process/Payment.antt =====
-- What a payment (`pay`, and the steps inside it) has signed, sent and written once it succeeds.
use go_wallet.HotWallet.Nonces.{advanced}
use go_wallet.Prelude.{
  ℕ, Text, Option, List, if◌then◌else◌, ◌+◌, ◌≡◌, inl, inr, some, none, Option-cases, refl, ◌∷◌,
  first, arith,
}
use go_wallet.Store.{Withdraw, Wallet, WalletNonce, Token, Db}
use go_wallet.World.{
  Env, World, SignRequest, ok, pure, or_raise, ask, call, guard, query, query_one, statement,
  commit, send, ◌>>=◌,
}
use go_wallet.HotWallet.{get_next_nonce, nonce_of}
use go_wallet.Withdraw.Process.{
  pay, spend, prepare, build_request, broadcast, check_hot_wallet_balance, save_withdraw,
  broadcasted, native_request, erc20_request,
}
use go_wallet.World.Bind.{>>=-ok}
use mathlib.Core.Path.{subst₂}

-- The request for a token, where it can be made.
abbrev pub request_of : Withdraw → Wallet → Token → ℕ → ℕ → ℕ → ℕ → Option SignRequest
request_of x hot token wei fee tip nonce =
    if token.is_native
    then some (native_request x hot wei fee tip nonce)
    else (elim token.token_address [
      | none ↦ none
      | some a ↦ some (erc20_request x hot a wei fee tip nonce)
    ])

-- What a payment has signed, sent and written: one request, under the stored nonce, which has moved
-- on by one, and the row with the transaction's hash.
pub record Paid (x : Withdraw) (hot : Wallet) (token : Token) (db : Db) (sent : List SignRequest)
    (w' : World) : Type 0 where
  pub amount_wei : ℕ
  pub max_fee : ℕ
  pub tip : ℕ
  pub row : WalletNonce
  pub request : SignRequest
  pub hash : Text
  pub row_found : first (nonce_of hot.address x.chain_id) db.nonces ≡ some row
  pub request_made : request_of x hot token amount_wei max_fee tip row.nonce ≡ some request
  pub sent_once : w'.sent ≡ request ∷ sent
  pub written : w'.db ≡ save_withdraw (broadcasted x hot hash row.nonce) (advanced row db)

signed :
    (x : Withdraw) (hot : Wallet) (nonce : ℕ) (r : SignRequest) (env : Env) (w : World)
    → (broadcast x hot nonce r env w).0 ≡ ok tt
    → (hash : Text) × ((broadcast x hot nonce r env w).1.sent ≡ r ∷ w.sent)
      × ((broadcast x hot nonce r env w).1.db ≡ save_withdraw (broadcasted x hot hash nonce) w.db)
unfolding broadcast ask call query statement commit send ◌>>=◌
signed x hot nonce r env w h = elim (Option-cases (env.sign w.tick r)) [
  | inl missing ↦ absurd (ground arith)
  | inr (hash, e) ↦ (hash, ground arith, ground arith)
]

spend_lem :
    (x : Withdraw) (hot : Wallet) (token : Token) (wei fee tip : ℕ) (env : Env) (w : World)
    {row : WalletNonce} {r : SignRequest}
    → first (nonce_of hot.address x.chain_id) w.db.nonces ≡ some row
    → request_of x hot token wei fee tip row.nonce ≡ some r
    → (spend x hot token wei fee tip env w).0 ≡ ok tt
    → (w₂ : World) × (spend x hot token wei fee tip env w ≡ broadcast x hot row.nonce r env w₂)
      × (w₂.sent ≡ w.sent)
      × (w₂.db ≡ advanced row w.db)
unfolding spend get_next_nonce build_request or_raise query query_one statement commit pure ◌>>=◌
spend_lem x hot token wei fee tip env w {row = row} found made h =
    (record w { tick = w.tick + 1 + 1 + 1 + 1; db = advanced row w.db }, ground arith, refl, refl)

prepare-same :
    (x : Withdraw) (hot : Wallet) (token : Token) (env : Env) (w : World)
    → let w' = (prepare x hot token env w).1 in (w'.db ≡ w.db) × (w'.sent ≡ w.sent)
unfolding prepare check_hot_wallet_balance ask or_raise guard pure ◌>>=◌
prepare-same x hot token env w = (ground arith, ground arith)

spend_no_row :
    (x : Withdraw) (hot : Wallet) (token : Token) (wei fee tip : ℕ) (env : Env) (w : World)
    → first (nonce_of hot.address x.chain_id) w.db.nonces ≡ none
    → (spend x hot token wei fee tip env w).0 ≡ ok tt
    → ⊥
unfolding spend get_next_nonce query query_one statement ◌>>=◌
spend_no_row x hot token wei fee tip env w missing h = ground arith

spend_no_request :
    (x : Withdraw) (hot : Wallet) (token : Token) (wei fee tip : ℕ) (env : Env) (w : World)
    {row : WalletNonce}
    → first (nonce_of hot.address x.chain_id) w.db.nonces ≡ some row
    → request_of x hot token wei fee tip row.nonce ≡ none
    → (spend x hot token wei fee tip env w).0 ≡ ok tt
    → ⊥
unfolding spend get_next_nonce build_request or_raise query query_one statement commit pure ◌>>=◌
spend_no_request x hot token wei fee tip env w found missing h = ground arith

spend-Paid :
    (x : Withdraw) (hot : Wallet) (token : Token) (wei fee tip : ℕ) (env : Env) (w : World)
    → (spend x hot token wei fee tip env w).0 ≡ ok tt
    → Paid x hot token w.db w.sent (spend x hot token wei fee tip env w).1
spend-Paid x hot token wei fee tip env w h =
    elim (Option-cases (first (nonce_of hot.address x.chain_id) w.db.nonces)) [
      | inl missing ↦ absurd (spend_no_row x hot token wei fee tip env w missing h)
      | inr (row, found) ↦ elim (Option-cases (request_of x hot token wei fee tip row.nonce)) [
        | inl missing ↦ absurd (spend_no_request x hot token wei fee tip env w found missing h)
        | inr (r, made) ↦
            let (w₂, e, s, d) = spend_lem x hot token wei fee tip env w found made h in
            let (hash, s', d') = signed x hot row.nonce r env w₂ (rw e at h) in
            rw e (record {
              amount_wei = wei;
              max_fee = fee;
              tip = tip;
              row = row;
              request = r;
              hash = hash;
              row_found = found;
              request_made = made;
              sent_once = cc;
              written = cc;
            })
      ]
    ]

pub pay-Paid :
    (x : Withdraw) (hot : Wallet) (token : Token) (env : Env) (w : World)
    → (pay x hot token env w).0 ≡ ok tt
    → Paid x hot token w.db w.sent (pay x hot token env w).1
unfolding pay
pay-Paid x hot token env w h =
    let (f, e, r) =
      >>=-ok (prepare x hot token) (λ funds. spend x hot token funds.0 funds.1 funds.2) env w h in
    let w₁ = (prepare x hot token env w).1 in
    let (d, s) = prepare-same x hot token env w in
    rw r (
      subst₂
        (λ (db : Db) (sent : List SignRequest).
          Paid x hot token db sent (spend x hot token f.0 f.1 f.2 env w₁).1)
        d s (spend-Paid x hot token f.0 f.1 f.2 env w₁ (rw r at h)))
