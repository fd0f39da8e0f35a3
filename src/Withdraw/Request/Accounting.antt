-- ===== src/Withdraw/Request/Accounting.antt =====
-- internal/wallet/withdraw/service.go, `RequestWithdraw`: the tables and the balance.
use go_wallet.Store.{WithdrawStatus, Withdraw, Token, Wallet, Db}
use go_wallet.Prelude.{
  ltb_ℤ, true, ℕ, pos, ◌-ℤ◌, ◌≤ℤ◌, ◌+◌, ◌==◌, ap, ◌≡◌, some, inl, inr, Option-cases, insert,
  int_laws, arith,
}
use go_wallet.Prelude.Rows.Find.{first_meets}
use go_wallet.World.{
  Env, World, ok, err, Error, pure, guard, query, query_one, if_no_rows, statement, commit,
  fresh_id, ◌>>=◌,
}
use go_wallet.Balance.{get_available_balance, available}
use go_wallet.Balance.Ledger.{available-insert}
use go_wallet.Withdraw.Request.{
  Request, request_withdraw, user_wallet, requested, frozen_credit, token_by_id,
}

-- A request that fails at any step leaves every table as it was.
pub request_withdraw-error_unchanged :
    (user : ℕ) (req : Request) (env : Env) (w : World) {e : Error}
    → (request_withdraw user req env w).0 ≡ err e
    → (request_withdraw user req env w).1.db ≡ w.db
unfolding request_withdraw guard pure query query_one if_no_rows statement commit fresh_id ◌>>=◌
    get_available_balance
request_withdraw-error_unchanged user req env w h = ground arith

-- What a request that succeeds has found and written.
pub record Booked (user : ℕ) (req : Request) (db : Db) (x : Withdraw) (db' : Db) : Type 0 where
  pub token : Token
  pub wallet : Wallet
  pub withdraw_id : ℕ
  pub credit_id : ℕ
  pub token_found : token_by_id req.token_id db ≡ some token
  pub row : x ≡ requested user req token withdraw_id
  pub positive : pos 1 ≤ℤ req.amount
  pub covered : req.amount ≤ℤ available user token.chain_id token.id db
  pub written : db' ≡ record db {
    withdraws = insert x db.withdraws;
    credits = insert (frozen_credit user req token wallet withdraw_id credit_id) db.credits;
  }

request_withdraw-Booked :
    (user : ℕ) (req : Request) (env : Env) (w : World) {x : Withdraw}
    → (request_withdraw user req env w).0 ≡ ok x
    → Booked user req w.db x (request_withdraw user req env w).1.db
unfolding request_withdraw guard pure query query_one if_no_rows statement commit fresh_id ◌>>=◌
    get_available_balance
request_withdraw-Booked user req env w h = elim (Option-cases (token_by_id req.token_id w.db)) [
  | inl missing ↦ absurd (ground arith)
  | inr (token, found) ↦ elim (Option-cases (user_wallet user token.chain_id w.db)) [
    | inl missing ↦ absurd (ground arith)
    | inr (wallet, held) ↦ record {
      token = token;
      wallet = wallet;
      withdraw_id = w.next_id;
      credit_id = w.next_id + 1;
      token_found = found;
      row = ground arith;
      positive = ground arith;
      covered = ground arith;
      written = ground arith;
    }
  ]
]

Booked-token :
    {user : ℕ} {req : Request} {db : Db} {x : Withdraw} {db' : Db} (b : Booked user req db x db')
    → b.token.id ≡ req.token_id
Booked-token {req = req} {db = db} b =
    ground (arith, first_meets (λ (t : Token). t.id == req.token_id) db.tokens b.token_found)

Booked-available :
    (user : ℕ) (req : Request) (db : Db) (x : Withdraw) (db' : Db)
    → Booked user req db x db'
    → (available user x.chain_id req.token_id db'
        ≡ available user x.chain_id req.token_id db -ℤ req.amount)
      × (pos 0 ≤ℤ available user x.chain_id req.token_id db')
Booked-available user req db x db' b =
    let chain : x.chain_id ≡ b.token.chain_id = cc b.row in
    let debit =
      available-insert user b.token.chain_id b.token.id
        (frozen_credit user req b.token b.wallet b.withdraw_id b.credit_id) db db'
        (ap (λ (d : Db). d.credits) b.written) (ground arith) in
    rw (chain, ← Booked-token b) (rw debit (omega int_laws, omega (int_laws, b.covered)))

-- A request that succeeds lowers the user's available balance of the token by exactly the amount,
-- never below 0; the amount is positive and the withdrawal is in the state of a request.
pub request_withdraw-available :
    (user : ℕ) (req : Request) (env : Env) (w : World) {x : Withdraw}
    → (request_withdraw user req env w).0 ≡ ok x
    → let db' = (request_withdraw user req env w).1.db in
      (available user x.chain_id req.token_id db'
        ≡ available user x.chain_id req.token_id w.db -ℤ req.amount)
      × (pos 0 ≤ℤ available user x.chain_id req.token_id db')
      × (ltb_ℤ (pos 0) req.amount ≡ true)
      × (x.status ≡ WithdrawStatus.user_withdraw_request)
request_withdraw-available user req env w {x = x} h =
    let b = request_withdraw-Booked user req env w h in
    let (debit, covered) =
      Booked-available user req w.db x (request_withdraw user req env w).1.db b in
    let positive = b.positive in (debit, covered, ground arith, cc b.row)
