-- ===== src/Withdraw/Request/Race.antt =====
-- internal/wallet/withdraw/service.go, `RequestWithdraw`: two requests at once. The test of the
-- balance stands before the transaction and takes no lock, so both tests may be made before either
-- amount is frozen.
use go_wallet.Prelude.{
  ℕ, pos, ◌+ℤ◌, ◌-ℤ◌, ◌≤ℤ◌, ◌+◌, ◌≡◌, ◌∙◌, inl, inr, Option-cases, ap, insert, int_laws, arith,
}
use go_wallet.Store.{Withdraw, Token, Wallet, Db}
use go_wallet.World.{
  Env, World, ok, pure, guard, query, query_one, if_no_rows, statement, commit, fresh_id, ◌>>=◌,
}
use go_wallet.Balance.{available}
use go_wallet.Balance.Ledger.{available-insert}
use go_wallet.Withdraw.Request.{Request, check_request, book_request, user_wallet, frozen_credit}

-- A test that passes changes no table.
check_request_lem :
    (user : ℕ) (req : Request) (env : Env) (w : World) {token : Token}
    → (check_request user req env w).0 ≡ ok token
    → (check_request user req env w).1.db ≡ w.db
unfolding check_request guard pure query query_one if_no_rows ◌>>=◌
check_request_lem user req env w h = ground arith

booked_credit :
    (user : ℕ) (req : Request) (token : Token) (env : Env) (w : World) {x : Withdraw}
    → (book_request user req token env w).0 ≡ ok x
    → (wallet : Wallet) × ((book_request user req token env w).1.db.credits
        ≡ insert (frozen_credit user req token wallet w.next_id (w.next_id + 1)) w.db.credits)
unfolding book_request guard pure query query_one statement commit fresh_id ◌>>=◌
booked_credit user req token env w h = elim (Option-cases (user_wallet user token.chain_id w.db)) [
  | inl missing ↦ absurd (ground arith)
  | inr (wallet, held) ↦ (wallet, ground arith)
]

-- A transaction that succeeds freezes the amount, whatever the balance is by then.
book_request-available :
    (user : ℕ) (req : Request) (token : Token) (env : Env) (w : World) {x : Withdraw}
    → (book_request user req token env w).0 ≡ ok x
    → available user token.chain_id token.id (book_request user req token env w).1.db
      ≡ available user token.chain_id token.id w.db -ℤ req.amount
book_request-available user req token env w h =
    let (wallet, e) = booked_credit user req token env w h in
    let debit =
      available-insert user token.chain_id token.id
        (frozen_credit user req token wallet w.next_id (w.next_id + 1)) w.db
        (book_request user req token env w).1.db e (ground arith) in
    rw debit (omega int_laws)

-- Two requests at once can overdraw an account: where both tests of the balance come before either
-- transaction, and all of these succeed, the balance falls by both amounts, below 0 if they are
-- more than it together, though each was tested against it.
pub racing_requests-overdraw :
    (user : ℕ) (req req' : Request) (token : Token) (e₁ e₂ e₃ e₄ : Env) (w : World) {x y : Withdraw}
    → (check_request user req e₁ w).0 ≡ ok token
    → let w₁ = (check_request user req e₁ w).1 in
      (check_request user req' e₂ w₁).0 ≡ ok token
      → let w₂ = (check_request user req' e₂ w₁).1 in
        (book_request user req token e₃ w₂).0 ≡ ok x
        → let w₃ = (book_request user req token e₃ w₂).1 in
          (book_request user req' token e₄ w₃).0 ≡ ok y
          → let before = available user token.chain_id token.id w.db in
            before +ℤ pos 1 ≤ℤ req.amount +ℤ req'.amount
            → let after =
                available user token.chain_id token.id (book_request user req' token e₄ w₃).1.db in
              (after ≡ before -ℤ (req.amount +ℤ req'.amount)) × (after +ℤ pos 1 ≤ℤ pos 0)
racing_requests-overdraw user req req' token e₁ e₂ e₃ e₄ w first_test second_test first_done
      second_done together =
    let w₁ = (check_request user req e₁ w).1 in
    let w₂ = (check_request user req' e₂ w₁).1 in
    let w₃ = (book_request user req token e₃ w₂).1 in
    let balance = λ (db : Db). available user token.chain_id token.id db in
    let kept : balance w₂.db ≡ balance w.db =
      ap balance (check_request_lem user req' e₂ w₁ second_test)
      ∙ ap balance (check_request_lem user req e₁ w first_test) in
    let once = book_request-available user req token e₃ w₂ first_done in
    let twice = book_request-available user req' token e₄ w₃ second_done in
    (rw (twice, once, kept) (omega int_laws), rw (twice, once, kept) (omega int_laws))
