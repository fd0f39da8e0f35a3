-- ===== src/Bank/Service.antt =====
-- The services (withdraw/service.go and deposit/service.go, below internal/wallet) as a machine
-- that keeps the account book of `Bank`, one call after the other.
use go_wallet.Prelude.{
  ℕ, pos, ◌-ℤ◌, ◌≤ℤ◌, ◌≤◌, ◌+◌, Text, List, [], ◌∷◌, ◌≡◌, refl, some, insert, select, int_laws,
  Bool-cases, Option-cases, inl, inr, arith, ap,
}
use go_wallet.Prelude.Rows.Sums.{sum_where-insert}
use go_wallet.Store.{Credit, Token, Wallet, Withdraw, Db}
use go_wallet.World.{
  Env, World, ok, pure, guard, query, query_one, if_no_rows, statement, commit, fresh_id, ◌>>=◌,
}
use go_wallet.World.Bind.{Result-cases}
use go_wallet.Balance.{available, get_available_balance, counts_as_available}
use go_wallet.Withdraw.Request.{Request, request_withdraw, user_wallet, frozen_credit}
use go_wallet.Queries.{token_by_id}
use go_wallet.Withdraw.Request.Accounting.{request_withdraw-error_unchanged}
use go_wallet.Withdraw.Review.{
  reject_withdraw, write_rejection, statements, is_frozen_for, fail_credits,
}
use go_wallet.Withdraw.Process.{withdraw_by_id}
use go_wallet.Withdraw.Review.Rejection.{reject_withdraw-Rejected, reject_withdraw-error_unchanged}
use go_wallet.Withdraw.Review.Refund.{held, available-fail_credits}
use go_wallet.Bank.{Book, Entry, Entries, then_entry, kept, reserved, given, is_account}
use go_wallet.Bank.Sound.{
  IsSound, AreIncoming, IsSound-same, IsSound-insert, IsSound-fail_credits, book, held_negative,
}

-- The tables are sound, and their balances came about by entries in the book `b`.
pub record Served (b : Book) (w : World) : Type 0 where
  pub sound : IsSound w
  pub entries : Entries b (book w.db)

pub Served-same :
    (b : Book) (w w' : World)
    → w'.db.credits ≡ w.db.credits
    → AreIncoming w'.db.transactions
    → w.next_id ≤ w'.next_id
    → Served b w
    → Served b w'
unfolding book available
Served-same b w w' e f h s = record {
  sound = IsSound-same w w' e f h s.sound;
  entries = then_entry s.entries (kept (λ u c t. rw e refl));
}

-- What a request does to the world: on success the amount was there and is frozen.
request_numbers :
    (user : ℕ) (req : Request) (env : Env) (w : World)
    → w.next_id ≤ (request_withdraw user req env w).1.next_id
unfolding request_withdraw guard pure query query_one if_no_rows statement commit fresh_id ◌>>=◌
    get_available_balance
request_numbers user req env w = ground arith

record Reserved (user : ℕ) (req : Request) (w w' : World) : Type 0 where
  token : Token
  wallet : Wallet
  token_found : token_by_id req.token_id w.db ≡ some token
  positive : pos 1 ≤ℤ req.amount
  covered : req.amount ≤ℤ available user token.chain_id token.id w.db
  credits :
      w'.db.credits
      ≡ insert (frozen_credit user req token wallet w.next_id (w.next_id + 1)) w.db.credits
  transactions : w'.db.transactions ≡ w.db.transactions
  numbers : w'.next_id ≡ w.next_id + 1 + 1

request_withdraw-Reserved :
    (user : ℕ) (req : Request) (env : Env) (w : World) {x : Withdraw}
    → (request_withdraw user req env w).0 ≡ ok x
    → Reserved user req w (request_withdraw user req env w).1
unfolding request_withdraw guard pure query query_one if_no_rows statement commit fresh_id ◌>>=◌
    get_available_balance
request_withdraw-Reserved user req env w h = elim (Option-cases (token_by_id req.token_id w.db)) [
  | inl missing ↦ absurd (ground arith)
  | inr (token, found) ↦ elim (Option-cases (user_wallet user token.chain_id w.db)) [
    | inl missing ↦ absurd (ground arith)
    | inr (wallet, held) ↦ record {
      token = token;
      wallet = wallet;
      token_found = found;
      positive = ground arith;
      covered = ground arith;
      credits = ground arith;
      transactions = ground arith;
      numbers = ground arith;
    }
  ]
]

Reserved-Entry :
    (user : ℕ) (req : Request) (w w' : World)
    → Reserved user req w w'
    → Entry (book w.db) (book w'.db)
unfolding book available
Reserved-Entry user req w w' r =
    reserved user r.token.chain_id r.token.id req.amount r.positive r.covered λ u c t.
      let own = frozen_credit user req r.token r.wallet w.next_id (w.next_id + 1) in
      rw (r.credits, sum_where-insert (counts_as_available u c t) (λ d. d.amount) own w.db.credits)
        (elim (Bool-cases (is_account user r.token.chain_id r.token.id u c t)) [
          | inl e ↦ rw e (omega int_laws)
          | inr e ↦ rw e refl
        ])

pub request_withdraw-Served :
    (user : ℕ) (req : Request) (env : Env) (w : World) (b : Book)
    → Served b w
    → Served b (request_withdraw user req env w).1
request_withdraw-Served user req env w b s =
    let w' = (request_withdraw user req env w).1 in
    elim (Result-cases (request_withdraw user req env w).0) [
      | inl (x, done) ↦
          let r = request_withdraw-Reserved user req env w done in
          record {
            sound =
                IsSound-insert (frozen_credit user req r.token r.wallet w.next_id (w.next_id + 1)) w
                  w' r.credits r.transactions (omega arith) (omega (arith, r.numbers))
                  (λ _. omega (int_laws, r.positive)) s.sound;
            entries = then_entry s.entries (Reserved-Entry user req w w' r);
          }
      | inr (e, failed) ↦
          let same = request_withdraw-error_unchanged user req env w failed in
          Served-same b w w' (ap (λ (db : Db). db.credits) same)
            (rw (ap (λ (db : Db). db.transactions) same) s.sound.incoming)
            (request_numbers user req env w) s
    ]

statements_numbers :
    (cs : List Credit) (env : Env) (w : World) → (statements cs env w).1.next_id ≡ w.next_id
unfolding statements statement query pure ◌>>=◌
statements_numbers [] env w = refl
statements_numbers (c ∷ cs) env w =
    ground (arith, statements_numbers cs env (record w { tick = w.tick + 1 }))

write_numbers :
    (x : Withdraw) (cs : List Credit) (reason : Text) (env : Env) (w : World)
    → (write_rejection x cs reason env w).1.next_id ≡ w.next_id
unfolding write_rejection statement query commit pure ◌>>=◌
write_numbers x cs reason env w =
    ground (arith, statements_numbers cs env (record w { tick = w.tick + 1 }))

reject_numbers :
    (id : ℕ) (reason : Text) (env : Env) (w : World)
    → w.next_id ≤ (reject_withdraw id reason env w).1.next_id
unfolding reject_withdraw statement guard if_no_rows query_one query ◌>>=◌
reject_numbers id reason env w = elim (Option-cases (withdraw_by_id id w.db)) [
  | inl missing ↦ ground arith
  | inr (x, found) ↦ ground (
    arith,
    write_numbers x (select (is_frozen_for id) w.db.credits) reason env
        (record w { tick = w.tick + 1 + 1 + 1 }),
  )
]

released :
    (id : ℕ) (w w' : World)
    → w'.db.credits ≡ fail_credits (select (is_frozen_for id) w.db.credits) w.db.credits
    → IsSound w
    → Entry (book w.db) (book w'.db)
unfolding book
released id w w' e s =
    given (λ u c t. pos 0 -ℤ held id u c t w.db.credits)
      (λ u c t. omega (int_laws, held_negative id u c t w.next_id w.db.credits s.booked))
      (λ u c t. rw (← available-fail_credits id u c t w.db w'.db s.distinct e) (omega int_laws))

pub reject_withdraw-Served :
    (id : ℕ) (reason : Text) (env : Env) (w : World) (b : Book)
    → Served b w
    → Served b (reject_withdraw id reason env w).1
reject_withdraw-Served id reason env w b s =
    let w' = (reject_withdraw id reason env w).1 in
    elim (Result-cases (reject_withdraw id reason env w).0) [
      | inl (x, done) ↦
          let r = reject_withdraw-Rejected id reason env w done in
          let credits : w'.db.credits
              ≡ fail_credits (select (is_frozen_for id) w.db.credits) w.db.credits =
            ap (λ (db : Db). db.credits) r.written in
          record {
            sound =
                IsSound-fail_credits id w w' credits (ap (λ (db : Db). db.transactions) r.written)
                  (reject_numbers id reason env w) s.sound;
            entries = then_entry s.entries (released id w w' credits s.sound);
          }
      | inr (e, failed) ↦
          let (same, _) = reject_withdraw-error_unchanged id reason env w failed in
          Served-same b w w' (ap (λ (db : Db). db.credits) same)
            (rw (ap (λ (db : Db). db.transactions) same) s.sound.incoming)
            (reject_numbers id reason env w) s
    ]
