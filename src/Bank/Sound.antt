-- ===== src/Bank/Sound.antt =====
-- What the tables keep, so that the services (withdraw/service.go and deposit/service.go, below
-- internal/wallet) keep the account book of `Bank`.
use go_wallet.Prelude.{
  ℕ, pos, ◌≤ℤ◌, ◌≤◌, ◌<◌, ◌≢◌, Bool, true, ◌&&◌, ◌≡◌, List, [], ◌∷◌, insert, select, sum_where,
  int_laws, Bool-cases, inl, inr, arith,
}
use go_wallet.Store.{
  Credit, CreditStatus, Transaction, Db, credit_status_eq, is_withdraw_ref, is_deposit_tx,
}
use go_wallet.World.{World}
use go_wallet.Balance.{available, counts_as_available}
use go_wallet.Withdraw.Review.{fail_credits, is_frozen_for}
use go_wallet.Withdraw.Review.Refund.{
  IsFresh, HasDistinctIds, held, fail_where, fail_credits-eq-fail_where,
}
use go_wallet.Bank.{Book}

-- A frozen credit of a withdrawal takes from the balance.
abbrev pub IsDebit : Credit → Type 0
IsDebit c =
    is_withdraw_ref c.reference_type && credit_status_eq c.status CreditStatus.frozen ≡ true
    → c.amount ≤ℤ pos 0

-- The credits were numbered below `n`, and the frozen ones are debits.
abbrev pub AreBooked : ℕ → List Credit → Type 0
AreBooked n [] = Unit
AreBooked n (c ∷ cs) = (c.id < n) × IsDebit c × AreBooked n cs

abbrev pub IsIncoming : Transaction → Type 0
IsIncoming t = is_deposit_tx t.type ≡ true → pos 0 ≤ℤ t.amount

-- What the deposits of a list bring in is not negative.
abbrev pub AreIncoming : List Transaction → Type 0
AreIncoming [] = Unit
AreIncoming (t ∷ ts) = IsIncoming t × AreIncoming ts

pub record IsSound (w : World) : Type 0 where
  pub distinct : HasDistinctIds w.db.credits
  pub booked : AreBooked w.next_id w.db.credits
  pub incoming : AreIncoming w.db.transactions

unfoldable pub book : Db → Book
book db user chain token = available user chain token db

pub AreBooked-later : (m n : ℕ) (cs : List Credit) → m ≤ n → AreBooked m cs → AreBooked n cs
AreBooked-later m n [] h b = tt
AreBooked-later m n (c ∷ cs) h (below, debit, rest) =
    (omega arith, debit, AreBooked-later m n cs h rest)

-- A step that leaves the credits alone and adds no negative deposit keeps the tables sound.
pub IsSound-same :
    (w w' : World)
    → w'.db.credits ≡ w.db.credits
    → AreIncoming w'.db.transactions
    → w.next_id ≤ w'.next_id
    → IsSound w
    → IsSound w'
IsSound-same w w' e f h s = record {
  distinct = rw e s.distinct;
  booked = rw e (AreBooked-later w.next_id w'.next_id w.db.credits h s.booked);
  incoming = f;
}

IsFresh-insert :
    (n : ℕ) (c : Credit) (cs : List Credit) → IsFresh n cs → c.id ≢ n → IsFresh n (insert c cs)
unfolding insert
IsFresh-insert n c [] h k = (k, tt)
IsFresh-insert n c (d ∷ cs) h k = (h.0, IsFresh-insert n c cs h.1 k)

distinct-insert :
    (n : ℕ) (c : Credit) (cs : List Credit)
    → n ≤ c.id
    → AreBooked n cs
    → HasDistinctIds cs
    → HasDistinctIds (insert c cs)
unfolding insert
distinct-insert n c [] h b k = (tt, tt)
distinct-insert n c (d ∷ cs) h (below, debit, rest) (fresh, k) =
    (IsFresh-insert d.id c cs fresh (λ e. omega arith), distinct-insert n c cs h rest k)

booked-insert :
    (n : ℕ) (c : Credit) (cs : List Credit)
    → c.id < n
    → IsDebit c
    → AreBooked n cs
    → AreBooked n (insert c cs)
unfolding insert
booked-insert n c [] h d b = (h, d, tt)
booked-insert n c (x ∷ cs) h d (below, debit, rest) = (below, debit, booked-insert n c cs h d rest)

-- A new credit with a number not yet given out.
pub IsSound-insert :
    (c : Credit) (w w' : World)
    → w'.db.credits ≡ insert c w.db.credits
    → w'.db.transactions ≡ w.db.transactions
    → w.next_id ≤ c.id
    → c.id < w'.next_id
    → IsDebit c
    → IsSound w
    → IsSound w'
IsSound-insert c w w' e f low high debit s = record {
  distinct = rw e (distinct-insert w.next_id c w.db.credits low s.booked s.distinct);
  booked = rw e (
      booked-insert w'.next_id c w.db.credits high debit
        (AreBooked-later w.next_id w'.next_id w.db.credits (omega arith) s.booked));
  incoming = rw f s.incoming;
}

module _ (p : Credit → Bool) where
  IsFresh-fail_where : (n : ℕ) (cs : List Credit) → IsFresh n cs → IsFresh n (fail_where p cs)
  unfolding fail_where
  IsFresh-fail_where n [] h = tt
  IsFresh-fail_where n (c ∷ cs) (h, k) = elim (Bool-cases (p c)) [
    | inl e ↦ rw e (h, IsFresh-fail_where n cs k)
    | inr e ↦ rw e (h, IsFresh-fail_where n cs k)
  ]

  distinct-fail_where : (cs : List Credit) → HasDistinctIds cs → HasDistinctIds (fail_where p cs)
  unfolding fail_where
  distinct-fail_where [] h = tt
  distinct-fail_where (c ∷ cs) (h, k) = elim (Bool-cases (p c)) [
    | inl e ↦ rw e (IsFresh-fail_where c.id cs h, distinct-fail_where cs k)
    | inr e ↦ rw e (IsFresh-fail_where c.id cs h, distinct-fail_where cs k)
  ]

  booked-fail_where : (n : ℕ) (cs : List Credit) → AreBooked n cs → AreBooked n (fail_where p cs)
  unfolding fail_where
  booked-fail_where n [] h = tt
  booked-fail_where n (c ∷ cs) (below, debit, rest) = elim (Bool-cases (p c)) [
    | inl e ↦ rw e (below, (λ f. absurd (ground arith)), booked-fail_where n cs rest)
    | inr e ↦ rw e (below, debit, booked-fail_where n cs rest)
  ]

-- The frozen credits written back as failed.
pub IsSound-fail_credits :
    (id : ℕ) (w w' : World)
    → w'.db.credits ≡ fail_credits (select (is_frozen_for id) w.db.credits) w.db.credits
    → w'.db.transactions ≡ w.db.transactions
    → w.next_id ≤ w'.next_id
    → IsSound w
    → IsSound w'
IsSound-fail_credits id w w' e f h s =
    let rows = fail_credits-eq-fail_where (is_frozen_for id) w.db.credits s.distinct in
    record {
      distinct = rw (e, rows) (distinct-fail_where (is_frozen_for id) w.db.credits s.distinct);
      booked =
          rw (e, rows)
            (booked-fail_where (is_frozen_for id) w'.next_id w.db.credits
              (AreBooked-later w.next_id w'.next_id w.db.credits h s.booked));
      incoming = rw f s.incoming;
    }

-- What frozen credits hold is not more than nothing.
pub held_negative :
    (id user chain token n : ℕ) (cs : List Credit)
    → AreBooked n cs
    → held id user chain token cs ≤ℤ pos 0
unfolding sum_where
held_negative id user chain token n [] b = omega arith
held_negative id user chain token n (c ∷ cs) (below, debit, rest) =
    elim (Bool-cases (is_frozen_for id c && counts_as_available user chain token c)) [
      | inl e ↦
          let out : c.amount ≤ℤ pos 0 = debit (ground arith) in
          rw e (omega (int_laws, held_negative id user chain token n cs rest))
      | inr e ↦ rw e (held_negative id user chain token n cs rest)
    ]
