-- ===== src/Withdraw/Review/Refund.antt =====
-- internal/wallet/withdraw/service.go, `RejectWithdraw`: the frozen credits, and the balance that
-- counts them.
use go_wallet.Prelude.{
  ℕ, ℤ, ◌+ℤ◌, ◌==◌, ◌≡◌, ◌≢◌, refl, ap, inl, inr, Bool, true, false, ◌&&◌, if◌then◌else◌, List, [],
  ◌∷◌, select, modify, sum_where, arith, int_laws, Bool-cases,
}
use mathlib.Core.Path.{◌∙◌}
use go_wallet.Store.{Credit, Db}
use go_wallet.Balance.{available, counts_as_available}
use go_wallet.Withdraw.Review.{fail_credit, fail_credits, is_frozen_for}

-- No row has the number `n`.
abbrev pub IsFresh : ℕ → List Credit → Type 0
IsFresh n [] = Unit
IsFresh n (c ∷ cs) = (c.id ≢ n) × IsFresh n cs

-- The primary key of `credits`.
abbrev pub HasDistinctIds : List Credit → Type 0
HasDistinctIds [] = Unit
HasDistinctIds (c ∷ cs) = IsFresh c.id cs × HasDistinctIds cs

modify-IsFresh :
    (c d : Credit) (rows : List Credit)
    → IsFresh c.id rows
    → modify (λ (r : Credit). r.id == c.id) (λ _. d) rows ≡ rows
unfolding modify
modify-IsFresh c d [] h = refl
modify-IsFresh c d (r ∷ rows) h = ground (arith, modify-IsFresh c d rows h.1)

IsFresh-select :
    (n : ℕ) (p : Credit → Bool) (rows : List Credit) → IsFresh n rows → IsFresh n (select p rows)
unfolding select
IsFresh-select n p [] h = tt
IsFresh-select n p (r ∷ rows) h = ground (arith, IsFresh-select n p rows h.1)

fail_credits-cons :
    (cs : List Credit) (r : Credit) (rows : List Credit)
    → IsFresh r.id cs
    → fail_credits cs (r ∷ rows) ≡ r ∷ fail_credits cs rows
unfolding fail_credits modify
fail_credits-cons [] r rows h = refl
fail_credits-cons (c ∷ cs) r rows h =
    let other : (r.id == c.id) ≡ false = ground arith in
    rw other
      (fail_credits-cons cs r (modify (λ (r : Credit). r.id == c.id) (λ _. fail_credit c) rows) h.1)

fail_credits_head :
    (r : Credit) (cs rows : List Credit)
    → IsFresh r.id rows
    → fail_credits (r ∷ cs) (r ∷ rows) ≡ fail_credits cs (fail_credit r ∷ rows)
unfolding fail_credits modify
fail_credits_head r cs rows h =
    let self : (r.id == r.id) ≡ true = ground arith in
    rw (self, modify-IsFresh r (fail_credit r) rows h)

-- What the loop comes to: every row that it read is failed, the others are as they were.
unfoldable pub fail_where : (Credit → Bool) → List Credit → List Credit
fail_where p [] = []
fail_where p (r ∷ rows) = (if p r then fail_credit r else r) ∷ fail_where p rows

pub fail_credits-eq-fail_where :
    (p : Credit → Bool) (rows : List Credit)
    → HasDistinctIds rows
    → fail_credits (select p rows) rows ≡ fail_where p rows
unfolding fail_credits fail_where select
fail_credits-eq-fail_where p [] h = refl
fail_credits-eq-fail_where p (r ∷ rows) h = elim (Bool-cases (p r)) [
  | inl frozen ↦ rw frozen (
      fail_credits_head r (select p rows) rows h.0
      ∙ fail_credits-cons (select p rows) (fail_credit r) rows (IsFresh-select r.id p rows h.0)
      ∙ ap (λ (cs : List Credit). fail_credit r ∷ cs) (fail_credits-eq-fail_where p rows h.1))
  | inr other ↦ rw other (
      fail_credits-cons (select p rows) r rows (IsFresh-select r.id p rows h.0)
      ∙ ap (λ (cs : List Credit). r ∷ cs) (fail_credits-eq-fail_where p rows h.1))
]

-- What the user's frozen credits for the withdrawal hold, as far as they count.
abbrev pub held : ℕ → ℕ → ℕ → ℕ → List Credit → ℤ
held id user chain token rows =
    sum_where (λ c. is_frozen_for id c && counts_as_available user chain token c) (λ c. c.amount)
      rows

-- A failed credit does not count.
not_counted :
    (user chain token : ℕ) (r : Credit)
    → counts_as_available user chain token (fail_credit r) ≡ false
not_counted user chain token r = ground arith

module _ (p q : Credit → Bool) (drops : (r : Credit) → q (fail_credit r) ≡ false) where
  sum_where-fail_where :
      (rows : List Credit)
      → sum_where q (λ c. c.amount) (fail_where p rows)
          +ℤ sum_where (λ c. p c && q c) (λ c. c.amount) rows
        ≡ sum_where q (λ c. c.amount) rows
  unfolding sum_where fail_where
  sum_where-fail_where [] = grind int_laws
  sum_where-fail_where (r ∷ rows) = elim (Bool-cases (p r)) [
    | inl e ↦ elim (Bool-cases (q r)) [
      | inl t ↦ rw (e, drops r, t, ← sum_where-fail_where rows) (omega int_laws)
      | inr f ↦ rw (e, drops r, f, ← sum_where-fail_where rows)
    ]
    | inr e ↦ elim (Bool-cases (q r)) [
      | inl t ↦ rw (e, t, ← sum_where-fail_where rows) (omega int_laws)
      | inr f ↦ rw (e, f, ← sum_where-fail_where rows)
    ]
  ]

-- The available balance gets back what the frozen credits held.
pub available-fail_credits :
    (id user chain token : ℕ) (db db' : Db)
    → HasDistinctIds db.credits
    → db'.credits ≡ fail_credits (select (is_frozen_for id) db.credits) db.credits
    → available user chain token db' +ℤ held id user chain token db.credits
      ≡ available user chain token db
unfolding available
available-fail_credits id user chain token db db' distinct e =
    rw (e, fail_credits-eq-fail_where (is_frozen_for id) db.credits distinct)
      (sum_where-fail_where (is_frozen_for id) (counts_as_available user chain token)
        (not_counted user chain token) db.credits)

-- No frozen credit of the withdrawal is left.
select-fail_where :
    (id : ℕ) (rows : List Credit)
    → select (is_frozen_for id) (fail_where (is_frozen_for id) rows) ≡ []
unfolding select fail_where
select-fail_where id [] = refl
select-fail_where id (r ∷ rows) = ground (arith, select-fail_where id rows)

pub select-fail_credits :
    (id : ℕ) (rows : List Credit)
    → HasDistinctIds rows
    → select (is_frozen_for id) (fail_credits (select (is_frozen_for id) rows) rows) ≡ []
select-fail_credits id rows h =
    rw (fail_credits-eq-fail_where (is_frozen_for id) rows h) (select-fail_where id rows)
