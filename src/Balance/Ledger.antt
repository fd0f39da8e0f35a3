-- ===== src/Balance/Ledger.antt =====
-- The available balance (balance/service.go, `GetAvailableBalance`) under changes of `credits`.
use go_wallet.Prelude.{ℕ, ◌+ℤ◌, ◌≡◌, true, insert}
use go_wallet.Prelude.Rows.Sums.{sum_where-insert}
use go_wallet.Store.{Credit, Db}
use go_wallet.Balance.{available, counts_as_available}

-- A new credit that counts moves the balance by its amount.
pub available-insert :
    (user chain token : ℕ) (c : Credit) (db db' : Db)
    → db'.credits ≡ insert c db.credits
    → counts_as_available user chain token c ≡ true
    → available user chain token db' ≡ available user chain token db +ℤ c.amount
unfolding available
available-insert user chain token c db db' e h = rw (e, sum_where-insert, h)
