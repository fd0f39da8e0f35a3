-- ===== src/Examples/Books.antt =====
-- The theorems on the account book, at a sequence of calls and at two requests at once.
use go_wallet.Prelude.{pos, ◌+ℤ◌, ◌-ℤ◌, ◌≤ℤ◌, ◌≡◌, refl, [], any, sum_where, first, insert, arith}
use go_wallet.World.{
  World, pure, guard, query, query_one, if_no_rows, statement, commit, fresh_id, ◌>>=◌,
}
use go_wallet.Balance.{available}
use go_wallet.Deposit.Credits.{process_finalized_deposits}
use go_wallet.Withdraw.Request.{Request, request_withdraw, check_request, book_request}
use go_wallet.Withdraw.Request.Race.{racing_requests-overdraw}
use go_wallet.Withdraw.Review.{reject_withdraw}
use go_wallet.Bank.{Entries, IsCovered}
use go_wallet.Bank.Sound.{IsSound, book}
use go_wallet.Bank.Machine.{
  Run, nothing_yet, and_then, asked, rejected, credited, Run-Entries, Run-IsCovered,
}
use go_wallet.Examples.{answering, failing_at, bank, order, native}

-- A request, its rejection, a second one during which the database fails, and the crediting.
abbrev w₁ : World
w₁ = (request_withdraw 1 order answering bank).1

abbrev w₂ : World
w₂ = (reject_withdraw 100 [] answering w₁).1

abbrev w₃ : World
w₃ = (request_withdraw 1 order (failing_at w₂.tick) w₂).1

abbrev w₄ : World
w₄ = (process_finalized_deposits 1 answering w₃).1

calls : Run bank w₄
calls =
    and_then
      (and_then
        (and_then (and_then nothing_yet (asked 1 order answering)) (rejected 100 [] answering))
        (asked 1 order (failing_at w₂.tick)))
      (credited 1 answering)

bank-IsSound : IsSound bank
bank-IsSound = record {
  distinct = (tt, tt);
  booked = (omega arith, (λ f. absurd (ground arith)), tt);
  incoming = ((λ _. omega arith), tt);
}

bank-IsCovered : IsCovered (book bank.db)
unfolding book available sum_where ◌+ℤ◌
bank-IsCovered u c t = ground arith

Run-Entries_example : IsSound w₄ × Entries (book bank.db) (book w₄.db)
Run-Entries_example = Run-Entries calls bank-IsSound

Run-IsCovered_example : IsCovered (book w₄.db)
Run-IsCovered_example = Run-IsCovered calls bank-IsSound bank-IsCovered

abbrev larger : Request
larger = record order { amount = pos 80 }

abbrev tested : World
tested = (check_request 1 larger answering (check_request 1 order answering bank).1).1

abbrev booked_once : World
booked_once = (book_request 1 order native answering tested).1

-- 30 and 80 out of 100.
racing_requests-overdraw_example :
    let after = available 1 1 1 (book_request 1 larger native answering booked_once).1.db in
    (after ≡ available 1 1 1 bank.db -ℤ (pos 30 +ℤ pos 80)) × (after +ℤ pos 1 ≤ℤ pos 0)
unfolding check_request book_request guard pure query query_one if_no_rows statement commit fresh_id
    ◌>>=◌ available first any sum_where insert ◌+ℤ◌
racing_requests-overdraw_example =
    racing_requests-overdraw 1 order larger native answering answering answering answering bank refl
      refl refl refl (omega arith)
