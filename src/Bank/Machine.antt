-- ===== src/Bank/Machine.antt =====
-- The services that write credits (withdraw/service.go and deposit/service.go, below
-- internal/wallet), called in any order by anyone, against the account book of `Bank`.
use go_wallet.Prelude.{ℕ, ◌≤◌, ◌≡◌, Text}
use go_wallet.World.{Env, World}
use go_wallet.Withdraw.Request.{Request, request_withdraw}
use go_wallet.Withdraw.Review.{approve_withdraw, reject_withdraw}
use go_wallet.Withdraw.Status.{update_withdraw_status}
use go_wallet.Deposit.Credits.{process_finalized_deposits}
use go_wallet.Bank.{Book, Entries, start, IsCovered, Entries-IsCovered}
use go_wallet.Bank.Sound.{IsSound, book}
use go_wallet.Bank.Service.{Served, Served-same, request_withdraw-Served, reject_withdraw-Served}
use go_wallet.Bank.Deposits.{process_finalized_deposits-Served}
use go_wallet.Bank.Reviews.{approve_withdraw-Served, update_withdraw_status-Served}

-- One call, with any answers of the database and the node, or work that touches neither a credit
-- nor a transaction.
pub data Step (w : World) : World → Type 0 where
  asked : (user : ℕ) (req : Request) (env : Env) → Step w (request_withdraw user req env w).1
  approved : (id : ℕ) (env : Env) → Step w (approve_withdraw id env w).1
  rejected : (id : ℕ) (reason : Text) (env : Env) → Step w (reject_withdraw id reason env w).1
  credited : (chain : ℕ) (env : Env) → Step w (process_finalized_deposits chain env w).1
  followed : (chain latest : ℕ) (env : Env) → Step w (update_withdraw_status chain latest env w).1
  elsewhere :
      {w' : World}
      → w'.db.credits ≡ w.db.credits
      → w'.db.transactions ≡ w.db.transactions
      → w.next_id ≤ w'.next_id
      → Step w w'

-- The calls so far, the last one outermost.
pub data Run (w : World) : World → Type 0 where
  nothing_yet : Run w w
  and_then : {w' w'' : World} → Run w w' → Step w' w'' → Run w w''

Step-Served : {w w' : World} (b : Book) → Step w w' → Served b w → Served b w'
Step-Served {w} b (asked user req env) s = request_withdraw-Served user req env w b s
Step-Served {w} b (approved id env) s = approve_withdraw-Served id env w b s
Step-Served {w} b (rejected id reason env) s = reject_withdraw-Served id reason env w b s
Step-Served {w} b (credited chain env) s = process_finalized_deposits-Served chain env w b s
Step-Served {w} b (followed chain latest env) s =
    update_withdraw_status-Served chain latest env w b s
Step-Served {w} {w'} b (elsewhere e f h) s = Served-same b w w' e (rw f s.sound.incoming) h s

Run-Served : {w w' : World} (b : Book) → Run w w' → Served b w → Served b w'
Run-Served b nothing_yet s = s
Run-Served b (and_then before step) s = Step-Served b step (Run-Served b before s)

-- From sound tables, any sequence of requests, approvals, rejections, crediting of deposits and
-- follow-ups of withdrawals, whatever fails in each, does to the available balances only what the
-- account book allows: it takes a positive amount from one account, where the account holds it,
-- and otherwise gives amounts that are not negative. The tables stay sound.
pub Run-Entries :
    {w w' : World} → Run w w' → IsSound w → IsSound w' × Entries (book w.db) (book w'.db)
Run-Entries {w} run sound =
    let served = Run-Served (book w.db) run (record { sound = sound; entries = start }) in
    (served.sound, served.entries)

-- No such sequence overdraws an account: where no available balance is below 0 at its start, none
-- is at its end.
pub Run-IsCovered :
    {w w' : World} → Run w w' → IsSound w → IsCovered (book w.db) → IsCovered (book w'.db)
Run-IsCovered run sound covered = Entries-IsCovered (Run-Entries run sound).1 covered
