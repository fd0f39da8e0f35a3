-- ===== src/Api/Transfers/Pending/Groups.antt =====
-- internal/api/handlers/wallet/get_pending_deposits.go: the groups hold what they should.
use go_wallet.Prelude.{ℕ, ℤ, Text, Option, List, text_eq, sum_where, count_where}
use go_wallet.Store.{Transaction}
use go_wallet.World.{World}
use go_wallet.Api.Transfers.{or_zero}
use go_wallet.Api.Transfers.Pending.{PendingDepositItem}

-- The amount that the groups have under a symbol, and how many groups have it.
abbrev pub amount_under : Text → List PendingDepositItem → ℤ
amount_under symbol gs =
    sum_where (λ (g : PendingDepositItem). text_eq g.token_symbol symbol) (λ g. g.pending_amount) gs

abbrev pub groups_under : Text → List PendingDepositItem → ℕ
groups_under symbol gs = count_where (λ (g : PendingDepositItem). text_eq g.token_symbol symbol) gs

-- The amount that was read, or nothing.
abbrev pub amount_read : (ℤ → Option ℤ) → Transaction → ℤ
amount_read set_string tx = or_zero (set_string tx.amount)
