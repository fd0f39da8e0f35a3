-- ===== src/Api/Privileged/Denied.antt =====
-- internal/api/handlers/wallet: which requests are kept for administrators.
use go_wallet.Prelude.{ℕ, ℤ, Text, false, ◌≡◌, Option, some, arith}
use go_wallet.Store.{User}
use go_wallet.World.{Env, World, ok, err, pure, guard, or_raise, try_action, ◌>>=◌, forbidden}
use go_wallet.Rebalance.{rebalance}
use go_wallet.Api.{is_admin}
use go_wallet.Api.Withdrawals.{post_approve_withdraw, post_reject_withdraw}
use go_wallet.Api.Privileged.{
  HotWalletPayload, CollectPayload, RebalancePayload, rebalance_request, post_create_hot_wallet,
  post_collect, post_rebalance,
}

-- A user who is no administrator is refused, with nothing changed, when asking to approve or to
-- reject a withdrawal, to create a hot wallet or to collect a wallet. A transfer between hot wallets
-- is not kept for administrators: with an amount that can be read it runs for that user too, and the
-- answer is the same whether it fails or not.
pub non_admin-forbidden :
    (parse_float : Text → Option ℤ) (user : User) (id : Option ℕ) (reason : Text)
    (reason_body : Option Text) (hot : Option HotWalletPayload) (collect : Option CollectPayload)
    (move : RebalancePayload) (amount : ℤ) (env : Env) (w : World)
    → is_admin user.role ≡ false
    → parse_float move.amount ≡ some amount
    → (post_approve_withdraw (some user) id env w ≡ (err forbidden, w))
      × (post_reject_withdraw (some user) id reason reason_body env w ≡ (err forbidden, w))
      × (post_create_hot_wallet (some user) hot env w ≡ (err forbidden, w))
      × (post_collect (some user) collect env w ≡ (err forbidden, w))
      × (post_rebalance parse_float (some user) (some move) env w
          ≡ (ok move, (rebalance (rebalance_request move amount) env w).1))
unfolding post_approve_withdraw post_reject_withdraw post_create_hot_wallet post_collect
    post_rebalance or_raise guard try_action pure ◌>>=◌
non_admin-forbidden parse_float user id reason reason_body hot collect move amount env w other
      read =
    (ground arith, ground arith, ground arith, ground arith, ground arith)
