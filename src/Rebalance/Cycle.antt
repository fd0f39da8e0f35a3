-- ===== src/Rebalance/Cycle.antt =====
-- internal/wallet/rebalance/service.go, `RebalanceForChain`: all that one cycle sends and writes.
use go_wallet.Prelude.{ℕ, ◌≤◌, ◌<◌, ◌≡◌}
use go_wallet.Prelude.Rows.Pages.{In}
use go_wallet.Store.{Wallet, WalletType, Db}
use go_wallet.World.{Env, World, SignRequest}
use go_wallet.Rebalance.{rebalance_min_balance}
use go_wallet.Rebalance.Moves.{IsMove, Fine}

-- A wallet of the table that is a hot wallet of the chain.
abbrev pub IsHotOf : ℕ → Db → Wallet → Type 0
IsHotOf chain old wallet =
    In wallet old.wallets × (wallet.chain_id ≡ chain) × (wallet.wallet_type ≡ WalletType.hot)

-- A transfer that a rebalancing of a chain may send: from one of its hot wallets to one of them,
-- more than nothing, and at most 3 ETH.
abbrev pub Rebalances : Env → ℕ → Db → SignRequest → Type 0
Rebalances env chain old r =
    (source : Wallet) × IsHotOf chain old source
    × (target : Wallet) × IsHotOf chain old target
    × (amount : ℕ) × IsMove env source target amount r
    × (0 < amount)
    × (amount ≤ rebalance_min_balance)

module _ (env : Env) (chain : ℕ) (start : World) where
  abbrev Fair : World → Type 0
  Fair = Fine (Rebalances env chain start.db) start

  abbrev Hot : Wallet → Type 0
  Hot = IsHotOf chain start.db
