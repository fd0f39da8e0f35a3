-- ===== src/Rebalance/Held.antt =====
-- internal/wallet/rebalance/service.go, the loops of `RebalanceForChain`: whose balances they hold.
use go_wallet.Prelude.{ℕ, ◌-◌, ◌&&◌, List, [], ◌∷◌, ltb, ◌==◌, ◌≡◌, sym, ◌∙◌}
use go_wallet.Prelude.Rows.Pages.{All}
use go_wallet.Store.{Wallet}
use go_wallet.World.{Env, World, Action, Result, ok, err, ask, try_action, ◌>>=◌, rpc_failure}
use go_wallet.World.Yields.{Yields, bind-Yields, pure-Yields, try-Yields, if_Yields, ok_inj}
use mathlib.Core.Path.{subst}
use go_wallet.Rebalance.{
  WalletBalance, Round, rebalance_max_balance, transfer_between_hot_wallets, share, give, take,
  then_donors, after_transfer, ask_donors, load_balances,
}

-- What holds of the wallets holds of the wallets in the lists of balances that the loops pass on.
module _ (env : Env) (H : Wallet → Type 0) where
  abbrev pub AllOf : List WalletBalance → Type 0
  AllOf bs = All (λ (b : WalletBalance). H b.wallet) bs

  abbrev pub Kept : WalletBalance × List WalletBalance → Type 0
  Kept r = AllOf r.1

  then_donors-Kept :
      (donor : WalletBalance) (rest : Round)
      → H donor.wallet
      → Yields env Kept rest
      → Yields env Kept (then_donors donor rest)
  unfolding then_donors
  then_donors-Kept donor rest h y =
      bind-Yields env Kept Kept rest _ y λ one k. pure-Yields env Kept (one.0, donor ∷ one.1) (h, k)

  after_transfer-Kept :
      (receiver : WalletBalance) (needed : ℕ) (donor : WalletBalance) (donors : List WalletBalance)
      (amount : ℕ) (skip next : Round)
      → AllOf (donor ∷ donors)
      → Yields env Kept skip
      → Yields env Kept next
      → (answer : Result (Unit {0}))
      → Yields env Kept (after_transfer receiver needed donor donors amount skip next answer)
  unfolding after_transfer
  after_transfer-Kept receiver needed donor donors amount skip next h on_error on_next (err e) =
      on_error
  after_transfer-Kept receiver needed donor donors amount skip next h on_error on_next (ok _) =
      if_Yields env Kept
        (ltb rebalance_max_balance (donor.balance - amount) && needed - amount == 0) _ next
        (pure-Yields env Kept (take receiver amount, give donor amount ∷ donors) h) on_next

  pub ask_donors-Kept :
      (receiver : WalletBalance) (needed : ℕ) (donors : List WalletBalance)
      → AllOf donors
      → Yields env Kept (ask_donors receiver needed donors)
  unfolding ask_donors
  ask_donors-Kept receiver needed [] h = pure-Yields env Kept (receiver, []) tt
  ask_donors-Kept receiver needed (donor ∷ donors) (h, hs) =
      let amount = share donor needed in
      let skip = then_donors donor (ask_donors receiver needed donors) in
      let next =
        then_donors (give donor amount)
          (ask_donors (take receiver amount) (needed - amount) donors) in
      let skips =
        then_donors-Kept donor (ask_donors receiver needed donors) h
          (ask_donors-Kept receiver needed donors hs) in
      let nexts =
        then_donors-Kept (give donor amount)
          (ask_donors (take receiver amount) (needed - amount) donors) h
          (ask_donors-Kept (take receiver amount) (needed - amount) donors hs) in
      let transfer =
        try_action (transfer_between_hot_wallets donor.wallet receiver.wallet amount) in
      let after = after_transfer receiver needed donor donors amount skip next in
      if_Yields env Kept (amount == 0) skip (transfer >>= after) skips (
        bind-Yields env (λ _. Unit {0}) Kept transfer after (try-Yields env _)
          λ answer _.
            after_transfer-Kept receiver needed donor donors amount skip next (h, hs) skips nexts
              answer)

  pub load_balances-Kept :
      (wallets : List Wallet) → All H wallets → Yields env AllOf (load_balances wallets)
  unfolding load_balances
  load_balances-Kept [] h = pure-Yields env AllOf [] tt
  load_balances-Kept (x ∷ xs) (h, hs) =
      bind-Yields env (λ _. Unit {0}) AllOf (try_action (ask _ rpc_failure)) _ (try-Yields env _)
        λ answer _.
          bind-Yields env AllOf AllOf (load_balances xs) _ (load_balances-Kept xs hs)
            λ rest k. pure-Yields env AllOf _ (listed x answer rest h k)
    where
      listed :
          (x : Wallet) (answer : Result ℕ) (rest : List WalletBalance)
          → H x
          → AllOf rest
          → AllOf (elim answer [
            | ok balance ↦ record { wallet = x; balance = balance } ∷ rest
            | err e ↦ rest
          ])
      listed x (ok balance) rest h k = (h, k)
      listed x (err e) rest h k = k

  -- The value of an action that always succeeds.
  pub Yields-value :
      {A : Type 0} (P : A → Type 0) (m : Action A) (w : World) {a : A}
      → Yields env P m
      → (m env w).0 ≡ ok a
      → P a
  Yields-value P m w y e = let (b, f, p) = y w in subst P (ok_inj (sym f ∙ e)) p
