-- ===== src/Rebalance/Books.antt =====
-- internal/wallet/rebalance/service.go, the loops of `RebalanceForChain`: what they keep in the
-- balances, whichever transfers fail.
use go_wallet.Prelude.{ℕ, ◌+◌, ◌-◌, ◌≤◌, ◌<◌, ◌≡◌, refl, arith, List, [], ◌∷◌, ◌==◌, ltb, ◌&&◌}
use go_wallet.World.{Env, World, Result, ok, err, pure, try_action, ◌>>=◌}
use go_wallet.World.Yields.{Yields, bind-Yields, pure-Yields, try-Yields, if_Yields}
use go_wallet.Rebalance.{
  WalletBalance, rebalance_min_balance, rebalance_max_balance, share, give, take, ask_donors,
  fund_receivers, transfer_between_hot_wallets, after_transfer, then_donors, Round,
}

abbrev pub total : List WalletBalance → ℕ
total [] = 0
total (x ∷ xs) = x.balance + total xs

-- Every balance is above `least`.
abbrev pub AllAbove : ℕ → List WalletBalance → Type 0
AllAbove least [] = Unit {0}
AllAbove least (x ∷ xs) = (least < x.balance) × AllAbove least xs

-- No balance is above `most`.
abbrev pub AllAtMost : ℕ → List WalletBalance → Type 0
AllAtMost most [] = Unit {0}
AllAtMost most (x ∷ xs) = (x.balance ≤ most) × AllAtMost most xs

-- A share is no more than what is needed, and leaves the donor above the maximum.
share-bounds :
    (donor : WalletBalance) (needed : ℕ)
    → rebalance_max_balance < donor.balance
    → (share donor needed ≤ needed) × (rebalance_max_balance + share donor needed < donor.balance)
unfolding share
share-bounds donor needed h = ground arith

-- What the inner loop makes of a receiver and the donors.
pub record Funded (receiver : WalletBalance) (needed : ℕ) (donors : List WalletBalance)
    (r : WalletBalance × List WalletBalance) : Type 0 where
  pub at_most : r.0.balance ≤ receiver.balance + needed
  pub above : AllAbove rebalance_max_balance r.1
  pub kept : r.0.balance + total r.1 ≡ receiver.balance + total donors

then_donors_funds :
    (env : Env) (receiver before : WalletBalance) (needed needed' : ℕ)
    (donor donor' : WalletBalance) (donors : List WalletBalance) (rest : Round)
    → rebalance_max_balance < donor'.balance
    → before.balance + needed' ≤ receiver.balance + needed
    → before.balance + donor'.balance ≡ receiver.balance + donor.balance
    → Yields env (Funded before needed' donors) rest
    → Yields env (Funded receiver needed (donor ∷ donors)) (then_donors donor' rest)
unfolding then_donors
then_donors_funds env receiver before needed needed' donor donor' donors rest h le e y =
    bind-Yields env (Funded before needed' donors) (Funded receiver needed (donor ∷ donors)) rest _
      y
      λ one f.
        pure-Yields env (Funded receiver needed (donor ∷ donors)) (one.0, donor' ∷ one.1)
          (record {
            at_most = omega (arith, f.at_most);
            above = (h, f.above);
            kept = omega (arith, f.kept);
          })

after_transfer_funds :
    (env : Env) (receiver : WalletBalance) (needed : ℕ) (donor : WalletBalance)
    (donors : List WalletBalance) (skip next : Round)
    → let amount = share donor needed in
      AllAbove rebalance_max_balance (donor ∷ donors)
      → Yields env (Funded receiver needed (donor ∷ donors)) skip
      → Yields env (Funded receiver needed (donor ∷ donors)) next
      → (answer : Result (Unit {0}))
      → Yields env
          (Funded receiver needed (donor ∷ donors))
          (after_transfer receiver needed donor donors amount skip next answer)
unfolding after_transfer
after_transfer_funds env receiver needed donor donors skip next h on_error on_next (err e) =
    on_error
after_transfer_funds env receiver needed donor donors skip next (h, hs) on_error on_next (ok _) =
    let (least, left) = share-bounds donor needed h in
    let amount = share donor needed in
    let P = Funded receiver needed (donor ∷ donors) in
    let last : WalletBalance × List WalletBalance =
      (take receiver amount, give donor amount ∷ donors) in
    if_Yields env P (ltb rebalance_max_balance (donor.balance - amount) && needed - amount == 0)
      (pure last) next
      (pure-Yields env P last (record {
        at_most = omega (arith, least);
        above = (omega (arith, left), hs);
        kept = omega (arith, left);
      }))
      on_next

pub ask_donors_funds :
    (env : Env) (receiver : WalletBalance) (needed : ℕ) (donors : List WalletBalance)
    → AllAbove rebalance_max_balance donors
    → Yields env (Funded receiver needed donors) (ask_donors receiver needed donors)
unfolding ask_donors
ask_donors_funds env receiver needed [] h =
    pure-Yields env (Funded receiver needed []) (receiver, [])
      (record { at_most = omega arith; above = tt; kept = refl })
ask_donors_funds env receiver needed (donor ∷ donors) (h, hs) =
    let amount = share donor needed in
    let (least, left) = share-bounds donor needed h in
    let P = Funded receiver needed (donor ∷ donors) in
    let skip = then_donors donor (ask_donors receiver needed donors) in
    let next =
      then_donors (give donor amount)
        (ask_donors (take receiver amount) (needed - amount) donors) in
    let skips =
      then_donors_funds env receiver receiver needed needed donor donor donors
        (ask_donors receiver needed donors) h (omega arith) refl
        (ask_donors_funds env receiver needed donors hs) in
    let nexts =
      then_donors_funds env receiver (take receiver amount) needed (needed - amount) donor
        (give donor amount) donors (ask_donors (take receiver amount) (needed - amount) donors)
        (omega (arith, left)) (omega (arith, least)) (omega (arith, left))
        (ask_donors_funds env (take receiver amount) (needed - amount) donors hs) in
    let transfer = try_action (transfer_between_hot_wallets donor.wallet receiver.wallet amount) in
    let after = after_transfer receiver needed donor donors amount skip next in
    if_Yields env P (amount == 0) skip (transfer >>= after) skips (
      bind-Yields env (λ _. Unit {0}) P transfer after (try-Yields env _)
        λ answer _.
          after_transfer_funds env receiver needed donor donors skip next (h, hs) skips nexts
            answer)

-- What the outer loop makes of the receivers and the donors.
pub record AllFunded (receivers donors : List WalletBalance)
    (r : List WalletBalance × List WalletBalance) : Type 0 where
  pub at_most : AllAtMost rebalance_min_balance r.0
  pub above : AllAbove rebalance_max_balance r.1
  pub kept : total r.0 + total r.1 ≡ total receivers + total donors

fund_receivers_funds :
    (env : Env) (receivers donors : List WalletBalance)
    → AllAtMost rebalance_min_balance receivers
    → AllAbove rebalance_max_balance donors
    → Yields env (AllFunded receivers donors) (fund_receivers receivers donors)
unfolding fund_receivers
fund_receivers_funds env [] donors hr hd =
    pure-Yields env (AllFunded [] donors) ([], donors)
      (record { at_most = tt; above = hd; kept = refl })
fund_receivers_funds env (receiver ∷ receivers) donors (r, rs) hd =
    bind-Yields env (Funded receiver (rebalance_min_balance - receiver.balance) donors)
      (AllFunded (receiver ∷ receivers) donors) _ _ (ask_donors_funds env receiver _ donors hd)
      λ one f.
        bind-Yields env (AllFunded receivers one.1) (AllFunded (receiver ∷ receivers) donors) _ _
          (fund_receivers_funds env receivers one.1 rs f.above)
          λ rest g.
            pure-Yields env (AllFunded (receiver ∷ receivers) donors) (one.0 ∷ rest.0, rest.1)
              (record {
                at_most = (omega (arith, f.at_most), g.at_most);
                above = g.above;
                kept = omega (arith, f.kept, g.kept);
              })

-- Whichever transfers fail, the loops over receivers of at most 3 ETH and donors of more than 8 ETH
-- end without an error, with balances in which no receiver is above 3 ETH, every donor is above
-- 8 ETH, and the sum over all wallets is what it was.
pub fund_receivers-AllFunded :
    (env : Env) (receivers donors : List WalletBalance) (w : World)
    → AllAtMost rebalance_min_balance receivers
    → AllAbove rebalance_max_balance donors
    → (r : List WalletBalance × List WalletBalance) × ((fund_receivers receivers donors env w).0
        ≡ ok r)
      × AllFunded receivers donors r
fund_receivers-AllFunded env receivers donors w hr hd =
    fund_receivers_funds env receivers donors hr hd w
