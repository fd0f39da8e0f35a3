-- ===== src/World/Transfer/Receipts.antt =====
-- internal/wallet/collect/service.go and internal/wallet/rebalance/service.go, `waitForReceipt`:
-- the wait ends, and a receipt that the node has in time is found.
use go_wallet.Prelude.{
  ℕ, zero, suc, ◌+◌, ◌≤◌, ◌<◌, ◌≡◌, ◌⊎◌, inl, inr, ap, ◌∙◌, Bool-cases, refl, arith, Text, false,
  none, some, Option-cases,
}
use go_wallet.World.{Env, World, Receipt, ok, read, pure, raise, ◌>>=◌}
use go_wallet.World.Transfer.{wait_for_receipt, after_poll, poll_receipt}
use mathlib.Core.Path.{subst}

-- The state after one poll.
abbrev polled : World → World
polled w = record w { tick = w.tick + 1 }

found_step :
    (fuel : ℕ) (hash : Text) (env : Env) (w : World) (receipt : Receipt)
    → env.client_fails w.tick ≡ false
    → env.receipt w.tick hash ≡ some receipt
    → wait_for_receipt (suc fuel) hash env w ≡ (ok receipt, polled w)
unfolding wait_for_receipt after_poll poll_receipt read pure raise ◌>>=◌
found_step fuel hash env w receipt up there = ground (arith, up, there)

next_step :
    (fuel : ℕ) (hash : Text) (env : Env) (w : World)
    → env.client_fails w.tick ≡ false
    → env.receipt w.tick hash ≡ none
    → env.timed_out (w.tick + 1) ≡ false
    → wait_for_receipt (suc fuel) hash env w ≡ wait_for_receipt fuel hash env (polled w)
unfolding wait_for_receipt after_poll poll_receipt read pure raise ◌>>=◌
next_step fuel hash env w up none_yet in_time = ground (arith, up, none_yet, in_time)

-- A poll is the last one, or the wait goes on.
step_cases :
    (fuel : ℕ) (hash : Text) (env : Env) (w : World)
    → ((wait_for_receipt (suc fuel) hash env w).1 ≡ polled w)
      ⊎ (wait_for_receipt (suc fuel) hash env w ≡ wait_for_receipt fuel hash env (polled w))
unfolding wait_for_receipt after_poll poll_receipt read pure raise ◌>>=◌
step_cases fuel hash env w = elim (Bool-cases (env.client_fails w.tick)) [
  | inl down ↦ inl (ground (arith, down))
  | inr up ↦ elim (Option-cases (env.receipt w.tick hash)) [
    | inr (receipt, there) ↦ inl (ap (λ r. r.1) (found_step fuel hash env w receipt up there))
    | inl none_yet ↦ elim (Bool-cases (env.timed_out (w.tick + 1))) [
      | inl late ↦ inl (ground (arith, up, none_yet, late))
      | inr in_time ↦ inr (next_step fuel hash env w up none_yet in_time)
    ]
  ]
]

-- The wait makes a number of polls that is no larger than its fuel, takes a tick for each, and
-- writes and sends nothing.
pub wait_length :
    (fuel : ℕ) (hash : Text) (env : Env) (w : World)
    → let w' = (wait_for_receipt fuel hash env w).1 in
      (w.tick ≤ w'.tick) × (w'.tick ≤ w.tick + fuel) × (w'.db ≡ w.db) × (w'.sent ≡ w.sent)
unfolding wait_for_receipt raise
wait_length zero hash env w = (omega arith, omega arith, refl, refl)
wait_length (suc fuel) hash env w =
    let (a, b, c, d) = wait_length fuel hash env (polled w) in
    elim (step_cases fuel hash env w) [
      | inl e ↦ (
        omega (arith, ap (λ v. v.tick) e),
        omega (arith, ap (λ v. v.tick) e),
        ap (λ v. v.db) e,
        ap (λ v. v.sent) e,
      )
      | inr e ↦ (
        omega (arith, ap (λ r. r.1.tick) e, a),
        omega (arith, ap (λ r. r.1.tick) e, b),
        ap (λ r. r.1.db) e ∙ c,
        ap (λ r. r.1.sent) e ∙ d,
      )
    ]

-- If the polls before poll `n` are answered without the receipt and before the deadline, and poll
-- `n` finds it, then a wait with fuel for more than `n` polls returns it.
pub wait_found :
    (fuel n : ℕ) (hash : Text) (env : Env) (w : World) (receipt : Receipt)
    → n < fuel
    → ((k : ℕ) → k ≤ n → env.client_fails (w.tick + k) ≡ false)
    → ((k : ℕ) → k < n → env.receipt (w.tick + k) hash ≡ none)
    → ((k : ℕ) → k < n → env.timed_out (w.tick + 1 + k) ≡ false)
    → env.receipt (w.tick + n) hash ≡ some receipt
    → (wait_for_receipt fuel hash env w).0 ≡ ok receipt
wait_found zero n hash env w receipt lt up none_yet in_time there = absurd (omega arith)
wait_found (suc fuel) zero hash env w receipt lt up none_yet in_time there =
    ap (λ r. r.0)
      (found_step fuel hash env w receipt
        (subst (λ t. env.client_fails t ≡ false) (omega arith) (up 0 (omega arith)))
        (subst (λ t. env.receipt t hash ≡ some receipt) (omega arith) there))
wait_found (suc fuel) (suc n) hash env w receipt lt up none_yet in_time there =
    let first =
      next_step fuel hash env w
        (subst (λ t. env.client_fails t ≡ false) (omega arith) (up 0 (omega arith)))
        (subst (λ t. env.receipt t hash ≡ none) (omega arith) (none_yet 0 (omega arith)))
        (subst (λ t. env.timed_out t ≡ false) (omega arith) (in_time 0 (omega arith))) in
    let rest =
      wait_found fuel n hash env (polled w) receipt (omega arith)
        (λ k le.
          subst (λ t. env.client_fails t ≡ false) (omega arith) (up (suc k) (omega (arith, le))))
        (λ k le.
          subst (λ t. env.receipt t hash ≡ none) (omega arith)
            (none_yet (suc k) (omega (arith, le))))
        (λ k le.
          subst (λ t. env.timed_out t ≡ false) (omega arith) (in_time (suc k) (omega (arith, le))))
        (subst (λ t. env.receipt t hash ≡ some receipt) (omega arith) there) in
    ap (λ r. r.0) first ∙ rest
