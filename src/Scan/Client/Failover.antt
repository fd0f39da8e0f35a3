-- ===== src/Scan/Client/Failover.antt =====
-- internal/wallet/scan/client.go, `getClient`: a usable connection is found if there is one.
use Prim.Native.Nat.{◌%◌}
use mathlib.Core.Bool.{true≢false}
use native.Mathlib.Nat.{mod-eq_of_lt, add-mod_right}
use go_wallet.Prelude.{
  ℕ, zero, suc, ◌+◌, ◌-◌, ◌≤◌, ◌<◌, ◌≡◌, ◌⊎◌, inl, inr, refl, arith, sym, ap, ◌∙◌, Bool, true,
  false, Bool-cases, Option-cases, none, some, List, [], ◌∷◌, length, leb, if◌then◌else◌,
}
use go_wallet.Scan.Client.{
  RpcClient, Nodes, connected_at, url_at, open_at, try_client, try_clients, next_client,
}
use mathlib.Core.Path.{subst}

-- A connection can be used in this call.
abbrev pub usable : Nodes → RpcClient → ℕ → Bool
usable nodes c i =
    if connected_at c.connected i then nodes.healthy i else nodes.dial (url_at c.urls i)

le-or-lt : (a b : ℕ) → (a ≤ b) ⊎ (b < a)
le-or-lt a b = elim (Bool-cases (leb a b)) [
  | inl below ↦ inl (ground (arith, below))
  | inr above ↦ inr (ground (arith, above))
]

length-open_at : (cs : List Bool) (i : ℕ) → length (open_at cs i) ≡ length cs
unfolding open_at
length-open_at [] i = refl
length-open_at (c ∷ cs) zero = refl
length-open_at (c ∷ cs) (suc i) = ap suc (length-open_at cs i)

-- The connection that a call found.
pub record IsFound (nodes : Nodes) (c : RpcClient) (found : ℕ × RpcClient) : Type 0 where
  pub works : usable nodes c found.0 ≡ true
  pub used : found.1.current ≡ found.0
  pub as_many : length found.1.connected ≡ length c.connected

try_client-IsFound :
    (nodes : Nodes) (c : RpcClient) (i : ℕ) {found : ℕ × RpcClient}
    → try_client nodes c i ≡ some found
    → IsFound nodes c found × (found.0 ≡ i)
unfolding try_client
try_client-IsFound nodes c i h = (
  record {
    works = ground arith;
    used = ground arith;
    as_many = ground (arith, length-open_at c.connected i);
  },
  ground arith,
)

try_client-usable :
    (nodes : Nodes) (c : RpcClient) (i : ℕ) → try_client nodes c i ≡ none → usable nodes c i ≡ false
unfolding try_client
try_client-usable nodes c i h = ground arith

-- The rounds find a connection if one of those that are left can be used.
try_clients-IsFound :
    (nodes : Nodes) (left i m : ℕ) (c : RpcClient)
    → m < left
    → usable nodes c ((c.current + (i + m)) % length c.connected) ≡ true
    → (found : ℕ × RpcClient) × (try_clients nodes left i c ≡ some found) × IsFound nodes c found
unfolding try_clients
try_clients-IsFound nodes zero i m c lt u = absurd (omega (arith, lt))
try_clients-IsFound nodes (suc left) i m c lt u =
    elim (Option-cases (try_client nodes c ((c.current + i) % length c.connected))) [
      | inr (found, e) ↦ (found, ground (arith, e), (try_client-IsFound nodes c _ e).0)
      | inl e ↦
          let unfit = try_client-usable nodes c ((c.current + i) % length c.connected) e in
          let some_more = later m u unfit in
          let (found, f, is_found) =
            try_clients-IsFound nodes left (i + 1) (m - 1) c (omega (arith, lt, some_more)) (
              subst (λ k. usable nodes c ((c.current + k) % length c.connected) ≡ true)
                (omega (arith, some_more)) u) in
          (found, ground (arith, e, f), is_found)
    ]
  where
    later :
        (m : ℕ)
        → usable nodes c ((c.current + (i + m)) % length c.connected) ≡ true
        → usable nodes c ((c.current + i) % length c.connected) ≡ false
        → 1 ≤ m
    later zero fit unfit = absurd (
        true≢false (
          sym (
            subst (λ k. usable nodes c ((c.current + k) % length c.connected) ≡ true) (omega arith)
              fit)
          ∙ unfit))
    later (suc m) fit unfit = omega arith

-- How far around from the current connection another one is.
steps_to :
    (n current k : ℕ) → current < n → k < n → (m : ℕ) × (m < n) × ((current + (0 + m)) % n ≡ k)
steps_to n current k c h = elim (le-or-lt current k) [
  | inl le ↦ (k - current, omega (arith, h), ap (λ j. j % n) (omega (arith, le)) ∙ mod-eq_of_lt h)
  | inr lt ↦ (
    k + n - current,
    omega (arith, lt),
    ap (λ j. j % n) (omega (arith, c)) ∙ add-mod_right k n ∙ mod-eq_of_lt h,
  )
]

-- If some connection can be used in a call (an open one that is healthy, or one never opened that
-- can be opened now), the call returns one that can, and that one is the current one afterwards,
-- one of as many connections as before. The connection in use before the call is one of the
-- client's.
pub next_client-IsFound :
    (nodes : Nodes) (c : RpcClient) (k : ℕ)
    → c.current < length c.connected
    → k < length c.connected
    → usable nodes c k ≡ true
    → (found : ℕ × RpcClient) × (next_client nodes c ≡ some found) × IsFound nodes c found
unfolding next_client
next_client-IsFound nodes c k fits h u =
    let (m, lt, e) = steps_to (length c.connected) c.current k fits h in
    try_clients-IsFound nodes (length c.connected) 0 m c lt
      (subst (λ j. usable nodes c j ≡ true) (sym e) u)
