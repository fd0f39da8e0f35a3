-- ===== src/Scan/Client.antt =====
-- internal/wallet/scan/client.go: a client over several addresses of nodes, with failover, and the
-- clients of the chains in internal/wallet/scan/service.go.
use Prim.Native.Nat.{◌%◌}
use go_wallet.Prelude.{
  ℕ, zero, suc, ◌+◌, Text, Bool, true, false, ◌&&◌, not, Option, none, some, List, [], ◌∷◌, ◌==◌,
  if◌then◌else◌, length,
}
use go_wallet.Store.{Chain}
use go_wallet.World.{
  Action, Result, ok, err, pure, raise, ask, query, get_client, ◌>>=◌, ◌>>◌, no_urls, no_client,
  rpc_failure,
}
use go_wallet.Chains.{get_chain, parse_rpc_urls}
use go_wallet.Queries.{number_or}
use go_wallet.Scan.Scanner.{max_block}
pub mod Failover

-- Which of the addresses a connection is open to, and the one in use.
pub record RpcClient : Type 0 where
  pub urls : List Text
  pub connected : List Bool
  pub current : ℕ

-- What the nodes answer during one call: to the question for the chain's number on an open
-- connection, by its index, and to a new connection, by the address.
pub record Nodes : Type 0 where
  pub healthy : ℕ → Bool
  pub dial : Text → Bool

unfoldable pub dial_all : (Text → Bool) → List Text → List Bool
dial_all dial [] = []
dial_all dial (url ∷ urls) = dial url ∷ dial_all dial urls

unfoldable pub all_clients_nil : List Bool → Bool
all_clients_nil [] = true
all_clients_nil (c ∷ cs) = not c && all_clients_nil cs

-- One open connection is enough.
unfoldable pub new_rpc_client : (Text → Bool) → List Text → Result RpcClient
unfolding dial_all all_clients_nil
new_rpc_client dial [] = err no_urls
new_rpc_client dial (url ∷ urls) =
    let connected = dial_all dial (url ∷ urls) in
    if all_clients_nil connected
    then err no_client
    else ok (record { urls = url ∷ urls; connected = connected; current = 0 })

unfoldable pub connected_at : List Bool → ℕ → Bool
connected_at [] i = false
connected_at (c ∷ cs) zero = c
connected_at (c ∷ cs) (suc i) = connected_at cs i

unfoldable pub url_at : List Text → ℕ → Text
url_at [] i = []
url_at (url ∷ urls) zero = url
url_at (url ∷ urls) (suc i) = url_at urls i

unfoldable pub open_at : List Bool → ℕ → List Bool
open_at [] i = []
open_at (c ∷ cs) zero = true ∷ cs
open_at (c ∷ cs) (suc i) = c ∷ open_at cs i

-- One round: an open connection must be healthy, and one that was never opened is opened. An open
-- connection that is not healthy is passed over.
unfoldable pub try_client : Nodes → RpcClient → ℕ → Option (ℕ × RpcClient)
unfolding connected_at url_at open_at
try_client nodes c i =
    if connected_at c.connected i
    then (if nodes.healthy i then some (i, record c { current = i }) else none)
    else if nodes.dial (url_at c.urls i)
    then some (i, record c { connected = open_at c.connected i; current = i })
    else none

-- The rounds that are left, the next of which is for the connection `i` places after the current
-- one.
unfoldable pub try_clients : Nodes → ℕ → ℕ → RpcClient → Option (ℕ × RpcClient)
unfolding try_client
try_clients nodes zero i c = none
try_clients nodes (suc left) i c =
    elim (try_client nodes c ((c.current + i) % length c.connected)) [
      | some found ↦ some found
      | none ↦ try_clients nodes left (i + 1) c
    ]

-- The connection that is used, and the client after the call; `none` where no connection is usable.
unfoldable pub next_client : Nodes → RpcClient → Option (ℕ × RpcClient)
unfolding try_clients
next_client nodes c = try_clients nodes (length c.connected) 0 c

abbrev pub Clients : Type 0
Clients = ℕ → Option RpcClient

unfoldable pub client_of : Result RpcClient → Action RpcClient
client_of (ok client) = pure client
client_of (err e) = raise e

-- The chain's client, and the map with it.
unfoldable pub get_or_create_client : (Text → Bool) → Clients → ℕ → Action (RpcClient × Clients)
unfolding new_rpc_client client_of
get_or_create_client dial clients chain = elim (clients chain) [
  | some client ↦ pure (client, clients)
  | none ↦ do
    config ← get_chain chain
    client ← client_of (new_rpc_client dial (parse_rpc_urls config.rpc_url))
    pure (client, λ k. if k == chain then some client else clients k)
]

pub record ScanProgress : Type 0 where
  pub chain_id : ℕ
  pub latest_block : ℕ
  pub scanned_to : ℕ

-- Without a recorded block the scan has come to block 0.
unfoldable pub get_scan_progress : ℕ → Action ScanProgress
get_scan_progress chain = do
  get_client
  latest ← ask (λ env. env.latest_block) rpc_failure
  scanned ← query λ db. max_block chain db.blocks
  pure (record { chain_id = chain; latest_block = latest; scanned_to = number_or scanned 0 })
