-- ===== src/Examples/Funds.antt =====
-- Wallets, paths, addresses of nodes, and the moves between wallets, on concrete inputs.
use go_wallet.Prelude.{some, List, [], ◌∷◌, ◌==◌, ◌≡◌, refl, arith, first, text_eq, if◌then◌else◌}
use go_wallet.Store.{Wallet, AddressIndex}
use go_wallet.World.{Env, World, ok}
use go_wallet.World.Sent.{Within}
use go_wallet.HotWallet.{get_next_address_index}
use go_wallet.HotWallet.Indexes.{index_given_twice}
use go_wallet.HotWallet.Paths.{get_bip44_path, parse_bip44_path}
use go_wallet.HotWallet.Paths.RoundTrip.{parse_bip44_path-get_bip44_path}
use go_wallet.Rebalance.{WalletBalance, fund_receivers}
use go_wallet.Rebalance.Books.{AllFunded, fund_receivers-AllFunded}
use go_wallet.Collect.{collect_for_chain}
use go_wallet.Collect.Sweeps.{OnlyTransactions}
use go_wallet.Collect.Cycle.{Collects, collect_for_chain-Within}
use go_wallet.Scan.Client.{RpcClient, Nodes, next_client, connected_at, url_at}
use go_wallet.Scan.Client.Failover.{IsFound, next_client-IsFound}
use go_wallet.Examples.{bank, answering, failing_at, hot_wallet_row, true, ℕ, false}

parse_bip44_path-get_bip44_path_example :
    parse_bip44_path (get_bip44_path 7) ≡ some (2147483692 ∷ 2147483708 ∷ 2147483648 ∷ 0 ∷ 7 ∷ [])
parse_bip44_path-get_bip44_path_example = parse_bip44_path-get_bip44_path 7 (omega arith)

abbrev device_index : AddressIndex
device_index = record { id = 50; device_name = some 3; current_index = 5 }

abbrev indexed : World
indexed = record bank { db = record bank.db { address_indexes = device_index ∷ [] } }

index_given_twice_example :
    let w' = (get_next_address_index (some 3) (failing_at 4) indexed).1 in
    ((get_next_address_index (some 3) (failing_at 4) indexed).0 ≡ ok 6)
    × (w'.db ≡ indexed.db)
    × ((get_next_address_index (some 3) answering w').0 ≡ ok 6)
unfolding first
index_given_twice_example =
    index_given_twice (some 3) (failing_at 4) answering indexed device_index device_index refl refl
      (λ _. refl) (λ _. refl)

-- A second hot wallet, and a node that tells 9 ETH for it and 1 ETH for all others.
abbrev full_wallet : Wallet
full_wallet = record hot_wallet_row { id = 13; address = b'f' ∷ [] }

abbrev two_hot : World
two_hot = record bank { db = record bank.db { wallets = full_wallet ∷ hot_wallet_row ∷ [] } }

abbrev telling : Env
telling = record answering {
  balance_at =
      λ _ a. some (if text_eq a (b'f' ∷ []) then 9000000000000000000 else 1000000000000000000);
}

abbrev full : WalletBalance
full = record { wallet = full_wallet; balance = 9000000000000000000 }

abbrev empty : WalletBalance
empty = record { wallet = hot_wallet_row; balance = 1000000000000000000 }

fund_receivers-AllFunded_example :
    (r : List WalletBalance × List WalletBalance) × ((fund_receivers
        (empty ∷ [])
        (full ∷ [])
        telling
        two_hot).0
      ≡ ok r)
    × AllFunded (empty ∷ []) (full ∷ []) r
fund_receivers-AllFunded_example =
    fund_receivers-AllFunded telling (empty ∷ []) (full ∷ []) two_hot (omega arith, tt)
      (omega arith, tt)

collect_for_chain-Within_example :
    Within
      (Collects telling 1 bank.db hot_wallet_row)
      (OnlyTransactions bank.db)
      bank
      (collect_for_chain 1 telling bank).1
unfolding first
collect_for_chain-Within_example = collect_for_chain-Within telling 1 hot_wallet_row bank refl

-- The first connection is open but does not answer, the second was never opened.
abbrev two_nodes : RpcClient
two_nodes = record {
  urls = (b'a' ∷ []) ∷ (b'b' ∷ []) ∷ [];
  connected = true ∷ false ∷ [];
  current = 0;
}

abbrev second_answers : Nodes
second_answers = record { healthy = λ i. i == 1; dial = λ url. text_eq url (b'b' ∷ []) }

next_client-IsFound_example :
    (found : ℕ × RpcClient) × (next_client second_answers two_nodes ≡ some found)
    × IsFound second_answers two_nodes found
unfolding connected_at url_at text_eq
next_client-IsFound_example =
    next_client-IsFound second_answers two_nodes 1 (omega arith) (omega arith) refl
