-- ===== src/HotWallet.antt =====
-- internal/wallet/hotwallet/service.go and internal/wallet/address/service.go: the hot wallets,
-- their nonces, and the address indexes that wallets are derived from. `FOR UPDATE` makes
-- `get_next_nonce` one step for every other transaction.
use go_wallet.Prelude.{
  ℕ, ◌+◌, Text, Bool, true, false, ◌&&◌, not, Option, none, some, ◌==◌, text_eq, first, any, modify,
  insert, ◌≡◌, refl, ==_iff, arith,
}
use go_wallet.Store.{Wallet, WalletType, WalletNonce, AddressIndex, Db, is_hot}
use go_wallet.World.Transaction.{with_transaction, write}
use go_wallet.World.{
  Result, ok, err, Action, pure, raise, guard, ask, call, query, query_one, if_no_rows, try_action,
  statement, commit, fresh_id, ◌>>=◌, ◌>>◌, no_rows, no_hot_wallet, seed_missing, derive_failure,
  not_unique,
}
pub mod Nonces
pub mod Indexes
pub mod Paths

abbrev pub is_hot_wallet : ℕ → Wallet → Bool
is_hot_wallet chain wallet = wallet.chain_id == chain && is_hot wallet.wallet_type

of_hot : (t : WalletType) → is_hot t ≡ true → t ≡ WalletType.hot
of_hot WalletType.user h = absurd (ground arith)
of_hot WalletType.hot h = refl
of_hot WalletType.cold h = absurd (ground arith)

-- Such a wallet is on the chain, and of the type of hot wallets.
pub of_hot_wallet :
    (chain : ℕ) (wallet : Wallet)
    → is_hot_wallet chain wallet ≡ true
    → (wallet.chain_id ≡ chain) × (wallet.wallet_type ≡ WalletType.hot)
of_hot_wallet chain wallet h =
    ((==_iff wallet.chain_id chain).0 (ground arith), of_hot wallet.wallet_type (ground arith))

unfoldable pub get_hot_wallet : ℕ → Action Wallet
get_hot_wallet chain =
    if_no_rows no_hot_wallet (query_one (λ db. first (is_hot_wallet chain) db.wallets))

abbrev pub nonce_of : Text → ℕ → WalletNonce → Bool
nonce_of address chain n = text_eq n.address address && n.chain_id == chain

unfoldable pub get_next_nonce : Text → ℕ → Action ℕ
get_next_nonce address chain = do
  statement
  row ← query_one (λ db. first (nonce_of address chain) db.nonces)
  statement
  commit λ db. record db {
    nonces =
        modify (nonce_of row.address row.chain_id) (λ _. record row { nonce = row.nonce + 1 })
          db.nonces;
  }
  pure row.nonce

abbrev pub same_device : Option ℕ → Option ℕ → Bool
same_device none none = true
same_device none (some d) = false
same_device (some d) none = false
same_device (some d) (some d') = d == d'

-- The second half of `GetNextAddressIndex`, by how the search ended.
unfoldable pub next_index : Option ℕ → Result AddressIndex → Action ℕ
next_index device (err no_rows) = do
  id ← fresh_id
  commit λ db. record db {
    address_indexes =
        insert (record { id = id; device_name = device; current_index = 0 }) db.address_indexes;
  }
  pure 0
next_index device (err e) = raise e
next_index device (ok found) = with_transaction (do
  row ← query_one (λ db. first (λ (a : AddressIndex). a.id == found.id) db.address_indexes)
  write λ db. record db {
    address_indexes =
        modify (λ (a : AddressIndex). a.id == row.id)
          (λ a. record a { current_index = row.current_index + 1 }) db.address_indexes;
  }
  pure (row.current_index + 1))

unfoldable pub get_next_address_index : Option ℕ → Action ℕ
get_next_address_index device = do
  found ← try_action (
      query_one
        (λ db. first (λ (a : AddressIndex). same_device a.device_name device) db.address_indexes))
  next_index device found

-- The unique keys of `wallets` and of `wallet_nonces`: address and chain.
abbrev pub wallet_key_free : Text → ℕ → Db → Bool
wallet_key_free address chain db = not (
    any (λ (wallet : Wallet). text_eq wallet.address address && wallet.chain_id == chain)
      db.wallets)

abbrev pub nonce_key_free : Text → ℕ → Db → Bool
nonce_key_free address chain db = not (any (nonce_of address chain) db.nonces)

abbrev pub hot_wallet_row : ℕ → ℕ → Text → ℕ → ℕ → Wallet
hot_wallet_row user chain address index id = record {
  id = id;
  user_id = user;
  address = address;
  chain_id = chain;
  derivation_path = index;
  address_index = index;
  wallet_type = WalletType.hot;
}

-- The derivation path of `GetBIP44Path` is a function of the index alone, and is named by it.
unfoldable pub create_hot_wallet : ℕ → ℕ → ℕ → Action Wallet
create_hot_wallet user chain device = do
  call (λ env t. not (env.seed_ready t)) seed_missing
  index ← get_next_address_index (some device)
  address ← ask (λ env _. env.derive index) derive_failure
  statement
  id ← fresh_id
  wallet_free ← query (wallet_key_free address chain)
  guard wallet_free not_unique
  nonce_free ← query (nonce_key_free address chain)
  guard nonce_free not_unique
  commit λ db. record db {
    wallets = insert (hot_wallet_row user chain address index id) db.wallets;
    nonces = insert (record { address = address; chain_id = chain; nonce = 0 }) db.nonces;
  }
  pure (hot_wallet_row user chain address index id)
