-- ===== src/Keys.antt =====
-- internal/wallet/address/evm.go and internal/wallet/seed/manager.go: keys and addresses of the
-- seed, and the seed in memory. The hash functions and the curve are third-party packages.
use go_wallet.Prelude.{
  ℕ, Text, Bool, true, false, Option, none, some, List, [], ◌∷◌, ◌++◌, if◌then◌else◌,
}
use go_wallet.Prelude.Bytes.{Bytes}
use go_wallet.World.{
  Action, World, ok, pure, guard, or_raise, ◌>>=◌, ◌>>◌, seed_missing, derive_failure, bad_path,
  bad_key,
}
use go_wallet.HotWallet.Paths.{parse_bip44_path}
pub mod Signer

-- What third-party packages compute: golang.org/x/crypto (scrypt, pbkdf2), crypto/aes, crypto/sha256,
-- go-bip32 and go-ethereum.
pub record Crypto : Type 0 where
  -- the key of a password: salt, N, r, p and the length
  pub scrypt : Bytes → Bytes → ℕ → ℕ → ℕ → ℕ → Option Bytes
  -- a byte of the key stream of AES in counter mode, for a key and an initial vector
  pub key_stream : Bytes → Bytes → ℕ → ℕ
  pub sha256 : Bytes → Bytes
  -- with HMAC-SHA512: password, salt, rounds and length
  pub pbkdf2 : Bytes → Bytes → ℕ → ℕ → Bytes
  -- extended keys of BIP-32, and the bytes of one
  pub new_master_key : Bytes → Option Bytes
  pub new_child_key : Bytes → ℕ → Option Bytes
  pub key_bytes : Bytes → Bytes
  -- `ToECDSA`: whether the bytes are a private key; the address of its public key
  pub is_private_key : Bytes → Bool
  pub address_of_key : Bytes → Bytes
  -- an address in the mixed case of EIP-55, and the address that a text stands for
  pub hex : Bytes → Text
  pub hex_to_address : Text → Bytes

-- `deriveKeyFromPath`, along the children.
unfoldable pub derive_children : Crypto → Bytes → List ℕ → Option Bytes
derive_children c key [] = some key
derive_children c key (i ∷ is) = elim (c.new_child_key key i) [
  | none ↦ none
  | some child ↦ derive_children c child is
]

-- `DerivePrivateKey`, for the chain type "evm", which is the only one that is asked for.
unfoldable pub derive_private_key : Crypto → Bytes → Text → Action Bytes
derive_private_key c seed path = do
  master ← or_raise (c.new_master_key seed) derive_failure
  indices ← or_raise (parse_bip44_path path) bad_path
  key ← or_raise (derive_children c master indices) derive_failure
  pure (c.key_bytes key)

unfoldable pub derive_address : Crypto → Bytes → Text → Action Text
derive_address c seed path = do
  key ← derive_private_key c seed path
  guard (c.is_private_key key) bad_key
  pure (c.hex (c.address_of_key key))

-- "mnemonic"
abbrev pub seed_salt : Text
seed_salt = b'm' ∷ b'n' ∷ b'e' ∷ b'm' ∷ b'o' ∷ b'n' ∷ b'i' ∷ b'c' ∷ []

abbrev pub seed_of : Crypto → Text → Text → Bytes
seed_of c mnemonic password = c.pbkdf2 mnemonic (seed_salt ++ password) 2048 64

-- `manager.Initialize`
unfoldable pub initialize_seed : Crypto → Text → Text → Action (Unit {0})
initialize_seed c mnemonic password env w =
    (ok tt, record w { seed = some (seed_of c mnemonic password); initialized = true })

-- `manager.GetSeed`: nothing before the initialisation, and a copy after it.
unfoldable pub get_seed : World → Option Bytes
get_seed w = if w.initialized then w.seed else none

-- A service that needs the seed refuses without it.
unfoldable pub require_seed : Action Bytes
unfolding get_seed
require_seed env w = or_raise (get_seed w) seed_missing env w

-- `manager.Clear`
unfoldable pub clear_seed : World → World
clear_seed w = record w { seed = none; initialized = false }
