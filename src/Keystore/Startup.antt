-- ===== src/Keystore/Startup.antt =====
-- internal/wallet/init.go and internal/wallet/verify.go: the start of the server, which makes the
-- keystore or opens it.
use go_wallet.Prelude.{
  ℕ, zero, suc, Text, Bool, true, false, not, Option, none, some, List, [], ◌∷◌, ◌++◌, leb, text_eq,
  if◌then◌else◌, length, modify,
}
use go_wallet.Store.{Keystore, Db}
use go_wallet.World.{
  Action, Result, ok, err, no_rows, pure, raise, guard, ask, query_one, try_action, commit, ◌>>=◌,
  ◌>>◌, terminal_failure, password_too_short, passwords_differ, wrong_password,
}
use go_wallet.HotWallet.Paths.{get_bip44_path}
use go_wallet.Keys.{Crypto, derive_address, initialize_seed, require_seed}
use go_wallet.Keystore.{
  keystore_present, create_keystore, get_keystore, decrypt_mnemonic, first_keystore,
}
pub mod FirstStart
pub mod Restart

abbrev pub has_text : Option Text → Bool
has_text none = false
has_text (some []) = false
has_text (some (c ∷ cs)) = true

-- No address, or the empty one, lets the start go on.
abbrev pub matches_stored : Text → Option Text → Bool
matches_stored derived none = true
matches_stored derived (some []) = true
matches_stored derived (some (c ∷ cs)) = text_eq derived (c ∷ cs)

-- By how the search for the stored address ended.
unfoldable pub check_stored : Text → Result Keystore → Action Bool
check_stored derived (ok k) = pure (matches_stored derived k.verification_address)
check_stored derived (err no_rows) = pure true
check_stored derived (err e) = raise e

unfoldable pub verify_password_by_address : Crypto → Action Bool
verify_password_by_address c = do
  seed ← require_seed
  derived ← derive_address c seed (get_bip44_path 0)
  stored ← try_action (query_one first_keystore)
  check_stored derived stored

-- The row with the fixed number.
abbrev pub set_verification_address : Text → Db → Db
set_verification_address address db = record db {
  keystores =
      modify (λ (k : Keystore). true) (λ k. record k { verification_address = some address })
        db.keystores;
}

unfoldable pub store_address : Text → Result Keystore → Action (Unit {0})
store_address address (ok k) =
    if has_text k.verification_address then pure tt else commit (set_verification_address address)
store_address address (err no_rows) = commit (set_verification_address address)
store_address address (err e) = raise e

unfoldable pub create_verification_address : Crypto → Action (Unit {0})
create_verification_address c = do
  seed ← require_seed
  address ← derive_address c seed (get_bip44_path 0)
  found ← try_action (query_one first_keystore)
  store_address address found

-- "abandon ", "about " and "art"
abbrev pub abandon : Text
abandon = b'a' ∷ b'b' ∷ b'a' ∷ b'n' ∷ b'd' ∷ b'o' ∷ b'n' ∷ 32 ∷ []

abbrev pub about : Text
about = b'a' ∷ b'b' ∷ b'o' ∷ b'u' ∷ b't' ∷ 32 ∷ []

abbrev pub art : Text
art = b'a' ∷ b'r' ∷ b't' ∷ []

unfoldable pub repeat : ℕ → Text → Text
repeat zero t = []
repeat (suc n) t = t ++ repeat n t

-- The mnemonic that stands in the code.
unfoldable pub placeholder_mnemonic : Text
unfolding repeat
placeholder_mnemonic = repeat 11 abandon ++ about ++ repeat 11 abandon ++ art

-- The start without a keystore: the password is asked for twice.
unfoldable pub first_start : Crypto → Action (Unit {0})
first_start c = do
  password ← ask (λ env. env.prompt) terminal_failure
  guard (leb 8 (length password)) password_too_short
  confirmed ← ask (λ env. env.prompt) terminal_failure
  guard (text_eq password confirmed) passwords_differ
  _ ← create_keystore c placeholder_mnemonic password
  initialize_seed c placeholder_mnemonic password
  create_verification_address c

-- The start with a keystore.
unfoldable pub unlock : Crypto → Action (Unit {0})
unlock c = do
  password ← ask (λ env. env.prompt) terminal_failure
  keystore ← get_keystore
  mnemonic ← decrypt_mnemonic c keystore.keystore_data password
  initialize_seed c mnemonic password
  valid ← verify_password_by_address c
  guard valid wrong_password

unfoldable pub initialize_keystore : Crypto → Action (Unit {0})
initialize_keystore c = do present ← keystore_present; if present then unlock c else first_start c
