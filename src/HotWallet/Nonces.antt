-- ===== src/HotWallet/Nonces.antt =====
-- The nonces that `get_next_nonce` gives out (hotwallet/service.go, `GetNextNonce`).
use go_wallet.Prelude.{
  ℕ, ◌+◌, Text, ◌≡◌, inl, inr, some, List, [], ◌∷◌, first, modify, arith, eq_of_text_eq, sym,
}
use go_wallet.Store.{WalletNonce, Db}
use go_wallet.World.{
  Env, World, Result, ok, err, query, query_one, statement, commit, pure, ◌>>=◌, Error,
}
use go_wallet.HotWallet.{get_next_nonce, nonce_of}
use go_wallet.World.Bind.{Result-cases}
use go_wallet.Prelude.Rows.Find.{first_meets, first-modify}
use mathlib.Core.Path.{subst₂}

-- The nonces with one more used.
abbrev pub advanced : WalletNonce → Db → Db
advanced row db = record db {
  nonces =
      modify (nonce_of row.address row.chain_id) (λ _. record row { nonce = row.nonce + 1 })
        db.nonces;
}

-- A call that succeeds gives out the stored nonce and moves it on by one; a call that fails changes
-- no table. Neither sends anything.
pub get_next_nonce-ok :
    (address : Text) (chain : ℕ) (env : Env) (w : World) {row : WalletNonce} {n : ℕ}
    → first (nonce_of address chain) w.db.nonces ≡ some row
    → (get_next_nonce address chain env w).0 ≡ ok n
    → (n ≡ row.nonce) × ((get_next_nonce address chain env w).1.db ≡ advanced row w.db)
unfolding get_next_nonce query query_one statement commit pure ◌>>=◌
get_next_nonce-ok address chain env w f h = (ground arith, ground arith)

get_next_nonce-err :
    (address : Text) (chain : ℕ) (env : Env) (w : World) {e : Error}
    → (get_next_nonce address chain env w).0 ≡ err e
    → (get_next_nonce address chain env w).1.db ≡ w.db
unfolding get_next_nonce query query_one statement commit pure ◌>>=◌
get_next_nonce-err address chain env w h = ground arith

-- The row's own key is the one it is found under.
key_of :
    (address : Text) (chain : ℕ) (db : Db) {row : WalletNonce}
    → first (nonce_of address chain) db.nonces ≡ some row
    → (row.address ≡ address) × (row.chain_id ≡ chain)
key_of address chain db {row = row} f =
    let m = first_meets (nonce_of address chain) db.nonces f in
    (eq_of_text_eq row.address address (ground arith), ground arith)

advanced_found :
    (address : Text) (chain : ℕ) (db : Db) {row : WalletNonce}
    → first (nonce_of address chain) db.nonces ≡ some row
    → first (nonce_of address chain) (advanced row db).nonces
      ≡ some (record row { nonce = row.nonce + 1 })
advanced_found address chain db {row = row} f =
    let m = first_meets (nonce_of address chain) db.nonces f in
    let k = key_of address chain db f in
    subst₂
      (λ (a : Text) (c : ℕ).
        first (nonce_of address chain)
          (modify (nonce_of a c) (λ _. record row { nonce = row.nonce + 1 }) db.nonces)
        ≡ some (record row { nonce = row.nonce + 1 }))
      (sym k.0) (sym k.1)
      (first-modify (nonce_of address chain) (record row { nonce = row.nonce + 1 }) db.nonces f m)

-- The results of calls one after the other, each with its own answers of the database; calls that
-- fail give out nothing.
abbrev pub given : Result ℕ → List ℕ → List ℕ
given (ok n) rest = n ∷ rest
given (err e) rest = rest

pub nonces : Text → ℕ → List Env → World → List ℕ
nonces address chain [] w = []
nonces address chain (env ∷ envs) w =
    let (r, w') = get_next_nonce address chain env w in given r (nonces address chain envs w')

-- `n`, `n + 1`, `n + 2`, and so on.
abbrev pub IsCountFrom : ℕ → List ℕ → Type 0
IsCountFrom n [] = Unit
IsCountFrom n (m ∷ ms) = (m ≡ n) × IsCountFrom (n + 1) ms

-- However the database answers, the nonces given out for one wallet count up from the stored one:
-- none is given twice, and none is left out.
pub nonces_count_up :
    (address : Text) (chain : ℕ) (envs : List Env) (w : World) {row : WalletNonce}
    → first (nonce_of address chain) w.db.nonces ≡ some row
    → IsCountFrom row.nonce (nonces address chain envs w)
unfolding nonces
nonces_count_up address chain [] w f = tt
nonces_count_up address chain (env ∷ envs) w {row = row} f =
    let w' = (get_next_nonce address chain env w).1 in
    elim (Result-cases (get_next_nonce address chain env w).0) [
      | inl (n, e) ↦
          let (used, db') = get_next_nonce-ok address chain env w f e in
          rw e (
            used,
            nonces_count_up address chain envs w' {row = record row { nonce = row.nonce + 1 }}
                (rw db' (advanced_found address chain w.db f)),
          )
      | inr (x, e) ↦ rw e (
          nonces_count_up address chain envs w' {row = row}
            (rw (get_next_nonce-err address chain env w e) f))
    ]
