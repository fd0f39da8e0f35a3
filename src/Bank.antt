-- ===== src/Bank.antt =====
-- What a custodian promises of its users' balances, apart from the tables that keep them: an
-- account book in which money is reserved only where it is there, and otherwise only comes in. The
-- services behind it are internal/wallet/withdraw/service.go and internal/wallet/deposit/service.go.
pub mod Sound
pub mod Service
pub mod Calls
pub mod Deposits
pub mod Reviews
pub mod Machine
use go_wallet.Prelude.{
  ℕ, ℤ, pos, ◌+ℤ◌, ◌-ℤ◌, ◌≤ℤ◌, Bool, ◌&&◌, ◌==◌, if◌then◌else◌, ◌≡◌, int_laws, Bool-cases, inl, inr,
  arith,
}

-- What each user has available of each token on each chain.
abbrev pub Book : Type 0
Book = ℕ → ℕ → ℕ → ℤ

abbrev pub is_account : ℕ → ℕ → ℕ → ℕ → ℕ → ℕ → Bool
is_account user chain token u c t = user == u && chain == c && token == t

-- One entry: nothing, an amount taken from an account that holds it, or amounts given.
pub data Entry (b b' : Book) : Type 0 where
  kept : ((u c t : ℕ) → b' u c t ≡ b u c t) → Entry b b'
  reserved :
      (user chain token : ℕ) (amount : ℤ)
      → pos 1 ≤ℤ amount
      → amount ≤ℤ b user chain token
      → ((u c t : ℕ)
          → b' u c t ≡ (if is_account user chain token u c t then b u c t -ℤ amount else b u c t))
      → Entry b b'
  given :
      (amount : Book)
      → ((u c t : ℕ) → pos 0 ≤ℤ amount u c t)
      → ((u c t : ℕ) → b' u c t ≡ b u c t +ℤ amount u c t)
      → Entry b b'

-- Entries one after the other, the last one outermost.
pub data Entries (b : Book) : Book → Type 0 where
  start : Entries b b
  then_entry : {b' b'' : Book} → Entries b b' → Entry b' b'' → Entries b b''

-- No account is overdrawn.
abbrev pub IsCovered : Book → Type 0
IsCovered b = (u c t : ℕ) → pos 0 ≤ℤ b u c t

reserved_covers :
    (user chain token u c t : ℕ) (amount : ℤ) (b b' : Book)
    → amount ≤ℤ b user chain token
    → pos 0 ≤ℤ b u c t
    → b' u c t ≡ (if is_account user chain token u c t then b u c t -ℤ amount else b u c t)
    → pos 0 ≤ℤ b' u c t
reserved_covers user chain token u c t amount b b' enough covered e =
    elim (Bool-cases (is_account user chain token u c t)) [
      | inl same ↦
          let account : b user chain token ≡ b u c t = ground arith in
          let left : b' u c t ≡ b u c t -ℤ amount = ground arith in
          let held : amount ≤ℤ b u c t = rw (← account) enough in rw left (omega int_laws)
      | inr other ↦ let left : b' u c t ≡ b u c t = ground arith in rw left covered
    ]

pub Entry-IsCovered : {b b' : Book} → Entry b b' → IsCovered b → IsCovered b'
Entry-IsCovered (kept same) covered u c t = rw (same u c t) (covered u c t)
Entry-IsCovered {b} {b'} (reserved user chain token amount some_amount enough e) covered u c t =
    reserved_covers user chain token u c t amount b b' enough (covered u c t) (e u c t)
Entry-IsCovered (given amount positive e) covered u c t =
    rw (e u c t) (omega (int_laws, covered u c t, positive u c t))

pub Entries-IsCovered : {b b' : Book} → Entries b b' → IsCovered b → IsCovered b'
Entries-IsCovered start covered = covered
Entries-IsCovered (then_entry before e) covered =
    Entry-IsCovered e (Entries-IsCovered before covered)
