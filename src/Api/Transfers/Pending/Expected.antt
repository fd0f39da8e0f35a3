-- ===== src/Api/Transfers/Pending/Expected.antt =====
-- internal/api/handlers/wallet/get_pending_deposits.go: which deposits are on their way to a user.
use go_wallet.Prelude.{
  ℕ, ℤ, Text, Bool, true, false, not, ◌&&◌, ◌||◌, ◌==◌, ◌≡◌, ◌∙◌, refl, Option, none, some, List,
  [], ◌∷◌, select, any, text_eq, to_lower, inl, inr, Bool-cases, arith, ap, sym,
}
use go_wallet.Store.{
  Wallet, Transaction, TransactionStatus, Db, is_deposit_tx, transaction_status_eq,
}
use go_wallet.Api.{is_int}
use go_wallet.Api.Withdrawals.{meets_filter}
use go_wallet.Api.Transfers.{is_among, among_or_all, belongs_to, lower_addresses_of}
use go_wallet.Api.Transfers.Deposits.{or_addresses}
use go_wallet.Api.Transfers.Pending.{pending_addresses, is_pending_tx, pending_transactions}

abbrev pub is_asked : Option ℤ → ℕ → Bool
is_asked none chain = true
is_asked (some n) chain = is_int n chain

-- Whether the user has a wallet on the chain asked for.
abbrev pub has_wallet_on : ℕ → ℤ → List Wallet → Bool
has_wallet_on user n wallets =
    any (λ (v : Wallet). v.user_id == user && is_int n v.chain_id) wallets

-- Whether a deposit to the wallet counts: with a chain asked for on which the user has wallets, to
-- those, and else to all of the user's.
abbrev pub takes : ℕ → Option ℤ → List Wallet → Wallet → Bool
takes user none wallets wallet = true
takes user (some n) wallets wallet = not (has_wallet_on user n wallets) || is_int n wallet.chain_id

-- The address is, in lower case, that of a wallet of the user that counts.
abbrev pub is_own_address : ℕ → Option ℤ → List Wallet → Text → Bool
is_own_address user chain wallets address =
    any
      (λ (v : Wallet).
        v.user_id == user && takes user chain wallets v && text_eq address (to_lower v.address))
      wallets

-- A deposit to the user that is confirmed or safe, on the chain asked for where there is one.
abbrev pub is_expected : ℕ → Option ℤ → List Wallet → Transaction → Bool
is_expected user chain wallets tx =
    is_deposit_tx tx.type
    && (transaction_status_eq tx.status TransactionStatus.confirmed
        || transaction_status_eq tx.status TransactionStatus.safe)
    && is_asked chain tx.chain_id
    && is_own_address user chain wallets tx.to_addr

module _ {A : Type 0} where
  any_same : (p q : A → Bool) → ((x : A) → p x ≡ q x) → (xs : List A) → any p xs ≡ any q xs
  unfolding any
  any_same p q h [] = refl
  any_same p q h (x ∷ xs) = rw (h x, any_same p q h xs) refl

  select_same : (p q : A → Bool) → ((x : A) → p x ≡ q x) → (xs : List A) → select p xs ≡ select q xs
  unfolding select
  select_same p q h [] = refl
  select_same p q h (x ∷ xs) = rw (h x, select_same p q h xs) refl

  select-select :
      (p q : A → Bool) (xs : List A) → select q (select p xs) ≡ select (λ x. p x && q x) xs
  unfolding select
  select-select p q [] = refl
  select-select p q (x ∷ xs) = elim (Bool-cases (p x)) [
    | inl e ↦ rw (e, select-select p q xs) refl
    | inr e ↦ rw (e, select-select p q xs) refl
  ]

  any_of_none : (p : A → Bool) (xs : List A) → select p xs ≡ [] → any p xs ≡ false
  unfolding select any
  any_of_none p [] h = refl
  any_of_none p (x ∷ xs) h = let ih = any_of_none p xs in ground arith

  any_of_some :
      (p : A → Bool) (xs : List A) {y : A} {ys : List A} → select p xs ≡ y ∷ ys → any p xs ≡ true
  unfolding select any
  any_of_some p [] h = absurd (ground arith)
  any_of_some p (x ∷ xs) {y = y} {ys = ys} h =
      let ih = λ (e : select p xs ≡ y ∷ ys). any_of_some p xs e in ground arith

among_selected :
    (p : Wallet → Bool) (address : Text) (wallets : List Wallet)
    → is_among (lower_addresses_of (select p wallets)) address
      ≡ any (λ (v : Wallet). p v && text_eq address (to_lower v.address)) wallets
unfolding is_among select any
among_selected p address [] = refl
among_selected p address (x ∷ xs) = elim (Bool-cases (p x)) [
  | inl e ↦ rw (e, ← among_selected p address xs) refl
  | inr e ↦ rw (e, ← among_selected p address xs) refl
]

module _ (user : ℕ) (wallets : List Wallet) (x : Wallet) (xs : List Wallet)
    (own : select (belongs_to user) wallets ≡ x ∷ xs) (address : Text) where
  to_any :
      among_or_all (lower_addresses_of (x ∷ xs)) address
      ≡ any (λ (v : Wallet). v.user_id == user && text_eq address (to_lower v.address)) wallets
  to_any =
      ap (λ (l : List Wallet). is_among (lower_addresses_of l) address) (sym own)
      ∙ among_selected (belongs_to user) address wallets

  on_chain_lem :
      (n : ℤ) (l : List Wallet)
      → select (λ (v : Wallet). is_int n v.chain_id) (x ∷ xs) ≡ l
      → among_or_all (or_addresses (lower_addresses_of l) (lower_addresses_of (x ∷ xs))) address
        ≡ is_own_address user (some n) wallets address
  on_chain_lem n [] e =
      let q : Wallet → Bool = λ v. is_int n v.chain_id in
      let twice = sym (select-select (belongs_to user) q wallets) ∙ ap (select q) own ∙ e in
      let without : has_wallet_on user n wallets ≡ false =
        any_of_none (λ (v : Wallet). v.user_id == user && q v) wallets twice in
      to_any ∙ any_same _ _ (λ v. rw without (ground arith)) wallets
  on_chain_lem n (y ∷ ys) e =
      let q : Wallet → Bool = λ v. is_int n v.chain_id in
      let both : Wallet → Bool = λ v. v.user_id == user && q v in
      let twice : select both wallets ≡ y ∷ ys =
        sym (select-select (belongs_to user) q wallets) ∙ ap (select q) own ∙ e in
      let has : has_wallet_on user n wallets ≡ true = any_of_some both wallets twice in
      ap (λ (l : List Wallet). is_among (lower_addresses_of l) address) (sym twice)
      ∙ among_selected both address wallets
      ∙ any_same _ _ (λ v. rw has (ground arith)) wallets

  own_lem :
      (chain : Option ℤ)
      → among_or_all (pending_addresses chain (x ∷ xs)) address
        ≡ is_own_address user chain wallets address
  unfolding pending_addresses
  own_lem none = to_any ∙ any_same _ _ (λ v. ground arith) wallets
  own_lem (some n) = on_chain_lem n _ refl

is_asked-meets : (chain : Option ℤ) (m : ℕ) → meets_filter chain m ≡ is_asked chain m
is_asked-meets none m = refl
is_asked-meets (some n) m = refl

-- The deposits that are read for a user with a wallet are the expected ones.
pub pending_transactions-expected :
    (user : ℕ) (chain : Option ℤ) (db : Db) (x : Wallet) (xs : List Wallet)
    → select (belongs_to user) db.wallets ≡ x ∷ xs
    → pending_transactions chain (x ∷ xs) db
      ≡ select (is_expected user chain db.wallets) db.transactions
unfolding pending_transactions
pending_transactions-expected user chain db x xs own =
    select_same (is_pending_tx chain (pending_addresses chain (x ∷ xs)))
      (is_expected user chain db.wallets)
      (λ tx.
        rw (is_asked-meets chain tx.chain_id, own_lem user db.wallets x xs own tx.to_addr chain)
          refl)
      db.transactions
