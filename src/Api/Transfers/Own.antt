-- ===== src/Api/Transfers/Own.antt =====
-- internal/api/handlers/wallet: whose transactions a user is shown.
use mathlib.Core.List.{map}
use go_wallet.Prelude.{
  ℕ, ℤ, Text, Bool, true, false, ◌&&◌, ◌≡◌, refl, ap, ◌∙◌, sym, ◌⊎◌, inl, inr, Bool-cases, List, [],
  ◌∷◌, ◌==◌, any, Option, none, some, select, text_eq, to_lower, arith,
}
use go_wallet.Prelude.Rows.Pages.{All, All-select, All-weaken, All-page, All-map}
use go_wallet.Store.{User, Wallet, Transaction, Db}
use go_wallet.World.{Env, World, Result, ok, pure, raise, or_raise, query, ◌>>=◌}
use go_wallet.World.Bind.{>>=-ok}
use go_wallet.World.Yields.{ok_inj}
use go_wallet.Api.{is_admin, parse_offset, parse_limit}
use go_wallet.Api.Transfers.{TransferQuery, chain_filter, chain_filter-same, is_among}
use go_wallet.Api.Transfers.Collects.{
  CollectItem, collect_item, unique_addresses, is_wallet_of, get_user_wallets,
  apply_chain_id_filter, restrict_to, is_listed_collect, listed_collects, list_collects, no_address,
  first_addresses, collects_from, get_collects,
}

-- The address of a wallet of the user, in lower case.
unfoldable pub own_address : ℕ → List Wallet → Text → Bool
own_address user wallets address =
    any (λ (w : Wallet). w.user_id == user && text_eq address (to_lower w.address)) wallets

unique_own :
    (user : ℕ) (chain : Option ℤ) (address : Text) (seen : List Text) (wallets : List Wallet)
    → is_among (unique_addresses seen (select (is_wallet_of user chain) wallets)) address ≡ true
    → own_address user wallets address ≡ true
unfolding is_among unique_addresses select own_address any
unique_own user chain address seen [] h = h
unique_own user chain address seen (x ∷ xs) h = elim (Bool-cases (is_wallet_of user chain x)) [
  | inl e ↦ let ih = unique_own user chain address (to_lower x.address ∷ seen) xs in ground arith
  | inr e ↦ let ih = unique_own user chain address seen xs in ground arith
]

list_collects_lem :
    (q : TransferQuery) (admin : Bool) (chain : Option ℤ) (addresses : List Text) (env : Env)
    (w : World) {items : List CollectItem}
    → (list_collects q admin (chain, addresses) env w).0 ≡ ok items
    → (items ≡ []) ⊎ (items ≡ map collect_item (listed_collects q chain admin addresses w.db))
unfolding list_collects pure raise query ◌>>=◌
list_collects_lem q admin chain addresses env w h = elim (Bool-cases (no_address admin addresses)) [
  | inl e ↦ inl (ground arith)
  | inr e ↦ inr (ground arith)
]

-- What is listed for a user who is no administrator comes from the addresses given.
list_collects-among :
    (q : TransferQuery) (chain : Option ℤ) (addresses : List Text) (env : Env) (w : World)
    {items : List CollectItem}
    → (list_collects q false (chain, addresses) env w).0 ≡ ok items
    → All (λ (x : CollectItem). is_among addresses x.from_addr ≡ true) items
unfolding listed_collects
list_collects-among q chain addresses env w h =
    let P : Transaction → Type 0 = λ tx. is_among addresses tx.from_addr ≡ true in
    let test = is_listed_collect q chain false addresses in
    let rows = select test w.db.transactions in
    let met : All P rows =
      All-weaken (λ (tx : Transaction). test tx ≡ true) P (λ tx e. ground arith) rows
        (All-select test w.db.transactions) in
    elim (list_collects_lem q false chain addresses env w h) [
      | inl none_listed ↦ rw none_listed tt
      | inr listed ↦ rw listed (
          All-map collect_item (λ (x : CollectItem). is_among addresses x.from_addr ≡ true) _
            (All-page P (parse_limit q.limit) (parse_offset q.offset) rows met))
    ]

-- The addresses a user's wallets are read as are the user's own, and nothing else changes.
get_user_wallets-own :
    (user : ℕ) (chain : Option ℤ) (env : Env) (w : World) {addresses : List Text}
    → (get_user_wallets user chain env w).0 ≡ ok addresses
    → ((address : Text)
        → is_among addresses address ≡ true
        → own_address user w.db.wallets address ≡ true)
      × ((get_user_wallets user chain env w).1.db ≡ w.db)
unfolding get_user_wallets query
get_user_wallets-own user chain env w {addresses = addresses} h =
    let found : addresses ≡ unique_addresses [] (select (is_wallet_of user chain) w.db.wallets) =
      ground arith in
    (λ address among. unique_own user chain address [] w.db.wallets (rw (← found) among), refl)

abbrev AreOwn : ℕ → World → List Text → Type 0
AreOwn user w addresses =
    (address : Text)
    → is_among addresses address ≡ true
    → own_address user w.db.wallets address ≡ true

restrict_to-own :
    (user : ℕ) (given : List Text) (asked : Option ℤ) (env : Env) (w : World) {chain : Option ℤ}
    {addresses : List Text}
    → AreOwn user w given
    → (restrict_to false user given asked env w).0 ≡ ok (chain, addresses)
    → AreOwn user w addresses × ((restrict_to false user given asked env w).1.db ≡ w.db)
unfolding restrict_to pure
restrict_to-own user given none env w own h = (
  λ address among. own address (rw (ap (λ (p : Option ℤ × List Text). p.1) (ok_inj h)) among),
  refl,
)
restrict_to-own user given (some n) env w {addresses = addresses} own h =
    let (found, first, rest) =
      >>=-ok (get_user_wallets user (some n))
        (λ (l : List Text). pure {A = Option ℤ × List Text} (some n, l)) env w h in
    let (all_own, same) = get_user_wallets-own user (some n) env w first in
    let is_found : found ≡ addresses =
      ap (λ (p : Option ℤ × List Text). p.1)
        (ok_inj (sym (ap (λ (r : Result (Option ℤ × List Text) × World). r.0) rest) ∙ h)) in
    (
      λ address among. all_own address (rw is_found among),
      ap (λ (r : Result (Option ℤ × List Text) × World). r.1.db) rest ∙ same,
    )

restricted_own :
    (text : Text) (user : ℕ) (given : List Text) (env : Env) (w : World) {chain : Option ℤ}
    {addresses : List Text}
    → AreOwn user w given
    → (apply_chain_id_filter text false user given env w).0 ≡ ok (chain, addresses)
    → AreOwn user w addresses × ((apply_chain_id_filter text false user given env w).1.db ≡ w.db)
unfolding apply_chain_id_filter
restricted_own text user given env w {chain = chain} own h =
    let (asked, first, rest) = >>=-ok (chain_filter text) (restrict_to false user given) env w h in
    let reached : apply_chain_id_filter text false user given env w
        ≡ restrict_to false user given asked env w =
      rest ∙ ap (restrict_to false user given asked env) (chain_filter-same text env w) in
    rw reached (restrict_to-own user given asked env w {chain = chain} own (rw (← reached) h))

collects_from-own :
    (q : TransferQuery) (user : ℕ) (given : List Text) (env : Env) (w : World)
    {items : List CollectItem}
    → AreOwn user w given
    → (collects_from q false user given env w).0 ≡ ok items
    → All (λ (x : CollectItem). own_address user w.db.wallets x.from_addr ≡ true) items
unfolding collects_from pure
collects_from-own q user [] env w own h = rw (← ok_inj h) tt
collects_from-own q user (a ∷ others) env w {items = items} own h =
    let filtered = apply_chain_id_filter q.chain_id false user (a ∷ others) in
    let ((chain, addresses), first, rest) = >>=-ok filtered (list_collects q false) env w h in
    let (all_own, same) = restricted_own q.chain_id user (a ∷ others) env w own first in
    All-weaken (λ (x : CollectItem). is_among addresses x.from_addr ≡ true)
      (λ (x : CollectItem). own_address user w.db.wallets x.from_addr ≡ true)
      (λ x among. all_own x.from_addr among) items
      (list_collects-among q chain addresses env (filtered env w).1
        (sym (ap (λ (r : Result (List CollectItem) × World). r.0) rest) ∙ h))

get_collects_lem :
    (user : User) (q : TransferQuery) (env : Env) (w : World)
    → is_admin user.role ≡ false
    → get_collects (some user) q env w
      ≡ (get_user_wallets user.id none >>= collects_from q false user.id) env w
unfolding get_collects first_addresses or_raise ◌>>=◌
get_collects_lem user q env w other = rw other refl

-- A user who is no administrator is shown only collections that left the address of one of the
-- user's own wallets, with every filter on the chain, the status and the page.
pub get_collects-own :
    (user : User) (q : TransferQuery) (env : Env) (w : World) {items : List CollectItem}
    → is_admin user.role ≡ false
    → (get_collects (some user) q env w).0 ≡ ok items
    → All (λ (x : CollectItem). own_address user.id w.db.wallets x.from_addr ≡ true) items
get_collects-own user q env w {items = items} other h =
    let wallets = get_user_wallets user.id none in
    let (given, first, rest) =
      >>=-ok wallets (collects_from q false user.id) env w
        (rw (get_collects_lem user q env w other) at h) in
    let (own, same) = get_user_wallets-own user.id none env w first in
    let listed : (collects_from q false user.id given env (wallets env w).1).0 ≡ ok items =
      sym (ap (λ (r : Result (List CollectItem) × World). r.0) rest)
      ∙ (rw (get_collects_lem user q env w other) at h) in
    rw (← ap (λ (db : Db). db.wallets) same) (
      collects_from-own q user.id given env (wallets env w).1
        (rw (ap (λ (db : Db). db.wallets) same) own) listed)
