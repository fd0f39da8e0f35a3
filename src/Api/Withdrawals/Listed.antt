-- ===== src/Api/Withdrawals/Listed.antt =====
-- internal/api/handlers/wallet/get_withdraws.go: which withdrawals a user is shown.
use mathlib.Core.List.{map, reverse, map-append}
use go_wallet.Prelude.{
  ℕ, ℤ, pos, negsuc, ◌+◌, ◌≤◌, Text, true, ==_iff, ◌≡◌, refl, ap, sym, ◌∙◌, Option, none, some,
  List, [], ◌∷◌, ◌++◌, select, length, arith,
}
use go_wallet.Prelude.Rows.Pages.{
  take, drop, length-take, take-drop-append, drop-drop, All, All-select, All-weaken, All-page,
  All-map,
}
use go_wallet.Prelude.Decimal.{atoi}
use go_wallet.Store.{User, Withdraw, Db}
use go_wallet.World.{Env, World, ok, pure, raise, or_raise, query, ◌>>=◌}
use go_wallet.Api.{or_answer, parse_offset}
use go_wallet.Api.Withdrawals.{
  WithdrawItem, withdraw_item, WithdrawQuery, is_listed, limit_of, withdraw_limit, listed_withdraws,
  get_withdraws,
}

limit_of-le : (o : Option ℤ) → limit_of o ≤ 100
limit_of-le none = omega arith
limit_of-le (some (pos k)) = ground arith
limit_of-le (some (negsuc k)) = omega arith

get_withdraws_lem :
    (user : User) (q : WithdrawQuery) (env : Env) (w : World) {items : List WithdrawItem}
    → (get_withdraws (some user) q env w).0 ≡ ok items
    → items ≡ map withdraw_item (listed_withdraws user q w.db)
unfolding get_withdraws or_answer query or_raise pure raise ◌>>=◌
get_withdraws_lem user q env w h = ground arith

length-map : (xs : List Withdraw) → length (map withdraw_item xs) ≡ length xs
length-map [] = refl
length-map (x ∷ xs) = omega (arith, length-map xs)

-- A user is shown at most 100 withdrawals at a time, and only the user's own.
pub get_withdraws-own :
    (user : User) (q : WithdrawQuery) (env : Env) (w : World) {items : List WithdrawItem}
    → (get_withdraws (some user) q env w).0 ≡ ok items
    → All (λ (x : WithdrawItem). x.user_id ≡ user.id) items × (length items ≤ 100)
unfolding listed_withdraws is_listed withdraw_limit
get_withdraws-own user q env w h =
    let rows = select (is_listed user q) w.db.withdraws in
    let limit = withdraw_limit q.limit in
    let shown = take limit (drop (parse_offset q.offset) (reverse rows)) in
    let own : All (λ (x : Withdraw). x.user_id ≡ user.id) rows =
      All-weaken (λ (x : Withdraw). is_listed user q x ≡ true) (λ x. x.user_id ≡ user.id)
        (λ x e. (==_iff x.user_id user.id).0 (ground arith)) rows
        (All-select (is_listed user q) w.db.withdraws) in
    rw (get_withdraws_lem user q env w h) (
      All-map withdraw_item (λ (x : WithdrawItem). x.user_id ≡ user.id) shown
          (All-page (λ (x : Withdraw). x.user_id ≡ user.id) limit (parse_offset q.offset) rows own),
      omega (
        arith,
        length-map shown,
        length-take limit (drop (parse_offset q.offset) (reverse rows)),
        limit_of-le (atoi q.limit),
      ),
    )

-- A page and the one whose offset is the page's end, asked for with the same filters while the
-- withdrawals stay the same, are together the page of twice the size: no withdrawal is shown twice,
-- and none is left out between them.
get_withdraws_pages :
    (user : User) (q : WithdrawQuery) (offset : Text) (env env' : Env) (w w' : World)
    {items items' : List WithdrawItem}
    → w'.db ≡ w.db
    → parse_offset offset ≡ parse_offset q.offset + withdraw_limit q.limit
    → (get_withdraws (some user) q env w).0 ≡ ok items
    → (get_withdraws (some user) (record q { offset = offset }) env' w').0 ≡ ok items'
    → items ++ items'
      ≡ map withdraw_item (
          take
            (withdraw_limit q.limit + withdraw_limit q.limit)
            (drop (parse_offset q.offset) (reverse (select (is_listed user q) w.db.withdraws))))
unfolding listed_withdraws is_listed
get_withdraws_pages user q offset env env' w w' {items' = items'} same next h h' =
    let q' : WithdrawQuery = record q { offset = offset } in
    let limit = withdraw_limit q.limit in
    let rows = reverse (select (is_listed user q) w.db.withdraws) in
    let start = parse_offset q.offset in
    let first_page = get_withdraws_lem user q env w h in
    let second_page : items' ≡ map withdraw_item (take limit (drop limit (drop start rows))) =
      get_withdraws_lem user q' env' w' h'
      ∙ ap (λ (db : Db). map withdraw_item (listed_withdraws user q' db)) same
      ∙ ap (λ (n : ℕ). map withdraw_item (take limit (drop n rows))) next
      ∙ ap (λ (xs : List Withdraw). map withdraw_item (take limit xs))
          (sym (drop-drop start limit rows)) in
    rw (first_page, second_page)
      (sym (map-append withdraw_item (take limit (drop start rows)) _)
        ∙ ap (map withdraw_item) (take-drop-append limit limit (drop start rows)))
