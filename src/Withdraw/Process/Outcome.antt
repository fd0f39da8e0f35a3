-- ===== src/Withdraw/Process/Outcome.antt =====
-- internal/wallet/withdraw/service.go, `ProcessWithdraw`: how it ends, by what it finds.
use mathlib.Core.Path.{subst, sym}
use go_wallet.Prelude.{
  ◌==◌, ==_iff, ℕ, ◌+◌, ◌≤◌, ◌≡◌, inl, inr, some, none, Option-cases, modify, length, suc, first,
  arith, ◌≢◌, ◌⊎◌,
}
use go_wallet.Store.{Withdraw, Wallet, Token, WithdrawStatus, Db}
use go_wallet.World.{
  Env, World, ok, err, Error, pure, raise, or_raise, ask, call, guard, query, query_one, if_no_rows,
  statement, commit, send, get_client, ◌>>=◌, db_failure,
}
use go_wallet.HotWallet.{get_hot_wallet, get_next_nonce, is_hot_wallet}
use go_wallet.Withdraw.Process.{
  process_withdraw, pay, spend, prepare, build_request, broadcast, check_hot_wallet_balance,
  save_withdraw, broadcasted, withdraw_by_id, token_by_id, bad_status,
}
use go_wallet.Withdraw.Process.Payment.{Paid, pay-Paid}
use go_wallet.HotWallet.Nonces.{advanced}
use go_wallet.Prelude.Rows.Find.{first_meets, first-modify}

-- A processing that fails changes no table but the nonces, and has sent at most one transaction.
pub process_withdraw-error :
    (id : ℕ) (env : Env) (w : World) {e : Error}
    → (process_withdraw id env w).0 ≡ err e
    → let w' = (process_withdraw id env w).1 in
      (w'.db ≡ record w.db { nonces = w'.db.nonces }) × (length w'.sent ≤ suc (length w.sent))
unfolding process_withdraw pay spend prepare build_request broadcast check_hot_wallet_balance
    get_hot_wallet get_next_nonce pure raise or_raise ask call guard query query_one if_no_rows
    statement commit send get_client ◌>>=◌
process_withdraw-error id env w h = (ground arith, ground arith)

-- What a processing that succeeds has found, and how it paid.
pub record Processed (id : ℕ) (w w' : World) : Type 0 where
  pub x : Withdraw
  pub hot : Wallet
  pub token : Token
  pub found : withdraw_by_id id w.db ≡ some x
  pub requested : x.status ≡ WithdrawStatus.user_withdraw_request
  pub hot_found : first (is_hot_wallet x.chain_id) w.db.wallets ≡ some hot
  pub token_found : token_by_id x.token_id w.db ≡ some token
  pub paid : Paid x hot token w.db w.sent w'

process_lem :
    (id : ℕ) (env : Env) (w : World) {x : Withdraw} {hot : Wallet} {token : Token}
    → withdraw_by_id id w.db ≡ some x
    → first (is_hot_wallet x.chain_id) w.db.wallets ≡ some hot
    → token_by_id x.token_id w.db ≡ some token
    → (process_withdraw id env w).0 ≡ ok tt
    → (x.status ≡ WithdrawStatus.user_withdraw_request)
      × (process_withdraw id env w
          ≡ pay x hot token env (record w { tick = w.tick + 1 + 1 + 1 + 1 + 1 }))
unfolding process_withdraw get_hot_wallet get_client call ask guard query query_one if_no_rows
    statement ◌>>=◌
process_lem id env w a b c h = (ground arith, ground arith)

no_withdraw :
    (id : ℕ) (env : Env) (w : World)
    → withdraw_by_id id w.db ≡ none
    → (process_withdraw id env w).0 ≡ ok tt
    → ⊥
unfolding process_withdraw query_one query statement ◌>>=◌
no_withdraw id env w m h = ground arith

no_hot :
    (id : ℕ) (env : Env) (w : World) {x : Withdraw}
    → withdraw_by_id id w.db ≡ some x
    → first (is_hot_wallet x.chain_id) w.db.wallets ≡ none
    → (process_withdraw id env w).0 ≡ ok tt
    → ⊥
unfolding process_withdraw get_hot_wallet guard if_no_rows query_one query statement ◌>>=◌
no_hot id env w f m h = ground arith

no_token :
    (id : ℕ) (env : Env) (w : World) {x : Withdraw}
    → withdraw_by_id id w.db ≡ some x
    → token_by_id x.token_id w.db ≡ none
    → (process_withdraw id env w).0 ≡ ok tt
    → ⊥
unfolding process_withdraw get_hot_wallet get_client call ask guard if_no_rows query_one query
    statement ◌>>=◌
no_token id env w f m h = ground arith

-- A processing that succeeds has found the withdrawal in the requested state.
pub process_withdraw-Processed :
    (id : ℕ) (env : Env) (w : World)
    → (process_withdraw id env w).0 ≡ ok tt
    → Processed id w (process_withdraw id env w).1
process_withdraw-Processed id env w h = elim (Option-cases (withdraw_by_id id w.db)) [
  | inl m ↦ absurd (no_withdraw id env w m h)
  | inr (x, f) ↦ elim (Option-cases (first (is_hot_wallet x.chain_id) w.db.wallets)) [
    | inl m ↦ absurd (no_hot id env w f m h)
    | inr (hot, g) ↦ elim (Option-cases (token_by_id x.token_id w.db)) [
      | inl m ↦ absurd (no_token id env w f m h)
      | inr (token, k) ↦
          let (s, e) = process_lem id env w f g k h in
          let w₁ : World = record w { tick = w.tick + 1 + 1 + 1 + 1 + 1 } in
          record {
            x = x;
            hot = hot;
            token = token;
            found = f;
            requested = s;
            hot_found = g;
            token_found = k;
            paid = rw e (pay-Paid x hot token env w₁ (rw e at h));
          }
    ]
  ]
]

-- A row that is saved is found under its number.
pub saved_found :
    (id : ℕ) (x y : Withdraw) (db : Db)
    → y.id ≡ id
    → withdraw_by_id id db ≡ some x
    → withdraw_by_id id (save_withdraw y db) ≡ some y
saved_found id x y db e f =
    subst
      (λ (n : ℕ).
        first (λ (z : Withdraw). z.id == id)
          (modify (λ (z : Withdraw). z.id == n) (λ _. y) db.withdraws)
        ≡ some y)
      (sym e) (first-modify (λ (z : Withdraw). z.id == id) y db.withdraws f ((==_iff y.id id).1 e))

pub withdraw_id_of : (id : ℕ) (x : Withdraw) (db : Db) → withdraw_by_id id db ≡ some x → x.id ≡ id
withdraw_id_of id x db f =
    (==_iff x.id id).0 (first_meets (λ (y : Withdraw). y.id == id) db.withdraws f)

-- The withdrawal as it is found once it is processed.
pub Processed-found :
    (id : ℕ) (w w' : World) (p : Processed id w w')
    → withdraw_by_id id w'.db ≡ some (broadcasted p.x p.hot p.paid.hash p.paid.row.nonce)
Processed-found id w w' p = rw p.paid.written (
    saved_found id p.x (broadcasted p.x p.hot p.paid.hash p.paid.row.nonce)
      (advanced p.paid.row w.db) (withdraw_id_of id p.x w.db p.found) p.found)

refused_unless_requested :
    (id : ℕ) (env : Env) (w : World) {x : Withdraw}
    → withdraw_by_id id w.db ≡ some x
    → x.status ≢ WithdrawStatus.user_withdraw_request
    → let (r, w') = process_withdraw id env w in
      ((r ≡ err bad_status) ⊎ (r ≡ err db_failure)) × (w'.sent ≡ w.sent) × (w'.db ≡ w.db)
unfolding process_withdraw guard query_one query statement ◌>>=◌
refused_unless_requested id env w f n = (ground arith, ground arith, ground arith)

-- A withdrawal whose processing has succeeded is not paid again: a further processing, with any
-- answers of the node and the database, fails, sends nothing and changes no table.
pub process_withdraw_once :
    (id : ℕ) (env env' : Env) (w : World)
    → (process_withdraw id env w).0 ≡ ok tt
    → let w' = (process_withdraw id env w).1 in
      let (r, w'') = process_withdraw id env' w' in
      ((r ≡ err bad_status) ⊎ (r ≡ err db_failure)) × (w''.sent ≡ w'.sent) × (w''.db ≡ w'.db)
process_withdraw_once id env env' w h =
    refused_unless_requested id env' (process_withdraw id env w).1
      (Processed-found id w _ (process_withdraw-Processed id env w h)) (λ e. cc)
