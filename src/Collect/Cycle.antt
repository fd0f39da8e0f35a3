-- ===== src/Collect/Cycle.antt =====
-- internal/wallet/collect/service.go, `CollectForChain`: all that one cycle sends and writes.
use go_wallet.Prelude.{
  ◌∙◌, sym, ap, ℕ, ◌+◌, ◌≡◌, ◌⊎◌, inl, inr, arith, some, List, [], ◌∷◌, first, select, true, ==_iff,
  refl,
}
use go_wallet.Prelude.Rows.Find.{first_meets}
use go_wallet.Prelude.Rows.Pages.{All, All-weaken, In, All-In}
use go_wallet.World.Bind.{query_answer}
use go_wallet.Store.{Wallet, WalletType, Token, Db, is_user_type}
use go_wallet.World.{Env, World, SignRequest, ok, query, pure, query_one, if_no_rows, for_each}
use go_wallet.World.Loops.{bind_keeps, bind_keeps_by}
use go_wallet.World.Sent.{Extends, Within, later}
use go_wallet.HotWallet.{get_hot_wallet, is_hot_wallet, of_hot_wallet}
use go_wallet.Collect.Tokens.{IsTokenSweep, IsTopUp, collect_both-Within}
use go_wallet.Collect.Sweeps.{IsSweep, OnlyTransactions, only_start}
use go_wallet.Collect.{insufficient_hot_balance, get_hot_wallet, query_one}
use mathlib.Core.Path.{subst}
use go_wallet.Collect

-- A wallet of the table that is a user's on the chain.
abbrev pub IsUserWallet : ℕ → Db → Wallet → Type 0
IsUserWallet chain old wallet =
    In wallet old.wallets × (wallet.chain_id ≡ chain) × (wallet.wallet_type ≡ WalletType.user)

-- What a collection may send: a user wallet's coins or tokens to the hot wallet, or the hot wallet's
-- coins to a user wallet that lacks the gas.
abbrev pub Collects : Env → ℕ → Db → Wallet → SignRequest → Type 0
Collects env chain old hot r =
    (hot.chain_id ≡ chain)
    × (hot.wallet_type ≡ WalletType.hot)
    × (wallet : Wallet) × IsUserWallet chain old wallet
    × (IsSweep env hot wallet r ⊎ (IsTokenSweep env hot wallet r ⊎ IsTopUp env hot wallet r))

of_user_type : (t : WalletType) → is_user_type t ≡ true → t ≡ WalletType.user
of_user_type WalletType.user h = refl
of_user_type WalletType.hot h = absurd (ground arith)
of_user_type WalletType.cold h = absurd (ground arith)

hot_lem :
    (chain : ℕ) (wallets : List Wallet) {hot : Wallet}
    → first (is_hot_wallet chain) wallets ≡ some hot
    → (hot.chain_id ≡ chain) × (hot.wallet_type ≡ WalletType.hot)
hot_lem chain wallets {hot = hot} h =
    of_hot_wallet chain hot (first_meets (is_hot_wallet chain) wallets h)

-- For one user's wallet after the other.
collect_each-Within :
    (env : Env) (chain : ℕ) (hot : Wallet) (tokens : List Token) (wallets : List Wallet)
    (start w : World)
    → first (is_hot_wallet chain) start.db.wallets ≡ some hot
    → All (IsUserWallet chain start.db) wallets
    → Within (Collects env chain start.db hot) (OnlyTransactions start.db) start w
    → Within
        (Collects env chain start.db hot)
        (OnlyTransactions start.db)
        start
        (for_each (Collect.collect_both hot tokens) wallets env w).1
unfolding for_each
collect_each-Within env chain hot tokens [] start w f own h = h
collect_each-Within env chain hot tokens (wallet ∷ wallets) start w f (mine, own) h =
    let (on, kind) = hot_lem chain start.db.wallets f in
    collect_each-Within env chain hot tokens wallets start _ f own (
      collect_both-Within env (Collects env chain start.db hot) start wallet hot
        (λ r s. (on, kind, wallet, mine, inl s)) (λ r s. (on, kind, wallet, mine, inr (inl s)))
        (λ r s. (on, kind, wallet, mine, inr (inr s))) tokens w h)

get_hot_wallet-first :
    (env : Env) (chain : ℕ) (w : World) {x : Wallet}
    → (get_hot_wallet chain env w).0 ≡ ok x
    → first (is_hot_wallet chain) w.db.wallets ≡ some x
unfolding get_hot_wallet if_no_rows query_one
get_hot_wallet-first env chain w h = ground arith

collect_wallets-Within :
    (env : Env) (chain : ℕ) (hot : Wallet) (wallets : List Wallet) (start w : World)
    → first (is_hot_wallet chain) start.db.wallets ≡ some hot
    → All (IsUserWallet chain start.db) wallets
    → Within (Collects env chain start.db hot) (OnlyTransactions start.db) start w
    → Within
        (Collects env chain start.db hot)
        (OnlyTransactions start.db)
        start
        (Collect.collect_wallets chain wallets env w).1
unfolding Collect.collect_wallets query pure get_hot_wallet if_no_rows query_one
collect_wallets-Within env chain hot [] start w f own h = h
collect_wallets-Within env chain hot (wallet ∷ wallets) start w f own h =
    bind_keeps env Fair (query _) _ w (later _ _ _ env w (w.tick + 1) h) λ tokens w₁ h₁.
      bind_keeps_by env Fair (get_hot_wallet chain) _ w₁ (later _ _ _ env w₁ (w₁.tick + 1) h₁)
        λ found w₂ e h₂.
          let same =
            ap (first (is_hot_wallet chain)) (sym h₁.tables.wallets)
            ∙ get_hot_wallet-first env chain w₁ e in
          all_of tokens found (cc) w₂ h₂
  where
    Fair : World → Type 0
    Fair = Within (Collects env chain start.db hot) (OnlyTransactions start.db) start

    all_of :
        (tokens : List Token) (found : Wallet)
        → hot ≡ found
        → (v : World) → Fair v
        → Fair (for_each (Collect.collect_both found tokens) (wallet ∷ wallets) env v).1
    all_of tokens found e v k =
        subst (λ x. Fair (for_each (Collect.collect_both x tokens) (wallet ∷ wallets) env v).1) e
          (collect_each-Within env chain hot tokens (wallet ∷ wallets) start v f own k)

user_wallets :
    (chain : ℕ) (db : Db)
    → All (IsUserWallet chain db) (select (Collect.is_user_wallet chain) db.wallets)
user_wallets chain db =
    All-weaken (λ (x : Wallet). In x db.wallets × (Collect.is_user_wallet chain x ≡ true))
      (IsUserWallet chain db)
      (λ x h. (
        h.0,
        (==_iff x.chain_id chain).0 (let e = h.1 in ground arith),
        of_user_type x.wallet_type (let e = h.1 in ground arith),
      ))
      (select (Collect.is_user_wallet chain) db.wallets)
      (All-In (Collect.is_user_wallet chain) db.wallets)

-- Whichever calls fail, a collection on a chain whose first hot wallet is `hot` sends nothing but,
-- for wallets of the table that are users' wallets on the chain, a wallet's whole balance, less the
-- fee and not below the minimum, to `hot`, a wallet's whole balance of a token to `hot`, and top-ups
-- of a wallet's gas from `hot`, under a nonce that the node told; and it leaves the users'
-- withdrawals and credits, the wallets and their stored nonces alone.
pub collect_for_chain-Within :
    (env : Env) (chain : ℕ) (hot : Wallet) (w : World)
    → first (is_hot_wallet chain) w.db.wallets ≡ some hot
    → Within
        (Collects env chain w.db hot)
        (OnlyTransactions w.db)
        w
        (Collect.collect_for_chain chain env w).1
unfolding Collect.collect_for_chain query
collect_for_chain-Within env chain hot w h =
    bind_keeps_by env (Within (Collects env chain w.db hot) (OnlyTransactions w.db) w)
      (query (λ db. select (Collect.is_user_wallet chain) db.wallets)) _ w
      (record { sent = Extends.same; tables = only_start w.db })
      λ wallets w₁ e h₁.
        collect_wallets-Within env chain hot wallets w w₁ h
          (rw (query_answer (λ db. select (Collect.is_user_wallet chain) db.wallets) env w e)
            (user_wallets chain w.db))
          h₁
