-- ===== src/Rebalance/Moves.antt =====
-- internal/wallet/rebalance/service.go: what a rebalancing sends, and what it writes.
use go_wallet.Prelude.{ℕ, ◌+◌, ◌*◌, ◌≤◌, ◌≡◌, refl, arith, to_lower, leb→le, some, none}
use go_wallet.Store.{Wallet, TransactionType, Db}
use go_wallet.World.{
  Env, World, SignRequest, query, query_one, statement, commit, pure, call, get_client, rpc_failure,
}
use go_wallet.World.Loops.{either_end, bind_keeps}
use go_wallet.World.Transfer.{send_and_wait}
use go_wallet.World.Sent.{
  Within, later, ask-Within, asked-Within, guard-Within, read-Within, send_and_wait-Within,
  suggest_fees-Within, insert_transfer-Within,
}
use go_wallet.HotWallet.{get_next_nonce}
use go_wallet.Rebalance.{
  rebalance_gas_buffer, transfer_funded, transfer_between_hot_wallets, insufficient_source_balance,
  insufficient_gas,
}

-- A transfer of `amount` from `source` to `target`, which the balance that the node told for the
-- source covers together with the gas buffer, and together with the highest fee.
pub record IsMove (env : Env) (source target : Wallet) (amount : ℕ) (r : SignRequest) : Type 0 where
  pub value : r.value ≡ amount
  pub to : r.to ≡ env.checksum (to_lower target.address)
  pub sender : r.from_address ≡ env.checksum (to_lower source.address)
  pub key : r.derivation_path ≡ source.derivation_path
  pub on_chain : r.chain_id ≡ source.chain_id
  pub plain : r.call_data ≡ none
  pub funded :
      (t : ℕ) × (balance : ℕ) × (env.balance_at t (to_lower source.address) ≡ some balance)
      × (amount + rebalance_gas_buffer ≤ balance)
      × (amount + r.gas_limit * r.max_fee ≤ balance)

-- The users' money and the wallets are what they were.
pub record SameFunds (old : Db) (new : Db) : Type 0 where
  pub withdraws : new.withdraws ≡ old.withdraws
  pub credits : new.credits ≡ old.credits
  pub wallets : new.wallets ≡ old.wallets

abbrev pub Fine : (SignRequest → Type 0) → World → World → Type 0
Fine P start = Within P (SameFunds start.db) start

module _ (env : Env) (P : SignRequest → Type 0) (start : World) where
  get_next_nonce-Within :
      (address : _) (chain : ℕ) (w : World)
      → Fine P start w
      → Fine P start (get_next_nonce address chain env w).1
  unfolding get_next_nonce statement query query_one commit pure
  get_next_nonce-Within address chain w h =
      bind_keeps env (Fine P start) statement _ w (later P _ start env w (w.tick + 1) h) λ _ w₁ h₁.
        bind_keeps env (Fine P start) (query_one _) _ w₁ (later P _ start env w₁ (w₁.tick + 1) h₁)
          λ row w₂ h₂.
            bind_keeps env (Fine P start) statement _ w₂ (later P _ start env w₂ (w₂.tick + 1) h₂)
              λ _ w₃ h₃.
                bind_keeps env (Fine P start) (commit _) _ w₃
                  (either_end (Fine P start) (env.db_fails w₃.tick) _ _
                    (later P _ start env w₃ (w₃.tick + 1) h₃)
                    (record {
                      sent = h₃.sent;
                      tables = record {
                        withdraws = h₃.tables.withdraws;
                        credits = h₃.tables.credits;
                        wallets = h₃.tables.wallets;
                      };
                    }))
                  λ _ w₄ h₄. h₄

  pub transfer-Within :
      (source target : Wallet) (amount : ℕ) (w : World)
      → ((r : SignRequest) → IsMove env source target amount r → P r)
      → Fine P start w
      → Fine P start (transfer_between_hot_wallets source target amount env w).1
  unfolding transfer_between_hot_wallets transfer_funded get_client call
  transfer-Within source target amount w moves h =
      ask-Within P (SameFunds start.db) start env _ rpc_failure _ w h λ _ w₁ h₁.
        asked-Within P (SameFunds start.db) start env _ rpc_failure _ w₁ h₁ λ balance w₂ told h₂.
          guard-Within P (SameFunds start.db) start env _ insufficient_source_balance _ w₂ h₂
            λ buffered. suggest_fees-Within P (SameFunds start.db) start env _ w₂ h₂ λ fees w₃ h₃.
              guard-Within P (SameFunds start.db) start env _ insufficient_gas _ w₃ h₃ λ enough.
                bind_keeps env (Fine P start)
                  (get_next_nonce (to_lower source.address) source.chain_id) _ w₃
                  (get_next_nonce-Within _ _ w₃ h₃)
                  λ nonce w₄ h₄. read-Within P (SameFunds start.db) start env _ _ w₄ (
                    bind_keeps env (Fine P start) (send_and_wait _) _ w₄
                      (send_and_wait-Within P (SameFunds start.db) start env _ w₄
                        (moves _ (record {
                          value = refl;
                          to = refl;
                          sender = refl;
                          key = refl;
                          on_chain = refl;
                          plain = refl;
                          funded = (
                            w₁.tick,
                            balance,
                            told,
                            leb→le _ _ buffered,
                            omega (arith, leb→le _ _ enough),
                          );
                        }))
                        h₄)
                      λ done w₅ h₅.
                        insert_transfer-Within P (SameFunds start.db) start env
                          (λ db ts k. record {
                            withdraws = k.withdraws;
                            credits = k.credits;
                            wallets = k.wallets;
                          })
                          TransactionType.rebalance source target amount none done.0 done.1 w₅ h₅)
