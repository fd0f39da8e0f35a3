-- ===== src/Queries.antt =====
-- Searches that several services make.
use go_wallet.Prelude.{
  ℕ, Text, Bool, ◌&&◌, not, Option, none, some, List, ◌==◌, text_eq, first, any,
}
use go_wallet.Store.{Transaction, Token, Chain, Db}

abbrev pub token_by_id : ℕ → Db → Option Token
token_by_id id db = first (λ (t : Token). t.id == id) db.tokens

abbrev pub number_or : Option ℕ → ℕ → ℕ
number_or none d = d
number_or (some n) d = n

abbrev pub text_or_empty : Option Text → Text
text_or_empty none = List.[]
text_or_empty (some t) = t

abbrev pub chain_by_id : ℕ → Db → Option Chain
chain_by_id id db = first (λ (c : Chain). c.chain_id == id) db.chains

-- The unique key of `transactions`.
abbrev pub transaction_key_free : Text → ℕ → Db → Bool
transaction_key_free hash chain db =
    not (any (λ (t : Transaction). text_eq t.tx_hash hash && t.chain_id == chain) db.transactions)
