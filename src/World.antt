-- ===== src/World.antt =====
-- How an operation runs: against the database, the RPC node and the signer, each call of which may
-- fail. A call reads the environment at the current tick and takes one tick, so a value of `Env`
-- fixes the answers of every call there will be, and a theorem over all of them covers every
-- pattern of failures. A transaction's writes are applied by `commit`, and a return before that is
-- the deferred rollback.
use go_wallet.Prelude.Bytes.{Bytes}
use go_wallet.Prelude.{
  ℕ, ◌+◌, ℤ, Text, Bool, Option, none, some, List, [], ◌∷◌, if◌then◌else◌, insert,
}
use go_wallet.Store.{Db}
pub mod Bind
pub mod Loops
pub mod Transaction
pub mod Transfer
pub mod Yields
pub mod Sent

pub data Error : Type 0 where
  -- `sql.ErrNoRows`, any other error of the database, a violated UNIQUE constraint
  no_rows db_failure not_unique : Error
  -- the RPC node, the signer, a missing receipt
  rpc_failure sign_failure receipt_missing : Error
  -- `errors.New` and `errors.Errorf` of the services
  invalid_amount token_not_found insufficient_balance bad_status no_base_fee : Error
  insufficient_hot_balance insufficient_token_balance insufficient_gas token_address_invalid : Error
  withdraw_not_found nothing_frozen no_hot_wallet bad_amount wallet_not_found : Error
  seed_missing derive_failure chain_not_found user_wallet_only receipt_timeout : Error
  insufficient_source_balance top_up_failed invalid_request signing_disabled no_urls no_client :
      Error
  -- the answers of the accounts to a request
  unauthorized user_deactivated not_local_user token_expired token_missing user_exists : Error
  invalid_password profile_missing bad_hash foreign_key malformed_token : Error
  last_authenticated_at_exceeded missing_scopes : Error
  -- the keystore, the signer and the start of the server
  keystore_exists bad_keystore wrong_password password_too_short passwords_differ : Error
  address_mismatch bad_key bad_path bad_number terminal_failure : Error
  -- the answers of the wallet's handlers
  forbidden bad_request not_found internal_server_error : Error

pub data Result (A : Type 0) : Type 0 where
  ok : A → Result A
  err : Error → Result A

-- A signing request (signer.SignEVMRequest), without the chain's constant fields.
pub record SignRequest : Type 0 where
  pub chain_id : ℕ
  pub to : Text
  pub value : ℕ
  pub gas_limit : ℕ
  pub max_fee : ℕ
  pub tip_cap : ℕ
  pub nonce : ℕ
  pub from_address : Text
  pub derivation_path : ℕ
  -- the recipient and the amount of an ERC20 `transfer`
  pub call_data : Option (Text × ℕ)

-- A log entry of a receipt, with its 256-bit topics and data as numbers.
pub record LogEntry : Type 0 where
  pub address : Text
  pub topics : List ℕ
  pub amount : ℕ

-- A transaction receipt: its status, the number and hash of its block, its logs.
pub record Receipt : Type 0 where
  pub successful : Bool
  pub block_number : ℕ
  pub block_hash : Text
  pub logs : List LogEntry

-- A transaction of a block; the sender is absent where its signature cannot be recovered.
pub record ChainTx : Type 0 where
  pub hash : Text
  pub sender : Option Text
  pub to : Option Text
  pub value : ℕ

-- A block as the node gives it.
pub record ChainBlock : Type 0 where
  pub hash : Text
  pub parent_hash : Text
  pub number : ℕ
  pub transactions : List ChainTx

-- The code that is not the repository's: its answers at each tick.
pub record Env : Type 0 where
  pub db_fails : ℕ → Bool
  pub client_fails : ℕ → Bool
  pub tip_cap : ℕ → Option ℕ
  -- the base fee of the latest block, absent before EIP-1559
  pub base_fee : ℕ → Option (Option ℕ)
  pub balance_at : ℕ → Text → Option ℕ
  pub token_balance : ℕ → Text → Text → Option ℕ
  -- the raw transaction's hash
  pub sign : ℕ → SignRequest → Option Text
  -- whether the signed bytes cannot be decoded
  pub decode_fails : ℕ → Bool
  pub send_fails : ℕ → Bool
  pub receipt : ℕ → Text → Option Receipt
  pub latest_block : ℕ → Option ℕ
  pub block : ℕ → ℕ → Option ChainBlock
  -- the address in a topic, in hexadecimal digits of either case
  pub address_of : ℕ → Text
  -- math/big: the product of an amount, from its text, and a factor, cut to an integer; and the
  -- amount 1, in the unit of the amounts
  pub times : ℤ → ℕ → Option ℕ
  pub one : ℕ
  -- the seed's presence in memory, and the address of a derivation path
  pub seed_ready : ℕ → Bool
  pub derive : ℕ → Option Text
  -- the node's nonce of an address, pending transactions included
  pub pending_nonce : ℕ → Text → Option ℕ
  -- an address in the mixed case of EIP-55
  pub checksum : Text → Text
  -- the clock, in seconds
  pub now : ℕ → ℕ
  -- Argon2: whether a password belongs to a hash (`none` where the hash is malformed), and a hash
  pub password_matches : Text → Text → Option Bool
  pub hash_password : ℕ → Text → Option Text
  -- whether the deadline of a wait has passed
  pub timed_out : ℕ → Bool
  -- so many random bytes, and what is typed at the terminal
  pub random : ℕ → ℕ → Option Bytes
  pub prompt : ℕ → Option Text
  -- whether another task is collecting the wallet with this identifier
  pub collecting : ℕ → ℕ → Bool

pub record World : Type 0 where
  pub db : Db
  pub tick : ℕ
  -- the next UUID that the database will make
  pub next_id : ℕ
  -- what was handed to the node, newest first
  pub sent : List SignRequest
  -- the seed manager's memory (seed/manager.go): the seed, and whether it was initialised
  pub seed : Option Bytes
  pub initialized : Bool

abbrev pub Action : Type 0 → Type 0
Action A = Env → World → Result A × World

module _ {A : Type 0} where
  unfoldable pub pure : A → Action A
  pure a env w = (ok a, w)

  unfoldable pub raise : Error → Action A
  raise e env w = (err e, w)

  unfoldable pub or_raise : Option A → Error → Action A
  or_raise none e env w = (err e, w)
  or_raise (some a) e env w = (ok a, w)

  -- A call of outside code: `none` is its failure.
  unfoldable pub ask : (Env → ℕ → Option A) → Error → Action A
  ask f e env w =
      (elim (f env w.tick) [ none ↦ err e | some a ↦ ok a ], record w { tick = w.tick + 1 })

  -- A query, which sees the committed tables.
  unfoldable pub query : (Db → A) → Action A
  query f env w =
      (if env.db_fails w.tick then err db_failure else ok (f w.db), record w { tick = w.tick + 1 })

-- A call whose only answer is whether it failed.
unfoldable pub call : (Env → ℕ → Bool) → Error → Action (Unit {0})
unfolding ask
call fails e = ask (λ env t. if fails env t then none else some tt) e

abbrev to_result : {A : Type 0} → Option A → Result A
to_result none = err no_rows
to_result (some a) = ok a

-- `.One`
unfoldable pub query_one : {A : Type 0} → (Db → Option A) → Action A
query_one f env w = (
  if env.db_fails w.tick then err db_failure else to_result (f w.db),
  record w { tick = w.tick + 1 },
)

infixl 5 ◌>>=◌ ◌>>◌
unfoldable pub ◌>>=◌ : {A B : Type 0} → Action A → (A → Action B) → Action B
◌>>=◌ m f env w = let (r, w') = m env w in elim r [ ok a ↦ f a env w' | err e ↦ (err e, w') ]

abbrev pub ◌>>◌ : {B : Type 0} → Action (Unit {0}) → Action B → Action B
m >> k = m >>= λ _. k

unfoldable pub guard : Bool → Error → Action (Unit {0})
guard b e env w = (if b then ok tt else err e, w)

-- A statement inside a transaction, or `BeginTx`: it may fail, and writes nothing yet.
unfoldable pub statement : Action (Unit {0})
unfolding query
statement = query (λ _. tt)

-- `tx.Commit`, or a single statement outside a transaction: it fails, or its writes stand.
unfoldable pub commit : (Db → Db) → Action (Unit {0})
commit f env w =
    if env.db_fails w.tick
    then (err db_failure, record w { tick = w.tick + 1 })
    else (ok tt, record w { tick = w.tick + 1; db = f w.db })

-- A UUID made by the database for a new row; it is used up also when the transaction fails.
unfoldable pub fresh_id : Action ℕ
fresh_id env w = (ok w.next_id, record w { next_id = w.next_id + 1 })

-- A function of the environment that is not a call.
unfoldable pub read : {A : Type 0} → (Env → ℕ → A) → Action A
read f env w = (ok (f env w.tick), w)

-- `client.SendTransaction`
unfoldable pub send : SignRequest → Action (Unit {0})
send r env w =
    if env.send_fails w.tick
    then (err rpc_failure, record w { tick = w.tick + 1 })
    else (ok tt, record w { tick = w.tick + 1; sent = r ∷ w.sent })

unfoldable pub get_client : Action (Unit {0})
unfolding call
get_client = call (λ env. env.client_fails) rpc_failure

-- An error replaced by another, as `errors.Is(err, sql.ErrNoRows)` does.
abbrev renamed : {A : Type 0} → Error → Result A → Result A
renamed e (ok a) = ok a
renamed e (err no_rows) = err e
renamed e (err other) = err other

unfoldable pub if_no_rows : {A : Type 0} → Error → Action A → Action A
if_no_rows e m env w = let (r, w') = m env w in (renamed e r, w')

-- The error as a value, for callers that look at it and go on.
unfoldable pub try_action : {A : Type 0} → Action A → Action (Result A)
try_action m env w = let (r, w') = m env w in (ok r, w')

-- `for _, x := range xs`, with a body that goes on after its errors.
unfoldable pub for_each : {A : Type 0} → (A → Action (Unit {0})) → List A → Action (Unit {0})
for_each body [] env w = (ok tt, w)
for_each body (x ∷ xs) env w = for_each body xs env (body x env w).1

-- A loop that returns at the first error of its body.
unfoldable pub each : {A : Type 0} → (A → Action (Unit {0})) → List A → Action (Unit {0})
unfolding pure
each body [] = pure tt
each body (x ∷ xs) = body x >> each body xs
