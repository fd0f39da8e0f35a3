-- ===== src/Examples.antt =====
-- A small wallet to run the operations on: one user, one hot wallet, a native token and a
-- contract's token on chain 1, a node and a database that answer, and a database that fails once.
use go_wallet.Prelude.{
  ℕ, ◌+◌, ℤ, pos, negsuc, Text, Bool, true, false, Option, none, some, List, [], ◌∷◌, ◌==◌, text_eq,
}
use go_wallet.Store.{
  Withdraw, WithdrawStatus, Credit, CreditStatus, CreditType, ReferenceType, Transaction,
  TransactionStatus, TransactionType, Block, BlockStatus, Token, Wallet, WalletType, WalletNonce,
  Chain, Db, Accounts,
}
use go_wallet.World.{Env, World, ChainBlock, ChainTx, Receipt, LogEntry, SignRequest}
use go_wallet.Withdraw.Request.{Request}
mod Withdrawals
mod Approvals
mod Deposits
mod Funds
mod People
mod Books
mod Secrets
mod Requests
mod Served

abbrev pub user_address : Text
user_address = b'u' ∷ []

abbrev pub hot_address : Text
hot_address = b'h' ∷ []

abbrev pub contract : Text
contract = b'c' ∷ []

abbrev wei : ℤ → Option ℕ
wei (pos n) = some n
wei (negsuc n) = none

abbrev incoming : ChainTx
incoming = record { hash = b't' ∷ []; sender = some (b's' ∷ []); to = some user_address; value = 7 }

abbrev incoming_log : LogEntry
incoming_log = record { address = contract; topics = []; amount = 0 }

abbrev pub receipt : Receipt
receipt = record {
  successful = true;
  block_number = 10;
  block_hash = b'b' ∷ [];
  logs = incoming_log ∷ [];
}

abbrev pub mined : ChainBlock
mined = record {
  hash = b'b' ∷ [];
  parent_hash = b'a' ∷ [];
  number = 10;
  transactions = incoming ∷ [];
}

abbrev pub zeros : ℕ → List ℕ
zeros ℕ.zero = []
zeros (ℕ.suc n) = 0 ∷ zeros n

-- Eight characters.
abbrev pub password : Text
password = zeros 8

abbrev pub failing_when : (ℕ → Bool) → Env
failing_when fails = record {
  db_fails = fails;
  client_fails = λ _. false;
  tip_cap = λ _. some 1;
  base_fee = λ _. some (some 2);
  balance_at = λ _ _. some 1000000;
  token_balance = λ _ _ _. some 1000;
  sign = λ _ r. some (r.nonce ∷ []);
  decode_fails = λ _. false;
  send_fails = λ _. false;
  receipt = λ _ _. some receipt;
  latest_block = λ _. some 60;
  block = λ _ n. some mined;
  address_of = λ n. n ∷ [];
  times = λ amount _. wei amount;
  one = 1;
  seed_ready = λ _. true;
  derive = λ n. some (n ∷ []);
  pending_nonce = λ _ _. some 9;
  checksum = λ a. a;
  now = λ _. 1000;
  password_matches = λ password hash. some (text_eq password hash);
  hash_password = λ _ password. some password;
  timed_out = λ _. false;
  random = λ _ n. some (zeros n);
  prompt = λ _. some password;
  collecting = λ _ _. false;
}

-- The database answers every call.
abbrev pub answering : Env
answering = failing_when (λ _. false)

-- The database fails at one tick.
abbrev pub failing_at : ℕ → Env
failing_at n = failing_when (λ t. t == n)

abbrev pub native : Token
native = record {
  id = 1;
  chain_id = 1;
  token_address = none;
  token_symbol = b'E' ∷ [];
  decimals = 18;
  is_native = true;
  min_withdraw_amount = none;
  is_active = true;
}

abbrev pub coin : Token
coin = record {
  id = 2;
  chain_id = 1;
  token_address = some contract;
  token_symbol = b'C' ∷ [];
  decimals = 6;
  is_native = false;
  min_withdraw_amount = none;
  is_active = true;
}

abbrev pub user_wallet_row : Wallet
user_wallet_row = record {
  id = 11;
  user_id = 1;
  address = user_address;
  chain_id = 1;
  derivation_path = 3;
  address_index = 3;
  wallet_type = WalletType.user;
}

abbrev pub hot_wallet_row : Wallet
hot_wallet_row = record {
  id = 12;
  user_id = 0;
  address = hot_address;
  chain_id = 1;
  derivation_path = 0;
  address_index = 0;
  wallet_type = WalletType.hot;
}

abbrev pub nonce_row : WalletNonce
nonce_row = record { address = hot_address; chain_id = 1; nonce = 5 }

abbrev funding : Credit
funding = record {
  id = 13;
  user_id = 1;
  address = user_address;
  token_id = 1;
  token_symbol = b'E' ∷ [];
  amount = pos 100;
  credit_type = CreditType.deposit;
  reference_id = 14;
  reference_type = ReferenceType.blockchain_tx;
  chain_id = some 1;
  status = CreditStatus.finalized;
  block_number = some 3;
  tx_hash = some (b'f' ∷ []);
  event_index = 0;
}

-- A deposit of 40 of the contract's token, without a credit yet.
abbrev pub arrived : Transaction
arrived = record {
  id = 15;
  chain_id = 1;
  block_hash = b'z' ∷ [];
  block_no = 20;
  tx_hash = b'd' ∷ [];
  from_addr = b's' ∷ [];
  to_addr = user_address;
  token_addr = some contract;
  amount = pos 40;
  type = TransactionType.deposit;
  status = TransactionStatus.finalized;
  confirmation_count = none;
}

abbrev orphan_row : Block
orphan_row = record {
  hash = b'o' ∷ [];
  chain_id = 1;
  parent_hash = b'a' ∷ [];
  number = 10;
  status = BlockStatus.orphaned;
}

abbrev chain_row : Chain
chain_row = record {
  chain_id = 1;
  confirmation_blocks = none;
  finalized_blocks = none;
  is_active = true;
  chain_name = [];
  native_token_symbol = b'E' ∷ [];
  rpc_url = [];
}

abbrev no_accounts : Accounts
no_accounts = record {
  users = [];
  access_tokens = [];
  refresh_tokens = [];
  password_reset_tokens = [];
  confirmation_tokens = [];
  app_user_profiles = [];
}

abbrev pub bank : World
bank = record {
  db = record {
    withdraws = [];
    credits = funding ∷ [];
    transactions = arrived ∷ [];
    blocks = orphan_row ∷ [];
    tokens = native ∷ coin ∷ [];
    wallets = user_wallet_row ∷ hot_wallet_row ∷ [];
    nonces = nonce_row ∷ [];
    chains = chain_row ∷ [];
    address_indexes = [];
    keystores = [];
    accounts = no_accounts;
  };
  tick = 0;
  next_id = 100;
  sent = [];
  seed = none;
  initialized = false;
}

abbrev pub order : Request
order = record { to_address = b'x' ∷ []; token_id = 1; amount = pos 30 }
