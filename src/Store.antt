-- ===== src/Store.antt =====
-- The tables of the database (internal/models,
-- migrations/20251121140959-create-hd-wallet-tables.sql) as records and lists of rows. Identifiers
-- made by the database, and codes of users, tokens, chains and derivation paths, are numbers;
-- addresses and hashes are texts, since their case matters. Columns that the modelled code writes
-- and never reads back (fee, chain type, name, time stamps) are left out.
use go_wallet.Prelude.{ℕ, ℤ, Text, Bool, true, false, Option, none, some, List, ◌==◌}
pub mod People
pub use People.{
  UserRole, User, AccessToken, RefreshToken, PasswordResetToken, ConfirmationToken, AppUserProfile,
  Accounts,
}

pub data WithdrawStatus : Type 0 where
  user_withdraw_request signing pending processing confirmed failed : WithdrawStatus

pub data CreditStatus : Type 0 where
  pending confirmed finalized failed frozen : CreditStatus

pub data CreditType : Type 0 where
  deposit withdraw collect rebalance freeze unfreeze : CreditType

pub data ReferenceType : Type 0 where
  blockchain_tx withdraw collect rebalance : ReferenceType

pub data TransactionType : Type 0 where
  deposit withdraw collect rebalance : TransactionType

pub data TransactionStatus : Type 0 where
  confirmed safe finalized failed : TransactionStatus

pub data BlockStatus : Type 0 where
  confirmed safe finalized orphaned : BlockStatus

pub data WalletType : Type 0 where
  user hot cold : WalletType

-- What goes into `error_message`: the administrator's text, the default text, or the error met.
pub data Message : Type 0 where
  reason : Text → Message
  rejected_by_admin : Message
  process_error : Message

pub record Withdraw : Type 0 where
  pub id : ℕ
  pub user_id : ℕ
  pub to_address : Text
  pub from_address : Option Text
  pub token_id : ℕ
  pub amount : ℤ
  pub chain_id : ℕ
  pub tx_hash : Option Text
  pub nonce : Option ℕ
  pub status : WithdrawStatus
  pub error_message : Option Message

pub record Credit : Type 0 where
  pub id : ℕ
  pub user_id : ℕ
  pub address : Text
  pub token_id : ℕ
  pub token_symbol : Text
  pub amount : ℤ
  pub credit_type : CreditType
  pub reference_id : ℕ
  pub reference_type : ReferenceType
  pub chain_id : Option ℕ
  pub status : CreditStatus
  pub block_number : Option ℕ
  pub tx_hash : Option Text
  pub event_index : ℕ

pub record Transaction : Type 0 where
  pub id : ℕ
  pub chain_id : ℕ
  pub block_hash : Text
  pub block_no : ℕ
  pub tx_hash : Text
  pub from_addr : Text
  pub to_addr : Text
  pub token_addr : Option Text
  pub amount : ℤ
  pub type : TransactionType
  pub status : TransactionStatus
  pub confirmation_count : Option ℤ

pub record Block : Type 0 where
  pub hash : Text
  pub chain_id : ℕ
  pub parent_hash : Text
  pub number : ℕ
  pub status : BlockStatus

pub record Token : Type 0 where
  pub id : ℕ
  pub chain_id : ℕ
  pub token_address : Option Text
  pub token_symbol : Text
  pub decimals : ℕ
  pub is_native : Bool
  pub min_withdraw_amount : Option ℤ
  pub is_active : Bool

pub record Wallet : Type 0 where
  pub id : ℕ
  pub user_id : ℕ
  pub address : Text
  pub chain_id : ℕ
  pub derivation_path : ℕ
  pub address_index : ℕ
  pub wallet_type : WalletType

pub record WalletNonce : Type 0 where
  pub address : Text
  pub chain_id : ℕ
  pub nonce : ℕ

pub record AddressIndex : Type 0 where
  pub id : ℕ
  pub device_name : Option ℕ
  pub current_index : ℕ

pub record Chain : Type 0 where
  pub chain_id : ℕ
  pub confirmation_blocks : Option ℕ
  pub finalized_blocks : Option ℕ
  pub is_active : Bool
  pub chain_name : Text
  pub native_token_symbol : Text
  pub rpc_url : Text

-- The encrypted mnemonic (keystore/types.go), its bytes in hexadecimal digits.
pub record KeystoreJson : Type 0 where
  pub version : ℕ
  pub ciphertext : Text
  pub iv : Text
  pub dk_len : ℕ
  pub salt : Text
  pub n : ℕ
  pub r : ℕ
  pub p : ℕ
  pub mac : Text

pub record Keystore : Type 0 where
  pub keystore_data : KeystoreJson
  pub verification_address : Option Text

pub record Db : Type 0 where
  pub withdraws : List Withdraw
  pub credits : List Credit
  pub transactions : List Transaction
  pub blocks : List Block
  pub tokens : List Token
  pub wallets : List Wallet
  pub nonces : List WalletNonce
  pub chains : List Chain
  pub address_indexes : List AddressIndex
  pub keystores : List Keystore
  pub accounts : Accounts

-- Comparison of the status texts, by their place in the enumeration.
abbrev pub withdraw_status_no : WithdrawStatus → ℕ
withdraw_status_no WithdrawStatus.user_withdraw_request = 0
withdraw_status_no WithdrawStatus.signing = 1
withdraw_status_no WithdrawStatus.pending = 2
withdraw_status_no WithdrawStatus.processing = 3
withdraw_status_no WithdrawStatus.confirmed = 4
withdraw_status_no WithdrawStatus.failed = 5

abbrev pub withdraw_status_eq : WithdrawStatus → WithdrawStatus → Bool
withdraw_status_eq a b = withdraw_status_no a == withdraw_status_no b

abbrev pub credit_status_no : CreditStatus → ℕ
credit_status_no CreditStatus.pending = 0
credit_status_no CreditStatus.confirmed = 1
credit_status_no CreditStatus.finalized = 2
credit_status_no CreditStatus.failed = 3
credit_status_no CreditStatus.frozen = 4

abbrev pub credit_status_eq : CreditStatus → CreditStatus → Bool
credit_status_eq a b = credit_status_no a == credit_status_no b

abbrev pub transaction_status_no : TransactionStatus → ℕ
transaction_status_no TransactionStatus.confirmed = 0
transaction_status_no TransactionStatus.safe = 1
transaction_status_no TransactionStatus.finalized = 2
transaction_status_no TransactionStatus.failed = 3

abbrev pub transaction_status_eq : TransactionStatus → TransactionStatus → Bool
transaction_status_eq a b = transaction_status_no a == transaction_status_no b

abbrev pub is_orphaned : BlockStatus → Bool
is_orphaned BlockStatus.orphaned = true
is_orphaned _ = false

abbrev pub is_withdraw_credit : CreditType → Bool
is_withdraw_credit CreditType.withdraw = true
is_withdraw_credit _ = false

abbrev pub is_deposit_credit : CreditType → Bool
is_deposit_credit CreditType.deposit = true
is_deposit_credit _ = false

abbrev pub is_deposit_tx : TransactionType → Bool
is_deposit_tx TransactionType.deposit = true
is_deposit_tx _ = false

abbrev pub is_blockchain_ref : ReferenceType → Bool
is_blockchain_ref ReferenceType.blockchain_tx = true
is_blockchain_ref _ = false

abbrev pub is_withdraw_ref : ReferenceType → Bool
is_withdraw_ref ReferenceType.withdraw = true
is_withdraw_ref _ = false

abbrev pub is_user_type : WalletType → Bool
is_user_type WalletType.user = true
is_user_type _ = false

abbrev pub is_hot : WalletType → Bool
is_hot WalletType.hot = true
is_hot _ = false

abbrev pub is_some_nat : Option ℕ → ℕ → Bool
is_some_nat none n = false
is_some_nat (some m) n = m == n
