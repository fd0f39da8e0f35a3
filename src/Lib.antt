-- ===== src/Lib.antt =====
-- A custodial wallet for EVM chains (chapool/go-wallet): user balances, withdrawals, deposits, the
-- block scanner that finds them, the moves between the wallets, and the users' accounts, over one
-- PostgreSQL database.
--
-- The parts and their files. Paths without a leading `internal` are below internal/wallet.
--
--   Store       the tables (internal/models, migrations): a record for each row, lists for tables.
--   Queries     searches that several services make.
--   World       how an operation runs: `Action A = Env → World → Result A × World`. `Env` holds the
--               answers of what is not the repository's code (the RPC node, math/big, the
--               terminal), those of the signer and of key derivation where a service calls them
--               (their own code is Keys), and whether the database fails, each by the tick of the
--               call, so a theorem over all `Env` covers every pattern of failures. A transaction's writes are
--               applied at its commit; a return before that is the deferred rollback.
--               Children: Bind, Loops and Yields, lemmas on chains of calls and on loops; Sent,
--               what an action hands to the node; Transaction, `WithTransaction` of
--               internal/util/db/db.go; Transfer, the steps that collect/service.go and
--               rebalance/service.go share (Receipts: the wait for a receipt).
--   Bank        no file of the source: an account book, which is what the users are promised, and
--               the calls of withdraw/service.go and deposit/service.go as steps of a machine
--               (Service, Calls, Deposits, Reviews: each call; Sound: when tables stand for a book;
--               Machine: sequences of calls, in any order, with any failures).
--   Balance     balance/service.go: sums over the credits (Ledger: sums under the changes of the table;
--               Tokens: `GetBalanceByToken`, with Listed).
--   HotWallet   hotwallet/service.go, `GetNextAddressIndex` of address/service.go.
--               Nonces: what repeated calls of `GetNextNonce` give out; Indexes: a commit that
--               fails; Paths: `GetBIP44Path` and `parseBIP44Path` of address/evm.go (RoundTrip).
--   Chains      chain/service.go (Urls: lists of RPC addresses).
--   Wallets     service.go, the wallets of users (Created).
--   Rebalance   rebalance/service.go (Books and Held: the balances in its loops, and whose they are;
--               Moves: what a transfer sends; Cycle: for a chain).
--   Collect     collect/service.go (Sweeps and Tokens: what is sent for one wallet; Cycle: for a
--               chain).
--   Account     internal/auth/service.go: Account is `authenticateUser` (Tokens); Login is `Login`,
--               `Refresh` and `Logout` (Sessions); Password is `UpdatePassword`, `ResetPassword`
--               and `InitPasswordReset` (Changed, Reset); Registration is `Register` and
--               `CompleteRegister` (Registered); Deletion is `DeleteUserAccount` (Deleted); Gate is
--               the middleware of internal/api/middleware/auth.go (Passed, LoggedOut).
--   Withdraw    withdraw/service.go. Request is `RequestWithdraw` (Accounting: what it does to the
--               balance; Race: two requests, one between the other's check and its booking); Process is `ProcessWithdraw` (Payment, Outcome); Review is
--               `ApproveWithdraw`, `RejectWithdraw` and `updateWithdrawStatusOnError` (Refund,
--               Rejection, Approval); Status is `UpdateWithdrawStatus` (Settled).
--   Keys        address/evm.go and seed/manager.go: keys, addresses and the seed in memory, over the
--               functions of the cryptographic packages (`Crypto`). Signer is signer.
--   Keystore    keystore: the encrypted mnemonic (Unlocked: what a password opens). Startup is
--               init.go and verify.go (FirstStart, Restart).
--   Api         internal/api/handlers/wallet, with the roles of internal/auth/roles.go.
--               Withdrawals is post_withdraw.go, post_approve_withdraw.go, post_reject_withdraw.go
--               and get_withdraws.go (Reviewed: an approval behind the middleware; Listed);
--               Signing is post_sign_transaction.go (Own); Privileged is post_create_hot_wallet.go,
--               post_collect.go and post_rebalance.go (Denied); Transfers is get_collects.go,
--               get_deposits.go and get_pending_deposits.go (Own; Pending with Expected and Groups); Reads has
--               the handlers that pass a call of a service on.
--   Deposit     deposit/processor.go is Confirmations (Synced); deposit/service.go is Credits
--               (Once).
--   Scan        scan/analyzer.go is Analyzer (Recorded), scan/reorg.go is Reorg (Fork),
--               scan/scanner.go is Scanner (Credited, Progress), with `ScanChainBlock` of
--               scan/service.go; scan/client.go is Client (Failover), the detail behind the calls
--               of the node, whose answers the other parts take from `Env`.
--   Examples    the theorems applied to one small wallet.
--   Prelude     numbers, texts, tables as lists of rows, and the lemmas on them.
--
-- How they interact. A request freezes the amount by a negative credit; an approval signs and
-- sends the payment from the hot wallet under the next nonce; a rejection turns the frozen credit
-- into a failed one, which no balance counts. The scanner records deposits, follows the
-- confirmations of all transactions, credits final deposits, and then follows the confirmations
-- of the withdrawals. A collection sweeps the users' wallets into the hot wallet of the chain, and a
-- rebalancing moves coins from a full hot wallet to an empty one; both wait for the receipt and
-- record the transaction, and neither touches a credit.
--
-- Numbers. An amount is a decimal number, which PostgreSQL's NUMERIC keeps exactly. Here it is a whole
-- number of a unit, a power of a tenth that is small enough for every amount at hand: with tenths,
-- the amount 1.5 is 15. The sums and comparisons are those of the exact numbers: what 256 bits of
-- big.Float round is left out. What math/big makes of an amount where the program calls it (its
-- product with a power of ten, cut to an integer; whether a text is an integer) is an answer of `Env`
-- or an argument, and the power is the program's. Block numbers, identifiers and nonces are natural numbers, far below the
-- bounds of the source's types. Identifiers made by the database are a counter. Texts are lists of
-- ASCII codes.
--
-- Loops are over lists of rows. The loop over batches of blocks has fuel: `scan_once` gives it two
-- rounds more than the number of the latest block, which is enough for batches of at least one
-- block; with a batch size of 0 the source's loop has no end. The wait for a receipt polls at most 41
-- times, every 3 seconds for 2 minutes. The print of a number has 20 digits, one more than any `int`.
--
-- A query that asks for rows in an order, and `sort.Slice`, are a stable insertion sort. A query for
-- one row gives the first in the order of insertion. Argon2 and the clock are answers of `Env`.
--
-- The packages for scrypt, AES, SHA-256, PBKDF2, BIP-32 and the curve are arguments, of which only
-- the lengths of keys and the range of bytes are assumed. `types.SignTx` is an argument too: what is
-- said of a signature is on which seed, key, address and numbers it rests.
--
-- The handlers take the body as the framework has bound and validated it, and the user whom the
-- middleware has put into the context. Texts and pages of errors are left out.
--
-- Not modelled: the schedulers (tickers and goroutines) and the cancellation of contexts, routing
-- and binding, the overwriting of keys in memory, and the concurrent run of several operations in
-- general. Each operation runs alone, but nothing is assumed of the tables it finds, a collection
-- may find its wallet locked by another, and a request for a withdrawal is also split into its check
-- and its booking.

pub mod Prelude
pub mod Store
pub mod World
pub mod Queries
pub mod Balance
pub mod HotWallet
pub mod Chains
pub mod Wallets
pub mod Rebalance
pub mod Collect
pub mod Account
pub mod Withdraw
pub mod Deposit
pub mod Bank
pub mod Keys
pub mod Keystore
pub mod Api
pub mod Scan
mod Examples
