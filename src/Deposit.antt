-- ===== src/Deposit.antt =====
-- internal/wallet/deposit: the confirmations of recorded transactions, and the credits for
-- deposits that are final.
pub mod Confirmations
pub mod Credits
