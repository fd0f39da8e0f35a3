-- ===== src/Withdraw.antt =====
-- internal/wallet/withdraw/service.go, by operation.
pub mod Request
pub mod Process
pub mod Review
pub mod Status
