-- ===== src/Scan.antt =====
-- internal/wallet/scan: blocks are read one by one, deposits in them are recorded, and blocks that
-- the chain has given up are rolled back.
pub mod Analyzer
pub mod Reorg
pub mod Scanner
pub mod Client
