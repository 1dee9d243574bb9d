-- ===== src/Ledger.antt =====
-- src/ledger and src/audit: the hash chains.
pub mod Crypto
pub mod Chain
pub mod Audit
mod Tests
