-- ===== src/Audit.antt =====
-- The tamper-evident audit chains: lib/audit.
pub mod Chain
pub mod Verify
pub mod Append
pub mod Tamper
pub mod Admin
pub mod Service
pub mod Anchor
pub mod Backfill
