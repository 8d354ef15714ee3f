-- ===== src/Directory.antt =====
-- Directory groups: lib/directory. What membership of a group gives, and what a sign-in makes of it.
pub mod Reconcile
pub mod Mappings
pub mod Sync
