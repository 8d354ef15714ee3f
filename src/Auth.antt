-- ===== src/Auth.antt =====
-- Identity, roles and sessions: lib/auth and lib/policy.
pub mod Roles
pub mod CenterRole
pub mod Amr
pub mod SessionPolicy
pub mod Session
pub mod Mobile
pub mod Handoff
