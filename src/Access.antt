-- ===== src/Access.antt =====
-- Access grants: lib/access, and lib/portal/request-status.ts.
pub mod Schedule
pub mod Evaluate
pub mod Grants
pub mod Routes
pub mod Console
pub mod RequestStatus
