-- ===== src/Tests.antt =====
-- The theorems at concrete inputs.
mod Access
mod Console
mod Service
mod Users
mod Updates
mod Network
mod Audit
mod Auth
mod Directory
mod Site
mod Connector
mod Erasure
