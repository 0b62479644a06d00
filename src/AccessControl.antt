-- ===== src/AccessControl.antt =====
-- Just-in-time access, access_control/*.py.
pub mod Policy
pub mod Models
pub mod Audit
pub mod Outbox
pub mod Service
pub mod Enforcement
pub mod Worker
pub mod Reach
pub mod History
pub mod Samples
pub mod Tests
