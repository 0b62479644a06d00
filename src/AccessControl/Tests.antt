-- ===== src/AccessControl/Tests.antt =====
-- The theorems of just-in-time access at concrete inputs.
pub mod Access
pub mod Records
pub mod Methods
