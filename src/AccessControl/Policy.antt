-- ===== src/AccessControl/Policy.antt =====
-- `evaluate_access_policy` of access_control/policy.py: the pure decision on a request for access.
-- The values that access_control/schemas.py lets through are data types; a sensitivity that
-- SENSITIVITY_TTL does not list is `other`. Text that the policy only compares is a `String`; the
-- justification, whose characters it counts, is the list of its code points.
pub mod Values
pub mod Decide
pub mod Eligibility
pub mod Passing
pub mod Limits
