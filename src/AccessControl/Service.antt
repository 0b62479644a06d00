-- ===== src/AccessControl/Service.antt =====
-- access_control/service.py. A method acts on a session, the request that it is called with and the
-- tables that requests share; what it wrote before it raised stays written, so the session comes
-- back beside the error too.
pub mod Monad
pub mod Transition
pub mod Methods
pub mod Approvals
pub mod Creation
pub mod Keeps
pub mod Consistent
pub mod Preserved
pub mod Governed
pub mod Rulings
pub mod Stays
pub mod Clearance
pub mod Filing
pub mod Authority
pub mod Outcomes
