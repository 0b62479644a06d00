-- ===== src/Response.antt =====
-- The response actions of engine/response_service.py: their policy, their workflow and their controls.
pub mod Sandbox
pub mod Graph
pub mod Policy
pub mod Decide
mod Controls
pub mod Safety
pub mod Approval
pub mod Adapter
pub mod Workflow
pub mod Authority
pub mod Reach
pub mod Outcome
pub mod Creation
pub mod Created
pub mod Expiry
pub mod Lapsed
pub mod Tests
mod PolicyTests
