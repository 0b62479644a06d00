-- ===== src/Routes.antt =====
-- security.py and api/access_routes.py: who may call what, and what a repeated call returns.
pub mod Scopes
pub mod Answers
pub mod Idempotency
pub mod Store
pub mod Handlers
pub mod Separation
pub mod Sources
pub mod Offers
pub mod Entries
pub mod Replay
pub mod Retry
mod Tests
