-- ===== src/Context.antt =====
-- engine/context.py: whether approved context explains an event.
pub mod Rows
pub mod Matching
pub mod Admission
pub mod Classify
pub mod Ranking
pub mod Verdicts
pub mod Evaluate
pub mod Coverage
pub mod Sources
pub mod Reopen
pub mod Reopened
mod Tests
