-- ===== src/Tracker.antt =====
-- The tracker: tracker/tracker.cpp.
pub mod State
pub mod Fetch
pub mod Files
pub mod Accounts
pub mod Groups
pub mod Sharing
pub mod Downloads
pub mod Dispatch
pub mod Safety
mod Tests
