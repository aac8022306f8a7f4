-- ===== src/Tracker/Safety.antt =====
-- No allowed request makes the tracker do what is undefined behaviour.
pub mod Rules
pub mod Disk
pub mod Paths
pub mod Lines
pub mod Searches
pub mod Fetching
pub mod Accounts
pub mod Groups
pub mod Sharing
pub mod Downloads
pub mod Names
pub mod Serving
pub mod Sessions
