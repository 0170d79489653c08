-- ===== src/Tracker.antt =====
-- packages/tracker: recommendations read out of chats, and how the prices went after each.
pub mod Models
pub mod Extract
pub mod Repo
pub mod Resolve
pub mod EventStudy
pub mod Named
pub mod Listed
pub mod Service
pub mod Tables
pub mod Kept
pub mod Stats
pub mod Counted
pub mod Ranked
pub mod Grown
pub mod Again
pub mod Hits
pub mod Windows
mod Tests
