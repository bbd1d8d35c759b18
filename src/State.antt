-- ===== src/State.antt =====
-- internal/state: the records that the store keeps, and its tables of operations and decisions.
pub mod Records
pub mod Tables
pub mod Operations
pub mod Verification
pub mod Branches
pub mod Begun
pub mod Moves
pub mod Calls
pub mod Decisions
pub mod Enforcement
pub mod Feeds
pub mod Entries
pub mod Fates
pub mod Grace
pub mod Storable
pub mod Runs
pub mod Closing
pub mod History
pub mod RunLives
pub mod Completed
pub mod Notifications
pub mod Plans
