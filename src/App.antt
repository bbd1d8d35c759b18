-- ===== src/App.antt =====
-- internal/app/result.go: the boundary between synchronization and operations.
pub mod Report
pub mod Tally
pub mod Outcome
