-- ===== src/Health.antt =====
-- internal/health/readiness.go: the readiness tracker, its operations and its snapshot.
pub mod Tracker
pub mod Snapshot
pub mod Trace
pub mod Readiness
pub mod Outage
