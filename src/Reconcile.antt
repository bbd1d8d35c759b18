-- ===== src/Reconcile.antt =====
-- internal/reconcile: bringing the decisions of the local API in line with the desired objects.
pub mod World
pub mod Alerts
pub mod Operations
pub mod Plan
pub mod DryRun
pub mod Planning
pub mod Execute
pub mod Run
pub mod Discipline
pub mod Expiring
pub mod Creating
pub mod Recovering
pub mod DryRuns
pub mod Ordering
pub mod Orderly
pub mod ReadOnly
pub mod Verified
pub mod Batches
pub mod DryCounts
