-- ===== src/Syncer.antt =====
-- internal/syncer: which feeds a run fetches, what it stores of them, and what it reports.
pub mod World
pub mod Engine
pub mod Run
pub mod DryRun
pub mod Whole
pub mod Keeping
pub mod DryKeeping
pub mod Tallied
pub mod Agreeing
pub mod Settling
pub mod Endings
