-- ===== src/Tests.antt =====
-- Runs at concrete inputs, and each theorem at an input that meets its hypotheses.
mod Samples
mod Ops
mod Health
mod Scheduler
mod Network
mod App
mod Notify
mod Reconcile
mod State
mod Feed
mod Syncer
mod Runs
