-- ===== src/Scheduler.antt =====
-- internal/scheduler/scheduler.go: options, the retry cycle and the run loop.
pub mod Options
pub mod Cycle
pub mod Run
pub mod Backoff
pub mod Retries
pub mod Recovery
pub mod Deadlines
