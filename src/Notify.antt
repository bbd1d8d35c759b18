-- ===== src/Notify.antt =====
-- internal/notify: notices, and the manager that decides which of them are sent.
pub mod Notice
pub mod State
pub mod Manager
pub mod Handlers
pub mod Recorded
pub mod Trace
pub mod Calls
