-- ===== src/Ops.antt =====
-- internal/ops/event.go: the bounded operational vocabulary, and the validation of what uses it.
pub mod Vocabulary
pub mod FeedName
pub mod Event
pub mod Laws
pub mod Results
