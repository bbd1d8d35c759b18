-- ===== src/Network.antt =====
-- internal/network: safety of prefixes, and the desired enforcement objects of a set of candidates.
pub mod Address
pub mod Safety
pub mod Normalize
pub mod Desired
pub mod Masking
pub mod Overlap
pub mod Counts
pub mod Guarantees
pub mod Covering
