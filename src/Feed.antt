-- ===== src/Feed.antt =====
-- internal/feed: parsing the body of a feed, and validating what was parsed.
pub mod Types
pub mod Scan
pub mod Parser
pub mod Parsed
pub mod Lines
pub mod Reading
pub mod Validate
pub mod Order
pub mod Snapshots
