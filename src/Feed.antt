-- ===== src/Feed.antt =====
-- ext/lock_feed/src/main.rs: the feed of the journal's events to the console.
pub mod Rescan
pub mod Follow
pub mod Once
pub mod Rolled
pub mod Prefixed
mod Tests
