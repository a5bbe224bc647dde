-- ===== src/Wal.antt =====
-- ext/advisory_lock/src/wal_snapshot.rs: the snapshot of the lock table in the write-ahead log.
pub mod Records
pub mod Labels
pub mod Submit
pub mod Retry
pub mod Flush
pub mod RoundTrip
mod Tests
