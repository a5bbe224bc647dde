-- ===== src/Journal.antt =====
-- ext/advisory_lock/src/journal.rs: the lock-event journal, its records and its rolling files.
pub mod Crc
pub mod Record
pub mod RoundTrip
pub mod FileParse
pub mod MetaFile
pub mod Window
pub mod Files
pub mod Appends
pub mod Resume
pub mod Samples
mod Tests
