-- ===== src/Aof.antt =====
-- ext/advisory_lock/src/aof.rs: the write-behind log of the lease events.
pub mod Sink
pub mod Core
pub mod Ring
pub mod Log
pub mod Flush
pub mod Sealing
pub mod Roll
pub mod Appends
pub mod Reopen
pub mod Pump
pub mod Drain
pub mod Torn
mod Crash
pub mod Reading
mod Tests
