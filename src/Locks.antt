-- ===== src/Locks.antt =====
-- ext/advisory_lock/src/locks.rs: the adapter around the core's lock service, which keeps each lock's
-- display identity and counters beside the core's records.
pub mod Names
pub mod Types
pub mod Respond
pub mod Service
pub mod Restore
pub mod SideTable
pub mod Transitions
pub mod Grammar
mod Tests
