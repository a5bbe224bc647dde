-- ===== src/State.antt =====
-- ext/advisory_lock/src/state.rs: the file that keeps the lock table over a planned stop.
pub mod Frame
pub mod RoundTrip
pub mod Store
mod Tests
