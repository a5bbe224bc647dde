-- ===== src/Timeouts.antt =====
-- examples/lease-sequencer/src/timeouts.rs: the timeout toggle, the randomised wait, the random
-- source, the leader timeout and the view-change poll. Floating-point numbers are a parameter.
pub mod Float
pub mod Toggle
pub mod Timers
pub mod Rng
mod Tests
