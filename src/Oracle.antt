-- ===== src/Oracle.antt =====
-- examples/lease-sequencer/src/bench_oracle.rs: the audit of the nodes' journals after a bench run.
pub mod Decode
pub mod Readers
pub mod Chains
pub mod History
mod Tests
