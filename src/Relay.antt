-- ===== src/Relay.antt =====
-- examples/lease-sequencer/src/relay.rs: the ledger of datagrams that await an answer.
pub mod Wire
pub mod Ledger
pub mod Ballot
pub mod Shape
pub mod Answers
pub mod Delivery
pub mod Unanswered
mod Tests
