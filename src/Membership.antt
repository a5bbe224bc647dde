-- ===== src/Membership.antt =====
-- examples/lease-sequencer/src/membership.rs: the membership snapshot, its wire form, the quorum test
-- and the model that a gateway keeps of the cluster.
pub mod Text
pub mod Snapshot
pub mod Wire
pub mod RoundTrip
pub mod Quorum
pub mod Model
pub mod Order
pub mod Changes
pub mod Tally
mod Tests
