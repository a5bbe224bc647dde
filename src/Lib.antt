-- ===== src/Lib.antt =====
-- The lock service of this repository orders lock requests with a replicated core. This library is
-- about the parts around that core which keep state of their own: what a node remembers about its
-- durability, its timers, its datagrams, its journal and its picture of the cluster.
--
-- The parts, with the files that model them:
--   Witness     ext/advisory_lock/src/witness/mod.rs. `WitnessWatermarks` is the record of the buffered
--               and the flushed mark and the held points; `observe`, `flushed_through_buffer` and
--               `sync_point` are its calls, `run` a sequence of them with the points that they release.
--   Journal     ext/advisory_lock/src/journal.rs. Crc, Record and Window translate the formats and the
--               window; Files has `append`, `roll` and `resume` (`open_on`). The disk is the record
--               `Faults` of the calls that fail during one append.
--   Relay       examples/lease-sequencer/src/relay.rs. `Ledger` with `record_datagram` (`record`),
--               `answered`, `relay`, `last_commit`; Answers says by itself what an answer to a datagram
--               is. The crate `vrr` is the record `Wire`: its tags and the matcher's states.
--   BenchStore  examples/lease-sequencer/src/bench_store.rs. `NodeDiscipline`, its signals and calls,
--               and `handle_line`; History runs them from the first boot and keeps the accepted calls.
--   Membership  examples/lease-sequencer/src/membership.rs. Text and Snapshot have the endpoint test,
--               Wire the encoding, Quorum the weights, Model and Changes the cluster's picture, Tally
--               the discovery's count. Strings are their bytes.
--   Locks       ext/advisory_lock/src/locks.rs. Names has the tests of names and labels, Types the data,
--               Respond `decode` and what a response does to the side table, Service `execute`,
--               `snapshot` and `restore`. The core's own service, `vrr::locks`, is the
--               record `Core`: an interface with four laws. A BTreeMap is a function of its keys.
--   Timeouts    examples/lease-sequencer/src/timeouts.rs. Float has `random_wait_ms` over a record of
--               the f64 operations, Timers the leader timeout and the poll, Toggle the suspicion log,
--               Rng the random source.
--   Aof         ext/advisory_lock/src/aof.rs. Sink has the two ways to write, Core `AofCore` and its
--               operations, Pump the writer thread's turns. Log is the abstract log that they refine.
--               The disk is a stream of answers, one for each call; the first failure stops the core.
--   State       ext/advisory_lock/src/state.rs. Frame has the framed bytes, Store the staged write, the
--               load and `lazy_load`. What serde_json writes and reads is a parameter.
--   Wal         ext/advisory_lock/src/wal_snapshot.rs. Records has the records, frames and their codec,
--               Submit the tick, Flush the generation of a stop and `decode_records`, Labels the tag
--               bytes. The engine is a codec and the codes it answers; a BTreeMap is its entries.
--   Feed        ext/lock_feed/src/main.rs. Rescan has the passes of `rescan_task`, each over what it
--               finds in the directory, and the backlog; Prefixed the stream with bytes put back.
--   Oracle      examples/lease-sequencer/src/bench_oracle.rs. Decode reads journal files, Chains
--               compares the nodes' chains, History looks for a client's observations in one.
--   ClientGate  examples/lease-sequencer/src/client_gate.rs. The gate and its next operation.
-- Prelude holds what they share: lists by native numbers, big-endian integers, bitwise bounds.
--
-- The parts meet in the node: the lock service executes what is committed, and its transitions are
-- the journal's events; the timers and the relay serve its event loop, the witness its flushes,
-- and its commits change the membership. That loop, the sockets, the C ABI, the crates `vrr` and
-- `serde_json`, and the Lua service are not modelled.
--
-- Integers are natural numbers with the wrap of their Rust type written out. Loops are recursion on
-- their list; `parse_file` and the scan of `open_on` recurse on fuel, the number of bytes, and consume
-- 61 of them each turn. The ring's loop is given as many turns as there are bytes, and is shown to need
-- no more.
mod Prelude
pub mod Witness
pub mod Timeouts
pub mod ClientGate
pub mod BenchStore
pub mod Relay
pub mod Journal
pub mod Membership
pub mod Locks
pub mod Aof
pub mod State
pub mod Wal
pub mod Feed
pub mod Oracle
