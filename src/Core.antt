-- ===== src/Core.antt =====
-- crates/shard-stream-core, with the identifiers and records that it takes from crates/shardlog.
pub mod Model
pub mod Sequencer
pub mod Topology
mod Tests
