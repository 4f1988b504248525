-- ===== src/Engine.antt =====
-- crates/shard-stream-engine: the coordinator that owns the state of a partition.
pub mod Model
pub mod Lineage
pub mod Partition
pub mod Outcome
pub mod Producer
pub mod Atomic
pub mod Batch
pub mod Group
pub mod Proposal
pub mod Commit
pub mod Control
pub mod Replica
pub mod Creation
pub mod Reach
mod Tests
