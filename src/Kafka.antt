-- ===== src/Kafka.antt =====
-- crates/shard-stream-kafka: the front end for clients of Kafka.
pub mod Record
pub mod Batch
mod Tests
