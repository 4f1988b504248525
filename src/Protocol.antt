-- ===== src/Protocol.antt =====
-- crates/shard-stream-protocol: the binary messages of the native protocol.
pub mod Wire
pub mod Logical
mod Tests
