-- ===== src/SegmentMap.antt =====
-- crates/ordered-segment-map: the append-ordered indexes.
pub mod Dense
pub mod Sparse
pub mod Sequence
mod Tests
mod SparseTests
