-- ===== src/Lib.antt =====
-- A verification library for shard-stream, a sharded append-only stream store: the ordered index of
-- a partition's batches, the allocation of its coordinates, and the coordinator that owns it.
--
-- Parts, and how they interact.
--   crates/ordered-segment-map (src/dense.rs): `DenseOrderedMap`, values under consecutive keys in
--     aligned segments. SegmentMap/Dense.antt has one function for each method, SegmentMap/Sequence
--     the plain list that it stands for, and the files under SegmentMap/Dense/ the proofs. The
--     coordinator keeps its batches in it, under their batch identifiers.
--     Its src/sparse.rs keeps values under arbitrary keys: `OrderedAppendMap` holds entries in the dense
--     map, and finds their ordinals in a hash table. SegmentMap/Sparse has it, over a table whose laws
--     are in SegmentMap/Sparse/Laws.
--   crates/shard-stream-core (src/sequencer.rs) with crates/shardlog (src/model.rs): `TopicSequencer`
--     grants offsets, batch identifiers and placements of one partition. Core/Model.antt has the
--     identifiers and reservations, Core/Sequencer.antt the methods, and Core/Sequencer/ the proofs. Its
--     src/topology.rs checks the placement of a partition on brokers, whose lanes the sequencer then
--     takes: Core/Topology.antt.
--   crates/shard-stream-engine (src/coordinator.rs, src/coordinator/proposal.rs, src/query_lineage.rs):
--     one coordinator owns the state of a partition and serves its requests one after another. Each
--     handler takes coordinates from the sequencer, changes batches in the dense index, and advances
--     the watermarks that readers see. Engine/Model.antt has the data, Engine/Partition the state and
--     its watermarks, Engine/Producer the producers, Engine/Atomic and Engine/Group the atomic groups,
--     Engine/Batch the life of a batch, Engine/Proposal and Engine/Commit the prepared appends,
--     Engine/Control policies and retention, Engine/Replica a follower
--     (src/coordinator/replica.rs is Engine/Replica/Guarded), Engine/Creation new
--     partitions, Engine/Lineage the lineage word, which other threads change as well, and Engine/Reach sequences of the requests to a
--     leader in any order.
--   crates/shard-stream-protocol (src/wire.rs, src/logical.rs): the receipts and frames that answer
--     appends and fetches, and the cursors of logical topics, as bytes. Protocol/Wire and
--     Protocol/Logical have the encoders and decoders, and under them the proofs.
--   crates/shard-stream-kafka (src/batch.rs): the record batches of a produce request are inspected
--     before they are appended as one payload. Kafka/Record and Kafka/Batch have the functions,
--     and under them the proofs, with the encoding that Kafka documents as an independent description.
--
-- Correspondence. A struct is a record with the same fields, an enum a data type, and a method a
-- function that takes the state and returns it beside its result. A `Result` is
-- Prelude/Results.Result, whose third case is a panic. Unsigned integers are native numbers, and a
-- checked operation compares with 2 ^ w, w the width; `usize` has 64 bits.
-- A hash map is the function that looks a key up, and a channel to a caller is a number. The control
-- journal is a function from an event to its answer, and RecordId::for_batch, a hash, is an argument.
-- So are a CRC and the decompressors. A byte string is a list of numbers, and a buffer is shorter
-- than 2 ^ 64 bytes.
-- `next_offset` of coordinator.rs is written without the check of its addition, as a granted
-- reservation leaves room for the offset after it.
--
-- A handler of the coordinator that changes the lineage word finds at its compare-exchange the word that
-- it loaded (`begin_alone`, `finish_alone`): a contended exchange leaves another word and is otherwise
-- the same, and no other field depends on the word. Contention itself is in Engine/Lineage, and between
-- the requests of Engine/Reach other threads set the word as they like.
--
-- Bounds and fuel. The binary search runs on the number of entries and one more, since each round
-- shrinks its range; its theorem shows that the fuel is enough. A watermark loop
-- runs on the number of batches and one more, since each round passes a batch, and is shown equal to a
-- walk over the list of batches. The loop over frames runs on the number of bytes and one more, and
-- is shown to end, and so does the loop over record batches. Other loops are structural.
--
-- Not modelled: threads and channels, files, networks and object stores, messages in JSON, the
-- recovery of a coordinator from its files, its catalog, and the candidate lists of a fetch.
pub mod Prelude
pub mod SegmentMap
pub mod Core
pub mod Engine
pub mod Protocol
pub mod Kafka
