-- ===== src/Engine/Proposal.antt =====
-- crates/shard-stream-engine/src/coordinator/proposal.rs: an append is prepared without a change of
-- the state, and its exact coordinates are committed later.
pub mod Control
use shard_stream.Prelude.{
  ℕ, ◌+◌, ◌==◌, Bool, true, false, ◌||◌, ◌&&◌, not, Option, none, some, List, [], ◌∷◌, ◌++◌,
  if◌then◌else◌, length, checked_add, u64_mod, usize_mod,
}
use shard_stream.Prelude.Maps.{insert, option_eq}
use shard_stream.Prelude.Results.{Result, ok, err, panic, ok_or, ◌>>=◌, ◌>>◌, guard}
use shard_stream.Core.Model.{Reservation, TopicPartition, LeaderEpoch}
use shard_stream.Core.Sequencer.{
  SequencerError, TopicSequencer, ReservationProposal, reservation_proposal_changed,
  propose_reservation, commit_reservation, proposal_eq, changes_leader_epoch,
}
use shard_stream.SegmentMap.Dense
use shard_stream.SegmentMap.Dense.{DenseOrderedMap, PushResult, pushed, refused}
use shard_stream.Engine.Model.{
  EngineError, corrupt_state, invalid_config, sequencer_error, fenced, ProducerIdentity,
  AtomicGroupIdentity, AtomicGroupState, AtomicGroupRuntime, group_unresolved, ProducerCursor,
  PartitionReplicationPolicy, BatchRuntime, BatchStatus, pending, policy_eq,
}
use shard_stream.Engine.Lineage
use shard_stream.Engine.Partition.{PartitionState, capacity}
use shard_stream.Engine.Outcome.{Outcome, last}
use shard_stream.Engine.Producer.{ProducerSequence, Receipt, check_producer, digest_xxh3_128}
use shard_stream.Engine.Atomic.{
  ReserveOutcome, duplicate, reserved, check_atomic_group, group_or_new, put_group,
}
use shard_stream.Engine.Group.{group_state_eq}
use shard_stream.Engine.Proposal.Control.{ControlState, begin_commit}

pub record AppendIntent : Type 0 where
  pub topic_partition : TopicPartition
  pub request_id : ℕ
  pub producer : Option ProducerIdentity
  pub atomic_group : Option AtomicGroupIdentity
  pub record_count : ℕ
  pub payload_bytes : ℕ
  pub payload_digest : ℕ
  pub admitted_leader_epoch : Option LeaderEpoch

pub record AtomicSnapshot : Type 0 where
  pub state : AtomicGroupState
  pub next_sequence : ℕ
  pub payload_bytes : ℕ
  pub record_count : ℕ
  pub chunk_count : ℕ
  pub last_batch : Option ℕ

pub record PreparedAppend : Type 0 where
  pub intent : AppendIntent
  pub proposal : ReservationProposal
  pub replication_policy : PartitionReplicationPolicy
  pub producer_before : Option ProducerCursor
  pub producer_after : Option ProducerCursor
  pub atomic_before : Option AtomicSnapshot
  pub atomic_after : Option AtomicSnapshot
  pub dense_next_key : ℕ
  pub dense_len : ℕ

pub data PrepareOutcome : Type 0 where
  prepared_duplicate : ReserveOutcome → PrepareOutcome
  prepared_new : PreparedAppend → PrepareOutcome

abbrev pub from_group : AtomicGroupRuntime → AtomicSnapshot
from_group g = record {
  state = g.state;
  next_sequence = g.next_sequence;
  payload_bytes = g.payload_bytes;
  record_count = g.record_count;
  chunk_count = length g.batch_ids;
  last_batch = last g.batch_ids;
}

-- `.map(AtomicSnapshot::from_group)`
abbrev pub snapshot_of : Option AtomicGroupRuntime → Option AtomicSnapshot
snapshot_of none = none
snapshot_of (some g) = some (from_group g)

abbrev pub cursor_eq : ProducerCursor → ProducerCursor → Bool
cursor_eq c d =
    c.epoch == d.epoch
    && c.next_sequence == d.next_sequence
    && (if c.failed then d.failed else not d.failed)

abbrev pub snapshot_eq : AtomicSnapshot → AtomicSnapshot → Bool
snapshot_eq a b =
    group_state_eq a.state b.state
    && a.next_sequence == b.next_sequence
    && a.payload_bytes == b.payload_bytes
    && a.record_count == b.record_count
    && a.chunk_count == b.chunk_count
    && option_eq ◌==◌ a.last_batch b.last_batch

-- `From<SequencerError>`
abbrev pub from_sequencer : {A : Type 0} → Result SequencerError A → Result EngineError A
from_sequencer (ok a) = ok a
from_sequencer (err e) = err (sequencer_error e)
from_sequencer panic = panic

-- The receipt of a producer first, then that of an atomic chunk.
unfoldable pub duplicate_chunk :
    (ℕ → ℕ → ℕ → ℕ)
    → PartitionState
    → AppendIntent
    → Option AtomicGroupIdentity
    → Result EngineError (Option ReserveOutcome)
duplicate_chunk for_batch s intent none = ok none
duplicate_chunk for_batch s intent (some identity) =
    check_atomic_group for_batch s intent.request_id identity intent.record_count
      intent.payload_bytes intent.payload_digest

unfoldable pub duplicate_or :
    (ℕ → ℕ → ℕ → ℕ)
    → PartitionState
    → AppendIntent
    → Receipt
    → Result EngineError (Option ReserveOutcome)
unfolding duplicate_chunk
duplicate_or for_batch s intent (some (response, durable_replicas, object_durable)) =
    ok (some (duplicate response durable_replicas object_durable s.replication_policy))
duplicate_or for_batch s intent none = duplicate_chunk for_batch s intent intent.atomic_group

unfoldable pub find_duplicate :
    (ℕ → ℕ → ℕ → ℕ) → PartitionState → AppendIntent → Result EngineError (Option ReserveOutcome)
unfolding duplicate_or
find_duplicate for_batch s intent = do
  receipt ←
      check_producer s intent.request_id intent.producer intent.record_count intent.payload_digest
  duplicate_or for_batch s intent receipt

abbrev pub producer_before : PartitionState → Option ProducerIdentity → Option ProducerCursor
producer_before s none = none
producer_before s (some producer) = s.producers producer.producer_id

abbrev pub producer_after : ℕ → Option ProducerIdentity → Result EngineError (Option ProducerCursor)
producer_after record_count none = ok none
producer_after record_count (some producer) = do
  next ← ok_or (checked_add u64_mod producer.first_sequence record_count) invalid_config
  ok (some (record { epoch = producer.epoch; next_sequence = next; failed = false }))

abbrev pub atomic_before : PartitionState → Option AtomicGroupIdentity → Option AtomicSnapshot
atomic_before s none = none
atomic_before s (some identity) = snapshot_of (s.atomic_groups identity.transaction_id)

abbrev pub snapshot_or_new : Option AtomicSnapshot → AtomicSnapshot
snapshot_or_new (some a) = a
snapshot_or_new none = record {
  state = group_unresolved;
  next_sequence = 0;
  payload_bytes = 0;
  record_count = 0;
  chunk_count = 0;
  last_batch = none;
}

abbrev pub atomic_after :
    AppendIntent
    → ℕ
    → Option AtomicSnapshot
    → Option AtomicGroupIdentity
    → Result EngineError (Option AtomicSnapshot)
atomic_after intent batch_id before none = ok none
atomic_after intent batch_id before (some identity) = do
  let old = snapshot_or_new before
  next ← ok_or (checked_add u64_mod old.next_sequence 1) invalid_config
  bytes ← ok_or (checked_add u64_mod old.payload_bytes intent.payload_bytes) invalid_config
  records ← ok_or (checked_add u64_mod old.record_count intent.record_count) invalid_config
  chunks ← ok_or (checked_add usize_mod old.chunk_count 1) invalid_config
  ok (
      some (record {
        state = group_unresolved;
        next_sequence = next;
        payload_bytes = bytes;
        record_count = records;
        chunk_count = chunks;
        last_batch = some batch_id;
      }))

-- The preparation of an append that is no duplicate.
unfoldable pub prepare_new : PartitionState → AppendIntent → Result EngineError PreparedAppend
prepare_new s intent = do
  proposal ←
      from_sequencer
        (propose_reservation s.sequencer intent.record_count intent.admitted_leader_epoch)
  guard (proposal.reservation.batch_id == s.batches.next_key) corrupt_state
  len ← ok_or (checked_add usize_mod s.batches.len 1) invalid_config
  producer ← producer_after intent.record_count intent.producer
  atomic ←
      atomic_after intent proposal.reservation.batch_id (atomic_before s intent.atomic_group)
        intent.atomic_group
  ok (record {
    intent = intent;
    proposal = proposal;
    replication_policy = s.replication_policy;
    producer_before = producer_before s intent.producer;
    producer_after = producer;
    atomic_before = atomic_before s intent.atomic_group;
    atomic_after = atomic;
    dense_next_key = s.batches.next_key;
    dense_len = s.batches.len;
  })

abbrev pub as_new : Result EngineError PreparedAppend → Result EngineError PrepareOutcome
as_new (ok p) = ok (prepared_new p)
as_new (err e) = err e
as_new panic = panic

abbrev pub prepare_unless :
    Result EngineError PreparedAppend
    → Result EngineError (Option ReserveOutcome)
    → Result EngineError PrepareOutcome
prepare_unless new (ok (some outcome)) = ok (prepared_duplicate outcome)
prepare_unless new (ok none) = as_new new
prepare_unless new (err e) = err e
prepare_unless new panic = panic

unfoldable pub prepare :
    (ℕ → ℕ → ℕ → ℕ) → PartitionState → AppendIntent → Result EngineError PrepareOutcome
unfolding prepare_new find_duplicate
prepare for_batch s intent =
    prepare_unless (prepare_new s intent) (find_duplicate for_batch s intent)
