-- ===== src/Engine/Group.antt =====
-- crates/shard-stream-engine/src/coordinator.rs: the end of an atomic group. The `journal` is the
-- answer of the control journal, which syncs an event before it answers.
pub mod Final
pub mod Current
pub mod Order
use shard_stream.Prelude.{
  ℕ, ◌==◌, Bool, true, false, ◌||◌, ◌&&◌, not, Option, none, some, List, [], ◌∷◌, ltb,
  if◌then◌else◌,
}
use shard_stream.Prelude.Maps.{insert}
use shard_stream.Prelude.Results.{Result, ok, err, panic, ok_or, ◌>>=◌, ◌>>◌, guard}
use shard_stream.Core.Model.{TopicPartition}
use shard_stream.SegmentMap.Dense
use shard_stream.SegmentMap.Dense.{DenseOrderedMap}
use shard_stream.Engine.Model.{
  EngineError, invalid_config, unknown_atomic_group, atomic_group_finalized, corrupt_state,
  replica_in_flight, durability_unavailable, AtomicGroupRuntime, AtomicGroupState, group_unresolved,
  group_committed, group_aborted, AtomicGroupInspection, BatchRuntime, BatchStatus, pending,
  committed, unresolved, aborted, is_unresolved, is_group_unresolved, Journal, JournalEvent,
  group_commit, group_abort,
}
use shard_stream.Engine.Partition.{PartitionState, capacity, advance_cached_watermarks}
use shard_stream.Engine.Outcome.{Outcome, try_in, last}
use shard_stream.Engine.Atomic.{put_group}

abbrev pub first : List ℕ → Option ℕ
first [] = none
first (x ∷ xs) = some x

abbrev pub batch_at : PartitionState → Option ℕ → Option BatchRuntime
batch_at s none = none
batch_at s (some batch_id) = Dense.get capacity s.batches batch_id

unfoldable pub inspect_atomic_group : PartitionState → ℕ → Result EngineError AtomicGroupInspection
inspect_atomic_group s transaction_id = do
  group ← ok_or (s.atomic_groups transaction_id) (unknown_atomic_group transaction_id)
  front ← ok_or (batch_at s (first group.batch_ids)) corrupt_state
  back ← ok_or (batch_at s (last group.batch_ids)) corrupt_state
  ok (record {
    transaction_id = transaction_id;
    state = group.state;
    chunk_count = group.next_sequence;
    record_count = group.record_count;
    payload_bytes = group.payload_bytes;
    first_offset = front.reservation.first_offset;
    last_offset = back.reservation.last_offset;
  })

abbrev pub group_state_eq : AtomicGroupState → AtomicGroupState → Bool
group_state_eq group_unresolved group_unresolved = true
group_state_eq group_unresolved group_committed = false
group_state_eq group_unresolved group_aborted = false
group_state_eq group_committed group_unresolved = false
group_state_eq group_committed group_committed = true
group_state_eq group_committed group_aborted = false
group_state_eq group_aborted group_unresolved = false
group_state_eq group_aborted group_committed = false
group_state_eq group_aborted group_aborted = true

-- The test of one chunk before the group ends.
pub check_final : PartitionState → AtomicGroupState → BatchRuntime → Result EngineError (Unit {0})
check_final s outcome batch =
    if not (is_unresolved batch.status)
    then err (replica_in_flight batch.reservation.batch_id)
    else if group_state_eq outcome group_committed
        && ltb batch.durable_replicas s.replication_policy.min_in_sync_replicas
    then err
        (durability_unavailable s.replication_policy.min_in_sync_replicas batch.durable_replicas)
    else ok tt

-- The first loop over the chunks.
pub check_all_final : PartitionState → AtomicGroupState → List ℕ → Result EngineError (Unit {0})
unfolding check_final
check_all_final s outcome [] = ok tt
check_all_final s outcome (batch_id ∷ rest) = do
  batch ← ok_or (Dense.get capacity s.batches batch_id) corrupt_state
  check_final s outcome batch
  check_all_final s outcome rest

abbrev pub final_status : AtomicGroupState → BatchStatus
final_status group_committed = committed
final_status group_aborted = aborted
final_status group_unresolved = unresolved

abbrev pub finalized : AtomicGroupState → BatchRuntime → BatchRuntime
finalized outcome b = record b { status = final_status outcome }

-- The second loop, which ends every chunk; each was found by the first.
pub finalize_batches :
    AtomicGroupState → List ℕ → DenseOrderedMap BatchRuntime → DenseOrderedMap BatchRuntime
finalize_batches outcome [] batches = batches
finalize_batches outcome (batch_id ∷ rest) batches =
    finalize_batches outcome rest (Dense.update capacity batches batch_id (finalized outcome))

abbrev pub marker : TopicPartition → ℕ → AtomicGroupState → JournalEvent
marker topic_partition transaction_id group_committed = group_commit topic_partition transaction_id
marker topic_partition transaction_id group_aborted = group_abort topic_partition transaction_id
marker topic_partition transaction_id group_unresolved = group_abort topic_partition transaction_id

-- What follows a synced marker, up to the inspection.
pub apply_final : PartitionState → ℕ → AtomicGroupState → AtomicGroupRuntime → PartitionState
unfolding finalize_batches
apply_final s transaction_id outcome group =
    let t = record s { batches = finalize_batches outcome group.batch_ids s.batches } in
    let u = put_group t transaction_id (record group { state = outcome }) in
    advance_cached_watermarks
      (record u { finalized_groups = insert ◌==◌ s.finalized_groups transaction_id outcome })

pub finalize_group :
    PartitionState
    → Journal
    → TopicPartition
    → ℕ
    → AtomicGroupState
    → AtomicGroupRuntime
    → Outcome AtomicGroupInspection
unfolding check_all_final apply_final inspect_atomic_group
finalize_group s journal topic_partition transaction_id outcome group =
    if group_state_eq group.state outcome
    then (inspect_atomic_group s transaction_id, s)
    else if not (is_group_unresolved group.state)
    then (err (atomic_group_finalized transaction_id), s)
    else try_in s (check_all_final s outcome group.batch_ids) (λ checked.
      elim (journal (marker topic_partition transaction_id outcome)) [
        | some e ↦ (err e, s)
        | none ↦
            let t = apply_final s transaction_id outcome group in
            (inspect_atomic_group t transaction_id, t)
      ])

unfoldable pub finalize_atomic_group :
    PartitionState → Journal → TopicPartition → ℕ → AtomicGroupState → Outcome AtomicGroupInspection
unfolding finalize_group
finalize_atomic_group s journal topic_partition transaction_id outcome =
    if is_group_unresolved outcome
    then (err invalid_config, s)
    else elim (s.atomic_groups transaction_id) [
      | none ↦ (err (unknown_atomic_group transaction_id), s)
      | some group ↦ finalize_group s journal topic_partition transaction_id outcome group
    ]
