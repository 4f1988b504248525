-- ===== src/Engine/Control.antt =====
-- crates/shard-stream-engine/src/coordinator.rs: the control operations of a partition, each synced
-- in the control journal before it changes the state. A mutation that is dropped on an error denies
-- the lineage source.
pub mod Order
pub mod Policy
pub mod Retention
use shard_stream.Prelude.{
  ℕ, ◌==◌, Bool, true, false, ◌||◌, ◌&&◌, not, Option, none, some, List, [], ◌∷◌, ltb, leb,
  if◌then◌else◌, min,
}
use shard_stream.Prelude.Maps.{retain}
use shard_stream.Prelude.Results.{Result, ok, err, panic, expect, ok_or}
use shard_stream.Core.Model.{TopicPartition, LogicalOffset, VirtualLaneId}
use shard_stream.Core.Sequencer
use shard_stream.SegmentMap.Dense
use shard_stream.SegmentMap.Dense.{DenseOrderedMap}
use shard_stream.SegmentMap.Dense.Iterate.{values_from}
use shard_stream.Engine.Model.{
  EngineError, fenced, invalid_config, durability_unavailable, topic_already_exists,
  sequencer_error, AtomicGroupIdentity, AtomicGroupRuntime, BatchRuntime, BatchStatus, is_aborted,
  PartitionReplicationPolicy, policy_eq, Journal, JournalEvent, update_replication_policy_event,
  truncate_checkpoint, create_partition_event,
}
use shard_stream.Engine.Lineage
use shard_stream.Engine.Partition.{
  PartitionState, PartitionWatermarks, capacity, empty, watermarks,
  first_batch_with_last_at_or_after, batch_key_at_first_offset, compute_replicated_high_watermark,
  reset_cached_watermarks_after_truncate,
}
use shard_stream.Engine.Outcome.{Outcome, try_in, last}

-- The replicas of the first batch that lags behind `min_in_sync`, or 0.
pub lagging_replicas : ℕ → List BatchRuntime → ℕ
lagging_replicas min_in_sync [] = 0
lagging_replicas min_in_sync (b ∷ bs) =
    if not (is_aborted b.status) && ltb b.durable_replicas min_in_sync
    then b.durable_replicas
    else lagging_replicas min_in_sync bs

-- The refusal of a policy that the stable batches do not meet.
pub refuse_policy : PartitionState → PartitionReplicationPolicy → LogicalOffset → Outcome (Unit {0})
unfolding lagging_replicas
refuse_policy s policy target = try_in s (first_batch_with_last_at_or_after s target) (λ key.
    try_in s (expect (values_from capacity s.batches key)) (λ batches. (
      err (
          durability_unavailable policy.min_in_sync_replicas
            (lagging_replicas policy.min_in_sync_replicas batches)),
      s,
    )))

-- The journal's answer, and what follows it.
pub apply_policy :
    PartitionState → PartitionReplicationPolicy → Option EngineError → Outcome (Unit {0})
apply_policy s policy (some e) =
    (err e, record s { query_lineage = Lineage.deny (Lineage.begin_alone s.query_lineage) })
apply_policy s policy none = (
  ok tt,
  reset_cached_watermarks_after_truncate (record s {
    query_lineage = Lineage.finish_alone (Lineage.begin_alone s.query_lineage);
    replication_policy = policy;
  }),
)

unfoldable pub update_replication_policy :
    PartitionState → Journal → TopicPartition → ℕ → PartitionReplicationPolicy → Outcome (Unit {0})
unfolding apply_policy
update_replication_policy s journal topic_partition expected policy =
    if policy_eq s.replication_policy policy
    then (ok tt, s)
    else if not (s.replication_policy.policy_generation == expected)
    then (err fenced, s)
    else if leb policy.policy_generation expected
    then (err invalid_config, s)
    else try_in s (compute_replicated_high_watermark s policy.min_in_sync_replicas) (λ high.
      let target = min high s.last_stable_offset in
      if ltb target s.last_stable_offset
      then refuse_policy s policy target
      else apply_policy s policy
          (journal (update_replication_policy_event topic_partition expected policy)))

-- A batch in the middle of an atomic group.
abbrev pub splits_group : Option BatchRuntime → Bool
splits_group none = false
splits_group (some b) = elim b.atomic_group [
  | none ↦ false
  | some group ↦ not (group.chunk_sequence == 0)
]

-- The next batch, offset and placement of the checkpoint.
abbrev pub checkpoint_of : PartitionState → Option BatchRuntime → ℕ × ℕ × ℕ
checkpoint_of s none =
    (s.sequencer.next_batch_id, s.sequencer.next_offset, s.sequencer.next_placement_sequence)
checkpoint_of s (some b) =
    (b.reservation.batch_id, b.reservation.first_offset, b.reservation.placement.sequence)

-- A group is kept while its last chunk is.
abbrev pub ends_from : ℕ → AtomicGroupRuntime → Bool
ends_from first_retained group = elim (last group.batch_ids) [
  | none ↦ false
  | some batch_id ↦ leb first_retained batch_id
]

pub apply_truncate :
    PartitionState → LogicalOffset → ℕ → Option EngineError → Outcome PartitionWatermarks
apply_truncate s log_start first_retained (some e) =
    (err e, record s { query_lineage = Lineage.deny (Lineage.begin_alone s.query_lineage) })
apply_truncate s log_start first_retained none =
    let t = reset_cached_watermarks_after_truncate (record s {
      query_lineage = Lineage.finish_alone (Lineage.begin_alone s.query_lineage);
      log_start = log_start;
      batches = (Dense.truncate_before s.batches first_retained).1;
      atomic_groups = retain (ends_from first_retained) s.atomic_groups;
    }) in
    (ok (watermarks t), t)

pub truncate_at :
    PartitionState → Journal → TopicPartition → LogicalOffset → ℕ → Outcome PartitionWatermarks
unfolding apply_truncate
truncate_at s journal topic_partition log_start first_retained =
    let first = Dense.get capacity s.batches first_retained in
    if splits_group first
    then (err invalid_config, s)
    else if log_start == s.log_start
    then (ok (watermarks s), s)
    else let (next_batch, next_offset, next_placement) = checkpoint_of s first in
      if not (next_offset == log_start)
      then (err invalid_config, s)
      else apply_truncate s log_start first_retained (
          journal
            (truncate_checkpoint topic_partition log_start next_batch next_offset next_placement))

-- The first batch that stays.
pub retained_from : PartitionState → LogicalOffset → Result EngineError ℕ
retained_from s log_start =
    if log_start == s.last_stable_offset
    then ok s.batches.next_key
    else elim (batch_key_at_first_offset s log_start) [
      | ok key ↦ ok_or key invalid_config
      | err e ↦ err e
      | panic ↦ panic
    ]

unfoldable pub truncate :
    PartitionState → Journal → TopicPartition → LogicalOffset → Outcome PartitionWatermarks
unfolding truncate_at retained_from
truncate s journal topic_partition log_start =
    if ltb log_start s.log_start
    then (err invalid_config, s)
    else if ltb s.last_stable_offset log_start
    then (err invalid_config, s)
    else try_in s (retained_from s log_start)
        (λ first_retained. truncate_at s journal topic_partition log_start first_retained)
