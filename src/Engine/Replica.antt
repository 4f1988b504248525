-- ===== src/Engine/Replica.antt =====
-- crates/shard-stream-engine/src/coordinator.rs: a follower takes the leader's exact reservation.
pub mod Exact
pub mod Guarded
pub mod Leader
use shard_stream.Prelude.{
  ℕ, ◌==◌, Bool, true, false, ◌||◌, ◌&&◌, not, Option, none, some, List, [], ◌∷◌, if◌then◌else◌,
}
use shard_stream.Prelude.Maps.{insert, option_eq}
use shard_stream.Prelude.Results.{Result, ok, err, panic}
use shard_stream.Core.Model.{Reservation, reservation_eq, TopicPartition, VirtualLaneId}
use shard_stream.Core.Sequencer
use shard_stream.Core.Sequencer.{TopicSequencer, SequencerError}
use shard_stream.SegmentMap.Dense
use shard_stream.SegmentMap.Dense.{DenseOrderedMap}
use shard_stream.Engine.Model.{
  EngineError, corrupt_state, fenced, replica_in_flight, sequencer_error, topic_already_exists,
  ProducerIdentity, ProducerCursor, AtomicGroupIdentity, BatchRuntime, BatchStatus, pending,
  committed, unresolved, aborted, producer_identity_eq, atomic_identity_eq,
  PartitionReplicationPolicy, policy_eq, Journal, create_partition_event,
}
use shard_stream.Engine.Lineage
use shard_stream.Engine.Partition.{
  PartitionState, capacity, empty, reset_cached_watermarks_after_truncate,
}
use shard_stream.Engine.Outcome.{Outcome, and_then, try_in, append_response}
use shard_stream.Engine.Producer.{ProducerSequence, advance_producer}
use shard_stream.Engine.Atomic.{
  ReserveOutcome, duplicate, reserved, check_atomic_group, register_atomic_chunk,
}
use shard_stream.Engine.Batch.{write, append_batch_runtime}
use shard_stream.Engine.Commit.{producer_sequence}

-- What the follower is told of a batch.
pub record ReplicaBatch : Type 0 where
  pub reservation : Reservation
  pub producer : Option ProducerIdentity
  pub atomic_group : Option AtomicGroupIdentity
  pub payload_bytes : ℕ
  pub payload_digest : ℕ

pub digest_agrees : Option ℕ → ℕ → Bool
digest_agrees none digest = true
digest_agrees (some existing) digest = existing == digest

pub identity_matches : BatchRuntime → ReplicaBatch → Bool
unfolding digest_agrees
identity_matches b r =
    reservation_eq b.reservation r.reservation
    && option_eq producer_identity_eq b.producer r.producer
    && option_eq atomic_identity_eq b.atomic_group r.atomic_group
    && b.payload_bytes == r.payload_bytes
    && digest_agrees b.payload_digest r.payload_digest

abbrev pub deny_source : PartitionState → PartitionState
deny_source s = record s { query_lineage = Lineage.deny s.query_lineage }

-- `register_atomic_chunk(…)?` while the activity is armed.
pub register_armed : PartitionState → ReplicaBatch → Option AtomicGroupIdentity → Outcome (Unit {0})
register_armed s r none = (ok tt, s)
register_armed s r (some group) =
    let (result, t) = register_atomic_chunk s group r.reservation r.payload_bytes in
    elim result [
      | ok u ↦ (ok tt, t)
      | err e ↦ (err e, deny_source t)
      | panic ↦ (panic, deny_source t)
    ]

-- The cursor of a producer in its epoch may append again.
pub revive_cursor : PartitionState → Option ProducerIdentity → PartitionState
revive_cursor s none = s
revive_cursor s (some producer) = elim (s.producers producer.producer_id) [
  | none ↦ s
  | some cursor ↦
      if cursor.epoch == producer.epoch
      then record s {
        producers = insert ◌==◌ s.producers producer.producer_id (record cursor { failed = false });
      }
      else s
]

abbrev pub replica_reserved : PartitionState → ReplicaBatch → ReserveOutcome
replica_reserved s r =
    reserved r.reservation (producer_sequence r.payload_digest r.producer) s.replication_policy

-- An aborted batch becomes pending again.
pub revive : PartitionState → ReplicaBatch → Outcome ReserveOutcome
unfolding register_armed revive_cursor
revive s r =
    let t = record s { query_lineage = Lineage.begin_alone s.query_lineage } in
    let u = write t r.reservation.batch_id (λ b. record b {
      query_lineage_active = true;
      status = pending;
      producer = r.producer;
      atomic_group = r.atomic_group;
      payload_digest = some r.payload_digest;
      payload_bytes = r.payload_bytes;
    }) in
    and_then (register_armed (revive_cursor u r.producer) r r.atomic_group)
      (λ done v. (ok (replica_reserved s r), reset_cached_watermarks_after_truncate v))

pub reserve_existing :
    (ℕ → ℕ → ℕ → ℕ) → PartitionState → ReplicaBatch → BatchRuntime → Outcome ReserveOutcome
unfolding identity_matches revive
reserve_existing for_batch s r b =
    if not (identity_matches b r) then (err corrupt_state, s) else elim b.status [
      | committed ↦ (ok known, s)
      | unresolved ↦ (ok known, s)
      | pending ↦ (err (replica_in_flight r.reservation.batch_id), s)
      | aborted ↦ revive s r
    ]
  where
    known : ReserveOutcome
    known =
        duplicate (append_response for_batch 0 r.reservation) b.durable_replicas b.object_durable
          s.replication_policy

-- The check that the chunk of a new batch is new.
pub check_new_chunk :
    (ℕ → ℕ → ℕ → ℕ)
    → PartitionState
    → ReplicaBatch
    → Option AtomicGroupIdentity
    → Result EngineError (Unit {0})
check_new_chunk for_batch s r none = ok tt
check_new_chunk for_batch s r (some group) =
    elim (check_atomic_group for_batch s 0 group r.reservation.record_count r.payload_bytes
      r.payload_digest) [
        | ok found ↦ elim found [ none ↦ ok tt | some outcome ↦ err fenced ]
        | err e ↦ err e
        | panic ↦ panic
      ]

pub advance_replica_producer :
    PartitionState → ReplicaBatch → Option ProducerIdentity → Outcome (Unit {0})
advance_replica_producer s r none = (ok tt, s)
advance_replica_producer s r (some producer) =
    advance_producer s producer r.reservation.record_count

-- `TopicSequencer::restore(previous).expect(…)`, with the activity dropped.
pub restore_sequencer : PartitionState → TopicSequencer → EngineError → Outcome ReserveOutcome
restore_sequencer s previous e = elim (Sequencer.restore (Sequencer.state previous)) [
  | ok sequencer ↦ (err e, deny_source (record s { sequencer = sequencer }))
  | err x ↦ (panic, deny_source s)
  | panic ↦ (panic, deny_source s)
]

-- The batch enters, and its chunk is registered, while the activity is armed.
pub enter_replica : PartitionState → ReplicaBatch → Outcome ReserveOutcome
enter_replica s r =
    let (result, t) = append_batch_runtime s (record {
      reservation = r.reservation;
      status = pending;
      durable_replicas = 0;
      replica_acks = 0;
      producer = r.producer;
      atomic_group = r.atomic_group;
      payload_digest = some r.payload_digest;
      payload_bytes = r.payload_bytes;
      object_durable = false;
      query_lineage_active = true;
    }) in
    elim result [
      | ok u ↦
          and_then (register_armed t r r.atomic_group) (λ done v. (ok (replica_reserved s r), v))
      | err e ↦ (err e, deny_source t)
      | panic ↦ (panic, deny_source t)
    ]

pub reserve_expected :
    PartitionState
    → TopicSequencer
    → ReplicaBatch
    → Result SequencerError Reservation
    → Outcome ReserveOutcome
unfolding restore_sequencer advance_replica_producer enter_replica
reserve_expected s previous r (ok expected) =
    if not (reservation_eq expected r.reservation)
    then restore_sequencer s previous fenced
    else let (result, t) = advance_replica_producer s r r.producer in
      elim result [
        | ok u ↦ enter_replica t r
        | err e ↦ restore_sequencer t previous e
        | panic ↦ (panic, deny_source t)
      ]
reserve_expected s previous r (err e) = (err (sequencer_error e), deny_source s)
reserve_expected s previous r panic = (panic, deny_source s)

-- The reservation of a batch whose chunk is new.
pub reserve_checked : PartitionState → ReplicaBatch → Outcome ReserveOutcome
unfolding reserve_expected
reserve_checked s r =
    let (result, sequencer) = Sequencer.reserve s.sequencer r.reservation.record_count in
    reserve_expected
      (record s { sequencer = sequencer; query_lineage = Lineage.begin_alone s.query_lineage })
      s.sequencer r result

unfoldable pub reserve_new :
    (ℕ → ℕ → ℕ → ℕ) → PartitionState → ReplicaBatch → Outcome ReserveOutcome
unfolding check_new_chunk reserve_checked
reserve_new for_batch s r =
    try_in s (check_new_chunk for_batch s r r.atomic_group) (λ checked. reserve_checked s r)

unfoldable pub reserve_replica :
    (ℕ → ℕ → ℕ → ℕ) → PartitionState → ReplicaBatch → Outcome ReserveOutcome
unfolding reserve_existing reserve_new
reserve_replica for_batch s r = elim (Dense.get capacity s.batches r.reservation.batch_id) [
  | some b ↦ reserve_existing for_batch s r b
  | none ↦ reserve_new for_batch s r
]
