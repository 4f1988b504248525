-- ===== src/Engine/Commit.antt =====
-- crates/shard-stream-engine/src/coordinator/proposal.rs: the serialized commit of a prepared append.
pub mod Refused
pub mod Exact
pub mod Current
pub mod Order
use shard_stream.Prelude.{
  ℕ, ◌+◌, ◌==◌, Bool, true, false, ◌||◌, ◌&&◌, not, Option, none, some, List, [], ◌∷◌, ◌++◌,
  if◌then◌else◌,
}
use shard_stream.Prelude.Maps.{insert, option_eq}
use shard_stream.Prelude.Results.{Result, ok, err, panic}
use shard_stream.Core.Model.{Reservation}
use shard_stream.Core.Sequencer.{
  SequencerError, TopicSequencer, ReservationProposal, reservation_proposal_changed,
  commit_reservation, proposal_eq, changes_leader_epoch,
}
use shard_stream.SegmentMap.Dense
use shard_stream.SegmentMap.Dense.{DenseOrderedMap, PushResult, pushed, refused}
use shard_stream.Engine.Model.{
  EngineError, corrupt_state, sequencer_error, ProducerIdentity, AtomicGroupIdentity,
  AtomicGroupRuntime, ProducerCursor, BatchRuntime, pending, policy_eq,
}
use shard_stream.Engine.Lineage
use shard_stream.Engine.Partition.{PartitionState, capacity}
use shard_stream.Engine.Outcome.{Outcome}
use shard_stream.Engine.Producer.{ProducerSequence, digest_xxh3_128}
use shard_stream.Engine.Atomic.{ReserveOutcome, reserved, group_or_new, put_group}
use shard_stream.Engine.Proposal.{
  AppendIntent, AtomicSnapshot, PreparedAppend, PrepareOutcome, prepared_duplicate, prepared_new,
  cursor_eq, snapshot_eq, find_duplicate, prepare,
}
use shard_stream.Engine.Proposal.Control.{ControlState, begin_commit}

-- The eight comparisons of the current preparation with the given one.
unfoldable pub same_preparation : PreparedAppend → PreparedAppend → Bool
same_preparation current prepared =
    proposal_eq current.proposal prepared.proposal
    && policy_eq current.replication_policy prepared.replication_policy
    && option_eq cursor_eq current.producer_before prepared.producer_before
    && option_eq cursor_eq current.producer_after prepared.producer_after
    && option_eq snapshot_eq current.atomic_before prepared.atomic_before
    && option_eq snapshot_eq current.atomic_after prepared.atomic_after
    && current.dense_next_key == prepared.dense_next_key
    && current.dense_len == prepared.dense_len

-- A control is there for a queued commit only.
abbrev pub begin_control : Option ControlState → Result EngineError (Unit {0}) × Option ControlState
begin_control none = (ok tt, none)
begin_control (some control) = let (result, after) = begin_commit control in (result, some after)

abbrev pub new_batch : AppendIntent → Reservation → Bool → BatchRuntime
new_batch intent r active = record {
  reservation = r;
  status = pending;
  durable_replicas = 0;
  replica_acks = 0;
  producer = intent.producer;
  atomic_group = intent.atomic_group;
  payload_digest = some intent.payload_digest;
  payload_bytes = intent.payload_bytes;
  object_durable = false;
  query_lineage_active = active;
}

abbrev pub producer_sequence : ℕ → Option ProducerIdentity → Option ProducerSequence
producer_sequence digest none = none
producer_sequence digest (some identity) =
    some
      (record { identity = identity; digest_algorithm = digest_xxh3_128; payload_digest = digest })

pub put_producer : Option ProducerIdentity → Option ProducerCursor → PartitionState → PartitionState
put_producer none cursor s = s
put_producer (some identity) none s = s
put_producer (some identity) (some cursor) s = record s {
  producers = insert ◌==◌ s.producers identity.producer_id cursor;
}

pub put_chunk :
    Reservation
    → Option AtomicGroupIdentity
    → Option AtomicSnapshot
    → PartitionState
    → PartitionState
put_chunk r none after s = s
put_chunk r (some identity) none s = s
put_chunk r (some identity) (some after) s =
    let group = group_or_new (s.atomic_groups identity.transaction_id) in
    put_group s identity.transaction_id (record group {
      batch_ids = group.batch_ids ++ r.batch_id ∷ [];
      next_sequence = after.next_sequence;
      payload_bytes = after.payload_bytes;
      record_count = after.record_count;
    })

-- What follows the reservation: the batch enters, then the producer and the group advance.
pub enter : PartitionState → PreparedAppend → Reservation → Bool → Outcome ReserveOutcome
unfolding put_producer put_chunk
enter s p r active =
    let (result, batches) =
      Dense.push capacity s.batches r.batch_id (new_batch p.intent r active) in
    elim result [
      | pushed ↦ (
        ok (
            reserved r (producer_sequence p.intent.payload_digest p.intent.producer)
              p.replication_policy),
        put_chunk r p.intent.atomic_group p.atomic_after
            (put_producer p.intent.producer p.producer_after (record s { batches = batches })),
      )
      | refused e ↦ (panic, record s { batches = batches })
    ]

-- A guard that is dropped while it is armed denies the source.
abbrev pub drop_activity : Bool → PartitionState → PartitionState
drop_activity false s = s
drop_activity true s = record s { query_lineage = Lineage.deny s.query_lineage }

pub reserve_in :
    PartitionState
    → PreparedAppend
    → Bool
    → Result SequencerError Reservation × TopicSequencer
    → Outcome ReserveOutcome
unfolding enter
reserve_in s p active (ok r, sequencer) = enter (record s { sequencer = sequencer }) p r active
reserve_in s p active (err e, sequencer) =
    (err (sequencer_error e), drop_activity active (record s { sequencer = sequencer }))
reserve_in s p active (panic, sequencer) =
    (panic, drop_activity active (record s { sequencer = sequencer }))

unfoldable pub allocate : PartitionState → PreparedAppend → Bool → Outcome ReserveOutcome
unfolding reserve_in
allocate s p replica_source =
    let active = replica_source || changes_leader_epoch p.proposal in
    let t =
      if active then record s { query_lineage = Lineage.begin_alone s.query_lineage } else s in
    reserve_in t p active (commit_reservation s.sequencer p.proposal)

abbrev pub Committed : Type 0
Committed = Outcome ReserveOutcome × Option ControlState

pub allocate_begun :
    PartitionState
    → PreparedAppend
    → Bool
    → Result EngineError (Unit {0}) × Option ControlState
    → Committed
unfolding allocate
allocate_begun s p replica_source (ok u, control) = (allocate s p replica_source, control)
allocate_begun s p replica_source (err e, control) = ((err e, s), control)
allocate_begun s p replica_source (panic, control) = ((panic, s), control)

pub commit_current :
    PartitionState
    → PreparedAppend
    → Option ControlState
    → Bool
    → Result EngineError PrepareOutcome
    → Committed
unfolding allocate_begun same_preparation
commit_current s p control replica_source (ok (prepared_new current)) =
    if same_preparation current p
    then allocate_begun s p replica_source (begin_control control)
    else ((err (sequencer_error reservation_proposal_changed), s), control)
commit_current s p control replica_source (ok (prepared_duplicate outcome)) =
    ((err corrupt_state, s), control)
commit_current s p control replica_source (err e) = ((err e, s), control)
commit_current s p control replica_source panic = ((panic, s), control)

pub commit_unless :
    PartitionState
    → Option ControlState
    → Committed
    → Result EngineError (Option ReserveOutcome)
    → Committed
commit_unless s control new (ok (some outcome)) = ((ok outcome, s), control)
commit_unless s control new (ok none) = new
commit_unless s control new (err e) = ((err e, s), control)
commit_unless s control new panic = ((panic, s), control)

unfoldable pub commit_source :
    (ℕ → ℕ → ℕ → ℕ) → PartitionState → PreparedAppend → Option ControlState → Bool → Committed
unfolding commit_current commit_unless
commit_source for_batch s p control replica_source =
    commit_unless s control
      (commit_current s p control replica_source (prepare for_batch s p.intent))
      (find_duplicate for_batch s p.intent)

-- `commit` and `commit_replica`.
abbrev pub commit :
    (ℕ → ℕ → ℕ → ℕ) → PartitionState → PreparedAppend → Option ControlState → Committed
commit for_batch s p control = commit_source for_batch s p control false

abbrev pub commit_replica :
    (ℕ → ℕ → ℕ → ℕ) → PartitionState → PreparedAppend → ControlState → Committed
commit_replica for_batch s p control = commit_source for_batch s p (some control) true

pub reserve_prepared :
    (ℕ → ℕ → ℕ → ℕ) → PartitionState → Result EngineError PrepareOutcome → Outcome ReserveOutcome
reserve_prepared for_batch s (ok (prepared_duplicate outcome)) = (ok outcome, s)
reserve_prepared for_batch s (ok (prepared_new p)) = (commit for_batch s p none).0
reserve_prepared for_batch s (err e) = (err e, s)
reserve_prepared for_batch s panic = (panic, s)

-- The coordinator's own reservation: preparation and commit in one step.
unfoldable pub reserve : (ℕ → ℕ → ℕ → ℕ) → PartitionState → AppendIntent → Outcome ReserveOutcome
unfolding reserve_prepared
reserve for_batch s intent = reserve_prepared for_batch s (prepare for_batch s intent)
