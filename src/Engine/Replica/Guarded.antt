-- ===== src/Engine/Replica/Guarded.antt =====
-- crates/shard-stream-engine/src/coordinator/replica.rs: a follower prepares the leader's exact
-- reservation without a change of its state, and commits it later.
use shard_stream.Prelude.{
  ℕ, ◌<◌, ◌≡◌, ◌≢◌, refl, ap, ◌∙◌, Option, none, some, true, arith, if◌then◌else◌,
}
use shard_stream.Prelude.Results.{Result, ok, err, panic}
use shard_stream.Core.Model.{Reservation, TopicPartition, reservation_eq, reservation_eq_iff}
use shard_stream.SegmentMap.Dense
use shard_stream.SegmentMap.Dense.Inv.{IsValid}
use shard_stream.Engine.Model.{
  EngineError, corrupt_state, fenced, replica_in_flight, BatchRuntime, pending, committed,
  unresolved, aborted,
}
use shard_stream.Engine.Partition.{PartitionState, capacity}
use shard_stream.Engine.Outcome.{append_response}
use shard_stream.Engine.Atomic.{ReserveOutcome, duplicate}
use shard_stream.Engine.Proposal.{
  AppendIntent, PreparedAppend, PrepareOutcome, prepared_duplicate, prepared_new, prepare,
}
use shard_stream.Engine.Proposal.Control.{ControlState, control_pending}
use shard_stream.Engine.Commit.{Committed, commit_replica}
use shard_stream.Engine.Commit.Exact.{Enters, commit_source-Enters, prepare-Fits}
use shard_stream.Engine.Replica.{ReplicaBatch, identity_matches}

pub record PreparedReplica : Type 0 where
  pub reservation : Reservation
  pub prepared : PreparedAppend

pub data PrepareReplicaOutcome : Type 0 where
  replica_duplicate : ReserveOutcome → PrepareReplicaOutcome
  replica_new : PreparedReplica → PrepareReplicaOutcome

abbrev pub topic_partition : ReplicaBatch → TopicPartition
topic_partition r = record {
  topic_id = r.reservation.topic_id;
  partition_id = r.reservation.partition_id;
}

-- `PreparedReplica::intent`
abbrev pub intent_of : PreparedReplica → ReplicaBatch
intent_of q = record {
  reservation = q.reservation;
  producer = q.prepared.intent.producer;
  atomic_group = q.prepared.intent.atomic_group;
  payload_bytes = q.prepared.intent.payload_bytes;
  payload_digest = q.prepared.intent.payload_digest;
}

-- A batch that the follower has already.
pub prepare_existing :
    (ℕ → ℕ → ℕ → ℕ)
    → PartitionState
    → ReplicaBatch
    → BatchRuntime
    → Result EngineError PrepareReplicaOutcome
unfolding identity_matches
prepare_existing for_batch s r b =
    if identity_matches b r
    then elim b.status [
      | committed ↦ known
      | unresolved ↦ known
      | pending ↦ err (replica_in_flight r.reservation.batch_id)
      | aborted ↦ err fenced
    ]
    else err corrupt_state
  where
    known : Result EngineError PrepareReplicaOutcome
    known = ok (
        replica_duplicate (
          duplicate (append_response for_batch 0 r.reservation) b.durable_replicas b.object_durable
            s.replication_policy))

-- The append that the follower prepares.
abbrev pub append_intent : ReplicaBatch → AppendIntent
append_intent r = record {
  topic_partition = topic_partition r;
  request_id = 0;
  producer = r.producer;
  atomic_group = r.atomic_group;
  record_count = r.reservation.record_count;
  payload_bytes = r.payload_bytes;
  payload_digest = r.payload_digest;
  admitted_leader_epoch = some r.reservation.placement.leader_epoch;
}

-- Only a new append whose proposal is the leader's reservation is accepted.
unfoldable pub accept :
    ReplicaBatch → Result EngineError PrepareOutcome → Result EngineError PrepareReplicaOutcome
accept r (ok (prepared_new p)) =
    if reservation_eq p.proposal.reservation r.reservation
    then ok (replica_new (record { reservation = r.reservation; prepared = p }))
    else err fenced
accept r (ok (prepared_duplicate outcome)) = err fenced
accept r (err e) = err e
accept r panic = panic

unfoldable pub prepare_found :
    (ℕ → ℕ → ℕ → ℕ)
    → PartitionState
    → ReplicaBatch
    → Option BatchRuntime
    → Result EngineError PrepareReplicaOutcome
unfolding prepare_existing accept
prepare_found for_batch s r (some b) = prepare_existing for_batch s r b
prepare_found for_batch s r none = accept r (prepare for_batch s (append_intent r))

unfoldable pub prepare_replica :
    (ℕ → ℕ → ℕ → ℕ) → PartitionState → ReplicaBatch → Result EngineError PrepareReplicaOutcome
unfolding prepare_found
prepare_replica for_batch s r =
    prepare_found for_batch s r (Dense.get capacity s.batches r.reservation.batch_id)

pub commit_prepared :
    (ℕ → ℕ → ℕ → ℕ)
    → PartitionState
    → PreparedReplica
    → ControlState
    → Result EngineError PrepareReplicaOutcome
    → Committed
commit_prepared for_batch s q control (ok (replica_duplicate outcome)) =
    ((ok outcome, s), some control)
commit_prepared for_batch s q control (ok (replica_new now)) =
    commit_replica for_batch s q.prepared control
commit_prepared for_batch s q control (err e) = ((err e, s), some control)
commit_prepared for_batch s q control panic = ((panic, s), some control)

unfoldable pub commit_guarded :
    (ℕ → ℕ → ℕ → ℕ) → PartitionState → PreparedReplica → ControlState → Committed
unfolding commit_prepared prepare_replica
commit_guarded for_batch s q control =
    commit_prepared for_batch s q control (prepare_replica for_batch s (intent_of q))

-- What an accepted batch went through.
record Accepted (for_batch : ℕ → ℕ → ℕ → ℕ) (s : PartitionState) (r : ReplicaBatch)
    (q : PreparedReplica) : Type 0 where
  reservation : q.reservation ≡ r.reservation
  proposed : q.prepared.proposal.reservation ≡ r.reservation
  prepared : prepare for_batch s (append_intent r) ≡ ok (prepared_new q.prepared)

accept-Accepted :
    (for_batch : ℕ → ℕ → ℕ → ℕ) (s : PartitionState) (r : ReplicaBatch) (q : PreparedReplica)
    (c : Result EngineError PrepareOutcome)
    → prepare for_batch s (append_intent r) ≡ c
    → accept r c ≡ ok (replica_new q)
    → Accepted for_batch s r q
unfolding accept
accept-Accepted for_batch s r q (ok (prepared_new p)) e h = record {
  reservation = ground (arith, h);
  proposed = ground (arith, h, reservation_eq_iff p.proposal.reservation r.reservation);
  prepared = ground (arith, e, h);
}
accept-Accepted for_batch s r q (ok (prepared_duplicate o)) e h = ground (arith, h)
accept-Accepted for_batch s r q (err x) e h = ground (arith, h)
accept-Accepted for_batch s r q panic e h = ground (arith, h)

existing_ne_new :
    (for_batch : ℕ → ℕ → ℕ → ℕ) (s : PartitionState) (r : ReplicaBatch) (q : PreparedReplica)
    (b : BatchRuntime)
    → prepare_existing for_batch s r b ≢ ok (replica_new q)
unfolding prepare_existing
existing_ne_new for_batch s r q b h = ground (arith, h)

prepare_found-Accepted :
    (for_batch : ℕ → ℕ → ℕ → ℕ) (s : PartitionState) (r : ReplicaBatch) (q : PreparedReplica)
    (found : Option BatchRuntime)
    → prepare_found for_batch s r found ≡ ok (replica_new q)
    → Accepted for_batch s r q
unfolding prepare_found
prepare_found-Accepted for_batch s r q (some b) h = absurd (existing_ne_new for_batch s r q b h)
prepare_found-Accepted for_batch s r q none h =
    accept-Accepted for_batch s r q (prepare for_batch s (append_intent r)) refl h

-- The intent of an accepted batch is the batch that the leader sent.
intent_of-Accepted :
    (for_batch : ℕ → ℕ → ℕ → ℕ) (s : PartitionState) (r : ReplicaBatch) (q : PreparedReplica)
    → Accepted for_batch s r q
    → intent_of q ≡ r
intent_of-Accepted for_batch s r q a =
    let fits = prepare-Fits for_batch s (append_intent r) q.prepared a.prepared in
    ground (arith, fits.intent, a.reservation)

pub commit_guarded-Enters :
    (for_batch : ℕ → ℕ → ℕ → ℕ) (s : PartitionState) (r : ReplicaBatch) (q : PreparedReplica)
    → IsValid capacity s.batches
    → 0 < r.reservation.record_count
    → prepare_replica for_batch s r ≡ ok (replica_new q)
    → (q.prepared.proposal.reservation ≡ r.reservation)
      × Enters s q.prepared (commit_guarded for_batch s q control_pending).0
unfolding commit_guarded prepare_replica
commit_guarded-Enters for_batch s r q v positive h =
    let a =
      prepare_found-Accepted for_batch s r q (Dense.get capacity s.batches r.reservation.batch_id)
        h in
    let again = ap (prepare_replica for_batch s) (intent_of-Accepted for_batch s r q a) ∙ h in
    (
      a.proposed,
      rw again (
          commit_source-Enters for_batch s (append_intent r) q.prepared (some control_pending) true
            v positive a.prepared refl),
    )
