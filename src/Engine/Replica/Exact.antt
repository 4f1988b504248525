-- ===== src/Engine/Replica/Exact.antt =====
-- A follower accepts exactly the next placement of its own sequencer (coordinator.rs).
use shard_stream.Prelude.{ℕ, ◌≡◌, refl, ap, ap₂, sym, ◌∙◌, true, false, none, some, arith}
use shard_stream.Prelude.Results.{Result, ok, err, panic}
use shard_stream.Core.Model.{Reservation, reservation_eq_iff}
use shard_stream.Core.Sequencer
use shard_stream.Core.Sequencer.{TopicSequencer, SequencerError}
use shard_stream.SegmentMap.Dense
use shard_stream.Engine.Model.{EngineError, BatchRuntime, pending}
use shard_stream.Engine.Outcome.{try_in}
use shard_stream.Engine.Partition.{PartitionState, capacity, advance_cached_watermarks}
use shard_stream.Engine.Producer.{advance_producer}
use shard_stream.Engine.Atomic.{ReserveOutcome, register_atomic_chunk}
use shard_stream.Engine.Batch.{append_batch_runtime}
use shard_stream.Engine.Replica.{
  ReplicaBatch, enter_replica, register_armed, reserve_expected, restore_sequencer,
  advance_replica_producer, reserve_new, reserve_checked, reserve_existing, reserve_replica,
  check_new_chunk,
}

appended-sequencer :
    (s : PartitionState) (b : BatchRuntime) → (append_batch_runtime s b).1.sequencer ≡ s.sequencer
unfolding append_batch_runtime advance_cached_watermarks
appended-sequencer s b = ground arith

registered-sequencer :
    (s : PartitionState) (r : ReplicaBatch)
    → (register_armed s r r.atomic_group).1.sequencer ≡ s.sequencer
unfolding register_armed register_atomic_chunk
registered-sequencer s r = ground arith

advanced-sequencer :
    (s : PartitionState) (r : ReplicaBatch)
    → (advance_replica_producer s r r.producer).1.sequencer ≡ s.sequencer
unfolding advance_replica_producer advance_producer
advanced-sequencer s r = ground arith

enter_replica-sequencer :
    (s : PartitionState) (r : ReplicaBatch) → (enter_replica s r).1.sequencer ≡ s.sequencer
unfolding enter_replica
enter_replica-sequencer s r =
    let b : BatchRuntime = record {
      reservation = r.reservation;
      status = pending;
      durable_replicas = 0;
      replica_acks = 0;
      producer = r.producer;
      atomic_group = r.atomic_group;
      payload_digest = some r.payload_digest;
      payload_bytes = r.payload_bytes;
      query_lineage_active = true;
      object_durable = false;
    } in
    ground (arith, appended-sequencer s b, registered-sequencer (append_batch_runtime s b).1 r)

expected-exact :
    (s t : PartitionState) (previous : TopicSequencer) (r : ReplicaBatch) (o : ReserveOutcome)
    (x : Result SequencerError Reservation)
    → reserve_expected s previous r x ≡ (ok o, t)
    → (x ≡ ok r.reservation) × (t.sequencer ≡ s.sequencer)
unfolding reserve_expected restore_sequencer
expected-exact s t previous r o (ok expected) h = ground (
  arith,
  reservation_eq_iff expected r.reservation,
  advanced-sequencer s r,
  enter_replica-sequencer (advance_replica_producer s r r.producer).1 r,
  ap (λ y. y.0) h,
  ap (λ y. y.1.sequencer) h,
)
expected-exact s t previous r o (err e) h = absurd (ground (arith, ap (λ y. y.0) h))
expected-exact s t previous r o panic h = absurd (ground (arith, ap (λ y. y.0) h))

checked-exact :
    (s t : PartitionState) (r : ReplicaBatch) (o : ReserveOutcome)
    → reserve_checked s r ≡ (ok o, t)
    → Sequencer.reserve s.sequencer r.reservation.record_count ≡ (ok r.reservation, t.sequencer)
unfolding reserve_checked
checked-exact s t r o h =
    let (granted, kept) = expected-exact _ t s.sequencer r o _ h in
    ap₂ (λ (a : Result SequencerError Reservation) (b : TopicSequencer). (a, b)) granted (sym kept)

new-exact :
    (for_batch : ℕ → ℕ → ℕ → ℕ) (s t : PartitionState) (r : ReplicaBatch) (o : ReserveOutcome)
    (c : Result EngineError (Unit {0}))
    → check_new_chunk for_batch s r r.atomic_group ≡ c
    → reserve_new for_batch s r ≡ (ok o, t)
    → Sequencer.reserve s.sequencer r.reservation.record_count ≡ (ok r.reservation, t.sequencer)
unfolding reserve_new
new-exact for_batch s t r o (ok u) e h =
    checked-exact s t r o (sym (ap (λ c. try_in s c (λ u. reserve_checked s r)) e) ∙ h)
new-exact for_batch s t r o (err x) e h = absurd (ground (arith, e, ap (λ y. y.0) h))
new-exact for_batch s t r o panic e h = absurd (ground (arith, e, ap (λ y. y.0) h))

-- A follower that accepts a batch it does not know has reserved that batch's exact coordinates from its
-- own sequencer, which stands past them.
pub reserve_replica-exact :
    (for_batch : ℕ → ℕ → ℕ → ℕ) (s t : PartitionState) (r : ReplicaBatch) (o : ReserveOutcome)
    → Dense.get capacity s.batches r.reservation.batch_id ≡ none
    → reserve_replica for_batch s r ≡ (ok o, t)
    → Sequencer.reserve s.sequencer r.reservation.record_count ≡ (ok r.reservation, t.sequencer)
unfolding reserve_replica
reserve_replica-exact for_batch s t r o absent h = new-exact for_batch s t r o _ refl (
    sym (
      ap
        (λ found. elim found [
          | some b ↦ reserve_existing for_batch s r b
          | none ↦ reserve_new for_batch s r
        ])
        absent)
    ∙ h)
