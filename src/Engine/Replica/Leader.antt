-- ===== src/Engine/Replica/Leader.antt =====
-- What a leader prepares, a follower in the same state accepts (coordinator/proposal.rs, replica.rs).
use shard_stream.Prelude.{
  ℕ, ◌<◌, ◌≡◌, ◌≢◌, refl, ap, sym, ◌∙◌, Option, none, some, arith, inr, false,
}
use shard_stream.Prelude.Results.{◌>>=◌, Result, ok, err, panic}
use shard_stream.Core.Model.{TopicPartition, LeaderEpoch, reservation_eq_iff}
use shard_stream.Core.Sequencer.{propose_reservation}
use shard_stream.Core.Sequencer.Propose.{propose_records, propose-again}
use shard_stream.SegmentMap.Dense
use shard_stream.SegmentMap.Dense.Inv.{IsValid}
use shard_stream.SegmentMap.Dense.Lookup.{position-outside}
use shard_stream.Engine.Model.{EngineError, AtomicGroupIdentity, ProducerIdentity, BatchRuntime}
use shard_stream.Engine.Partition.{PartitionState, capacity}
use shard_stream.Engine.Producer.{Receipt, check_producer}
use shard_stream.Engine.Producer.Accepts.{check_producer_iff}
use shard_stream.Engine.Atomic.{check_atomic_group, check_chunk, chunk_receipt}
use shard_stream.Engine.Proposal.{
  AppendIntent, PreparedAppend, prepared_new, prepare, prepare_new, find_duplicate, duplicate_or,
  duplicate_chunk,
}
use shard_stream.Engine.Proposal.Control.{control_pending}
use shard_stream.Engine.Commit.{commit}
use shard_stream.Engine.Commit.Exact.{
  reserved_as, commit_source-Enters, Fits, prepare-Fits, prepare-Prepared, prepare_new-Fits,
}
use shard_stream.Engine.Replica.{ReplicaBatch}
use shard_stream.Engine.Replica.Guarded.{
  PreparedReplica, commit_guarded, commit_guarded-Enters, topic_partition, intent_of, append_intent,
  prepare_replica, replica_new, accept, prepare_found,
}

past_end : (s : PartitionState) → Dense.get capacity s.batches s.batches.next_key ≡ none
unfolding Dense.get
past_end s =
    rw (position-outside capacity (omega arith) s.batches s.batches.next_key (inr (omega arith)))
      refl

-- The request identifier of a new append has no part in whether it is new.
check_producer-request :
    (s : PartitionState) (producer : Option ProducerIdentity) (count digest before after : ℕ)
    → check_producer s before producer count digest ≡ ok none
    → check_producer s after producer count digest ≡ ok none
unfolding check_producer
check_producer-request s none count digest before after h = refl
check_producer-request s (some p) count digest before after h =
    (check_producer_iff s after count digest p).1 ((check_producer_iff s before count digest p).0 h)

chunk_receipt_ne_none :
    (for_batch : ℕ → ℕ → ℕ → ℕ) (s : PartitionState) (request : ℕ) (g : AtomicGroupIdentity)
    (count bytes digest : ℕ) (b : BatchRuntime)
    → chunk_receipt for_batch s request g count bytes digest b ≢ ok none
unfolding chunk_receipt
chunk_receipt_ne_none for_batch s request g count bytes digest b h = ground (arith, h)

check_atomic_group-request :
    (for_batch : ℕ → ℕ → ℕ → ℕ) (s : PartitionState) (g : AtomicGroupIdentity)
    (count bytes digest before after : ℕ)
    → check_atomic_group for_batch s before g count bytes digest ≡ ok none
    → check_atomic_group for_batch s after g count bytes digest ≡ ok none
unfolding check_atomic_group check_chunk
check_atomic_group-request for_batch s g count bytes digest before after h =
    ground (arith, h, chunk_receipt_ne_none for_batch s before g count bytes digest)

duplicate_chunk-request :
    (for_batch : ℕ → ℕ → ℕ → ℕ) (s : PartitionState) (i j : AppendIntent)
    (group : Option AtomicGroupIdentity)
    → (i.record_count ≡ j.record_count)
      × (i.payload_bytes ≡ j.payload_bytes)
      × (i.payload_digest ≡ j.payload_digest)
    → duplicate_chunk for_batch s i group ≡ ok none
    → duplicate_chunk for_batch s j group ≡ ok none
unfolding duplicate_chunk
duplicate_chunk-request for_batch s i j none same h = refl
duplicate_chunk-request for_batch s i j (some g) (count, bytes, digest) h =
    rw (sym count, sym bytes, sym digest)
      (check_atomic_group-request for_batch s g _ _ _ i.request_id j.request_id h)

-- The follower's form of an append: the request, the stream and the admission are others.
abbrev as_follower : AppendIntent → TopicPartition → LeaderEpoch → AppendIntent
as_follower i stream epoch = record i {
  request_id = 0;
  topic_partition = stream;
  admitted_leader_epoch = some epoch;
}

find_duplicate-as_follower :
    (for_batch : ℕ → ℕ → ℕ → ℕ) (s : PartitionState) (i : AppendIntent) (stream : TopicPartition)
    (epoch : LeaderEpoch)
    → find_duplicate for_batch s i ≡ ok none
    → find_duplicate for_batch s (as_follower i stream epoch) ≡ ok none
unfolding find_duplicate duplicate_or
find_duplicate-as_follower for_batch s i stream epoch h =
    let (none_known, none_recorded) =
      fresh_receipt (check_producer s i.request_id i.producer i.record_count i.payload_digest) h in
    rw (check_producer-request s i.producer _ _ i.request_id 0 none_known) (
      duplicate_chunk-request for_batch s i (as_follower i stream epoch) i.atomic_group
        (refl, refl, refl) none_recorded)
  where
    fresh_receipt :
        (c : Result EngineError Receipt)
        → (c >>= λ receipt. duplicate_or for_batch s i receipt) ≡ ok none
        → (c ≡ ok none) × (duplicate_chunk for_batch s i i.atomic_group ≡ ok none)
    fresh_receipt (ok none) h = (refl, h)
    fresh_receipt (ok (some r)) h = ground (arith, h)
    fresh_receipt (err e) h = ground (arith, h)
    fresh_receipt panic h = ground (arith, h)

prepare_new-as_follower :
    (s : PartitionState) (i : AppendIntent) (p : PreparedAppend) (stream : TopicPartition)
    → prepare_new s i ≡ ok p
    → propose_reservation s.sequencer i.record_count
        (some p.proposal.reservation.placement.leader_epoch)
      ≡ propose_reservation s.sequencer i.record_count i.admitted_leader_epoch
    → let j = as_follower i stream p.proposal.reservation.placement.leader_epoch in
      prepare_new s j ≡ ok (record p { intent = j })
unfolding prepare_new
prepare_new-as_follower s i p stream h proposed = rw proposed (ground (arith, h))

-- What the leader tells of an append that it prepared.
abbrev pub batch_of : PreparedAppend → ReplicaBatch
batch_of p = intent_of (record { reservation = p.proposal.reservation; prepared = p })

abbrev pub follower_form : PreparedAppend → PreparedAppend
follower_form p = record p { intent = append_intent (batch_of p) }

intent_as_follower :
    (s : PartitionState) (i : AppendIntent) (p : PreparedAppend)
    → Fits s i p
    → append_intent (batch_of p)
      ≡ as_follower i (topic_partition (batch_of p)) p.proposal.reservation.placement.leader_epoch
intent_as_follower s i p f =
    let records =
      propose_records s.sequencer i.record_count i.admitted_leader_epoch p.proposal f.proposed in
    ground (arith, f.intent, records)

prepare-follower_form :
    (for_batch : ℕ → ℕ → ℕ → ℕ) (s : PartitionState) (i : AppendIntent) (p : PreparedAppend)
    → prepare for_batch s i ≡ ok (prepared_new p)
    → prepare for_batch s (append_intent (batch_of p)) ≡ ok (prepared_new (follower_form p))
unfolding prepare
prepare-follower_form for_batch s i p h =
    let prepared = prepare-Prepared for_batch s i p h in
    let f = prepare_new-Fits s i p prepared.new in
    let e = intent_as_follower s i p f in
    let epoch = p.proposal.reservation.placement.leader_epoch in
    let stream = topic_partition (batch_of p) in
    let records =
      propose_records s.sequencer i.record_count i.admitted_leader_epoch p.proposal f.proposed in
    let again =
      ap (λ n. propose_reservation s.sequencer n (some epoch)) (sym records)
      ∙ propose-again s.sequencer i.record_count i.admitted_leader_epoch p.proposal f.proposed
      ∙ sym f.proposed in
    let new =
      ap (prepare_new s) e
      ∙ prepare_new-as_follower s i p stream prepared.new again
      ∙ ap (λ j. ok (record p { intent = j })) (sym e) in
    let fresh =
      ap (find_duplicate for_batch s) e
      ∙ find_duplicate-as_follower for_batch s i stream epoch prepared.fresh in
    rw (fresh, new) refl

-- A follower in the state in which the leader prepared a new append accepts the leader's reservation,
-- with a preparation that differs from the leader's only in its intent.
pub prepare_replica-leader :
    (for_batch : ℕ → ℕ → ℕ → ℕ) (s : PartitionState) (i : AppendIntent) (p : PreparedAppend)
    → prepare for_batch s i ≡ ok (prepared_new p)
    → prepare_replica for_batch s (batch_of p)
      ≡ ok (
          replica_new (record { reservation = p.proposal.reservation; prepared = follower_form p }))
unfolding prepare_replica prepare_found accept
prepare_replica-leader for_batch s i p h =
    let f = prepare-Fits for_batch s i p h in
    let absent = ap (Dense.get capacity s.batches) f.key ∙ past_end s in
    rw (absent, prepare-follower_form for_batch s i p h)
      (ground (arith, reservation_eq_iff p.proposal.reservation p.proposal.reservation))

-- A leader commits an append that it prepared, and a follower in the same state the batch that it
-- accepted: both answer with the same reservation, and their sequencers agree afterwards.
pub commit_guarded-leader :
    (for_batch : ℕ → ℕ → ℕ → ℕ) (s : PartitionState) (i : AppendIntent) (p : PreparedAppend)
    → IsValid capacity s.batches
    → 0 < i.record_count
    → prepare for_batch s i ≡ ok (prepared_new p)
    → (q : PreparedReplica) × (prepare_replica for_batch s (batch_of p) ≡ ok (replica_new q))
      × (let leader = (commit for_batch s p none).0 in
          let follower = (commit_guarded for_batch s q control_pending).0 in
          (leader.0 ≡ ok (reserved_as p))
          × (follower.0 ≡ leader.0)
          × (follower.1.sequencer ≡ leader.1.sequencer))
commit_guarded-leader for_batch s i p v positive h =
    let q : PreparedReplica = record {
      reservation = p.proposal.reservation;
      prepared = follower_form p;
    } in
    let f = prepare-Fits for_batch s i p h in
    let records =
      propose_records s.sequencer i.record_count i.admitted_leader_epoch p.proposal f.proposed in
    let accepted = prepare_replica-leader for_batch s i p h in
    let leader = commit_source-Enters for_batch s i p none false v positive h tt in
    let (same, follower) =
      commit_guarded-Enters for_batch s (batch_of p) q v (omega (arith, records, positive))
        accepted in
    (
      q,
      accepted,
      (
        leader.result,
        follower.result ∙ sym leader.result,
        ap (λ x. x.1) (follower.sequencer ∙ sym leader.sequencer),
      ),
    )
