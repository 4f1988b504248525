-- ===== src/Engine/Commit/Order.antt =====
-- A commit keeps the order of the batches: a new one enters behind all others, with the next offsets
-- (coordinator/proposal.rs).
use shard_stream.Prelude.{
  ℕ, ◌+◌, ◌<◌, ◌≤◌, ◌≡◌, refl, ap, sym, ◌∙◌, subst, Bool, true, false, ◌||◌, Option, none, some, [],
  ◌∷◌, ◌++◌, arith, Bool-cases, inl, inr,
}
use shard_stream.Prelude.Results.{Result, ok, err, panic}
use shard_stream.Core.Model.{Reservation}
use shard_stream.Core.Sequencer.{
  TopicSequencer, SequencerError, commit_reservation, changes_leader_epoch,
}
use shard_stream.Core.Sequencer.Reserve.{commit_reservation-Reserves}
use shard_stream.Core.Sequencer.Propose.{commit_reservation_refused, commit_reservation_panics}
use shard_stream.SegmentMap.Dense
use shard_stream.SegmentMap.Dense.{DenseOrderedMap, PushResult, pushed, refused, values}
use shard_stream.SegmentMap.Dense.Inv.{IsValid, push-IsValid}
use shard_stream.Engine.Model.{EngineError, BatchRuntime}
use shard_stream.Engine.Lineage
use shard_stream.Engine.Partition.{PartitionState, capacity}
use shard_stream.Engine.Partition.Order.{
  AreWithin, AreWithin-append, AreWithin-later, reservations, reservations-append, IsInOrder,
  core_of, same_core-IsInOrder,
}
use shard_stream.Engine.Batch.Current.{push_lem}
use shard_stream.Engine.Atomic.{ReserveOutcome}
use shard_stream.Engine.Proposal.{
  PreparedAppend, PrepareOutcome, prepared_new, prepared_duplicate, prepare, find_duplicate,
}
use shard_stream.Engine.Proposal.Control.{ControlState}
use shard_stream.Engine.Commit.{
  Committed, allocate, reserve_in, enter, new_batch, allocate_begun, begin_control, commit_current,
  commit_unless, commit_source, same_preparation, put_producer, put_chunk,
}

put_core :
    (p : PreparedAppend) (r : Reservation) (s : PartitionState)
    → core_of (
        put_chunk r p.intent.atomic_group p.atomic_after
          (put_producer p.intent.producer p.producer_after s))
      ≡ core_of s
unfolding put_chunk put_producer
put_core p r s = ground arith

-- The granted batch is behind all others.
pushed-IsInOrder :
    (s : PartitionState) (q : TopicSequencer) (b : BatchRuntime) (n : DenseOrderedMap BatchRuntime)
    → Dense.push capacity s.batches b.reservation.batch_id b ≡ (pushed, n)
    → (b.reservation.first_offset ≡ s.sequencer.next_offset)
      × (b.reservation.first_offset ≤ b.reservation.last_offset)
      × (b.reservation.last_offset + 1 ≡ q.next_offset)
    → IsInOrder s
    → IsInOrder (record s { batches = n; sequencer = q })
pushed-IsInOrder s q b n e (first, rising, last) o = record {
  valid =
      subst (λ m. IsValid capacity m) (ap (λ y. y.1) e)
        (push-IsValid capacity (omega arith) s.batches b.reservation.batch_id b o.valid);
  within =
      subst (λ l. AreWithin s.log_start l q.next_offset)
        (sym (
          ap reservations ((push_lem s.batches b pushed n e).0 refl o.valid).1
          ∙ reservations-append (values s.batches) (b ∷ [])))
        (subst (AreWithin s.log_start (reservations (values s.batches) ++ b.reservation ∷ [])) last
          (AreWithin-append s.log_start (reservations (values s.batches)) b.reservation
            (subst (AreWithin s.log_start (reservations (values s.batches))) (sym first) o.within)
            rising));
}

entered-IsInOrder :
    (s : PartitionState) (q : TopicSequencer) (p : PreparedAppend) (r : Reservation) (active : Bool)
    (y : PushResult BatchRuntime)
    → (Dense.push capacity s.batches r.batch_id (new_batch p.intent r active)).0 ≡ y
    → (r.first_offset ≡ s.sequencer.next_offset)
      × (r.first_offset ≤ r.last_offset)
      × (r.last_offset + 1 ≡ q.next_offset)
    → IsInOrder s
    → IsInOrder (enter (record s { sequencer = q }) p r active).1
unfolding enter
entered-IsInOrder s q p r active pushed e places o =
    let b = new_batch p.intent r active in
    let n = (Dense.push capacity s.batches r.batch_id b).1 in
    let t = record s { batches = n; sequencer = q } in
    rw (e, enter)
      (same_core-IsInOrder t _ (put_core p r t)
        (pushed-IsInOrder s q b n (ap (λ y. (y, n)) e) places o))
entered-IsInOrder s q p r active (refused x) e (first, rising, last) o =
    let b = new_batch p.intent r active in
    let n = (Dense.push capacity s.batches r.batch_id b).1 in
    let same : n ≡ s.batches =
      (push_lem s.batches b (refused x) n (ap (λ y. (y, n)) e)).1 (λ same. ground arith) in
    rw (e, enter)
      (record {
        valid = subst (λ m. IsValid capacity m) (sym same) o.valid;
        within =
            subst (λ m. AreWithin s.log_start (reservations (values m)) q.next_offset) (sym same)
              (AreWithin-later s.log_start (reservations (values s.batches)) s.sequencer.next_offset
                q.next_offset o.within (omega (arith, first, rising, last)));
      })

-- Where the batch that the sequencer grants stands.
places :
    (q u : TopicSequencer) (p : PreparedAppend) (r : Reservation)
    → 0 < p.proposal.reservation.record_count
    → commit_reservation q p.proposal ≡ (ok r, u)
    → (r.first_offset ≡ q.next_offset)
      × (r.first_offset ≤ r.last_offset)
      × (r.last_offset + 1 ≡ u.next_offset)
places q u p r positive e =
    let g = commit_reservation-Reserves q u p.proposal r positive e in
    (g.first, omega (arith, g.first, g.last, g.offset, positive), g.last)

reserve_in-IsInOrder :
    (s : PartitionState) (p : PreparedAppend) (active : Bool)
    (x : Result SequencerError Reservation × TopicSequencer)
    → 0 < p.proposal.reservation.record_count
    → commit_reservation s.sequencer p.proposal ≡ x
    → IsInOrder s
    → IsInOrder (reserve_in s p active x).1
unfolding reserve_in
reserve_in-IsInOrder s p active (ok r, q) positive e o =
    entered-IsInOrder s q p r active _ refl (places s.sequencer q p r positive e) o
reserve_in-IsInOrder s p true (err x, q) positive e o =
    same_core-IsInOrder s _
      (ap (λ u. (s.batches, s.log_start, u))
        (commit_reservation_refused s.sequencer q p.proposal x e).1)
      o
reserve_in-IsInOrder s p false (err x, q) positive e o =
    same_core-IsInOrder s _
      (ap (λ u. (s.batches, s.log_start, u))
        (commit_reservation_refused s.sequencer q p.proposal x e).1)
      o
reserve_in-IsInOrder s p true (panic, q) positive e o =
    same_core-IsInOrder s _
      (ap (λ u. (s.batches, s.log_start, u)) (commit_reservation_panics s.sequencer q p.proposal e))
      o
reserve_in-IsInOrder s p false (panic, q) positive e o =
    same_core-IsInOrder s _
      (ap (λ u. (s.batches, s.log_start, u)) (commit_reservation_panics s.sequencer q p.proposal e))
      o

allocate-IsInOrder :
    (s : PartitionState) (p : PreparedAppend) (replica : Bool)
    → 0 < p.proposal.reservation.record_count
    → IsInOrder s
    → IsInOrder (allocate s p replica).1
unfolding allocate
allocate-IsInOrder s p replica positive o =
    elim (Bool-cases (replica || changes_leader_epoch p.proposal)) [
      | inl active ↦ rw active (
          reserve_in-IsInOrder (record s { query_lineage = Lineage.begin_alone s.query_lineage }) p
            true _ positive refl (same_core-IsInOrder s _ refl o))
      | inr idle ↦ rw idle (reserve_in-IsInOrder s p false _ positive refl o)
    ]

allocate_begun-IsInOrder :
    (s : PartitionState) (p : PreparedAppend) (replica : Bool)
    (begun : Result EngineError (Unit {0}) × Option ControlState)
    → 0 < p.proposal.reservation.record_count
    → IsInOrder s
    → IsInOrder (allocate_begun s p replica begun).0.1
unfolding allocate_begun
allocate_begun-IsInOrder s p replica (ok u, d) positive o =
    allocate-IsInOrder s p replica positive o
allocate_begun-IsInOrder s p replica (err x, d) positive o = o
allocate_begun-IsInOrder s p replica (panic, d) positive o = o

commit_current-IsInOrder :
    (s : PartitionState) (p : PreparedAppend) (d : Option ControlState) (replica : Bool)
    (now : Result EngineError PrepareOutcome)
    → 0 < p.proposal.reservation.record_count
    → IsInOrder s
    → IsInOrder (commit_current s p d replica now).0.1
unfolding commit_current
commit_current-IsInOrder s p d replica (ok (prepared_new current)) positive o =
    elim (Bool-cases (same_preparation current p)) [
      | inl same ↦ rw same (allocate_begun-IsInOrder s p replica (begin_control d) positive o)
      | inr changed ↦ rw changed o
    ]
commit_current-IsInOrder s p d replica (ok (prepared_duplicate x)) positive o = o
commit_current-IsInOrder s p d replica (err x) positive o = o
commit_current-IsInOrder s p d replica panic positive o = o

commit_unless-IsInOrder :
    (s : PartitionState) (d : Option ControlState) (new : Committed)
    (found : Result EngineError (Option ReserveOutcome))
    → IsInOrder s
    → IsInOrder new.0.1
    → IsInOrder (commit_unless s d new found).0.1
unfolding commit_unless
commit_unless-IsInOrder s d new (ok none) o k = k
commit_unless-IsInOrder s d new (ok (some x)) o k = o
commit_unless-IsInOrder s d new (err x) o k = o
commit_unless-IsInOrder s d new panic o k = o

pub commit_source-IsInOrder :
    (for_batch : ℕ → ℕ → ℕ → ℕ) (s : PartitionState) (p : PreparedAppend) (d : Option ControlState)
    (replica : Bool)
    → 0 < p.proposal.reservation.record_count
    → IsInOrder s
    → IsInOrder (commit_source for_batch s p d replica).0.1
unfolding commit_source
commit_source-IsInOrder for_batch s p d replica positive o =
    commit_unless-IsInOrder s d _ (find_duplicate for_batch s p.intent) o
      (commit_current-IsInOrder s p d replica (prepare for_batch s p.intent) positive o)
