-- ===== src/Engine/Commit/Exact.antt =====
-- A prepared append is committed with exactly its coordinates (coordinator/proposal.rs).
use shard_stream.Prelude.{
  ℕ, ◌+◌, ◌<◌, ◌≡◌, refl, ap, sym, ◌∙◌, subst, Bool, true, false, ◌||◌, Option, none, some, [], ◌∷◌,
  ◌++◌, arith, Bool-cases, inl, inr, ==_refl, u128_mod, usize_mod,
}
use shard_stream.Prelude.Maps.{option_eq}
use shard_stream.Prelude.Results.{Result, ok, err, panic}
use shard_stream.Core.Model.{Reservation}
use shard_stream.Core.Sequencer.{
  TopicSequencer, propose_reservation, commit_reservation, changes_leader_epoch,
}
use shard_stream.Core.Sequencer.Reserve.{commit_reservation-Reserves, proposal_eq_iff}
use shard_stream.Core.Sequencer.Propose.{commit-propose, propose_records}
use shard_stream.SegmentMap.Dense
use shard_stream.SegmentMap.Dense.{PushResult, pushed, refused, values}
use shard_stream.SegmentMap.Dense.Inv.{IsValid}
use shard_stream.Engine.Model.{
  EngineError, BatchRuntime, pending, PartitionReplicationPolicy, ProducerCursor, policy_eq,
}
use shard_stream.Engine.Lineage
use shard_stream.Engine.Partition.{PartitionState, capacity}
use shard_stream.Engine.Batch.Current.{push_lem}
use shard_stream.Engine.Outcome.{Outcome}
use shard_stream.Engine.Atomic.{ReserveOutcome, reserved}
use shard_stream.Engine.Proposal.{
  AppendIntent, AtomicSnapshot, PreparedAppend, prepared_new, find_duplicate, prepare, prepare_new,
  cursor_eq, snapshot_eq, prepare_unless,
}
use shard_stream.Engine.Proposal.Control.{ControlState, control_pending, begin_commit}
use shard_stream.Engine.Commit.{
  allocate, reserve_in, enter, new_batch, allocate_begun, begin_control, commit_source,
  same_preparation, producer_sequence, put_producer, put_chunk,
}

policy_eq_refl : (p : PartitionReplicationPolicy) → policy_eq p p ≡ true
policy_eq_refl p = ground arith

cursor_eq_refl : (c : Option ProducerCursor) → option_eq cursor_eq c c ≡ true
cursor_eq_refl none = refl
cursor_eq_refl (some c) = ground arith

snapshot_eq_refl : (a : Option AtomicSnapshot) → option_eq snapshot_eq a a ≡ true
snapshot_eq_refl none = refl
snapshot_eq_refl (some a) = ground arith

same_preparation_refl : (p : PreparedAppend) → same_preparation p p ≡ true
unfolding same_preparation
same_preparation_refl p =
    rw
      (
        (proposal_eq_iff p.proposal p.proposal).1 refl,
        policy_eq_refl p.replication_policy,
        cursor_eq_refl p.producer_before,
        cursor_eq_refl p.producer_after,
        snapshot_eq_refl p.atomic_before,
        snapshot_eq_refl p.atomic_after,
        ==_refl p.dense_next_key,
        ==_refl p.dense_len,
      )
      refl

-- What a preparation that found no duplicate went through.
pub record Prepared (for_batch : ℕ → ℕ → ℕ → ℕ) (s : PartitionState) (i : AppendIntent)
    (p : PreparedAppend) : Type 0 where
  pub fresh : find_duplicate for_batch s i ≡ ok none
  pub new : prepare_new s i ≡ ok p

prepare_unless-Prepared :
    (new : Result EngineError PreparedAppend) (found : Result EngineError (Option ReserveOutcome))
    (p : PreparedAppend)
    → prepare_unless new found ≡ ok (prepared_new p)
    → (found ≡ ok none) × (new ≡ ok p)
prepare_unless-Prepared (ok q) (ok none) p h = ground arith
prepare_unless-Prepared (err e) (ok none) p h = ground arith
prepare_unless-Prepared panic (ok none) p h = ground arith
prepare_unless-Prepared new (ok (some o)) p h = ground arith
prepare_unless-Prepared new (err e) p h = ground arith
prepare_unless-Prepared new panic p h = ground arith

pub prepare-Prepared :
    (for_batch : ℕ → ℕ → ℕ → ℕ) (s : PartitionState) (i : AppendIntent) (p : PreparedAppend)
    → prepare for_batch s i ≡ ok (prepared_new p)
    → Prepared for_batch s i p
unfolding prepare
prepare-Prepared for_batch s i p h =
    let (fresh, new) =
      prepare_unless-Prepared (prepare_new s i) (find_duplicate for_batch s i) p h in
    record { fresh = fresh; new = new }

-- What a preparation says of the state it was made in.
pub record Fits (s : PartitionState) (i : AppendIntent) (p : PreparedAppend) : Type 0 where
  pub intent : p.intent ≡ i
  pub proposed :
      propose_reservation s.sequencer i.record_count i.admitted_leader_epoch ≡ ok p.proposal
  pub key : p.proposal.reservation.batch_id ≡ s.batches.next_key
  len : s.batches.len + 1 < usize_mod

pub prepare_new-Fits :
    (s : PartitionState) (i : AppendIntent) (p : PreparedAppend)
    → prepare_new s i ≡ ok p
    → Fits s i p
unfolding prepare_new
prepare_new-Fits s i p h = record {
  intent = ground (arith, h);
  proposed = ground (arith, h);
  key = ground (arith, h);
  len = ground (arith, h);
}

pub prepare-Fits :
    (for_batch : ℕ → ℕ → ℕ → ℕ) (s : PartitionState) (i : AppendIntent) (p : PreparedAppend)
    → prepare for_batch s i ≡ ok (prepared_new p)
    → Fits s i p
prepare-Fits for_batch s i p h = prepare_new-Fits s i p (prepare-Prepared for_batch s i p h).new

push_total :
    (s : PartitionState) (b : BatchRuntime)
    → b.reservation.batch_id ≡ s.batches.next_key
    → b.reservation.batch_id + 1 < u128_mod
    → s.batches.len + 1 < usize_mod
    → (Dense.push capacity s.batches b.reservation.batch_id b).0 ≡ pushed
unfolding Dense.push
push_total s b key fits len = ground (arith, key, fits, len)

put_batches :
    (p : PreparedAppend) (r : Reservation) (s : PartitionState)
    → let t =
        put_chunk r p.intent.atomic_group p.atomic_after
          (put_producer p.intent.producer p.producer_after s) in
      (t.batches ≡ s.batches) × (t.sequencer ≡ s.sequencer)
unfolding put_chunk put_producer
put_batches p r s = ground arith

-- The outcome of a commit that reserves `r`.
abbrev pub reserved_as : PreparedAppend → ReserveOutcome
reserved_as p =
    reserved p.proposal.reservation (producer_sequence p.intent.payload_digest p.intent.producer)
      p.replication_policy

enter_lem :
    (s : PartitionState) (p : PreparedAppend) (r : Reservation) (active : Bool)
    → (Dense.push capacity s.batches r.batch_id (new_batch p.intent r active)).0 ≡ pushed
    → let x = enter s p r active in
      (x.0
        ≡ ok (
            reserved r
              (producer_sequence p.intent.payload_digest p.intent.producer)
              p.replication_policy))
      × (x.1.sequencer ≡ s.sequencer)
      × (x.1.batches ≡ (Dense.push capacity s.batches r.batch_id (new_batch p.intent r active)).1)
unfolding enter
enter_lem s p r active e =
    rw (e, enter)
      (let t = record s {
        batches = (Dense.push capacity s.batches r.batch_id (new_batch p.intent r active)).1;
      } in
        let (batches, sequencer) = put_batches p r t in (refl, sequencer, batches))

-- A batch that waits for its physical result: it is pending with the coordinates `r` and what the
-- intent says of it, and no replica or object store has it yet.
pub record Waits (intent : AppendIntent) (r : Reservation) (b : BatchRuntime) : Type 0 where
  pub status : b.status ≡ pending
  pub reservation : b.reservation ≡ r
  pub producer : b.producer ≡ intent.producer
  pub atomic_group : b.atomic_group ≡ intent.atomic_group
  pub payload_digest : b.payload_digest ≡ some intent.payload_digest
  pub payload_bytes : b.payload_bytes ≡ intent.payload_bytes
  pub durable_replicas : b.durable_replicas ≡ 0
  pub replica_acks : b.replica_acks ≡ 0
  pub object_durable : b.object_durable ≡ false

-- What a commit of `p` by `s` leaves: the exact reservation, the sequencer past it, and its batch,
-- which waits for its physical result, behind all others.
pub record Enters (s : PartitionState) (p : PreparedAppend) (x : Outcome ReserveOutcome)
    : Type 0 where
  pub result : x.0 ≡ ok (reserved_as p)
  pub sequencer :
      (ok p.proposal.reservation, x.1.sequencer) ≡ commit_reservation s.sequencer p.proposal
  pub batches :
      (b : BatchRuntime) × Waits p.intent p.proposal.reservation b
      × (values x.1.batches ≡ values s.batches ++ b ∷ [])

new_batch-Waits :
    (intent : AppendIntent) (r : Reservation) (active : Bool)
    → Waits intent r (new_batch intent r active)
new_batch-Waits intent r active = record {
  status = refl;
  reservation = refl;
  producer = refl;
  atomic_group = refl;
  payload_digest = refl;
  payload_bytes = refl;
  durable_replicas = refl;
  replica_acks = refl;
  object_durable = refl;
}

granted-Enters :
    (s : PartitionState) (p : PreparedAppend) (active : Bool) (q : TopicSequencer)
    → IsValid capacity s.batches
    → commit_reservation s.sequencer p.proposal ≡ (ok p.proposal.reservation, q)
    → p.proposal.reservation.batch_id ≡ s.batches.next_key
    → p.proposal.reservation.batch_id + 1 < u128_mod
    → s.batches.len + 1 < usize_mod
    → Enters s p (reserve_in s p active (ok p.proposal.reservation, q))
unfolding reserve_in
granted-Enters s p active q v granted key fits len =
    let r = p.proposal.reservation in
    let b = new_batch p.intent r active in
    let done = push_total s b key fits len in
    let (result, sequencer, batches) = enter_lem (record s { sequencer = q }) p r active done in
    let appended =
      (push_lem s.batches b pushed (Dense.push capacity s.batches r.batch_id b).1
          (ap (λ y. (y, (Dense.push capacity s.batches r.batch_id b).1)) done)).0
        refl v in
    record {
      result = result;
      sequencer = ap (λ u. (ok p.proposal.reservation, u)) sequencer ∙ sym granted;
      batches = (b, new_batch-Waits p.intent r active, ap values batches ∙ appended.1);
    }

reserve_in-Enters :
    (s : PartitionState) (i : AppendIntent) (p : PreparedAppend) (active : Bool)
    → IsValid capacity s.batches
    → 0 < i.record_count
    → Fits s i p
    → Enters s p (reserve_in s p active (commit_reservation s.sequencer p.proposal))
reserve_in-Enters s i p active v positive f =
    let granted =
      commit-propose s.sequencer i.record_count i.admitted_leader_epoch p.proposal f.proposed in
    let records =
      propose_records s.sequencer i.record_count i.admitted_leader_epoch p.proposal f.proposed in
    let after =
      commit_reservation-Reserves s.sequencer _ p.proposal p.proposal.reservation
        (omega (arith, records, positive)) granted in
    subst (λ x. Enters s p (reserve_in s p active x)) (sym granted)
      (granted-Enters s p active _ v granted f.key
        (omega (arith, after.batch, after.next_batch, after.fits.1)) f.len)

allocate-Enters :
    (s : PartitionState) (i : AppendIntent) (p : PreparedAppend) (replica : Bool)
    → IsValid capacity s.batches
    → 0 < i.record_count
    → Fits s i p
    → Enters s p (allocate s p replica)
unfolding allocate
allocate-Enters s i p replica v positive f =
    elim (Bool-cases (replica || changes_leader_epoch p.proposal)) [
      | inl active ↦
          rw active (again true (reserve_in-Enters (begun true) i p true v positive (fits true)))
      | inr idle ↦ rw idle (reserve_in-Enters s i p false v positive f)
    ]
  where
    begun : Bool → PartitionState
    begun a = record s { query_lineage = Lineage.begin_alone s.query_lineage }

    fits : (a : Bool) → Fits (begun a) i p
    fits a = record { intent = f.intent; proposed = f.proposed; key = f.key; len = f.len }

    again : {x : Outcome ReserveOutcome} (a : Bool) → Enters (begun a) p x → Enters s p x
    again a e = record { result = e.result; sequencer = e.sequencer; batches = e.batches }

-- A control that a commit may begin with.
abbrev pub IsFree : Option ControlState → Type 0
IsFree none = Unit {0}
IsFree (some control) = control ≡ control_pending

begin_control-IsFree : (c : Option ControlState) → IsFree c → (begin_control c).0 ≡ ok tt
unfolding begin_commit
begin_control-IsFree none free = refl
begin_control-IsFree (some control) free = ground (arith, free)

allocate_begun_lem :
    (s : PartitionState) (p : PreparedAppend) (replica : Bool)
    (begun : Result EngineError (Unit {0}) × Option ControlState)
    → begun.0 ≡ ok tt
    → (allocate_begun s p replica begun).0 ≡ allocate s p replica
unfolding allocate_begun
allocate_begun_lem s p replica (ok u, c) e = refl
allocate_begun_lem s p replica (err x, c) e = ground (arith, e)
allocate_begun_lem s p replica (panic, c) e = ground (arith, e)

commit_source_lem :
    (for_batch : ℕ → ℕ → ℕ → ℕ) (s : PartitionState) (p : PreparedAppend) (c : Option ControlState)
    (replica : Bool)
    → find_duplicate for_batch s p.intent ≡ ok none
    → prepare for_batch s p.intent ≡ ok (prepared_new p)
    → IsFree c
    → (commit_source for_batch s p c replica).0 ≡ allocate s p replica
unfolding commit_source
commit_source_lem for_batch s p c replica fresh now free =
    rw (fresh, now, same_preparation_refl p)
      (allocate_begun_lem s p replica (begin_control c) (begin_control-IsFree c free))

-- A prepared append that is committed before the partition changes, and not cancelled, is granted the
-- coordinates that were prepared; its batch enters last and waits for its result.
pub commit_source-Enters :
    (for_batch : ℕ → ℕ → ℕ → ℕ) (s : PartitionState) (i : AppendIntent) (p : PreparedAppend)
    (c : Option ControlState) (replica : Bool)
    → IsValid capacity s.batches
    → 0 < i.record_count
    → prepare for_batch s i ≡ ok (prepared_new p)
    → IsFree c
    → Enters s p (commit_source for_batch s p c replica).0
commit_source-Enters for_batch s i p c replica v positive h free =
    let prepared = prepare-Prepared for_batch s i p h in
    let fits = prepare_new-Fits s i p prepared.new in
    subst (Enters s p)
      (sym (
        commit_source_lem for_batch s p c replica
          (ap (find_duplicate for_batch s) fits.intent ∙ prepared.fresh)
          (ap (prepare for_batch s) fits.intent ∙ h) free))
      (allocate-Enters s i p replica v positive fits)
