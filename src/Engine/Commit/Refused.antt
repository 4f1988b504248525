-- ===== src/Engine/Commit/Refused.antt =====
-- A commit that is refused allocates nothing (coordinator/proposal.rs).
use shard_stream.Prelude.{
  ℕ, ◌≡◌, refl, ap, sym, ◌∙◌, Bool, true, false, ◌||◌, Option, none, some, if◌then◌else◌, arith,
  Bool-cases, inl, inr,
}
use shard_stream.Prelude.Results.{Result, ok, err, panic}
use shard_stream.Core.Model.{Reservation}
use shard_stream.Core.Sequencer.{
  SequencerError, TopicSequencer, commit_reservation, changes_leader_epoch,
  reservation_proposal_changed,
}
use shard_stream.Core.Sequencer.Propose.{commit_reservation_refused}
use shard_stream.SegmentMap.Dense
use shard_stream.SegmentMap.Dense.{PushResult, pushed, refused}
use shard_stream.Engine.Model.{EngineError, sequencer_error, BatchRuntime}
use shard_stream.Engine.Lineage
use shard_stream.Engine.Partition.{PartitionState, capacity}
use shard_stream.Engine.Outcome.{Outcome}
use shard_stream.Engine.Atomic.{ReserveOutcome}
use shard_stream.Engine.Proposal.{
  PreparedAppend, PrepareOutcome, prepared_new, prepared_duplicate, find_duplicate,
}
use shard_stream.Engine.Proposal.Control.{ControlState}
use shard_stream.Engine.Commit.{
  Committed, allocate, reserve_in, enter, new_batch, allocate_begun, begin_control, commit_current,
  commit_unless, commit_source, same_preparation,
}

-- `t` differs from `s` in the lineage word at most.
abbrev pub Untouched : PartitionState → PartitionState → Type 0
Untouched s t = t ≡ record s { query_lineage = t.query_lineage }

enter-accepts :
    (s t : PartitionState) (p : PreparedAppend) (r : Reservation) (active : Bool) (e : EngineError)
    (x : PushResult BatchRuntime)
    → (Dense.push capacity s.batches r.batch_id (new_batch p.intent r active)).0 ≡ x
    → enter s p r active ≡ (err e, t)
    → ⊥
unfolding enter
enter-accepts s t p r active e pushed h g = ground (arith, h, ap (λ y. y.0) g)
enter-accepts s t p r active e (refused x) h g = ground (arith, h, ap (λ y. y.0) g)

reserve_in-refused :
    (s t : PartitionState) (p : PreparedAppend) (active : Bool) (e : EngineError)
    (x : Result SequencerError Reservation × TopicSequencer)
    → commit_reservation s.sequencer p.proposal ≡ x
    → reserve_in s p active x ≡ (err e, t)
    → Untouched s t
unfolding reserve_in
reserve_in-refused s t p active e (ok r, q) h g = absurd (enter-accepts _ t p r active e _ refl g)
reserve_in-refused s t p false e (err x, q) h g =
    ground (arith, ap (λ y. y.1) g, commit_reservation_refused s.sequencer q p.proposal x h)
reserve_in-refused s t p true e (err x, q) h g =
    ground (arith, ap (λ y. y.1) g, commit_reservation_refused s.sequencer q p.proposal x h)
reserve_in-refused s t p active e (panic, q) h g = absurd (ground (arith, ap (λ y. y.0) g))

allocate-refused :
    (s t : PartitionState) (p : PreparedAppend) (replica : Bool) (e : EngineError)
    → allocate s p replica ≡ (err e, t)
    → Untouched s t
unfolding allocate
allocate-refused s t p replica e g =
    elim (Bool-cases (replica || changes_leader_epoch p.proposal)) [
      | inl active ↦ reserve_in-refused (begun true) t p true e _ refl (sym (ap at active) ∙ g)
      | inr idle ↦ reserve_in-refused s t p false e _ refl (sym (ap at idle) ∙ g)
    ]
  where
    begun : Bool → PartitionState
    begun a = if a then record s { query_lineage = Lineage.begin_alone s.query_lineage } else s

    at : Bool → Outcome ReserveOutcome
    at a = reserve_in (begun a) p a (commit_reservation s.sequencer p.proposal)

allocate_begun-refused :
    (s t : PartitionState) (p : PreparedAppend) (replica : Bool) (e : EngineError)
    (begun : Result EngineError (Unit {0}) × Option ControlState) (c : Option ControlState)
    → allocate_begun s p replica begun ≡ ((err e, t), c)
    → Untouched s t
unfolding allocate_begun
allocate_begun-refused s t p replica e (ok u, d) c g =
    allocate-refused s t p replica e (ap (λ x. x.0) g)
allocate_begun-refused s t p replica e (err x, d) c g = ground (arith, ap (λ x. x.0.1) g)
allocate_begun-refused s t p replica e (panic, d) c g = ground (arith, ap (λ x. x.0.1) g)

commit_current-refused :
    (s t : PartitionState) (p : PreparedAppend) (c d : Option ControlState) (replica : Bool)
    (e : EngineError) (now : Result EngineError PrepareOutcome)
    → commit_current s p c replica now ≡ ((err e, t), d)
    → Untouched s t
unfolding commit_current
commit_current-refused s t p c d replica e (ok (prepared_new current)) g =
    elim (Bool-cases (same_preparation current p)) [
      | inl same ↦ allocate_begun-refused s t p replica e (begin_control c) d (
          sym (
            ap
              (λ b.
                if b
                then allocate_begun s p replica (begin_control c)
                else ((err (sequencer_error reservation_proposal_changed), s), c))
              same)
          ∙ g)
      | inr changed ↦ ground (arith, changed, ap (λ x. x.0.1) g)
    ]
commit_current-refused s t p c d replica e (ok (prepared_duplicate o)) g =
    ground (arith, ap (λ x. x.0.1) g)
commit_current-refused s t p c d replica e (err x) g = ground (arith, ap (λ x. x.0.1) g)
commit_current-refused s t p c d replica e panic g = ground (arith, ap (λ x. x.0.1) g)

commit_unless-refused :
    (s t : PartitionState) (c d : Option ControlState) (e : EngineError) (new : Committed)
    (found : Result EngineError (Option ReserveOutcome))
    → (new ≡ ((err e, t), d) → Untouched s t)
    → commit_unless s c new found ≡ ((err e, t), d)
    → Untouched s t
unfolding commit_unless
commit_unless-refused s t c d e new (ok none) k g = k g
commit_unless-refused s t c d e new (ok (some o)) k g = ground (arith, ap (λ x. x.0.1) g)
commit_unless-refused s t c d e new (err x) k g = ground (arith, ap (λ x. x.0.1) g)
commit_unless-refused s t c d e new panic k g = ground (arith, ap (λ x. x.0.1) g)

-- A commit that returns an error has changed nothing of the partition but the lineage word: no
-- offset is allocated, no batch enters, and no producer or atomic group moves.
pub commit_source-refused :
    (for_batch : ℕ → ℕ → ℕ → ℕ) (s t : PartitionState) (p : PreparedAppend)
    (c d : Option ControlState) (replica : Bool) (e : EngineError)
    → commit_source for_batch s p c replica ≡ ((err e, t), d)
    → Untouched s t
unfolding commit_source
commit_source-refused for_batch s t p c d replica e g =
    commit_unless-refused s t c d e _ (find_duplicate for_batch s p.intent)
      (λ h. commit_current-refused s t p c d replica e _ h) g
