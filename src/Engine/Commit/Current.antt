-- ===== src/Engine/Commit/Current.antt =====
-- A commit, granted or refused, keeps the cached watermarks up to date (coordinator/proposal.rs).
use shard_stream.Prelude.{
  ℕ, ◌+◌, ◌==◌, ◌≡◌, refl, ap, sym, ◌∙◌, subst, Bool, true, false, ◌||◌, not, Option, none, some,
  List, [], ◌∷◌, ◌++◌, if◌then◌else◌, arith, Bool-cases, inl, inr,
}
use shard_stream.Prelude.Results.{Result, ok, err, panic}
use shard_stream.Core.Model.{Reservation}
use shard_stream.Core.Sequencer.{SequencerError, TopicSequencer, changes_leader_epoch}
use shard_stream.SegmentMap.Dense
use shard_stream.SegmentMap.Dense.{DenseOrderedMap, PushResult, pushed, refused, values}
use shard_stream.SegmentMap.Dense.Inv.{IsValid, push-IsValid}
use shard_stream.Engine.Model.{EngineError, BatchRuntime, is_pending}
use shard_stream.Engine.Lineage
use shard_stream.Engine.Partition.{
  PartitionState, capacity, next_offset, stops_contiguous, stops_stable,
}
use shard_stream.Engine.Partition.Frontier.{frontier}
use shard_stream.Engine.Partition.Watermarks.{IsCurrent, stops_policy}
use shard_stream.Engine.Batch.Current.{push_lem}
use shard_stream.Engine.Batch.Settle.{log_of, same_log-IsCurrent}
use shard_stream.Engine.Atomic.{ReserveOutcome}
use shard_stream.Engine.Proposal.{
  PreparedAppend, PrepareOutcome, prepared_new, prepared_duplicate, find_duplicate, prepare,
}
use shard_stream.Engine.Proposal.Control.{ControlState}
use shard_stream.Engine.Commit.{
  Committed, allocate, reserve_in, enter, new_batch, allocate_begun, begin_control, commit_current,
  commit_unless, commit_source, same_preparation, put_producer, put_chunk,
}

-- A batch that stops the walk at the end changes nothing.
frontier-append :
    (stops : BatchRuntime → Bool) (key end : ℕ) (items : List BatchRuntime) (b : BatchRuntime)
    → stops b ≡ true
    → frontier stops key end (items ++ b ∷ []) ≡ frontier stops key end items
unfolding frontier
frontier-append stops key end [] b e = ground (arith, e)
frontier-append stops key end (c ∷ cs) b e =
    ap (λ more. if not (c.reservation.first_offset == end) || stops c then (key, end) else more)
      (frontier-append stops (key + 1) (next_offset c.reservation) cs b e)

from_start-append :
    (stops : BatchRuntime → Bool) (s : PartitionState) (n : DenseOrderedMap BatchRuntime)
    (b : BatchRuntime)
    → (n.first_key ≡ s.batches.first_key) × (values n ≡ values s.batches ++ b ∷ [])
    → stops b ≡ true
    → frontier stops s.batches.first_key s.log_start (values s.batches)
      ≡ frontier stops n.first_key s.log_start (values n)
from_start-append stops s n b e stop =
    rw (e.0, e.1)
      (sym (frontier-append stops s.batches.first_key s.log_start (values s.batches) b stop))

pushed-IsCurrent :
    (s : PartitionState) (b : BatchRuntime) (n : DenseOrderedMap BatchRuntime)
    → Dense.push capacity s.batches b.reservation.batch_id b ≡ (pushed, n)
    → is_pending b.status ≡ true
    → IsCurrent s
    → IsCurrent (record s { batches = n })
pushed-IsCurrent s b n e waits c =
    let appended = (push_lem s.batches b pushed n e).0 refl c.valid in
    record {
      valid =
          subst (λ p. IsValid capacity p.1) e
            (push-IsValid capacity (omega arith) s.batches b.reservation.batch_id b c.valid);
      cached = record {
        contiguous = c.cached.contiguous ∙ from_start-append stops_contiguous s n b appended waits;
        stable =
            c.cached.stable ∙ from_start-append stops_stable s n b appended (ground (arith, waits));
        replicated =
            c.cached.replicated
            ∙ from_start-append (stops_policy s) s n b appended (ground (arith, waits));
      };
    }

put_log :
    (p : PreparedAppend) (r : Reservation) (s : PartitionState)
    → log_of (
        put_chunk r p.intent.atomic_group p.atomic_after
          (put_producer p.intent.producer p.producer_after s))
      ≡ log_of s
unfolding put_chunk put_producer
put_log p r s = ground arith

entered-IsCurrent :
    (s : PartitionState) (p : PreparedAppend) (r : Reservation) (active : Bool)
    (y : PushResult BatchRuntime)
    → (Dense.push capacity s.batches r.batch_id (new_batch p.intent r active)).0 ≡ y
    → IsCurrent s
    → IsCurrent (enter s p r active).1
unfolding enter
entered-IsCurrent s p r active pushed e c =
    let b = new_batch p.intent r active in
    let n = (Dense.push capacity s.batches r.batch_id b).1 in
    rw (e, enter)
      (same_log-IsCurrent (record s { batches = n }) _ (put_log p r (record s { batches = n }))
        (pushed-IsCurrent s b n (ap (λ y. (y, n)) e) refl c))
entered-IsCurrent s p r active (refused x) e c =
    let b = new_batch p.intent r active in
    let n = (Dense.push capacity s.batches r.batch_id b).1 in
    rw (e, enter)
      (subst (λ m. IsCurrent (record s { batches = m }))
        (sym ((push_lem s.batches b (refused x) n (ap (λ y. (y, n)) e)).1 (λ same. ground arith)))
        c)

reserve_in-IsCurrent :
    (s : PartitionState) (p : PreparedAppend) (active : Bool)
    (x : Result SequencerError Reservation × TopicSequencer)
    → IsCurrent s
    → IsCurrent (reserve_in s p active x).1
unfolding reserve_in
reserve_in-IsCurrent s p active (ok r, q) c =
    entered-IsCurrent (record s { sequencer = q }) p r active _ refl
      (same_log-IsCurrent s (record s { sequencer = q }) refl c)
reserve_in-IsCurrent s p true (err x, q) c = same_log-IsCurrent s _ refl c
reserve_in-IsCurrent s p false (err x, q) c = same_log-IsCurrent s _ refl c
reserve_in-IsCurrent s p true (panic, q) c = same_log-IsCurrent s _ refl c
reserve_in-IsCurrent s p false (panic, q) c = same_log-IsCurrent s _ refl c

allocate-IsCurrent :
    (s : PartitionState) (p : PreparedAppend) (replica : Bool)
    → IsCurrent s
    → IsCurrent (allocate s p replica).1
unfolding allocate
allocate-IsCurrent s p replica c = elim (Bool-cases (replica || changes_leader_epoch p.proposal)) [
  | inl active ↦ rw active (
      reserve_in-IsCurrent (record s { query_lineage = Lineage.begin_alone s.query_lineage }) p true
        _ (same_log-IsCurrent s _ refl c))
  | inr idle ↦ rw idle (reserve_in-IsCurrent s p false _ c)
]

allocate_begun-IsCurrent :
    (s : PartitionState) (p : PreparedAppend) (replica : Bool)
    (begun : Result EngineError (Unit {0}) × Option ControlState)
    → IsCurrent s
    → IsCurrent (allocate_begun s p replica begun).0.1
unfolding allocate_begun
allocate_begun-IsCurrent s p replica (ok u, d) c = allocate-IsCurrent s p replica c
allocate_begun-IsCurrent s p replica (err x, d) c = c
allocate_begun-IsCurrent s p replica (panic, d) c = c

commit_current-IsCurrent :
    (s : PartitionState) (p : PreparedAppend) (d : Option ControlState) (replica : Bool)
    (now : Result EngineError PrepareOutcome)
    → IsCurrent s
    → IsCurrent (commit_current s p d replica now).0.1
unfolding commit_current
commit_current-IsCurrent s p d replica (ok (prepared_new current)) c =
    elim (Bool-cases (same_preparation current p)) [
      | inl same ↦ rw same (allocate_begun-IsCurrent s p replica (begin_control d) c)
      | inr changed ↦ rw changed c
    ]
commit_current-IsCurrent s p d replica (ok (prepared_duplicate o)) c = c
commit_current-IsCurrent s p d replica (err x) c = c
commit_current-IsCurrent s p d replica panic c = c

commit_unless-IsCurrent :
    (s : PartitionState) (d : Option ControlState) (new : Committed)
    (found : Result EngineError (Option ReserveOutcome))
    → IsCurrent s
    → IsCurrent new.0.1
    → IsCurrent (commit_unless s d new found).0.1
unfolding commit_unless
commit_unless-IsCurrent s d new (ok none) c k = k
commit_unless-IsCurrent s d new (ok (some o)) c k = c
commit_unless-IsCurrent s d new (err x) c k = c
commit_unless-IsCurrent s d new panic c k = c

-- A commit, granted or refused, leaves the watermarks up to date: a batch that waits for its result
-- enters behind them.
pub commit_source-IsCurrent :
    (for_batch : ℕ → ℕ → ℕ → ℕ) (s : PartitionState) (p : PreparedAppend) (d : Option ControlState)
    (replica : Bool)
    → IsCurrent s
    → IsCurrent (commit_source for_batch s p d replica).0.1
unfolding commit_source
commit_source-IsCurrent for_batch s p d replica c =
    commit_unless-IsCurrent s d _ (find_duplicate for_batch s p.intent) c
      (commit_current-IsCurrent s p d replica (prepare for_batch s p.intent) c)
