-- ===== src/Engine/Partition.antt =====
-- crates/shard-stream-engine/src/coordinator.rs: the state of one partition and its watermarks.
-- A channel to a waiting caller is a number, and `answered` lists those that were sent `Ok(())`, in
-- order. `next_offset` has no check: a sequencer grants no offset whose successor would wrap.
pub mod Frontier
pub mod Order
pub mod Waiting
pub mod Visible
pub mod Walk
pub mod Watermarks
use Prim.Native.Nat.{Ordering, compare}
use shard_stream.Prelude.{
  ℕ, zero, suc, ◌+◌, ◌==◌, Bool, true, false, ◌||◌, ◌&&◌, not, Option, none, some, List, [], ◌∷◌,
  ◌++◌, ltb, leb, if◌then◌else◌, min, length,
}
use shard_stream.Prelude.Maps.{no_entries}
use shard_stream.Prelude.Results.{Result, ok, err, panic, ◌>>=◌, expect}
use shard_stream.SegmentMap.Dense
use shard_stream.SegmentMap.Dense.{DenseOrderedMap}
use shard_stream.SegmentMap.Dense.Search.{Found, at_key, insert_at, missing, binary_search_by}
use shard_stream.SegmentMap.Dense.Iterate.{values_from}
use shard_stream.Core.Model.{Reservation, LogicalOffset}
use shard_stream.Core.Sequencer.{TopicSequencer}
use shard_stream.Engine.Model.{
  EngineError, offset_out_of_range, BatchRuntime, BatchStatus, is_pending, is_aborted,
  is_unresolved, AtomicGroupRuntime, AtomicGroupState, ProducerCursor, DedupRecord, DedupKey,
  PartitionReplicationPolicy,
}

-- DEFAULT_SEGMENT_CAPACITY
abbrev pub capacity : ℕ
capacity = 1024

abbrev pub Waiters : Type 0
Waiters = List (ℕ × List ℕ)

pub record PartitionState : Type 0 where
  pub query_lineage : ℕ
  pub sequencer : TopicSequencer
  pub log_start : LogicalOffset
  pub batches : DenseOrderedMap BatchRuntime
  pub replication_policy : PartitionReplicationPolicy
  pub next_contiguous_batch : ℕ
  pub contiguous_log_end : LogicalOffset
  pub next_stable_batch : ℕ
  pub last_stable_offset : LogicalOffset
  pub next_replicated_batch : ℕ
  pub replicated_high_watermark : LogicalOffset
  pub atomic_groups : ℕ → Option AtomicGroupRuntime
  pub finalized_groups : ℕ → Option AtomicGroupState
  pub producers : ℕ → Option ProducerCursor
  pub dedup : DedupKey → Option DedupRecord
  pub ordered_waiters : Waiters
  pub replicated_waiters : Waiters
  pub answered : List ℕ

pub record PartitionWatermarks : Type 0 where
  pub log_start : LogicalOffset
  pub allocated_end : LogicalOffset
  pub contiguous_log_end : LogicalOffset
  pub replicated_high_watermark : LogicalOffset
  pub last_stable_offset : LogicalOffset

pub record FetchBounds : Type 0 where
  pub physical_end : LogicalOffset
  pub ordered_end : LogicalOffset
  pub replicated_end : LogicalOffset

pub data VisibilityMode : Type 0 where
  ordered replicated : VisibilityMode

unfoldable pub empty : TopicSequencer → PartitionReplicationPolicy → PartitionState
unfolding Dense.new
empty sequencer policy = record {
  query_lineage = 0;
  sequencer = sequencer;
  log_start = 0;
  batches = Dense.new 0;
  replication_policy = policy;
  next_contiguous_batch = 0;
  contiguous_log_end = 0;
  next_stable_batch = 0;
  last_stable_offset = 0;
  next_replicated_batch = 0;
  replicated_high_watermark = 0;
  atomic_groups = no_entries;
  finalized_groups = no_entries;
  producers = no_entries;
  dedup = no_entries;
  ordered_waiters = [];
  replicated_waiters = [];
  answered = [];
}

unfoldable pub watermarks : PartitionState → PartitionWatermarks
watermarks s = record {
  log_start = s.log_start;
  allocated_end = s.sequencer.next_offset;
  contiguous_log_end = s.contiguous_log_end;
  replicated_high_watermark = s.replicated_high_watermark;
  last_stable_offset = s.last_stable_offset;
}

unfoldable pub fetch_bounds : PartitionState → LogicalOffset → Result EngineError FetchBounds
fetch_bounds s start_offset =
    if ltb start_offset s.log_start
    then err (offset_out_of_range start_offset s.log_start)
    else ok (record {
      physical_end = s.contiguous_log_end;
      ordered_end = s.last_stable_offset;
      replicated_end = min s.replicated_high_watermark s.last_stable_offset;
    })

abbrev pub next_offset : Reservation → LogicalOffset
next_offset r = r.last_offset + 1

-- What stops each of the three watermarks at a batch, apart from a gap in the offsets.
abbrev pub stops_contiguous : BatchRuntime → Bool
stops_contiguous b = is_pending b.status

abbrev pub stops_stable : BatchRuntime → Bool
stops_stable b = is_pending b.status || is_unresolved b.status

abbrev pub stops_replicated : ℕ → BatchRuntime → Bool
stops_replicated min_in_sync b =
    is_pending b.status || (not (is_aborted b.status) && ltb b.durable_replicas min_in_sync)

-- One `while let` loop, with one unit of fuel for each round: the next batch and the end so far.
pub advance :
    (BatchRuntime → Bool) → DenseOrderedMap BatchRuntime → ℕ → ℕ → LogicalOffset → ℕ × LogicalOffset
advance stops batches zero key end = (key, end)
advance stops batches (suc fuel) key end = elim (Dense.get capacity batches key) [
  | none ↦ (key, end)
  | some batch ↦
      let more = advance stops batches fuel (key + 1) (next_offset batch.reservation) in
      if not (batch.reservation.first_offset == end) || stops batch then (key, end) else more
]

-- Each round passes a retained batch, so one more round than batches is enough.
abbrev pub advance_all :
    (BatchRuntime → Bool) → DenseOrderedMap BatchRuntime → ℕ → LogicalOffset → ℕ × LogicalOffset
advance_all stops batches key end = advance stops batches (suc batches.len) key end

-- The waiters at an offset up to `visible`, and those that stay.
pub ready : LogicalOffset → Waiters → List ℕ
ready visible [] = []
ready visible ((offset, responses) ∷ rest) =
    if leb offset visible then responses ++ ready visible rest else ready visible rest

pub waiting : LogicalOffset → Waiters → Waiters
waiting visible [] = []
waiting visible ((offset, responses) ∷ rest) =
    if leb offset visible then waiting visible rest else (offset, responses) ∷ waiting visible rest

-- `waiters.entry(through).or_default().push(response)` in a map ordered by offset.
pub add_waiter : LogicalOffset → ℕ → Waiters → Waiters
add_waiter through response [] = (through, response ∷ []) ∷ []
add_waiter through response ((offset, responses) ∷ rest) =
    if through == offset
    then (offset, responses ++ response ∷ []) ∷ rest
    else if ltb through offset
    then (through, response ∷ []) ∷ (offset, responses) ∷ rest
    else (offset, responses) ∷ add_waiter through response rest

-- The two calls of `notify_waiters`.
unfoldable pub notify_all : PartitionState → PartitionState
unfolding ready waiting
notify_all s =
    let visible = min s.replicated_high_watermark s.last_stable_offset in
    record s {
      ordered_waiters = waiting s.last_stable_offset s.ordered_waiters;
      replicated_waiters = waiting visible s.replicated_waiters;
      answered =
          s.answered
          ++ ready s.last_stable_offset s.ordered_waiters
          ++ ready visible s.replicated_waiters;
    }

unfoldable pub advance_cached_watermarks : PartitionState → PartitionState
unfolding notify_all advance
advance_cached_watermarks s =
    let (contiguous, contiguous_end) =
      advance_all stops_contiguous s.batches s.next_contiguous_batch s.contiguous_log_end in
    let (stable, stable_end) =
      advance_all stops_stable s.batches s.next_stable_batch s.last_stable_offset in
    let (next_replicated, replicated_end) =
      advance_all (stops_replicated s.replication_policy.min_in_sync_replicas) s.batches
        s.next_replicated_batch s.replicated_high_watermark in
    notify_all (record s {
      next_contiguous_batch = contiguous;
      contiguous_log_end = contiguous_end;
      next_stable_batch = stable;
      last_stable_offset = stable_end;
      next_replicated_batch = next_replicated;
      replicated_high_watermark = replicated_end;
    })

unfoldable pub wait_until_visible :
    PartitionState → LogicalOffset → VisibilityMode → ℕ → PartitionState
unfolding add_waiter
wait_until_visible s through ordered response =
    if leb through s.last_stable_offset
    then record s { answered = s.answered ++ response ∷ [] }
    else record s { ordered_waiters = add_waiter through response s.ordered_waiters }
wait_until_visible s through replicated response =
    if leb through (min s.replicated_high_watermark s.last_stable_offset)
    then record s { answered = s.answered ++ response ∷ [] }
    else record s { replicated_waiters = add_waiter through response s.replicated_waiters }

unfoldable pub reset_cached_watermarks_after_truncate : PartitionState → PartitionState
unfolding advance_cached_watermarks
reset_cached_watermarks_after_truncate s = advance_cached_watermarks (record s {
  next_contiguous_batch = s.batches.first_key;
  contiguous_log_end = s.log_start;
  next_stable_batch = s.batches.first_key;
  last_stable_offset = s.log_start;
  next_replicated_batch = s.batches.first_key;
  replicated_high_watermark = s.log_start;
})

abbrev compare_last : LogicalOffset → ℕ → BatchRuntime → Ordering
compare_last offset key batch =
    if ltb batch.reservation.last_offset offset then Ordering.lt else Ordering.gt

-- `unwrap_or_else(|key| key)`
abbrev either_key : Found → Result EngineError ℕ
either_key (at_key key) = ok key
either_key (insert_at key) = ok key
either_key missing = panic

unfoldable pub first_batch_with_last_at_or_after :
    PartitionState → LogicalOffset → Result EngineError ℕ
first_batch_with_last_at_or_after s offset =
    either_key (binary_search_by capacity s.batches (compare_last offset))

abbrev pub exact_key : Found → Result EngineError (Option ℕ)
exact_key (at_key key) = ok (some key)
exact_key (insert_at key) = ok none
exact_key missing = panic

unfoldable pub batch_key_at_first_offset :
    PartitionState → LogicalOffset → Result EngineError (Option ℕ)
batch_key_at_first_offset s offset = exact_key (
    binary_search_by capacity s.batches
      (λ key batch. compare batch.reservation.first_offset offset))

-- The loop of `compute_replicated_high_watermark` over the batches.
pub replicated_prefix : ℕ → LogicalOffset → List BatchRuntime → LogicalOffset
replicated_prefix min_in_sync end [] = end
replicated_prefix min_in_sync end (batch ∷ rest) =
    if not (batch.reservation.first_offset == end) || stops_replicated min_in_sync batch
    then end
    else replicated_prefix min_in_sync (next_offset batch.reservation) rest

unfoldable pub compute_replicated_high_watermark :
    PartitionState → ℕ → Result EngineError LogicalOffset
unfolding replicated_prefix
compute_replicated_high_watermark s min_in_sync = do
  first_visible ← first_batch_with_last_at_or_after s s.log_start
  batches ← expect (values_from capacity s.batches first_visible)
  ok (replicated_prefix min_in_sync s.log_start batches)
