-- ===== src/Engine/Partition/Watermarks.antt =====
-- The cached watermarks are what a walk over all retained batches computes (coordinator.rs).
use shard_stream.Prelude.{ℕ, ◌≡◌, refl, ap, ◌∙◌, Bool, List, [], arith}
use shard_stream.SegmentMap.Dense.{DenseOrderedMap, values}
use shard_stream.SegmentMap.Dense.Inv.{IsValid}
use shard_stream.Core.Sequencer.{TopicSequencer}
use shard_stream.Engine.Model.{BatchRuntime, PartitionReplicationPolicy}
use shard_stream.Engine.Partition.{
  PartitionState, capacity, empty, advance_all, stops_contiguous, stops_stable, stops_replicated,
  advance_cached_watermarks, reset_cached_watermarks_after_truncate,
}
use shard_stream.Engine.Partition.Frontier.{
  frontier, frontier_ge, advance_lem, frontier-resume, Frees,
}

-- What the walk over `items` computes from the log start.
abbrev pub from_start : (BatchRuntime → Bool) → PartitionState → List BatchRuntime → ℕ × ℕ
from_start stops s items = frontier stops s.batches.first_key s.log_start items

abbrev pub stops_policy : PartitionState → BatchRuntime → Bool
stops_policy s = stops_replicated s.replication_policy.min_in_sync_replicas

-- The cached watermarks of `s` are those of the batches `items`.
pub record AreCached (s : PartitionState) (items : List BatchRuntime) : Type 0 where
  pub contiguous :
      (s.next_contiguous_batch, s.contiguous_log_end) ≡ from_start stops_contiguous s items
  pub stable : (s.next_stable_batch, s.last_stable_offset) ≡ from_start stops_stable s items
  pub replicated :
      (s.next_replicated_batch, s.replicated_high_watermark) ≡ from_start (stops_policy s) s items

-- The batches are well formed, and the cached watermarks are theirs.
pub record IsCurrent (s : PartitionState) : Type 0 where
  pub valid : IsValid capacity s.batches
  pub cached : AreCached s (values s.batches)

-- `later` only frees batches of `items`, for each of the watermarks, and adds some.
pub record AreFreed (s : PartitionState) (items later : List BatchRuntime) : Type 0 where
  pub contiguous : Frees stops_contiguous items later
  pub stable : Frees stops_stable items later
  pub replicated : Frees (stops_policy s) items later

advance_all-resume :
    (stops : BatchRuntime → Bool) (m : DenseOrderedMap BatchRuntime) (start key end : ℕ)
    (items : List BatchRuntime)
    → IsValid capacity m
    → (key, end) ≡ frontier stops m.first_key start items
    → Frees stops items (values m)
    → advance_all stops m key end ≡ frontier stops m.first_key start (values m)
advance_all-resume stops m start key end items v e f =
    ap (λ p. advance_all stops m p.0 p.1) e
    ∙ advance_lem stops m _ _ v (frontier_ge stops m.first_key start items)
    ∙ frontier-resume stops m.first_key start items (values m) f

advanced :
    (s : PartitionState)
    → let t = advance_cached_watermarks s in
      ((t.next_contiguous_batch, t.contiguous_log_end)
        ≡ advance_all stops_contiguous s.batches s.next_contiguous_batch s.contiguous_log_end)
      × ((t.next_stable_batch, t.last_stable_offset)
          ≡ advance_all stops_stable s.batches s.next_stable_batch s.last_stable_offset)
      × ((t.next_replicated_batch, t.replicated_high_watermark)
          ≡ advance_all
              (stops_policy s)
              s.batches
              s.next_replicated_batch
              s.replicated_high_watermark)
unfolding advance_cached_watermarks
advanced s = (refl, refl, refl)

advanced_same :
    (s : PartitionState)
    → let t = advance_cached_watermarks s in
      (t.batches ≡ s.batches)
      × (t.log_start ≡ s.log_start)
      × (t.replication_policy ≡ s.replication_policy)
unfolding advance_cached_watermarks
advanced_same s = (refl, refl, refl)

-- Watermarks that were those of earlier batches are brought up to date, when the batches since are
-- only freed or added.
pub advance_cached_watermarks-IsCurrent :
    (s : PartitionState) (items : List BatchRuntime)
    → IsValid capacity s.batches
    → AreCached s items
    → AreFreed s items (values s.batches)
    → IsCurrent (advance_cached_watermarks s)
unfolding advance_cached_watermarks
advance_cached_watermarks-IsCurrent s items v c f = record {
  valid = v;
  cached = record {
    contiguous =
        advance_all-resume stops_contiguous s.batches s.log_start _ _ items v c.contiguous
          f.contiguous;
    stable = advance_all-resume stops_stable s.batches s.log_start _ _ items v c.stable f.stable;
    replicated =
        advance_all-resume (stops_policy s) s.batches s.log_start _ _ items v c.replicated
          f.replicated;
  };
}

walked :
    (s : PartitionState) (stops : BatchRuntime → Bool)
    → (s.batches.first_key, s.log_start) ≡ from_start stops s []
unfolding frontier
walked s stops = refl

-- A reset computes them from the log start, whatever they were.
pub reset_cached_watermarks_after_truncate-IsCurrent :
    (s : PartitionState)
    → IsValid capacity s.batches
    → IsCurrent (reset_cached_watermarks_after_truncate s)
unfolding reset_cached_watermarks_after_truncate
reset_cached_watermarks_after_truncate-IsCurrent s v =
    advance_cached_watermarks-IsCurrent
      (record s {
        next_contiguous_batch = s.batches.first_key;
        contiguous_log_end = s.log_start;
        next_stable_batch = s.batches.first_key;
        last_stable_offset = s.log_start;
        next_replicated_batch = s.batches.first_key;
        replicated_high_watermark = s.log_start;
      })
      [] v
      (record {
        contiguous = walked s stops_contiguous;
        stable = walked s stops_stable;
        replicated = walked s (stops_policy s);
      })
      (record { contiguous = tt; stable = tt; replicated = tt })

-- A new partition starts with its watermarks up to date.
pub empty-IsCurrent :
    (q : TopicSequencer) (policy : PartitionReplicationPolicy) → IsCurrent (empty q policy)
unfolding empty frontier
empty-IsCurrent q policy = record {
  valid = omega arith;
  cached = record { contiguous = refl; stable = refl; replicated = refl };
}
