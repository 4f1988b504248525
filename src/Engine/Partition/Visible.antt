-- ===== src/Engine/Partition/Visible.antt =====
-- What the watermarks of a partition promise of its batches (coordinator.rs).
use shard_stream.Prelude.{ℕ, ◌-◌, ◌≤◌, ◌<◌, ◌≡◌, ◌≢◌, ◌⊎◌, ap, some, get_elem?, arith}
use shard_stream.SegmentMap.Sequence
use shard_stream.SegmentMap.Dense
use shard_stream.SegmentMap.Dense.{DenseOrderedMap, values}
use shard_stream.SegmentMap.Dense.Inv.{IsValid}
use shard_stream.SegmentMap.Dense.Lookup.{get_refines}
use shard_stream.Engine.Model.{BatchRuntime, BatchStatus}
use shard_stream.Engine.Partition.{PartitionState, capacity, stops_contiguous, stops_stable}
use shard_stream.Engine.Partition.Walk.{
  AreRising, AreOrdered, AreConsecutive, frontier-passed, frontier_le, frontier-below, frontier-at,
}
use shard_stream.Engine.Partition.Watermarks.{IsCurrent, stops_policy}

pub get-items :
    (s : PartitionState) (key : ℕ) (b : BatchRuntime)
    → IsValid capacity s.batches
    → Dense.get capacity s.batches key ≡ some b
    → (s.batches.first_key ≤ key)
      × (get_elem? (values s.batches) (key - s.batches.first_key) ≡ some b)
unfolding Sequence.get
get-items s key b v e = ground (arith, get_refines capacity (omega arith) s.batches key v, e)

-- Of batches in the order of their offsets, one that begins below the stable offset is committed or
-- aborted, and ends below it.
pub stable-settled :
    (s : PartitionState) (key : ℕ) (b : BatchRuntime)
    → IsCurrent s
    → AreOrdered s.log_start (values s.batches)
    → Dense.get capacity s.batches key ≡ some b
    → b.reservation.first_offset < s.last_stable_offset
    → ((b.status ≡ BatchStatus.committed) ⊎ (b.status ≡ BatchStatus.aborted))
      × (b.reservation.last_offset < s.last_stable_offset)
stable-settled s key b c o e h =
    let (from, at) = get-items s key b c.valid e in
    let reached = ap (λ p. p.1) c.cached.stable in
    let (passed, ends) =
      frontier-below stops_stable s.batches.first_key s.log_start (values s.batches) _ b o at
        (omega (arith, h, reached)) in
    let free =
      frontier-passed stops_stable s.batches.first_key s.log_start (values s.batches) _ b at
        passed in
    (ground (arith, free), omega (arith, ends, reached))

-- When the batches follow one another without a gap, the stable offset lags behind no finished batch:
-- the batch that has the record at the stable offset begins with it, and is pending or unresolved.
pub stable-stopped :
    (s : PartitionState) (key : ℕ) (b : BatchRuntime)
    → IsCurrent s
    → AreConsecutive s.log_start (values s.batches)
    → Dense.get capacity s.batches key ≡ some b
    → b.reservation.first_offset ≤ s.last_stable_offset
    → s.last_stable_offset ≤ b.reservation.last_offset
    → (b.reservation.first_offset ≡ s.last_stable_offset)
      × ((b.status ≡ BatchStatus.pending) ⊎ (b.status ≡ BatchStatus.unresolved))
stable-stopped s key b c o e g h =
    let (from, at) = get-items s key b c.valid e in
    let reached = ap (λ p. p.1) c.cached.stable in
    let (begins, stop) =
      frontier-at stops_stable s.batches.first_key s.log_start (values s.batches) _ b o at
        (omega (arith, g, reached)) (omega (arith, h, reached)) in
    (omega (arith, begins, reached), ground (arith, stop))

-- Of batches in the order of their offsets, one that begins below the replicated watermark is on enough
-- replicas, or was aborted, and it ends below the watermark.
pub replicated-durable :
    (s : PartitionState) (key : ℕ) (b : BatchRuntime)
    → IsCurrent s
    → AreOrdered s.log_start (values s.batches)
    → Dense.get capacity s.batches key ≡ some b
    → b.reservation.first_offset < s.replicated_high_watermark
    → ((b.status ≡ BatchStatus.aborted)
        ⊎ ((b.status ≢ BatchStatus.pending)
            × (s.replication_policy.min_in_sync_replicas ≤ b.durable_replicas)))
      × (b.reservation.last_offset < s.replicated_high_watermark)
replicated-durable s key b c o e h =
    let (from, at) = get-items s key b c.valid e in
    let reached = ap (λ p. p.1) c.cached.replicated in
    let (passed, ends) =
      frontier-below (stops_policy s) s.batches.first_key s.log_start (values s.batches) _ b o at
        (omega (arith, h, reached)) in
    let free =
      frontier-passed (stops_policy s) s.batches.first_key s.log_start (values s.batches) _ b at
        passed in
    (ground (arith, free), omega (arith, ends, reached))

-- The watermarks stand in order: the log start, then the stable and the replicated offset, then the
-- contiguous end.
pub watermarks_ordered :
    (s : PartitionState)
    → IsCurrent s
    → AreRising (values s.batches)
    → (s.log_start ≤ s.last_stable_offset)
      × (s.last_stable_offset ≤ s.contiguous_log_end)
      × (s.log_start ≤ s.replicated_high_watermark)
      × (s.replicated_high_watermark ≤ s.contiguous_log_end)
watermarks_ordered s c rising =
    let (k, e, f) =
      frontier_le stops_contiguous stops_stable s.batches.first_key s.log_start (values s.batches)
        (λ b h. ground arith) rising in
    let (l, g, i) =
      frontier_le stops_contiguous (stops_policy s) s.batches.first_key s.log_start
        (values s.batches) (λ b h. ground arith) rising in
    omega (
      arith,
      e,
      f,
      g,
      i,
      ap (λ p. p.1) c.cached.contiguous,
      ap (λ p. p.1) c.cached.stable,
      ap (λ p. p.1) c.cached.replicated,
    )
