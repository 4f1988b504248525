-- ===== src/Engine/Control/Retention.antt =====
-- Retention moves the log start forward, to a batch boundary below the stable offset (coordinator.rs).
use shard_stream.Prelude.{
  ℕ, ◌≤◌, ◌≡◌, ◌⊎◌, inl, inr, refl, ap, sym, ◌∙◌, subst, Option, none, some, Bool-cases, arith, ltb,
}
use shard_stream.Prelude.Results.{Result, ok, err, panic}
use shard_stream.Core.Model.{TopicPartition}
use shard_stream.SegmentMap.Dense
use shard_stream.SegmentMap.Dense.Truncate.{truncate_before-IsValid}
use shard_stream.Engine.Model.{EngineError, Journal, truncate_checkpoint}
use shard_stream.Engine.Partition.{
  PartitionState, capacity, reset_cached_watermarks_after_truncate, advance_cached_watermarks,
}
use shard_stream.Engine.Partition.Watermarks.{
  IsCurrent, reset_cached_watermarks_after_truncate-IsCurrent,
}
use shard_stream.Engine.Control.{
  truncate, truncate_at, apply_truncate, retained_from, checkpoint_of,
}

-- What a truncation that reached the journal did.
pub record Reached (s : PartitionState) (journal : Journal) (tp : TopicPartition)
    (log_start key : ℕ) (t : PartitionState) : Type 0 where
  pub aligned : (checkpoint_of s (Dense.get capacity s.batches key)).1 ≡ log_start
  pub applied :
      let (batch, offset, placement) = checkpoint_of s (Dense.get capacity s.batches key) in
      t
      ≡ (apply_truncate s log_start key
          (journal (truncate_checkpoint tp log_start batch offset placement))).1

truncate_at-Reached :
    (s : PartitionState) (journal : Journal) (tp : TopicPartition) (log_start key : ℕ)
    → let t = (truncate_at s journal tp log_start key).1 in
      (t ≡ s) ⊎ Reached s journal tp log_start key t
unfolding truncate_at
truncate_at-Reached s journal tp log_start key = ground arith

pub truncate-Reached :
    (s : PartitionState) (journal : Journal) (tp : TopicPartition) (log_start : ℕ)
    (found : Result EngineError ℕ)
    → retained_from s log_start ≡ found
    → let t = (truncate s journal tp log_start).1 in
      (t ≡ s)
      ⊎ ((s.log_start ≤ log_start)
          × (log_start ≤ s.last_stable_offset)
          × ((key : ℕ) × (found ≡ ok key) × Reached s journal tp log_start key t))
unfolding truncate
truncate-Reached s journal tp log_start (err e) found = inl (ground (arith, found))
truncate-Reached s journal tp log_start panic found = inl (ground (arith, found))
truncate-Reached s journal tp log_start (ok key) found =
    elim (Bool-cases (ltb log_start s.log_start)) [
      | inl back ↦ inl (ground (arith, back))
      | inr from ↦ elim (Bool-cases (ltb s.last_stable_offset log_start)) [
        | inl past ↦ inl (ground (arith, from, past))
        | inr upto ↦
            let same : (truncate s journal tp log_start).1
                ≡ (truncate_at s journal tp log_start key).1 =
              ground (arith, from, upto, found) in
            elim (truncate_at-Reached s journal tp log_start key) [
              | inl kept ↦ inl (same ∙ kept)
              | inr reached ↦ inr (
                ground (arith, from),
                ground (arith, upto),
                (key, refl, record { aligned = reached.aligned; applied = same ∙ reached.applied }),
              )
            ]
      ]
    ]

-- What retention leaves: the log start moves forward to a batch boundary, not past the stable offset,
-- once the checkpoint is synced.
pub record Retains (s : PartitionState) (journal : Journal) (tp : TopicPartition) (log_start : ℕ)
    (t : PartitionState) : Type 0 where
  pub forward : s.log_start ≤ t.log_start
  pub stable : t.log_start ≤ s.last_stable_offset
  pub requested : t.log_start ≡ log_start
  pub synced :
      (key : ℕ) × (let (batch, offset, placement) =
          checkpoint_of s (Dense.get capacity s.batches key) in
        (offset ≡ log_start)
        × (journal (truncate_checkpoint tp log_start batch offset placement) ≡ none)
        × (t.batches ≡ (Dense.truncate_before s.batches key).1))

apply_truncate_lem :
    (s : PartitionState) (log_start key : ℕ) (answer : Option EngineError)
    → let t = (apply_truncate s log_start key answer).1 in
      (t ≡ record s { query_lineage = t.query_lineage })
      ⊎ ((answer ≡ none)
          × (t.log_start ≡ log_start)
          × (t.batches ≡ (Dense.truncate_before s.batches key).1))
unfolding apply_truncate reset_cached_watermarks_after_truncate advance_cached_watermarks
apply_truncate_lem s log_start key (some e) = inl refl
apply_truncate_lem s log_start key none = inr (refl, refl, refl)

-- On every branch a truncation leaves the partition as it was, but for the lineage word, or moves the
-- log start forward to a batch boundary at or below the stable offset, after its checkpoint is synced.
pub truncate-Retains :
    (s : PartitionState) (journal : Journal) (tp : TopicPartition) (log_start : ℕ)
    → let t = (truncate s journal tp log_start).1 in
      (t ≡ record s { query_lineage = t.query_lineage }) ⊎ Retains s journal tp log_start t
truncate-Retains s journal tp log_start =
    let t = (truncate s journal tp log_start).1 in
    elim (truncate-Reached s journal tp log_start (retained_from s log_start) refl) [
      | inl same ↦ inl (same ∙ ap (λ u. record s { query_lineage = u.query_lineage }) (sym same))
      | inr (from, upto, (key, kept, reached)) ↦
          let (batch, offset, placement) = checkpoint_of s (Dense.get capacity s.batches key) in
          let answer = journal (truncate_checkpoint tp log_start batch offset placement) in
          elim (apply_truncate_lem s log_start key answer) [
            | inl refused ↦ inl (
                reached.applied
                ∙ refused
                ∙ ap (λ u. record s { query_lineage = u.query_lineage }) (sym reached.applied))
            | inr (synced, start, batches) ↦
                let moved = ap (λ u. u.log_start) reached.applied ∙ start in
                inr (record {
                  forward = omega (arith, moved, from);
                  stable = omega (arith, moved, upto);
                  requested = moved;
                  synced = (
                    key,
                    (reached.aligned, synced, ap (λ u. u.batches) reached.applied ∙ batches),
                  );
                })
          ]
    ]

applied-IsCurrent :
    (s : PartitionState) (log_start key : ℕ) (answer : Option EngineError)
    → IsCurrent s
    → IsCurrent (apply_truncate s log_start key answer).1
unfolding apply_truncate
applied-IsCurrent s log_start key (some e) c = record {
  valid = c.valid;
  cached = record {
    contiguous = c.cached.contiguous;
    stable = c.cached.stable;
    replicated = c.cached.replicated;
  };
}
applied-IsCurrent s log_start key none c =
    reset_cached_watermarks_after_truncate-IsCurrent _
      (truncate_before-IsValid capacity (omega arith) s.batches key c.valid)

-- Whatever it returns, a truncation leaves the watermarks those of the batches that stay.
pub truncate-IsCurrent :
    (s : PartitionState) (journal : Journal) (tp : TopicPartition) (log_start : ℕ)
    → IsCurrent s
    → IsCurrent (truncate s journal tp log_start).1
truncate-IsCurrent s journal tp log_start c =
    elim (truncate-Reached s journal tp log_start (retained_from s log_start) refl) [
      | inl same ↦ subst IsCurrent (sym same) c
      | inr (from, upto, (key, kept, reached)) ↦
          subst IsCurrent (sym reached.applied) (applied-IsCurrent s log_start key _ c)
    ]
