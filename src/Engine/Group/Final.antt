-- ===== src/Engine/Group/Final.antt =====
-- A group ends as a whole or not at all (coordinator.rs).
use native.Mathlib.Decide.{ℕ_discrete}
use shard_stream.Prelude.{
  ℕ, ◌≤◌, ◌≡◌, ◌⊎◌, inl, inr, refl, ap, sym, ◌∙◌, false, Option, none, some, List, [], ◌∷◌, arith,
  Bool-cases,
}
use shard_stream.Prelude.Results.{ok}
use shard_stream.Core.Model.{TopicPartition}
use shard_stream.SegmentMap.Dense
use shard_stream.SegmentMap.Dense.{DenseOrderedMap, values}
use shard_stream.SegmentMap.Dense.Inv.{IsValid}
use shard_stream.SegmentMap.Dense.Update.{update-IsValid}
use shard_stream.SegmentMap.Dense.Access.{get-update_self, get-update_ne}
use shard_stream.Engine.Model.{
  AtomicGroupState, group_committed, group_aborted, group_unresolved, AtomicGroupRuntime,
  BatchRuntime, BatchStatus, committed, aborted, unresolved, Journal, JournalEvent, group_commit,
  group_abort, is_group_unresolved,
}
use shard_stream.Engine.Partition.{PartitionState, capacity, advance_cached_watermarks}
use shard_stream.Engine.Group.{
  check_final, check_all_final, final_status, finalized, finalize_batches, finalize_group,
  finalize_atomic_group, marker, apply_final,
}

-- A chunk stands in the list.
abbrev pub Mem : ℕ → List ℕ → Type 0
Mem k [] = ⊥
Mem k (x ∷ xs) = (k ≡ x) ⊎ Mem k xs

pub finalize_batches-IsValid :
    (outcome : AtomicGroupState) (ids : List ℕ) (m : DenseOrderedMap BatchRuntime)
    → IsValid capacity m
    → IsValid capacity (finalize_batches outcome ids m)
unfolding finalize_batches
finalize_batches-IsValid outcome [] m v = v
finalize_batches-IsValid outcome (j ∷ ids) m v =
    finalize_batches-IsValid outcome ids _ (update-IsValid (finalized outcome) capacity m j v)

finalize_batches-done :
    (outcome : AtomicGroupState) (ids : List ℕ) (m : DenseOrderedMap BatchRuntime) (k : ℕ)
    (b : BatchRuntime)
    → IsValid capacity m
    → Dense.get capacity m k ≡ some (finalized outcome b)
    → Dense.get capacity (finalize_batches outcome ids m) k ≡ some (finalized outcome b)
unfolding finalize_batches
finalize_batches-done outcome [] m k b v e = e
finalize_batches-done outcome (j ∷ ids) m k b v e = elim (ℕ_discrete j k) [
  | yes same ↦
      finalize_batches-done outcome ids _ k b (update-IsValid (finalized outcome) capacity m j v) (
        ap (λ i. Dense.get capacity (Dense.update capacity m i (finalized outcome)) k) same
        ∙ get-update_self capacity m (omega arith) v k (finalized outcome) (finalized outcome b) e)
  | no other ↦
      finalize_batches-done outcome ids _ k b (update-IsValid (finalized outcome) capacity m j v)
        (get-update_ne capacity m (omega arith) v j k (finalized outcome) other ∙ e)
]

pub finalize_batches-Mem :
    (outcome : AtomicGroupState) (ids : List ℕ) (m : DenseOrderedMap BatchRuntime) (k : ℕ)
    (b : BatchRuntime)
    → IsValid capacity m
    → Mem k ids
    → Dense.get capacity m k ≡ some b
    → Dense.get capacity (finalize_batches outcome ids m) k ≡ some (finalized outcome b)
unfolding finalize_batches
finalize_batches-Mem outcome [] m k b v mem e = absurd mem
finalize_batches-Mem outcome (j ∷ ids) m k b v (inl same) e =
    finalize_batches-done outcome ids _ k b (update-IsValid (finalized outcome) capacity m j v) (
      ap (λ i. Dense.get capacity (Dense.update capacity m i (finalized outcome)) k) (sym same)
      ∙ get-update_self capacity m (omega arith) v k (finalized outcome) b e)
finalize_batches-Mem outcome (j ∷ ids) m k b v (inr mem) e = elim (ℕ_discrete j k) [
  | yes same ↦
      finalize_batches-done outcome ids _ k b (update-IsValid (finalized outcome) capacity m j v) (
        ap (λ i. Dense.get capacity (Dense.update capacity m i (finalized outcome)) k) same
        ∙ get-update_self capacity m (omega arith) v k (finalized outcome) b e)
  | no other ↦
      finalize_batches-Mem outcome ids _ k b (update-IsValid (finalized outcome) capacity m j v) mem
        (get-update_ne capacity m (omega arith) v j k (finalized outcome) other ∙ e)
]

pub finalize_batches-other :
    (outcome : AtomicGroupState) (ids : List ℕ) (m : DenseOrderedMap BatchRuntime) (k : ℕ)
    → IsValid capacity m
    → ¬ Mem k ids
    → Dense.get capacity (finalize_batches outcome ids m) k ≡ Dense.get capacity m k
unfolding finalize_batches
finalize_batches-other outcome [] m k v mem = refl
finalize_batches-other outcome (j ∷ ids) m k v mem =
    finalize_batches-other outcome ids _ k (update-IsValid (finalized outcome) capacity m j v)
      (λ h. mem (inr h))
    ∙ get-update_ne capacity m (omega arith) v j k (finalized outcome) (λ e. mem (inl (sym e)))

-- The batch of a chunk that may end with `outcome`.
pub record MayEnd (s : PartitionState) (outcome : AtomicGroupState) (b : BatchRuntime)
    : Type 0 where
  pub status : b.status ≡ unresolved
  pub durable :
      outcome ≡ group_committed → s.replication_policy.min_in_sync_replicas ≤ b.durable_replicas

check_final-MayEnd :
    (s : PartitionState) (outcome : AtomicGroupState) (b : BatchRuntime)
    → check_final s outcome b ≡ ok tt
    → MayEnd s outcome b
unfolding check_final
check_final-MayEnd s outcome b h = record {
  status = ground (arith, h);
  durable = λ e. ground (arith, h, e);
}

check_all_final-first :
    (s : PartitionState) (outcome : AtomicGroupState) (j : ℕ) (ids : List ℕ)
    (found : Option BatchRuntime)
    → Dense.get capacity s.batches j ≡ found
    → check_all_final s outcome (j ∷ ids) ≡ ok tt
    → ((b : BatchRuntime) × (Dense.get capacity s.batches j ≡ some b)
        × (check_final s outcome b ≡ ok tt))
      × (check_all_final s outcome ids ≡ ok tt)
unfolding check_all_final
check_all_final-first s outcome j ids none e h = absurd (ground (arith, e, h))
check_all_final-first s outcome j ids (some b) e h =
    ((b, e, ground (arith, e, h)), ground (arith, e, h))

pub check_all_final-MayEnd :
    (s : PartitionState) (outcome : AtomicGroupState) (ids : List ℕ) (k : ℕ)
    → check_all_final s outcome ids ≡ ok tt
    → Mem k ids
    → (b : BatchRuntime) × (Dense.get capacity s.batches k ≡ some b) × MayEnd s outcome b
check_all_final-MayEnd s outcome [] k h mem = absurd mem
check_all_final-MayEnd s outcome (j ∷ ids) k h (inl same) =
    let (b, e, ends) = (check_all_final-first s outcome j ids _ refl h).0 in
    (b, ap (Dense.get capacity s.batches) same ∙ e, check_final-MayEnd s outcome b ends)
check_all_final-MayEnd s outcome (j ∷ ids) k h (inr mem) =
    check_all_final-MayEnd s outcome ids k (check_all_final-first s outcome j ids _ refl h).1 mem

-- The status that a chunk has after the end of its group.
abbrev pub IsEnd : AtomicGroupState → BatchStatus → Type 0
IsEnd group_committed status = status ≡ committed
IsEnd group_aborted status = status ≡ aborted
IsEnd group_unresolved status = ⊥

-- The event that the end of a group writes.
abbrev pub IsMarker : TopicPartition → ℕ → AtomicGroupState → JournalEvent → Type 0
IsMarker tp x group_committed event = event ≡ group_commit tp x
IsMarker tp x group_aborted event = event ≡ group_abort tp x
IsMarker tp x group_unresolved event = ⊥

final_status-IsEnd :
    (outcome : AtomicGroupState)
    → is_group_unresolved outcome ≡ false
    → IsEnd outcome (final_status outcome)
final_status-IsEnd group_committed h = refl
final_status-IsEnd group_aborted h = refl
final_status-IsEnd group_unresolved h = absurd (ground (arith, h))

marker-IsMarker :
    (tp : TopicPartition) (x : ℕ) (outcome : AtomicGroupState)
    → is_group_unresolved outcome ≡ false
    → IsMarker tp x outcome (marker tp x outcome)
marker-IsMarker tp x group_committed h = refl
marker-IsMarker tp x group_aborted h = refl
marker-IsMarker tp x group_unresolved h = absurd (ground (arith, h))

-- How the end of a group changes the batches: the marker of the outcome is synced, every chunk was durable and unresolved
-- and is as before but for its status, which is committed or aborted as the outcome says, and no other batch is touched.
pub record Ends (s : PartitionState) (journal : Journal) (topic_partition : TopicPartition)
    (transaction_id : ℕ) (outcome : AtomicGroupState) (ids : List ℕ) (t : PartitionState)
    : Type 0 where
  pub synced :
      (event : JournalEvent) × IsMarker topic_partition transaction_id outcome event
      × (journal event ≡ none)
  pub chunks :
      (k : ℕ)
      → Mem k ids
      → (b : BatchRuntime) × (Dense.get capacity s.batches k ≡ some b)
        × MayEnd s outcome b
        × ((status : BatchStatus) × IsEnd outcome status
            × (Dense.get capacity t.batches k ≡ some (record b { status = status })))
  pub others :
      (k : ℕ) → ¬ Mem k ids → Dense.get capacity t.batches k ≡ Dense.get capacity s.batches k
  pub recorded : t.finalized_groups transaction_id ≡ some outcome

apply_final-batches :
    (s : PartitionState) (x : ℕ) (outcome : AtomicGroupState) (group : AtomicGroupRuntime)
    → ((apply_final s x outcome group).batches ≡ finalize_batches outcome group.batch_ids s.batches)
      × ((apply_final s x outcome group).finalized_groups x ≡ some outcome)
unfolding apply_final advance_cached_watermarks
apply_final-batches s x outcome group = (refl, ground arith)

pub finalize_group-state :
    (s : PartitionState) (journal : Journal) (tp : TopicPartition) (x : ℕ)
    (outcome : AtomicGroupState) (group : AtomicGroupRuntime)
    → let t = (finalize_group s journal tp x outcome group).1 in
      (t ≡ s)
      ⊎ ((check_all_final s outcome group.batch_ids ≡ ok tt)
          × (journal (marker tp x outcome) ≡ none)
          × (t ≡ apply_final s x outcome group))
unfolding finalize_group
finalize_group-state s journal tp x outcome group = ground arith

finalize_group-Ends :
    (s t : PartitionState) (journal : Journal) (tp : TopicPartition) (x : ℕ)
    (outcome : AtomicGroupState) (group : AtomicGroupRuntime)
    → IsValid capacity s.batches
    → is_group_unresolved outcome ≡ false
    → check_all_final s outcome group.batch_ids ≡ ok tt
    → journal (marker tp x outcome) ≡ none
    → t ≡ apply_final s x outcome group
    → Ends s journal tp x outcome group.batch_ids t
finalize_group-Ends s t journal tp x outcome group v ended checked synced e =
    let (batches, recorded) = apply_final-batches s x outcome group in
    let after : t.batches ≡ finalize_batches outcome group.batch_ids s.batches =
      ap (λ u. u.batches) e ∙ batches in
    record {
      synced = (marker tp x outcome, marker-IsMarker tp x outcome ended, synced);
      chunks = λ k mem.
          let (b, found, ends) = check_all_final-MayEnd s outcome group.batch_ids k checked mem in
          (
            b,
            found,
            ends,
            (
              final_status outcome,
              final_status-IsEnd outcome ended,
              ap (λ m. Dense.get capacity m k) after
                  ∙ finalize_batches-Mem outcome group.batch_ids s.batches k b v mem found,
            ),
          );
      others = λ k away.
          ap (λ m. Dense.get capacity m k) after
          ∙ finalize_batches-other outcome group.batch_ids s.batches k v away;
      recorded = ap (λ u. u.finalized_groups x) e ∙ recorded;
    }

finalize_atomic_group-found :
    (s : PartitionState) (journal : Journal) (tp : TopicPartition) (x : ℕ)
    (outcome : AtomicGroupState) (found : Option AtomicGroupRuntime)
    → IsValid capacity s.batches
    → s.atomic_groups x ≡ found
    → let t = (finalize_atomic_group s journal tp x outcome).1 in
      (t ≡ s)
      ⊎ ((group : AtomicGroupRuntime) × (s.atomic_groups x ≡ some group)
          × Ends s journal tp x outcome group.batch_ids t)
unfolding finalize_atomic_group
finalize_atomic_group-found s journal tp x outcome none v e = inl (ground (arith, e))
finalize_atomic_group-found s journal tp x outcome (some group) v e =
    elim (Bool-cases (is_group_unresolved outcome)) [
      | inl unended ↦ inl (ground (arith, unended))
      | inr final ↦ elim (finalize_group-state s journal tp x outcome group) [
        | inl same ↦ inl (ground (arith, e, final, same))
        | inr (checked, synced, applied) ↦ inr (
          group,
          e,
          finalize_group-Ends s _ journal tp x outcome group v final checked synced
              (ground (arith, e, final, applied)),
        )
      ]
    ]

-- A group ends as a whole or not at all: whatever the call returns, the state is the old one, or the
-- commit or abort marker of the outcome is synced, every chunk was unresolved and is now committed or
-- aborted as the outcome says, and no other batch is touched.
pub finalize_atomic_group-Ends :
    (s : PartitionState) (journal : Journal) (tp : TopicPartition) (x : ℕ)
    (outcome : AtomicGroupState)
    → IsValid capacity s.batches
    → let t = (finalize_atomic_group s journal tp x outcome).1 in
      (t ≡ s)
      ⊎ ((group : AtomicGroupRuntime) × (s.atomic_groups x ≡ some group)
          × Ends s journal tp x outcome group.batch_ids t)
finalize_atomic_group-Ends s journal tp x outcome v =
    finalize_atomic_group-found s journal tp x outcome _ v refl
