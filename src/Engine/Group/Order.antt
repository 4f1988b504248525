-- ===== src/Engine/Group/Order.antt =====
-- The end of a group keeps the order of the batches (coordinator.rs).
use shard_stream.Prelude.{
  ℕ, ◌≡◌, refl, sym, subst, Option, none, some, List, [], ◌∷◌, arith, Bool-cases, inl, inr,
}
use shard_stream.Core.Model.{TopicPartition}
use shard_stream.Engine.Model.{AtomicGroupState, AtomicGroupRuntime, is_group_unresolved, Journal}
use shard_stream.Engine.Partition.{PartitionState, advance_cached_watermarks}
use shard_stream.Engine.Partition.Order.{IsInOrder, core_of, same_core-IsInOrder}
use shard_stream.Engine.Batch.Order.{write-IsInOrder}
use shard_stream.Engine.Batch.{write}
use shard_stream.Engine.Group.{
  finalized, finalize_batches, apply_final, finalize_group, finalize_atomic_group,
}
use shard_stream.Engine.Group.Final.{finalize_group-state}

finalize_batches-IsInOrder :
    (s : PartitionState) (outcome : AtomicGroupState) (ids : List ℕ)
    → IsInOrder s
    → IsInOrder (record s { batches = finalize_batches outcome ids s.batches })
unfolding finalize_batches
finalize_batches-IsInOrder s outcome [] o = same_core-IsInOrder s _ refl o
finalize_batches-IsInOrder s outcome (j ∷ ids) o = same_core-IsInOrder _ _ refl (
    finalize_batches-IsInOrder (write s j (finalized outcome)) outcome ids
      (write-IsInOrder s j (finalized outcome) (λ b. refl) o))

apply_final-core :
    (s : PartitionState) (x : ℕ) (outcome : AtomicGroupState) (group : AtomicGroupRuntime)
    → core_of (apply_final s x outcome group)
      ≡ core_of (record s { batches = finalize_batches outcome group.batch_ids s.batches })
unfolding apply_final advance_cached_watermarks
apply_final-core s x outcome group = refl

found-IsInOrder :
    (s : PartitionState) (journal : Journal) (tp : TopicPartition) (x : ℕ)
    (outcome : AtomicGroupState) (found : Option AtomicGroupRuntime)
    → s.atomic_groups x ≡ found
    → IsInOrder s
    → IsInOrder (finalize_atomic_group s journal tp x outcome).1
unfolding finalize_atomic_group
found-IsInOrder s journal tp x outcome none e o =
    let same : (finalize_atomic_group s journal tp x outcome).1 ≡ s = ground (arith, e) in
    subst IsInOrder (sym same) o
found-IsInOrder s journal tp x outcome (some group) e o =
    elim (Bool-cases (is_group_unresolved outcome)) [
      | inl unended ↦
          let same : (finalize_atomic_group s journal tp x outcome).1 ≡ s =
            ground (arith, unended) in
          subst IsInOrder (sym same) o
      | inr final ↦
          let went : (finalize_atomic_group s journal tp x outcome).1
              ≡ (finalize_group s journal tp x outcome group).1 =
            ground (arith, e, final) in
          subst IsInOrder (sym went) (elim (finalize_group-state s journal tp x outcome group) [
            | inl same ↦ subst IsInOrder (sym same) o
            | inr (checked, synced, applied) ↦ subst IsInOrder (sym applied) (
                same_core-IsInOrder _ _ (apply_final-core s x outcome group)
                  (finalize_batches-IsInOrder s outcome group.batch_ids o))
          ])
    ]

pub finalize_atomic_group-IsInOrder :
    (s : PartitionState) (journal : Journal) (tp : TopicPartition) (x : ℕ)
    (outcome : AtomicGroupState)
    → IsInOrder s
    → IsInOrder (finalize_atomic_group s journal tp x outcome).1
finalize_atomic_group-IsInOrder s journal tp x outcome o =
    found-IsInOrder s journal tp x outcome _ refl o
