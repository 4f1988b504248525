-- ===== src/Engine/Group/Current.antt =====
-- The end of a group keeps the cached watermarks up to date (coordinator.rs).
use native.Mathlib.Decide.{ℕ_discrete}
use shard_stream.Prelude.{
  ℕ, suc, ◌+◌, ◌≡◌, ◌⊎◌, inl, inr, refl, ap, sym, ◌∙◌, subst, Bool, false, Option, none, some, List,
  [], ◌∷◌, get_elem?, arith, Bool-cases,
}
use shard_stream.Prelude.Results.{ok}
use shard_stream.Core.Model.{TopicPartition}
use shard_stream.SegmentMap.Dense
use shard_stream.SegmentMap.Dense.{DenseOrderedMap, values}
use shard_stream.SegmentMap.Dense.Inv.{IsValid}
use shard_stream.SegmentMap.Dense.Lookup.{get_refines}
use shard_stream.SegmentMap.Sequence
use shard_stream.Engine.Model.{
  AtomicGroupState, AtomicGroupRuntime, BatchRuntime, is_group_unresolved, Journal,
}
use shard_stream.Engine.Partition.{PartitionState, capacity, stops_contiguous, stops_stable}
use shard_stream.Engine.Partition.Frontier.{frontier, Frees}
use shard_stream.Engine.Partition.Watermarks.{
  IsCurrent, stops_policy, advance_cached_watermarks-IsCurrent,
}
use shard_stream.Engine.Group.{
  finalized, finalize_batches, check_all_final, apply_final, finalize_group, finalize_atomic_group,
}
use shard_stream.Engine.Group.Final.{
  Mem, MayEnd, finalize_batches-IsValid, finalize_batches-Mem, finalize_batches-other,
  check_all_final-MayEnd, finalize_group-state,
}

dec_Mem : (k : ℕ) (ids : List ℕ) → Mem k ids ⊎ (¬ Mem k ids)
dec_Mem k [] = inr (λ m. m)
dec_Mem k (j ∷ ids) = elim (ℕ_discrete k j) [
  | yes same ↦ inl (inl same)
  | no other ↦ elim (dec_Mem k ids) [
    | inl mem ↦ inl (inr mem)
    | inr away ↦ inr (λ m. elim m [ inl same ↦ other same | inr mem ↦ away mem ])
  ]
]

-- What `later` holds in the place of a batch `x`.
abbrev Freed : (BatchRuntime → Bool) → List BatchRuntime → ℕ → BatchRuntime → Type 0
Freed stops later i x =
    (y : BatchRuntime) × (get_elem? later i ≡ some y)
    × (y.reservation ≡ x.reservation)
    × (stops x ≡ false → stops y ≡ false)

pointwise-Frees :
    (stops : BatchRuntime → Bool) (items later : List BatchRuntime)
    → ((i : ℕ) (x : BatchRuntime) → get_elem? items i ≡ some x → Freed stops later i x)
    → Frees stops items later
pointwise-Frees stops [] later k = tt
pointwise-Frees stops (x ∷ xs) [] k = let (y, e, r, f) = k 0 x refl in absurd cc
pointwise-Frees stops (x ∷ xs) (y ∷ ys) k =
    let (z, e, r, f) = k 0 x refl in
    let same : z ≡ y = ground (arith, e) in
    (
      ap (λ b. b.reservation) (sym same) ∙ r,
      (λ h. ap stops (sym same) ∙ f h),
      pointwise-Frees stops xs ys (λ i w e. k (suc i) w e),
    )

update-first_key :
    (m : DenseOrderedMap BatchRuntime) (k : ℕ) (f : BatchRuntime → BatchRuntime)
    → (Dense.update capacity m k f).first_key ≡ m.first_key
unfolding Dense.update
update-first_key m k f = ground arith

finalize_batches-first_key :
    (outcome : AtomicGroupState) (ids : List ℕ) (m : DenseOrderedMap BatchRuntime)
    → (finalize_batches outcome ids m).first_key ≡ m.first_key
unfolding finalize_batches
finalize_batches-first_key outcome [] m = refl
finalize_batches-first_key outcome (j ∷ ids) m =
    finalize_batches-first_key outcome ids _ ∙ update-first_key m j (finalized outcome)

get_at :
    (m : DenseOrderedMap BatchRuntime) (i : ℕ)
    → IsValid capacity m
    → Dense.get capacity m (m.first_key + i) ≡ get_elem? (values m) i
unfolding Sequence.get
get_at m i v = get_refines capacity (omega arith) m (m.first_key + i) v ∙ ground arith

finalize_batches-Frees :
    (stops : BatchRuntime → Bool) (outcome : AtomicGroupState) (ids : List ℕ)
    (m : DenseOrderedMap BatchRuntime)
    → IsValid capacity m
    → ((k : ℕ) (b : BatchRuntime)
        → Mem k ids
        → Dense.get capacity m k ≡ some b
        → stops b ≡ false
        → stops (finalized outcome b) ≡ false)
    → Frees stops (values m) (values (finalize_batches outcome ids m))
finalize_batches-Frees stops outcome ids m v free =
    let n = finalize_batches outcome ids m in
    let w = finalize_batches-IsValid outcome ids m v in
    pointwise-Frees stops (values m) (values n) (λ i x e.
      let k = m.first_key + i in
      let found = get_at m i v ∙ e in
      let at : Dense.get capacity n k ≡ get_elem? (values n) i =
        ap (λ f. Dense.get capacity n (f + i)) (sym (finalize_batches-first_key outcome ids m))
        ∙ get_at n i w in
      elim (dec_Mem k ids) [
        | inl mem ↦ (
          finalized outcome x,
          sym at ∙ finalize_batches-Mem outcome ids m k x v mem found,
          refl,
          free k x mem found,
        )
        | inr away ↦
            (x, sym at ∙ finalize_batches-other outcome ids m k v away ∙ found, refl, λ h. h)
      ])

MayEnd-frees :
    (s : PartitionState) (outcome : AtomicGroupState) (b : BatchRuntime)
    → is_group_unresolved outcome ≡ false
    → MayEnd s outcome b
    → (stops_contiguous (finalized outcome b) ≡ false)
      × (stops_stable (finalized outcome b) ≡ false)
      × (stops_policy s b ≡ false → stops_policy s (finalized outcome b) ≡ false)
MayEnd-frees s outcome b final ends = ground (arith, final, ends.status)

applied-IsCurrent :
    (s : PartitionState) (x : ℕ) (outcome : AtomicGroupState) (group : AtomicGroupRuntime)
    → is_group_unresolved outcome ≡ false
    → check_all_final s outcome group.batch_ids ≡ ok tt
    → IsCurrent s
    → IsCurrent (apply_final s x outcome group)
unfolding apply_final
applied-IsCurrent s x outcome group final checked c =
    let first = sym (finalize_batches-first_key outcome group.batch_ids s.batches) in
    let ends : (k : ℕ) (b : BatchRuntime)
        → Mem k group.batch_ids
        → Dense.get capacity s.batches k ≡ some b
        → MayEnd s outcome b =
      λ k b mem e.
        let (d, found, m) = check_all_final-MayEnd s outcome group.batch_ids k checked mem in
        let same : d ≡ b = ground (arith, e, found) in subst (MayEnd s outcome) same m in
    advance_cached_watermarks-IsCurrent _ (values s.batches)
      (finalize_batches-IsValid outcome group.batch_ids s.batches c.valid)
      (record {
        contiguous =
            c.cached.contiguous
            ∙ ap (λ n. frontier stops_contiguous n s.log_start (values s.batches)) first;
        stable =
            c.cached.stable
            ∙ ap (λ n. frontier stops_stable n s.log_start (values s.batches)) first;
        replicated =
            c.cached.replicated
            ∙ ap (λ n. frontier (stops_policy s) n s.log_start (values s.batches)) first;
      })
      (record {
        contiguous =
            finalize_batches-Frees stops_contiguous outcome group.batch_ids s.batches c.valid
              (λ k b mem e h. (MayEnd-frees s outcome b final (ends k b mem e)).0);
        stable =
            finalize_batches-Frees stops_stable outcome group.batch_ids s.batches c.valid
              (λ k b mem e h. (MayEnd-frees s outcome b final (ends k b mem e)).1);
        replicated =
            finalize_batches-Frees (stops_policy s) outcome group.batch_ids s.batches c.valid
              (λ k b mem e h. (MayEnd-frees s outcome b final (ends k b mem e)).2 h);
      })

found-IsCurrent :
    (s : PartitionState) (journal : Journal) (tp : TopicPartition) (x : ℕ)
    (outcome : AtomicGroupState) (found : Option AtomicGroupRuntime)
    → s.atomic_groups x ≡ found
    → IsCurrent s
    → IsCurrent (finalize_atomic_group s journal tp x outcome).1
unfolding finalize_atomic_group
found-IsCurrent s journal tp x outcome none e c =
    let same : (finalize_atomic_group s journal tp x outcome).1 ≡ s = ground (arith, e) in
    subst IsCurrent (sym same) c
found-IsCurrent s journal tp x outcome (some group) e c =
    elim (Bool-cases (is_group_unresolved outcome)) [
      | inl unended ↦
          let same : (finalize_atomic_group s journal tp x outcome).1 ≡ s =
            ground (arith, unended) in
          subst IsCurrent (sym same) c
      | inr final ↦
          let went : (finalize_atomic_group s journal tp x outcome).1
              ≡ (finalize_group s journal tp x outcome group).1 =
            ground (arith, e, final) in
          subst IsCurrent (sym went) (elim (finalize_group-state s journal tp x outcome group) [
            | inl same ↦ subst IsCurrent (sym same) c
            | inr (checked, synced, applied) ↦
                subst IsCurrent (sym applied) (applied-IsCurrent s x outcome group final checked c)
          ])
    ]

-- The end of a group, whatever it returns, leaves the watermarks up to date.
pub finalize_atomic_group-IsCurrent :
    (s : PartitionState) (journal : Journal) (tp : TopicPartition) (x : ℕ)
    (outcome : AtomicGroupState)
    → IsCurrent s
    → IsCurrent (finalize_atomic_group s journal tp x outcome).1
finalize_atomic_group-IsCurrent s journal tp x outcome c =
    found-IsCurrent s journal tp x outcome _ refl c
