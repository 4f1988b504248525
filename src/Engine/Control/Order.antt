-- ===== src/Engine/Control/Order.antt =====
-- A policy update and a truncation keep the order of the batches (coordinator.rs).
use shard_stream.Prelude.{
  ℕ, zero, suc, ◌-◌, ◌≤◌, ◌≡◌, ◌⊎◌, refl, ap, sym, ◌∙◌, subst, Option, none, some, List, [], ◌∷◌,
  length, drop, get_elem?, min, arith, inl, inr,
}
use shard_stream.Prelude.Results.{Result, ok, err, panic}
use shard_stream.Core.Model.{TopicPartition}
use shard_stream.SegmentMap.Sequence
use shard_stream.SegmentMap.Dense
use shard_stream.SegmentMap.Dense.{DenseOrderedMap, values}
use shard_stream.SegmentMap.Dense.Inv.{IsValid, length-values}
use shard_stream.SegmentMap.Dense.Search.{
  Found, at_key, insert_at, missing, binary_search_by-at_key,
}
use shard_stream.SegmentMap.Dense.Truncate.{truncate_before-IsValid, truncate_before_refines}
use shard_stream.Engine.Model.{
  EngineError, BatchRuntime, Journal, PartitionReplicationPolicy, truncate_checkpoint,
}
use shard_stream.Engine.Partition.{
  PartitionState, capacity, batch_key_at_first_offset, exact_key, advance_cached_watermarks,
  reset_cached_watermarks_after_truncate,
}
use shard_stream.Engine.Partition.Visible.{get-items}
use shard_stream.Engine.Partition.Order.{
  AreWithin, AreWithin-drop, reservations, IsInOrder, core_of, same_core-IsInOrder,
}
use shard_stream.Engine.Control.{
  truncate, apply_truncate, retained_from, checkpoint_of, update_replication_policy, apply_policy,
}
use shard_stream.Engine.Control.Policy.{update_state}
use shard_stream.Engine.Control.Retention.{Reached, truncate-Reached}

apply_policy-core :
    (s : PartitionState) (policy : PartitionReplicationPolicy) (answer : Option EngineError)
    → core_of (apply_policy s policy answer).1 ≡ core_of s
unfolding apply_policy reset_cached_watermarks_after_truncate advance_cached_watermarks
apply_policy-core s policy none = refl
apply_policy-core s policy (some e) = refl

pub update_replication_policy-IsInOrder :
    (s : PartitionState) (journal : Journal) (tp : TopicPartition) (expected : ℕ)
    (policy : PartitionReplicationPolicy)
    → IsInOrder s
    → IsInOrder (update_replication_policy s journal tp expected policy).1
update_replication_policy-IsInOrder s journal tp expected policy o =
    elim (update_state s journal tp expected policy) [
      | inl same ↦ subst IsInOrder (sym same) o
      | inr (fenced, forward, applied) ↦
          same_core-IsInOrder s _ (ap core_of applied ∙ apply_policy-core s policy _) o
    ]

exact_key_lem : (found : Found) (key : ℕ) → exact_key found ≡ ok (some key) → found ≡ at_key key
exact_key_lem (at_key k) key e = ground (arith, e)
exact_key_lem (insert_at k) key e = absurd (ground (arith, e))
exact_key_lem missing key e = absurd (ground (arith, e))

batch_key-retained :
    (s : PartitionState) (offset key : ℕ)
    → batch_key_at_first_offset s offset ≡ ok (some key)
    → (b : BatchRuntime) × (Dense.get capacity s.batches key ≡ some b)
unfolding batch_key_at_first_offset
batch_key-retained s offset key e =
    binary_search_by-at_key capacity s.batches _ key (exact_key_lem _ key e)

-- What is retained begins with a batch, or is empty.
retained_from-batch :
    (s : PartitionState) (log_start key : ℕ) (found : Result EngineError (Option ℕ))
    → batch_key_at_first_offset s log_start ≡ found
    → retained_from s log_start ≡ ok key
    → (key ≡ s.batches.next_key) ⊎ (batch_key_at_first_offset s log_start ≡ ok (some key))
unfolding retained_from
retained_from-batch s log_start key (ok none) f e = ground (arith, f, e)
retained_from-batch s log_start key (ok (some k)) f e = ground (arith, f, e)
retained_from-batch s log_start key (err x) f e = ground (arith, f, e)
retained_from-batch s log_start key panic f e = ground (arith, f, e)

drop_all : (items : List BatchRuntime) (n : ℕ) → length items ≤ n → drop n items ≡ []
drop_all [] zero h = refl
drop_all [] (suc n) h = refl
drop_all (b ∷ bs) zero h = absurd (omega arith)
drop_all (b ∷ bs) (suc n) h = drop_all bs n (omega arith)

truncated-values :
    (m : DenseOrderedMap BatchRuntime) (key : ℕ)
    → IsValid capacity m
    → values (Dense.truncate_before m key).1
      ≡ drop (min (key - m.first_key) (length (values m))) (values m)
unfolding Sequence.truncate_before
truncated-values m key v =
    ap (λ p. p.1.items) (truncate_before_refines capacity (omega arith) m key v)

get_elem?-lt :
    (items : List BatchRuntime) (i : ℕ) (b : BatchRuntime)
    → get_elem? items i ≡ some b
    → min i (length items) ≡ i
get_elem?-lt [] i b e = absurd cc
get_elem?-lt (c ∷ cs) zero b e = omega arith
get_elem?-lt (c ∷ cs) (suc i) b e = omega (arith, get_elem?-lt cs i b e)

truncated-within :
    (s : PartitionState) (log_start key : ℕ) (first : Option BatchRuntime)
    → Dense.get capacity s.batches key ≡ first
    → (checkpoint_of s first).1 ≡ log_start
    → ((first ≡ none) → key ≡ s.batches.next_key)
    → IsInOrder s
    → AreWithin log_start
        (reservations (values (Dense.truncate_before s.batches key).1))
        s.sequencer.next_offset
truncated-within s log_start key none found aligned at_end o =
    let v = o.valid in
    let emptied : values (Dense.truncate_before s.batches key).1 ≡ [] =
      truncated-values s.batches key v
      ∙ drop_all (values s.batches) _
          (omega (arith, at_end refl, length-values capacity v, v.counted)) in
    subst (λ l. AreWithin log_start (reservations l) s.sequencer.next_offset) (sym emptied)
      (omega (arith, aligned))
truncated-within s log_start key (some b) found aligned at_end o =
    let (from, at) = get-items s key b o.valid found in
    let kept : values (Dense.truncate_before s.batches key).1
        ≡ drop (key - s.batches.first_key) (values s.batches) =
      truncated-values s.batches key o.valid
      ∙ ap (λ n. drop n (values s.batches)) (get_elem?-lt (values s.batches) _ b at) in
    subst (λ l. AreWithin log_start (reservations l) s.sequencer.next_offset) (sym kept)
      (subst
        (λ n.
          AreWithin n (reservations (drop (key - s.batches.first_key) (values s.batches)))
            s.sequencer.next_offset)
        aligned
        (AreWithin-drop s.log_start (values s.batches) s.sequencer.next_offset _ b o.within at))

apply_truncate-core :
    (s : PartitionState) (log_start key : ℕ) (answer : Option EngineError)
    → let t = (apply_truncate s log_start key answer).1 in
      (core_of t ≡ core_of s)
      ⊎ (core_of t ≡ ((Dense.truncate_before s.batches key).1, log_start, s.sequencer))
unfolding apply_truncate reset_cached_watermarks_after_truncate advance_cached_watermarks
apply_truncate-core s log_start key (some e) = inl refl
apply_truncate-core s log_start key none = inr refl

Reached-IsInOrder :
    (s : PartitionState) (journal : Journal) (tp : TopicPartition) (log_start key : ℕ)
    (t : PartitionState)
    → retained_from s log_start ≡ ok key
    → Reached s journal tp log_start key t
    → IsInOrder s
    → IsInOrder t
Reached-IsInOrder s journal tp log_start key t kept reached o =
    let (batch, offset, placement) = checkpoint_of s (Dense.get capacity s.batches key) in
    elim (apply_truncate-core s log_start key
      (journal (truncate_checkpoint tp log_start batch offset placement))) [
        | inl same ↦ same_core-IsInOrder s t (ap core_of reached.applied ∙ same) o
        | inr moved ↦
            same_core-IsInOrder
              (record s {
                batches = (Dense.truncate_before s.batches key).1;
                log_start = log_start;
              })
              t (ap core_of reached.applied ∙ moved)
              (record {
                valid = truncate_before-IsValid capacity (omega arith) s.batches key o.valid;
                within = truncated-within s log_start key _ refl reached.aligned at_end o;
              })
      ]
  where
    at_end : Dense.get capacity s.batches key ≡ none → key ≡ s.batches.next_key
    at_end gone = elim (retained_from-batch s log_start key _ refl kept) [
      | inl last ↦ last
      | inr found ↦
          let (b, there) = batch_key-retained s log_start key found in
          absurd (ground (arith, gone, there))
    ]

pub truncate-IsInOrder :
    (s : PartitionState) (journal : Journal) (tp : TopicPartition) (log_start : ℕ)
    → IsInOrder s
    → IsInOrder (truncate s journal tp log_start).1
truncate-IsInOrder s journal tp log_start o =
    elim (truncate-Reached s journal tp log_start _ refl) [
      | inl same ↦ subst IsInOrder (sym same) o
      | inr (from, upto, (key, kept, reached)) ↦
          Reached-IsInOrder s journal tp log_start key _ kept reached o
    ]
