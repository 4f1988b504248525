-- ===== src/SegmentMap/Dense/Update.antt =====
-- Writing through `get_mut` of `DenseOrderedMap` changes one value of the sequence (dense.rs).
use native.Mathlib.Decide.{dec_lt}
use shard_stream.Prelude.{
  ℕ, zero, suc, ◌+◌, ◌-◌, ◌<◌, ◌≡◌, ap, sym, ◌∙◌, subst, List, [], ◌∷◌, ◌++◌, length, get_elem?,
  modify, length-modify, arith, some, inl, inr, modify-append_left, modify-append_right, modify_ge,
  Option-cases,
}
use shard_stream.SegmentMap.Sequence
use shard_stream.SegmentMap.Dense.{
  Segment, DenseOrderedMap, position, update, segment_values, values,
}
use shard_stream.SegmentMap.Dense.Inv.{Chain, IsValid, length-values, view}
use shard_stream.SegmentMap.Dense.Lookup.{position-Located, position-outside}

module _ {ℓ} {T : Type ℓ} (f : T → T) where
  -- What a write does to the segment that holds the value.
  abbrev write : ℕ → Segment T → Segment T
  write j s = record s { values = modify f s.values j }

  unfoldable pub offset : List (Segment T) → ℕ → ℕ
  offset [] i = 0
  offset (s ∷ rest) zero = 0
  offset (s ∷ rest) (suc i) = length s.values + offset rest i

  segment_values-modify :
      (segs : List (Segment T)) (i j : ℕ) {s : Segment T}
      → get_elem? segs i ≡ some s
      → j < length s.values
      → segment_values (modify (write j) segs i)
        ≡ modify f (segment_values segs) (offset segs i + j)
  unfolding offset
  segment_values-modify [] i j e h = ground arith
  segment_values-modify (t ∷ rest) zero j {s} e h = sym (
      modify-append_left f t.values (segment_values rest) (0 + j) (ground arith)
      ∙ ap (λ k. modify f t.values k ++ segment_values rest) (omega arith))
  segment_values-modify (t ∷ rest) (suc i) j e h =
      ap (◌++◌ t.values) (segment_values-modify rest i j e h)
      ∙ sym (
          modify-append_right f t.values (segment_values rest) (length t.values + offset rest i + j)
            (omega arith)
          ∙ ap (λ k. t.values ++ modify f (segment_values rest) k) (omega arith))

  module _ (capacity : ℕ) where
    Chain-modify :
        (n key : ℕ) (segs : List (Segment T)) (next i j : ℕ)
        → Chain capacity n key segs next
        → Chain capacity n key (modify (write j) segs i) next
    Chain-modify n key [] next i j c = c
    Chain-modify n key (s ∷ rest) next zero j c = (
      c.0,
      omega (arith, c.1, length-modify f s.values j),
      c.2,
      omega (arith, c.3, length-modify f s.values j),
      subst (λ l. Chain capacity (suc n) (key + l) rest next) (sym (length-modify f s.values j))
          c.4,
    )
    Chain-modify n key (s ∷ rest) next (suc i) j c =
        (c.0, c.1, c.2, c.3, Chain-modify (suc n) (key + length s.values) rest next i j c.4)

    pub offset-first_key :
        (n key : ℕ) (segs : List (Segment T)) (next i : ℕ) {s : Segment T}
        → Chain capacity n key segs next
        → get_elem? segs i ≡ some s
        → offset segs i + key ≡ s.first_key
    unfolding offset
    offset-first_key n key [] next i c e = ground arith
    offset-first_key n key (t ∷ rest) next zero c e = ground (arith, c.0)
    offset-first_key n key (t ∷ rest) next (suc i) c e =
        omega (arith, offset-first_key (suc n) (key + length t.values) rest next i c.4 e)

    -- A write keeps the invariant.
    pub update-IsValid :
        (m : DenseOrderedMap T) (k : ℕ)
        → IsValid capacity m
        → IsValid capacity (update capacity m k f)
    unfolding update
    update-IsValid m k v = elim (Option-cases (position capacity m k)) [
      | inl e ↦ rw (e, update) v
      | inr (at, e) ↦
          rw (e, update)
            (record {
              chain = Chain-modify _ _ m.segments _ at.0 at.1 v.chain;
              counted = v.counted;
              keys = v.keys;
              entries = v.entries;
            })
    ]

    -- A write changes the value under its key and no other.
    pub update_refines :
        (m : DenseOrderedMap T) (k : ℕ)
        → 0 < capacity
        → IsValid capacity m
        → view capacity (update capacity m k f) ≡ Sequence.update (view capacity m) k f
    unfolding update Sequence.update
    update_refines m k positive v = elim (dec_lt k m.first_key) [
      | yes before ↦ rw (position-outside capacity positive m k (inl before), update) (ground arith)
      | no from ↦ elim (dec_lt k m.next_key) [
        | yes inside ↦
            let (l, e) = position-Located capacity positive m k v (omega arith) inside in
            rw (e, update)
              (ground (
                arith,
                segment_values-modify m.segments _ (k - l.segment.first_key) l.found
                    (omega (arith, l.starts, l.ends)),
                offset-first_key _ _ m.segments _ _ v.chain l.found,
                l.starts,
                l.after,
              ))
        | no past ↦
            rw (position-outside capacity positive m k (inr (omega arith)), update)
              (ground (
                arith,
                modify_ge f (values m) (k - m.first_key),
                length-values capacity v,
                v.counted,
              ))
      ]
    ]
