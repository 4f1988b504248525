-- ===== src/SegmentMap/Dense/Lookup.antt =====
-- Lookup by arithmetic in `DenseOrderedMap` finds what the plain sequence holds (dense.rs).
use shard_stream.Prelude.{
  ℕ, suc, ◌+◌, ◌-◌, ◌/◌, ◌≤◌, ◌<◌, ◌≡◌, refl, ap, sym, ◌∙◌, subst, List, [], ◌∷◌, ◌++◌, length,
  length-append, get_elem?, get_elem?-append_left, get_elem?-append_right, get_elem?_lt,
  get_elem?_ge, usize_mod, arith, none, some, inl, inr, ◌⊎◌,
}
use native.Mathlib.Decide.{dec_lt}
use shard_stream.Prelude.Division.{div_unique}
use shard_stream.SegmentMap.Sequence
use shard_stream.SegmentMap.Dense.{
  Segment, DenseOrderedMap, position_from, position, get, segment_values, values, end_key,
}
use shard_stream.SegmentMap.Dense.Inv.{Chain, IsValid, Chain-length, length-values, view}

module _ {ℓ} {T : Type ℓ} (capacity : ℕ) (positive : 0 < capacity) where
  -- The segment that the arithmetic picks holds the key, at its place among all values.
  pub record Located (n key : ℕ) (segs : List (Segment T)) (k : ℕ) : Type ℓ where
    pub segment : Segment T
    pub numbered : n ≤ k / capacity
    pub found : get_elem? segs (k / capacity - n) ≡ some segment
    pub after : key ≤ segment.first_key
    pub starts : segment.first_key ≤ k
    pub ends : k < end_key segment
    pub same :
        get_elem? segment.values (k - segment.first_key) ≡ get_elem? (segment_values segs) (k - key)

  locate :
      (n key : ℕ) (segs : List (Segment T)) (next k : ℕ)
      → Chain capacity n key segs next
      → key ≤ k
      → k < next
      → Located n key segs k
  locate n key [] next k c lo hi = absurd (omega arith)
  locate n key (s ∷ rest) next k c lo hi = elim (dec_lt k (key + length s.values)) [
    | yes inside ↦
        let e : k / capacity ≡ n =
          div_unique capacity n k (omega (arith, c.2)) (omega (arith, c.3)) in
        record {
          segment = s;
          numbered = omega arith;
          found = ap (get_elem? (s ∷ rest)) {x = k / capacity - n} {y = 0} (omega arith);
          after = omega (arith, c.0);
          starts = omega (arith, c.0);
          ends = omega (arith, c.0);
          same =
              subst
                (λ a.
                  get_elem? s.values (k - a)
                  ≡ get_elem? (s.values ++ segment_values rest) (k - key))
                (sym c.0)
                (sym
                  (get_elem?-append_left s.values (segment_values rest) (k - key) (omega arith)));
        }
    | no outside ↦
        let r = locate (suc n) (key + length s.values) rest next k c.4 (omega arith) hi in
        let i : k / capacity - n ≡ suc (k / capacity - suc n) = omega (arith, r.numbered) in
        record {
          segment = r.segment;
          numbered = omega (arith, r.numbered);
          found = ap (get_elem? (s ∷ rest)) i ∙ r.found;
          after = omega (arith, r.after);
          starts = r.starts;
          ends = r.ends;
          same =
              r.same
              ∙ sym (
                  get_elem?-append_right s.values (segment_values rest) (k - key) (omega arith)
                  ∙ ap (get_elem? (segment_values rest)) (omega arith));
        }
  ]

  length-segments-le :
      (n key : ℕ) (segs : List (Segment T)) (next : ℕ)
      → Chain capacity n key segs next
      → length segs ≤ length (segment_values segs)
  length-segments-le n key [] next c = omega arith
  length-segments-le n key (s ∷ rest) next c = omega (
    arith,
    c.1,
    length-append s.values (segment_values rest),
    length-segments-le (suc n) (key + length s.values) rest next c.4,
  )

  -- `position` succeeds exactly on the retained keys, and says where the value is.
  position_from-Located :
      (m : DenseOrderedMap T) (segs : List (Segment T)) (k : ℕ)
      → m.segments ≡ segs
      → IsValid capacity m
      → m.first_key ≤ k
      → k < m.next_key
      → (l : Located (m.first_key / capacity) m.first_key segs k)
      → position_from capacity m k segs
        ≡ some (k / capacity - m.first_key / capacity, k - l.segment.first_key)
  unfolding position_from
  position_from-Located m [] k e v lo hi l = ground (arith, l.found)
  position_from-Located m (s ∷ rest) k e v lo hi l =
      let c =
        subst (λ t. Chain capacity (m.first_key / capacity) m.first_key t m.next_key) e v.chain in
      let short = length-segments-le _ _ (s ∷ rest) _ c in
      let total = Chain-length capacity _ _ (s ∷ rest) _ c in
      let at = get_elem?_lt (s ∷ rest) (k / capacity - m.first_key / capacity) l.found in
      let near : k / capacity - m.first_key / capacity < usize_mod =
        omega (arith, v.entries, v.counted, short, total, at) in
      let inside : k - l.segment.first_key < usize_mod =
        omega (arith, v.entries, v.counted, l.after) in
      ground (arith, c.0, near, inside, l.found, l.starts, l.ends)

  pub position-Located :
      (m : DenseOrderedMap T) (k : ℕ)
      → IsValid capacity m
      → m.first_key ≤ k
      → k < m.next_key
      → (l : Located (m.first_key / capacity) m.first_key m.segments k) × (position capacity m k
          ≡ some (k / capacity - m.first_key / capacity, k - l.segment.first_key))
  unfolding position
  position-Located m k v lo hi =
      let l = locate _ _ m.segments m.next_key k v.chain lo hi in
      (l, ground (arith, position_from-Located m m.segments k refl v lo hi l))

  pub position-outside :
      (m : DenseOrderedMap T) (k : ℕ)
      → (k < m.first_key) ⊎ (m.next_key ≤ k)
      → position capacity m k ≡ none
  unfolding position
  position-outside m k h = ground arith

  -- A lookup finds what the plain sequence holds under the key, and nothing under any other.
  pub get_refines :
      (m : DenseOrderedMap T) (k : ℕ)
      → IsValid capacity m
      → get capacity m k ≡ Sequence.get (view capacity m) k
  unfolding get Sequence.get
  get_refines m k v = elim (dec_lt k m.first_key) [
    | yes before ↦ rw (position-outside m k (inl before)) (ground arith)
    | no from ↦ elim (dec_lt k m.next_key) [
      | yes inside ↦
          let (l, e) = position-Located m k v (omega arith) inside in
          rw e (ground (arith, l.found, l.same))
      | no past ↦ rw (position-outside m k (inr (omega arith))) (
          ground
            (arith, get_elem?_ge (values m) (k - m.first_key), length-values capacity v, v.counted))
    ]
  ]
