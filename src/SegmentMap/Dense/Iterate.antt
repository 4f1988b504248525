-- ===== src/SegmentMap/Dense/Iterate.antt =====
-- Iteration over the values from a key on, in `DenseOrderedMap` (dense.rs).
use shard_stream.Prelude.{
  ℕ, zero, suc, ◌+◌, ◌-◌, ◌≤◌, ◌<◌, ◌≡◌, refl, ap, sym, ◌∙◌, List, [], ◌∷◌, ◌++◌, ◌==◌,
  if◌then◌else◌, length, get_elem?, drop, drop-append_left, drop-append_right, drop-nil, arith,
  Option, none, some, inl, inr, min, max, Bool-cases, ==_iff, ==→ne,
}
use shard_stream.SegmentMap.Dense.{Segment, DenseOrderedMap, position, segment_values, values}
use shard_stream.SegmentMap.Dense.Inv.{IsValid, length-values}
use shard_stream.SegmentMap.Dense.Lookup.{position-Located}
use shard_stream.SegmentMap.Dense.Update.{offset, offset-first_key}

module _ {ℓ} {T : Type ℓ} where
  -- `skip(segment_index)`, and `skip(value_index)` in the first segment that is left.
  abbrev skip_values : List (Segment T) → ℕ → List T
  skip_values [] value_index = []
  skip_values (s ∷ rest) value_index = drop value_index s.values ++ segment_values rest

  -- `none` is the panic of `expect("clamped non-terminal key is retained")`.
  unfoldable pub values_from : ℕ → DenseOrderedMap T → ℕ → Option (List T)
  values_from capacity m key =
      let start = max m.first_key (min key m.next_key) in
      if start == m.next_key
      then some (skip_values (drop (length m.segments) m.segments) 0)
      else elim (position capacity m start) [
        | none ↦ none
        | some at ↦ some (skip_values (drop at.0 m.segments) at.1)
      ]

  drop-all : (xs : List (Segment T)) → drop (length xs) xs ≡ []
  drop-all [] = refl
  drop-all (x ∷ xs) = drop-all xs

  drop_ge : (n : ℕ) (xs : List T) → length xs ≤ n → drop n xs ≡ []
  drop_ge n [] h = drop-nil T n
  drop_ge zero (x ∷ xs) h = absurd (omega arith)
  drop_ge (suc n) (x ∷ xs) h = drop_ge n xs (omega arith)

  skip_values-drop :
      (f : T → T) (segs : List (Segment T)) (i j : ℕ) {s : Segment T}
      → get_elem? segs i ≡ some s
      → j < length s.values
      → skip_values (drop i segs) j ≡ drop (offset f segs i + j) (segment_values segs)
  unfolding offset
  skip_values-drop f [] i j e h = ground arith
  skip_values-drop f (t ∷ rest) zero j {s} e h =
      sym (drop-append_left j t.values (segment_values rest) (ground arith))
      ∙ ap (λ k. drop k (t.values ++ segment_values rest)) (omega arith)
  skip_values-drop f (t ∷ rest) (suc i) j e h =
      skip_values-drop f rest i j e h
      ∙ sym (
          drop-append_right (length t.values + offset f rest i + j) t.values (segment_values rest)
            (omega arith)
          ∙ ap (λ k. drop k (segment_values rest)) (omega arith))

  -- The iteration never panics, and yields the values from the key on, in order.
  pub values_from_lem :
      (capacity : ℕ) (m : DenseOrderedMap T) (key : ℕ)
      → 0 < capacity
      → IsValid capacity m
      → values_from capacity m key ≡ some (drop (min (key - m.first_key) m.len) (values m))
  unfolding values_from
  values_from_lem capacity m key positive v =
      elim (Bool-cases (max m.first_key (min key m.next_key) == m.next_key)) [
        | inl terminal ↦
            rw (terminal, drop-all m.segments)
              (ap some (
                sym (
                  drop_ge (min (key - m.first_key) m.len) (values m)
                    (omega (arith, length-values capacity v, v.counted, (==_iff _ _).0 terminal)))))
        | inr inner ↦
            let (l, e) =
              position-Located capacity positive m (max m.first_key (min key m.next_key)) v
                (omega arith) (omega (arith, ==→ne _ _ inner, v.counted)) in
            rw (inner, e)
              (ap some (
                skip_values-drop (λ x. x) m.segments _ _ l.found (omega (arith, l.starts, l.ends))
                ∙ ap (λ k. drop k (values m))
                    (omega (
                      arith,
                      offset-first_key (λ x. x) capacity _ _ m.segments _ _ v.chain l.found,
                      l.starts,
                      l.after,
                      v.counted,
                    ))))
      ]
