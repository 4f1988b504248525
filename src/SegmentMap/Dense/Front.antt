-- ===== src/SegmentMap/Dense/Front.antt =====
-- Removal of the front entry of `DenseOrderedMap`: `pop_front` (dense.rs).
use shard_stream.Prelude.{
  ℕ, suc, ◌+◌, ◌-◌, ◌*◌, ◌/◌, ◌≤◌, ◌<◌, ◌≡◌, refl, ap, sym, subst, List, [], ◌∷◌, ◌++◌, ◌==◌,
  if◌then◌else◌, length, length-append, arith,
}
use shard_stream.Prelude.Division.{div_unique}
use shard_stream.SegmentMap.Sequence
use shard_stream.SegmentMap.Dense.{
  Segment, DenseOrderedMap, pop_front, pop_segment, pop_value, shrink_front, segment_values,
}
use shard_stream.SegmentMap.Dense.Inv.{Chain, Chain-length, IsValid, view}

module _ {ℓ} {T : Type ℓ} (capacity : ℕ) (positive : 0 < capacity) where
  -- A chain may be numbered by the quotient of its first key.
  pub Chain-renumber :
      (n key : ℕ) (segs : List (Segment T)) (next : ℕ)
      → Chain capacity n key segs next
      → Chain capacity (key / capacity) key segs next
  Chain-renumber n key [] next c = c
  Chain-renumber n key (s ∷ rest) next c =
      subst (λ a. Chain capacity a key (s ∷ rest) next)
        (sym (div_unique capacity n key c.2 (omega (arith, c.1, c.3)))) c

  shrink_front-Chain :
      (n key : ℕ) (vs : List T) (rest : List (Segment T)) (next : ℕ)
      → n * capacity ≤ key
      → key + length vs ≤ suc n * capacity
      → Chain capacity (suc n) (key + length vs) rest next
      → Chain capacity (key / capacity) key (shrink_front key vs rest) next
  unfolding shrink_front
  shrink_front-Chain n key [] rest next lo hi c =
      Chain-renumber (suc n) key rest next
        (subst (λ a. Chain capacity (suc n) a rest next) (omega arith) c)
  shrink_front-Chain n key (v ∷ vs) rest next lo hi c =
      Chain-renumber n key (record { first_key = key; values = v ∷ vs } ∷ rest) next
        (refl, omega arith, lo, hi, c)

  shrink_front-values :
      (key : ℕ) (vs : List T) (rest : List (Segment T))
      → segment_values (shrink_front key vs rest) ≡ vs ++ segment_values rest
  unfolding shrink_front
  shrink_front-values key [] rest = refl
  shrink_front-values key (v ∷ vs) rest = refl

  pop_value-IsValid :
      (m : DenseOrderedMap T) (s : Segment T) (vs : List T) (rest : List (Segment T))
      → IsValid capacity m
      → m.segments ≡ s ∷ rest
      → s.values ≡ vs
      → IsValid capacity (pop_value m s vs rest).1
        × (((pop_value m s vs rest).0, view capacity (pop_value m s vs rest).1)
            ≡ Sequence.pop_front (view capacity m))
  unfolding pop_value Sequence.pop_front
  pop_value-IsValid m s [] rest v e f =
      let c =
        subst (λ t. Chain capacity (m.first_key / capacity) m.first_key t m.next_key) e v.chain in
      absurd (omega (arith, c.1, ap length f))
  pop_value-IsValid m s (x ∷ vs) rest v e f =
      let c =
        subst (λ t. Chain capacity (m.first_key / capacity) m.first_key t m.next_key) e v.chain in
      let size : length s.values ≡ suc (length vs) = ap length f in
      let start : s.first_key + 1 ≡ m.first_key + 1 = omega (arith, c.0) in
      let total = Chain-length capacity _ _ (s ∷ rest) _ c in
      let more = length-append s.values (segment_values rest) in
      let key : (if m.len - 1 == 0 then m.next_key else m.first_key + 1) ≡ m.first_key + 1 =
        ground (arith, v.counted, total, size, more) in
      let chain =
        shrink_front-Chain (m.first_key / capacity) (m.first_key + 1) vs rest m.next_key
          (omega (arith, c.2)) (omega (arith, c.3, size))
          (subst (λ a. Chain capacity (suc (m.first_key / capacity)) a rest m.next_key)
            (omega (arith, size)) c.4) in
      (
        rw (key, start)
            (record {
              chain = chain;
              counted = omega (arith, v.counted, total, size, more);
              keys = v.keys;
              entries = omega (arith, v.entries);
            }),
        ground (arith, key, e, f, shrink_front-values (s.first_key + 1) vs rest),
      )

  pop_segment-IsValid :
      (m : DenseOrderedMap T) (segs : List (Segment T))
      → IsValid capacity m
      → m.segments ≡ segs
      → IsValid capacity (pop_segment m segs).1
        × (((pop_segment m segs).0, view capacity (pop_segment m segs).1)
            ≡ Sequence.pop_front (view capacity m))
  unfolding pop_segment Sequence.pop_front
  pop_segment-IsValid m [] v e = (v, ground (arith, e))
  pop_segment-IsValid m (s ∷ rest) v e = pop_value-IsValid m s s.values rest v e refl

  -- Taking the front entry keeps the invariant.
  pub pop_front-IsValid :
      (m : DenseOrderedMap T) → IsValid capacity m → IsValid capacity (pop_front m).1
  unfolding pop_front
  pop_front-IsValid m v = (pop_segment-IsValid m m.segments v refl).0

  -- It hands out the first key and value of the sequence, or nothing from an empty one.
  pub pop_front_refines :
      (m : DenseOrderedMap T)
      → IsValid capacity m
      → let (r, m') = pop_front m in (r, view capacity m') ≡ Sequence.pop_front (view capacity m)
  unfolding pop_front
  pop_front_refines m v = (pop_segment-IsValid m m.segments v refl).1
