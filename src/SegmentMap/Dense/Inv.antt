-- ===== src/SegmentMap/Dense/Inv.antt =====
-- The representation invariant of `DenseOrderedMap`, and that a push keeps it (dense.rs).
use shard_stream.Prelude.{
  ℕ, suc, ◌+◌, ◌*◌, ◌/◌, ◌≤◌, ◌<◌, ◌≡◌, refl, ap, sym, ◌∙◌, subst, List, [], ◌∷◌, ◌++◌, ◌==◌,
  length, length-append, append_assoc, append-nil, u128_mod, usize_mod, arith, Bool-cases, inl, inr,
  ==_iff, ◌≢◌,
}
use shard_stream.Prelude.Division.{div_bounds, lt_of_same_quotient, eq_of_other_quotient}
use shard_stream.SegmentMap.Dense.{
  Segment, DenseOrderedMap, push_segments, push, segment_values, values,
}
use shard_stream.SegmentMap.Sequence
use shard_stream.SegmentMap.Sequence.{Sequence}

module _ {ℓ} {T : Type ℓ} (capacity : ℕ) where
  -- The segments from number `n` on hold the keys from `key` up to `next`, each within its number.
  abbrev pub Chain : ℕ → ℕ → List (Segment T) → ℕ → Type 0
  Chain n key [] next = key ≡ next
  Chain n key (s ∷ rest) next =
      (s.first_key ≡ key)
      × (0 < length s.values)
      × (n * capacity ≤ key)
      × (key + length s.values ≤ suc n * capacity)
      × Chain (suc n) (key + length s.values) rest next

  pub record IsValid (m : DenseOrderedMap T) : Type 0 where
    pub chain : Chain (m.first_key / capacity) m.first_key m.segments m.next_key
    pub counted : m.first_key + m.len ≡ m.next_key
    pub keys : m.next_key < u128_mod
    pub entries : m.len < usize_mod

  pub Chain-length :
      (n key : ℕ) (segs : List (Segment T)) (next : ℕ)
      → Chain n key segs next
      → key + length (segment_values segs) ≡ next
  Chain-length n key [] next c = omega arith
  Chain-length n key (s ∷ rest) next c = omega (
    arith,
    Chain-length (suc n) (key + length s.values) rest next c.4,
    length-append s.values (segment_values rest),
  )

  -- The number of keys, as the segments hold them.
  pub length-values : {m : DenseOrderedMap T} → IsValid m → length (values m) ≡ m.len
  length-values {m} v = omega (
    arith,
    Chain-length (m.first_key / capacity) m.first_key m.segments m.next_key v.chain,
    v.counted,
  )

  -- The map as a plain sequence.
  abbrev pub view : DenseOrderedMap T → Sequence T
  view m = record { first = m.first_key; items = values m }

  module _ (positive : 0 < capacity) where
    push_segments-Chain :
        (n key : ℕ) (segs : List (Segment T)) (next : ℕ) (value : T)
        → Chain n key segs next
        → (segs ≡ [] → next / capacity ≡ n)
        → Chain n key (push_segments capacity next value segs) (suc next)
    unfolding push_segments
    push_segments-Chain n key [] next value c e =
        let b = div_bounds capacity next positive in
        let k : next / capacity ≡ n = e refl in
        (
          sym c,
          omega arith,
          subst (λ a. a * capacity ≤ key) k (omega arith),
          subst (λ a. key + 1 ≤ suc a * capacity) k (omega arith),
          omega arith,
        )
    push_segments-Chain n key (s ∷ []) next value c e =
        let e0 : s.first_key ≡ key = c.0 in
        let high : key < suc n * capacity = omega (arith, c.1, c.3) in
        let more = length-append s.values (value ∷ []) in
        elim (Bool-cases (s.first_key / capacity == next / capacity)) [
          | inl same ↦
              let below : next < suc n * capacity =
                lt_of_same_quotient capacity n key next positive c.2 high
                  (subst (λ k. k / capacity ≡ next / capacity) e0 ((==_iff _ _).0 same)) in
              rw same
                (c.0, omega (arith, more), c.2, omega (arith, more, c.4), omega (arith, more, c.4))
          | inr other ↦
              let at : next ≡ suc n * capacity =
                eq_of_other_quotient capacity n key next positive c.2 high (omega (arith, c.4))
                  (omega (arith, c.3, c.4))
                  (subst (λ k. k / capacity ≢ next / capacity) e0 (ground arith)) in
              rw other (
                c.0,
                c.1,
                c.2,
                c.3,
                (
                  sym c.4,
                  omega arith,
                  omega (arith, c.4, at),
                  omega (arith, c.4, at),
                  omega (arith, c.4),
                ),
              )
        ]
    push_segments-Chain n key (s ∷ t ∷ rest) next value c e = (
      c.0,
      c.1,
      c.2,
      c.3,
      push_segments-Chain (suc n) (key + length s.values) (t ∷ rest) next value c.4 (λ h. cc),
    )

    segment_values-push :
        (key : ℕ) (value : T) (segs : List (Segment T))
        → segment_values (push_segments capacity key value segs) ≡ segment_values segs ++ value ∷ []
    unfolding push_segments
    segment_values-push key value [] = refl
    segment_values-push key value (s ∷ []) =
        ground (arith, append-nil s.values, append-nil (s.values ++ value ∷ []))
    segment_values-push key value (s ∷ t ∷ rest) =
        ap (◌++◌ s.values) (segment_values-push key value (t ∷ rest))
        ∙ sym (append_assoc s.values (segment_values (t ∷ rest)) (value ∷ []))

    -- A push, refused or not, keeps the invariant.
    pub push-IsValid :
        (m : DenseOrderedMap T) (key : ℕ) (value : T)
        → IsValid m
        → IsValid (push capacity m key value).1
    unfolding push
    push-IsValid m key value v = ground (
      arith,
      push_segments-Chain (m.first_key / capacity) m.first_key m.segments m.next_key value v.chain,
    )

    -- On every branch a push does to the values what the plain sequence does.
    pub push_refines :
        (m : DenseOrderedMap T) (key : ℕ) (value : T)
        → IsValid m
        → let (r, m') = push capacity m key value in (r, view m') ≡ Sequence.push (view m) key value
    unfolding push Sequence.push
    push_refines m key value v =
        ground (arith, length-values v, segment_values-push key value m.segments)
