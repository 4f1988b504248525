-- ===== src/SegmentMap/Dense/Points.antt =====
-- What a push and the removal of the front entry do to each lookup in `DenseOrderedMap` (dense.rs).
use native.Mathlib.Decide.{dec_lt}
use shard_stream.Prelude.{
  ℕ, zero, suc, ◌+◌, ◌-◌, ◌<◌, ◌≡◌, refl, ap, sym, ◌∙◌, none, some, List, [], ◌∷◌, ◌++◌, length,
  inr, get_elem?, leb, false, true, ◌==◌, if◌then◌else◌, arith, usize_mod, u128_mod,
}
use shard_stream.SegmentMap.Sequence
use shard_stream.SegmentMap.Sequence.{Sequence}
use shard_stream.SegmentMap.Dense.{DenseOrderedMap, values, pushed, get, push, pop_front}
use shard_stream.SegmentMap.Dense.Inv.{IsValid, length-values, view, push_refines, push-IsValid}
use shard_stream.SegmentMap.Dense.Lookup.{get_refines, position-outside}
use shard_stream.SegmentMap.Dense.Front.{pop_front_refines, pop_front-IsValid}

module _ {T : Type 0} where
  -- A new last value of a list.
  elem_appended :
      (xs : List T) (v : T) (i : ℕ)
      → get_elem? (xs ++ v ∷ []) i ≡ (if i == length xs then some v else get_elem? xs i)
  elem_appended [] v zero = refl
  elem_appended [] v (suc i) = ground arith
  elem_appended (x ∷ xs) v zero = ground arith
  elem_appended (x ∷ xs) v (suc i) = elem_appended xs v i ∙ ground arith

  sequence_pushed :
      (q : Sequence T) (v : T) (k : ℕ)
      → Sequence.get (record q { items = q.items ++ v ∷ [] }) k
        ≡ (if k == q.first + length q.items then some v else Sequence.get q k)
  unfolding Sequence.get
  sequence_pushed q v k = ground (arith, elem_appended q.items v (k - q.first))

  get_popped :
      (first : ℕ) (xs : List T) (k : ℕ)
      → Sequence.get (Sequence.pop_items first xs).1 k
        ≡ (if k == first then none else Sequence.get (record { first = first; items = xs }) k)
  unfolding Sequence.get Sequence.pop_items
  get_popped first [] k = ground arith
  get_popped first (x ∷ xs) k = elim (dec_lt first k) [
    | yes after ↦
        let step : k - first ≡ suc (k - (first + 1)) = omega arith in
        let other : (k == first) ≡ false = ground arith in
        let low : leb first k ≡ true = ground arith in
        let low' : leb (first + 1) k ≡ true = ground arith in rw (other, low, low', step) refl
    | no before ↦
        let high : leb (first + 1) k ≡ false = ground arith in
        rw high (elim (dec_lt k first) [
          | yes less ↦
              let other : (k == first) ≡ false = ground arith in
              let outside : leb first k ≡ false = ground arith in rw (other, outside) refl
          | no same ↦ let at : (k == first) ≡ true = ground arith in rw at refl
        ])
  ]

  front_item :
      (first : ℕ) (xs : List T) (a : T)
      → Sequence.get (record { first = first; items = xs }) first ≡ some a
      → (Sequence.pop_items first xs).0 ≡ some (first, a)
  unfolding Sequence.get Sequence.pop_items
  front_item first [] a h = ground (arith, h)
  front_item first (x ∷ xs) a h =
      let zero_at : first - first ≡ 0 = omega arith in
      let low : leb first first ≡ true = ground arith in
      ap (λ y. some (first, y)) (ground (arith, h, zero_at, low))

module _ {T : Type 0} (capacity : ℕ) (positive : 0 < capacity) (m : DenseOrderedMap T)
    (v : IsValid capacity m) where
  -- There is no value under the next key.
  pub get-next_key : get capacity m m.next_key ≡ none
  unfolding get
  get-next_key = rw (position-outside capacity positive m m.next_key (inr (omega arith))) refl

  last_key : m.next_key ≡ m.first_key + length (values m)
  last_key = omega (arith, v.counted, length-values capacity v)

  sequence_push_fits :
      (a : T)
      → m.next_key + 1 < u128_mod
      → m.len + 1 < usize_mod
      → Sequence.push (view capacity m) m.next_key a
        ≡ (pushed, record { first = m.first_key; items = values m ++ a ∷ [] })
  unfolding Sequence.push
  sequence_push_fits a keys len = ground (arith, last_key, length-values capacity v, keys, len)

  -- A push under the next key succeeds while there is room, and adds one value.
  pub get-push :
      (a : T) (k : ℕ)
      → m.next_key + 1 < u128_mod
      → m.len + 1 < usize_mod
      → ((push capacity m m.next_key a).0 ≡ pushed)
        × (get capacity (push capacity m m.next_key a).1 k
            ≡ (if k == m.next_key then some a else get capacity m k))
  get-push a k keys len =
      let same = push_refines capacity positive m m.next_key a v ∙ sequence_push_fits a keys len in
      (
        ap (λ r. r.0) same,
        get_refines capacity positive (push capacity m m.next_key a).1 k
              (push-IsValid capacity positive m m.next_key a v)
            ∙ ap (λ r. Sequence.get r.1 k) same
            ∙ sequence_pushed (view capacity m) a k
            ∙ ap (λ n. if k == n then some a else Sequence.get (view capacity m) k) (sym last_key)
            ∙ ap (λ found. if k == m.next_key then some a else found)
                (sym (get_refines capacity positive m k v)),
      )

  -- The removal of the front entry hands it out, and takes it alone away.
  pub get-pop_front :
      (a : T) (k : ℕ)
      → get capacity m m.first_key ≡ some a
      → ((pop_front m).0 ≡ some (m.first_key, a))
        × (get capacity (pop_front m).1 k ≡ (if k == m.first_key then none else get capacity m k))
  unfolding Sequence.pop_front
  get-pop_front a k e =
      let same = pop_front_refines capacity positive m v in
      (
        ap (λ r. r.0) same
            ∙ front_item m.first_key (values m) a
                (sym (get_refines capacity positive m m.first_key v) ∙ e),
        get_refines capacity positive (pop_front m).1 k (pop_front-IsValid capacity positive m v)
            ∙ ap (λ r. Sequence.get r.1 k) same
            ∙ get_popped m.first_key (values m) k
            ∙ ap (λ found. if k == m.first_key then none else found)
                (sym (get_refines capacity positive m k v)),
      )
