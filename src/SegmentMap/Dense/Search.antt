-- ===== src/SegmentMap/Dense/Search.antt =====
-- Iteration from a key and binary search in `DenseOrderedMap` (dense.rs).
use Prim.Native.Nat.{Ordering}
use shard_stream.Prelude.{
  ℕ, zero, suc, ◌+◌, ◌-◌, ◌/◌, ◌≤◌, ◌<◌, ◌≡◌, refl, ap, ◌∙◌, subst, ltb, if◌then◌else◌, get_elem?,
  get_elem?_total, get_elem?_ge, ltb→lt, ltb→le, arith, none, some, inl, inr, ◌⊎◌, Option-cases,
  Bool-cases,
}
use shard_stream.SegmentMap.Sequence
use shard_stream.SegmentMap.Dense.{DenseOrderedMap, get, values}
use shard_stream.SegmentMap.Dense.Inv.{IsValid, length-values}
use shard_stream.SegmentMap.Dense.Lookup.{get_refines}

-- `Result<u128, u128>` of the search; `missing` is a panic of `expect("middle key is retained")` or
-- a run out of fuel, which `binary_search_by-Finds` rules out.
pub data Found : Type 0 where
  at_key : ℕ → Found
  insert_at : ℕ → Found
  missing : Found

Ordering-cases : (o : Ordering) → (o ≡ Ordering.lt) ⊎ ((o ≡ Ordering.eq) ⊎ (o ≡ Ordering.gt))
Ordering-cases Ordering.lt = inl refl
Ordering-cases Ordering.eq = inr (inl refl)
Ordering-cases Ordering.gt = inr (inr refl)

module _ {ℓ} {T : Type ℓ} (capacity : ℕ) (m : DenseOrderedMap T) (compare : ℕ → T → Ordering) where
  -- The loop over `left` and `right`, with one unit of fuel for each round.
  pub search_loop : ℕ → ℕ → ℕ → Found
  search_loop zero left right = missing
  search_loop (suc fuel) left right =
      let middle = left + (right - left) / 2 in
      let key = m.first_key + middle in
      let round : Found = elim (get capacity m key) [
        | none ↦ missing
        | some value ↦ elim (compare key value) [
          | Ordering.lt ↦ search_loop fuel (middle + 1) right
          | Ordering.eq ↦ at_key key
          | Ordering.gt ↦ search_loop fuel left middle
        ]
      ] in
      if ltb left right then round else insert_at (m.first_key + left)

  -- A round shrinks the range, so one more round than entries is enough.
  pub binary_search_by : Found
  binary_search_by = search_loop (suc m.len) 0 m.len

  -- A key that the search answers with is retained.
  search_loop-at_key :
      (fuel left right key : ℕ)
      → search_loop fuel left right ≡ at_key key
      → (value : T) × (get capacity m key ≡ some value)
  unfolding search_loop
  search_loop-at_key zero left right key e = absurd (ground arith)
  search_loop-at_key (suc fuel) left right key e =
      let middle = left + (right - left) / 2 in
      elim (Bool-cases (ltb left right)) [
        | inl more ↦ elim (Option-cases (get capacity m (m.first_key + middle))) [
          | inl gone ↦ absurd (ground (arith, e, more, gone))
          | inr (value, there) ↦ elim (Ordering-cases (compare (m.first_key + middle) value)) [
            | inl less ↦
                search_loop-at_key fuel (middle + 1) right key
                  (ground (arith, e, more, there, less))
            | inr (inl equal) ↦
                (value, ap (get capacity m) (ground (arith, e, more, there, equal)) ∙ there)
            | inr (inr greater) ↦
                search_loop-at_key fuel left middle key (ground (arith, e, more, there, greater))
          ]
        ]
        | inr done ↦ absurd (ground (arith, e, done))
      ]

  pub binary_search_by-at_key :
      (key : ℕ) → binary_search_by ≡ at_key key → (value : T) × (get capacity m key ≡ some value)
  unfolding binary_search_by
  binary_search_by-at_key key e = search_loop-at_key (suc m.len) 0 m.len key e

abbrev pub rank : Ordering → ℕ
rank Ordering.lt = 0
rank Ordering.eq = 1
rank Ordering.gt = 2

rank_lt : (o p : Ordering) → rank o ≤ rank p → p ≡ Ordering.lt → o ≡ Ordering.lt
rank_lt o p h e = ground arith

rank_gt : (o p : Ordering) → rank o ≤ rank p → o ≡ Ordering.gt → p ≡ Ordering.gt
rank_gt o p h e = ground arith

module _ {ℓ} {T : Type ℓ} (capacity : ℕ) (m : DenseOrderedMap T) (compare : ℕ → T → Ordering) where
  -- The comparison does not fall along the retained keys.
  abbrev pub IsMonotone : Type ℓ
  IsMonotone =
      (i j : ℕ) (a b : T)
      → get capacity m i ≡ some a
      → get capacity m j ≡ some b
      → i ≤ j
      → rank (compare i a) ≤ rank (compare j b)

  abbrev pub AllLess : ℕ → Type ℓ
  AllLess k = (j : ℕ) (a : T) → get capacity m j ≡ some a → j < k → compare j a ≡ Ordering.lt

  abbrev pub AllGreater : ℕ → Type ℓ
  AllGreater k = (j : ℕ) (a : T) → get capacity m j ≡ some a → k ≤ j → compare j a ≡ Ordering.gt

  -- What the search promises of its result: it is never `missing`.
  pub data Finds : Found → Type ℓ where
    hit : (k : ℕ) (a : T) → get capacity m k ≡ some a → compare k a ≡ Ordering.eq → Finds (at_key k)
    place :
        (k : ℕ) → m.first_key ≤ k → k ≤ m.next_key → AllLess k → AllGreater k → Finds (insert_at k)

  module _ (positive : 0 < capacity) (v : IsValid capacity m) (monotone : IsMonotone) where
    get_retained : (i : ℕ) → i < m.len → (a : T) × (get capacity m (m.first_key + i) ≡ some a)
    unfolding Sequence.get
    get_retained i h =
        let (a, e) = get_elem?_total (values m) i (omega (arith, length-values capacity v)) in
        (
          a,
          get_refines capacity positive m (m.first_key + i) v
              ∙ ground (arith, e, ap (get_elem? (values m)) (back m.first_key i)),
        )
      where
        back : (n k : ℕ) → n + k - n ≡ k
        back n k = omega arith

    retained_lt : (j : ℕ) (a : T) → get capacity m j ≡ some a → j < m.next_key
    unfolding Sequence.get
    retained_lt j a e = ground (
      arith,
      get_refines capacity positive m j v,
      get_elem?_ge (values m) (j - m.first_key),
      length-values capacity v,
      v.counted,
    )

    retained_ge : (j : ℕ) (a : T) → get capacity m j ≡ some a → m.first_key ≤ j
    unfolding Sequence.get
    retained_ge j a e = ground (arith, get_refines capacity positive m j v)

    below_less :
        (k : ℕ) (w : T) → get capacity m k ≡ some w → compare k w ≡ Ordering.lt → AllLess (k + 1)
    below_less k w e c j a g h = rank_lt _ _ (monotone j k a w g e (omega arith)) c

    above_greater :
        (k : ℕ) (w : T) → get capacity m k ≡ some w → compare k w ≡ Ordering.gt → AllGreater k
    above_greater k w e c j a g h = rank_gt _ _ (monotone k j w a e g h) c

    -- One round, by the outcome of the comparison.
    round-Finds :
        (o : Ordering) (w : T) (k : ℕ) (lower upper : Found)
        → get capacity m k ≡ some w
        → compare k w ≡ o
        → (o ≡ Ordering.lt → Finds upper)
        → (o ≡ Ordering.gt → Finds lower)
        → Finds (elim o [ Ordering.lt ↦ upper | Ordering.eq ↦ at_key k | Ordering.gt ↦ lower ])
    round-Finds Ordering.lt w k lower upper e c up down = up refl
    round-Finds Ordering.eq w k lower upper e c up down = hit k w e c
    round-Finds Ordering.gt w k lower upper e c up down = down refl

    search_loop-Finds :
        (fuel left right : ℕ)
        → left ≤ right
        → right ≤ m.len
        → right - left < fuel
        → AllLess (m.first_key + left)
        → AllGreater (m.first_key + right)
        → Finds (search_loop capacity m compare fuel left right)
    unfolding search_loop
    search_loop-Finds zero left right o h f less greater = absurd (omega arith)
    search_loop-Finds (suc fuel) left right o h f less greater =
        elim (Bool-cases (ltb left right)) [
          | inl more ↦
              let open_range = ltb→lt left right more in
              let middle : ℕ = left + (right - left) / 2 in
              let inside : middle < right = omega (arith, open_range) in
              let (w, e) = get_retained middle (omega (arith, inside)) in
              rw (more, e)
                (round-Finds (compare (m.first_key + middle) w) w (m.first_key + middle)
                  (search_loop capacity m compare fuel left middle)
                  (search_loop capacity m compare fuel (middle + 1) right) e refl
                  (λ c.
                    search_loop-Finds fuel (middle + 1) right (omega (arith, inside)) h
                      (omega (arith, inside))
                      (subst AllLess (next m.first_key middle) (below_less _ w e c)) greater)
                  (λ c.
                    search_loop-Finds fuel left middle (omega arith) (omega (arith, inside))
                      (omega (arith, inside)) less (above_greater _ w e c)))
          | inr done ↦ rw done (
              place (m.first_key + left) (omega arith) (omega (arith, v.counted)) less (
                subst (λ a. AllGreater (m.first_key + a)) (omega (arith, ltb→le left right done))
                  greater))
        ]
      where
        next : (a b : ℕ) → a + b + 1 ≡ a + (b + 1)
        next a b = omega arith

    -- The search ends within its fuel, and finds an equal key, or the place between the lesser and
    -- the greater keys.
    pub binary_search_by-Finds : Finds (binary_search_by capacity m compare)
    unfolding binary_search_by
    binary_search_by-Finds =
        search_loop-Finds (suc m.len) 0 m.len (omega arith) (omega arith) (omega arith)
          (λ j a e h. absurd (omega (arith, retained_ge j a e)))
          (λ j a e h. absurd (omega (arith, retained_lt j a e, v.counted)))
