-- ===== src/SegmentMap/Dense/Truncate.antt =====
-- Truncation of `DenseOrderedMap` below a key: `truncate_before` (dense.rs).
use shard_stream.Prelude.{
  ℕ, suc, ◌+◌, ◌-◌, ◌/◌, ◌≤◌, ◌<◌, ◌≡◌, refl, ap, sym, ◌∙◌, subst, List, [], ◌∷◌, ltb, leb, ◌==◌,
  length, length-append, drop, drop-drop, drop-append_left, drop-append_right, length-drop, arith,
  inl, inr, ◌⊎◌, min, max, Bool-cases, leb→le, leb→lt, ==_iff, ltb→le,
}
use shard_stream.Prelude.Division.{div_unique}
use shard_stream.SegmentMap.Sequence
use shard_stream.SegmentMap.Dense.{
  Segment, DenseOrderedMap, drop_segments, drain_front, truncate_before, reset_empty,
  segment_values, values, end_key,
}
use shard_stream.SegmentMap.Dense.Inv.{Chain, Chain-length, IsValid, length-values, view}
use shard_stream.SegmentMap.Dense.Front.{Chain-renumber}

module _ {ℓ} {T : Type ℓ} (capacity : ℕ) (positive : 0 < capacity) where
  -- Where the loop over whole segments stops, started at `m` with the segments `segs`.
  record Dropped (target next : ℕ) (m : DenseOrderedMap T) (removed : ℕ) (segs : List (Segment T))
      (out : ℕ × DenseOrderedMap T) : Type ℓ where
    chain : Chain capacity (out.1.first_key / capacity) out.1.first_key out.1.segments next
    count : out.0 ≡ removed + (out.1.first_key - m.first_key)
    from : m.first_key ≤ out.1.first_key
    upto : out.1.first_key ≤ target
    counted : out.1.first_key + out.1.len ≡ next
    same : out.1.next_key ≡ m.next_key
    kept : values out.1 ≡ drop (out.1.first_key - m.first_key) (segment_values segs)
    stop :
        (out.1.segments ≡ [])
        ⊎ ((s : Segment T) × (rest : List (Segment T)) × (out.1.segments ≡ s ∷ rest)
            × (target < end_key s))

  drop_segments-Dropped :
      (target next n : ℕ) (m : DenseOrderedMap T) (removed : ℕ) (segs : List (Segment T))
      → Chain capacity n m.first_key segs next
      → m.first_key ≤ target
      → target ≤ next
      → m.first_key + m.len ≡ next
      → Dropped target next m removed segs (drop_segments target m removed segs)
  unfolding drop_segments
  drop_segments-Dropped target next n m removed [] c lo hi counted = record {
    chain = c;
    count = omega arith;
    from = omega arith;
    upto = lo;
    counted = counted;
    same = refl;
    kept = ap (λ k. drop k []) {x = 0} (omega arith);
    stop = inl refl;
  }
  drop_segments-Dropped target next n m removed (s ∷ rest) c lo hi counted =
      let total = Chain-length capacity n m.first_key (s ∷ rest) next c in
      let joined = length-append s.values (segment_values rest) in
      elim (Bool-cases (leb (end_key s) target)) [
        | inl whole ↦
            let more =
              drop_segments-Dropped target next (suc n)
                (record m { first_key = end_key s; len = m.len - length s.values })
                (removed + length s.values) rest
                (subst (λ a. Chain capacity (suc n) (a + length s.values) rest next) (sym c.0) c.4)
                (leb→le _ _ whole) hi (omega (arith, c.0, counted, total, joined)) in
            let more_first =
              (drop_segments target
                (record m { first_key = end_key s; len = m.len - length s.values })
                (removed + length s.values) rest).1.first_key in
            rw whole (record {
              chain = more.chain;
              count = omega (arith, more.count, more.from, c.0);
              from = omega (arith, more.from, c.0);
              upto = more.upto;
              counted = more.counted;
              same = more.same;
              kept =
                  more.kept
                  ∙ sym (
                      drop-append_right (more_first - m.first_key) s.values (segment_values rest)
                        (omega (arith, more.from, c.0))
                      ∙ ap (λ k. drop k (segment_values rest)) (omega (arith, more.from, c.0)));
              stop = more.stop;
            })
        | inr part ↦ rw part (record {
          chain = Chain-renumber capacity positive n m.first_key (s ∷ rest) next c;
          count = omega arith;
          from = omega arith;
          upto = lo;
          counted = counted;
          same = refl;
          kept = ap (λ k. drop k (segment_values (s ∷ rest))) {x = 0} (omega arith);
          stop = inr (s, rest, refl, leb→lt _ _ part);
        })
      ]

  -- What the loop and the partial drain after it have done to `m`.
  record Drained (target next : ℕ) (m : DenseOrderedMap T) (out : ℕ × DenseOrderedMap T)
      : Type ℓ where
    chain : Chain capacity (out.1.first_key / capacity) out.1.first_key out.1.segments next
    count : out.0 ≡ target - m.first_key
    first : out.1.first_key ≡ target
    counted : out.1.first_key + out.1.len ≡ next
    same : out.1.next_key ≡ m.next_key
    kept : values out.1 ≡ drop (target - m.first_key) (values m)

  drain_front-Drained :
      (target next : ℕ) (m d : DenseOrderedMap T) (removed : ℕ) (segs : List (Segment T))
      → Dropped target next m 0 m.segments (removed, d)
      → d.segments ≡ segs
      → target ≤ next
      → Drained target next m (drain_front target d removed segs)
  unfolding drain_front
  drain_front-Drained target next m d removed [] h e hi =
      let c = subst (λ t. Chain capacity (d.first_key / capacity) d.first_key t next) e h.chain in
      record {
        chain = h.chain;
        count = omega (arith, c, h.count, h.upto);
        first = omega (arith, c, h.upto);
        counted = h.counted;
        same = h.same;
        kept = h.kept ∙ ap (λ k. drop (k - m.first_key) (values m)) (omega (arith, c, h.upto));
      }
  drain_front-Drained target next m d removed (s ∷ rest) h e hi =
      let c = subst (λ t. Chain capacity (d.first_key / capacity) d.first_key t next) e h.chain in
      let inside : target < end_key s = ground (arith, h.stop, e) in
      let joined = length-append s.values (segment_values rest) in
      let q : target / capacity ≡ d.first_key / capacity =
        div_unique capacity (d.first_key / capacity) target (omega (arith, c.2, h.upto))
          (omega (arith, c.0, c.3, inside)) in
      elim (Bool-cases (ltb s.first_key target)) [
        | inl drain ↦ rw drain (record {
          chain =
              subst
                (λ a.
                  Chain capacity a target
                    (record { first_key = target; values = drop (target - s.first_key) s.values }
                      ∷ rest)
                    next)
                (sym q)
                (
                  refl,
                  omega (arith, inside, length-drop (target - s.first_key) s.values),
                  omega (arith, c.2, h.upto),
                  omega (
                    arith,
                    c.0,
                    c.3,
                    inside,
                    h.upto,
                    length-drop (target - s.first_key) s.values,
                  ),
                  subst (λ a. Chain capacity (suc (d.first_key / capacity)) a rest next)
                      (omega
                        (arith, c.0, inside, h.upto, length-drop (target - s.first_key) s.values))
                      c.4,
                );
          count = omega (arith, c.0, h.count, h.from, h.upto);
          first = refl;
          counted = omega (
            arith,
            c.0,
            h.counted,
            h.upto,
            inside,
            joined,
            Chain-length capacity _ _ (s ∷ rest) _ c,
          );
          same = h.same;
          kept =
              sym (
                drop-append_left (target - s.first_key) s.values (segment_values rest)
                  (omega (arith, inside)))
              ∙ ap (λ t. drop (target - s.first_key) (segment_values t)) (sym e)
              ∙ ap (drop (target - s.first_key)) h.kept
              ∙ drop-drop (target - s.first_key) (d.first_key - m.first_key) (values m)
              ∙ ap (λ k. drop k (values m)) (omega (arith, c.0, h.from, h.upto));
        })
        | inr exact ↦ rw exact (record {
          chain = h.chain;
          count = omega (arith, c.0, h.count, h.upto, ltb→le _ _ exact);
          first = omega (arith, c.0, h.count, h.upto, ltb→le _ _ exact);
          counted = h.counted;
          same = h.same;
          kept =
              h.kept
              ∙ ap (λ k. drop (k - m.first_key) (values m))
                  (omega (arith, c.0, h.upto, ltb→le _ _ exact));
        })
      ]

  reset_empty_id : (m : DenseOrderedMap T) → m.first_key + m.len ≡ m.next_key → reset_empty m ≡ m
  unfolding reset_empty
  reset_empty_id m h = elim (Bool-cases (m.len == 0)) [
    | inl empty ↦
        let none_left : m.len ≡ 0 = (==_iff _ _).0 empty in
        rw empty
          (ap (λ k. record m { first_key = k }) {x = m.next_key} {y = m.first_key} (omega arith))
    | inr more ↦ rw more
  ]

  module _ (m : DenseOrderedMap T) (key : ℕ) (v : IsValid capacity m) where
    abbrev target : ℕ
    target = max m.first_key (min key m.next_key)

    abbrev dropped : ℕ × DenseOrderedMap T
    dropped = drop_segments target m 0 m.segments

    Drained-Drained :
        Drained target m.next_key m (drain_front target dropped.1 dropped.0 dropped.1.segments)
    Drained-Drained =
        drain_front-Drained target m.next_key m dropped.1 dropped.0 dropped.1.segments
          (drop_segments-Dropped target m.next_key _ m 0 m.segments v.chain (omega arith)
            (omega (arith, v.counted)) v.counted)
          refl (omega (arith, v.counted))

    truncated-drained :
        truncate_before m key ≡ drain_front target dropped.1 dropped.0 dropped.1.segments
    unfolding truncate_before
    truncated-drained =
        let d = Drained-Drained in
        let out = drain_front target dropped.1 dropped.0 dropped.1.segments in
        ap (λ e. (out.0, e)) (reset_empty_id out.1 (d.counted ∙ sym d.same))

    -- Truncation keeps the invariant.
    pub truncate_before-IsValid : IsValid capacity (truncate_before m key).1
    truncate_before-IsValid = rw truncated-drained (record {
      chain =
          subst (λ a. Chain capacity (e.first_key / capacity) e.first_key e.segments a) (sym d.same)
            d.chain;
      counted = omega (arith, d.counted, d.same);
      keys = omega (arith, d.same, v.keys);
      entries = omega (arith, d.counted, d.first, v.counted, v.entries);
    })
      where
        d : Drained target m.next_key m (drain_front target dropped.1 dropped.0 dropped.1.segments)
        d = Drained-Drained

        e : DenseOrderedMap T
        e = (drain_front target dropped.1 dropped.0 dropped.1.segments).1

    -- It removes the values under the keys below the given one, counts them, and keeps the rest.
    pub truncate_before_refines :
        let (n, m') = truncate_before m key in
        (n, view capacity m') ≡ Sequence.truncate_before (view capacity m) key
    unfolding Sequence.truncate_before
    truncate_before_refines =
        let d = Drained-Drained in
        let size = length-values capacity v in
        let n : target - m.first_key ≡ min (key - m.first_key) (length (values m)) =
          omega (arith, size, v.counted) in
        rw truncated-drained
          (ground (arith, d.count, d.first, d.kept, n, ap (λ k. drop k (values m)) n))
