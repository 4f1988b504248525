-- ===== src/Engine/Partition/Frontier.antt =====
-- Where a watermark stops: the loops of `advance_cached_watermarks` (coordinator.rs) against a walk
-- over the list of retained batches.
use shard_stream.Prelude.{
  ℕ, zero, suc, ◌+◌, ◌-◌, ◌==◌, ◌≤◌, ◌<◌, ◌≡◌, refl, ap, sym, ◌∙◌, Bool, true, false, ◌||◌, not,
  List, [], ◌∷◌, if◌then◌else◌, length, get_elem?, drop, drop-drop, get_elem?-drop, length-drop,
  arith, Bool-cases, inl, inr,
}
use shard_stream.SegmentMap.Sequence
use shard_stream.SegmentMap.Dense
use shard_stream.SegmentMap.Dense.{DenseOrderedMap, values}
use shard_stream.SegmentMap.Dense.Inv.{IsValid, length-values}
use shard_stream.SegmentMap.Dense.Lookup.{get_refines}
use shard_stream.Engine.Model.{BatchRuntime}
use shard_stream.Engine.Partition.{capacity, advance, next_offset}

-- The batch at which the walk stops, and the end offset that it has reached.
unfoldable pub frontier : (BatchRuntime → Bool) → ℕ → ℕ → List BatchRuntime → ℕ × ℕ
frontier stops key end [] = (key, end)
frontier stops key end (b ∷ bs) =
    if not (b.reservation.first_offset == end) || stops b
    then (key, end)
    else frontier stops (key + 1) (next_offset b.reservation) bs

get_front :
    (m : DenseOrderedMap BatchRuntime) (key : ℕ) (rest : List BatchRuntime)
    → IsValid capacity m
    → m.first_key ≤ key
    → drop (key - m.first_key) (values m) ≡ rest
    → Dense.get capacity m key ≡ get_elem? rest 0
unfolding Sequence.get
get_front m key rest v from e =
    get_refines capacity (omega arith) m key v
    ∙ ground (arith, get_elem?-drop (key - m.first_key) (values m) 0, ap (λ l. get_elem? l 0) e)

drop_rest :
    (m : DenseOrderedMap BatchRuntime) (key : ℕ) (b : BatchRuntime) (rest : List BatchRuntime)
    → m.first_key ≤ key
    → drop (key - m.first_key) (values m) ≡ b ∷ rest
    → drop (key + 1 - m.first_key) (values m) ≡ rest
drop_rest m key b rest from e =
    ap (λ n. drop n (values m)) (omega arith)
    ∙ sym (drop-drop 1 (key - m.first_key) (values m))
    ∙ ap (drop 1) e

advance_rest :
    (stops : BatchRuntime → Bool) (m : DenseOrderedMap BatchRuntime) (fuel key end : ℕ)
    (rest : List BatchRuntime)
    → IsValid capacity m
    → m.first_key ≤ key
    → length rest < fuel
    → drop (key - m.first_key) (values m) ≡ rest
    → advance stops m fuel key end ≡ frontier stops key end rest
unfolding advance frontier
advance_rest stops m zero key end rest v from enough e = absurd (omega arith)
advance_rest stops m (suc fuel) key end [] v from enough e =
    rw (get_front m key [] v from e, advance) refl
advance_rest stops m (suc fuel) key end (b ∷ rest) v from enough e =
    rw (get_front m key (b ∷ rest) v from e, advance)
      (ap (λ more. if not (b.reservation.first_offset == end) || stops b then (key, end) else more)
        (advance_rest stops m fuel (key + 1) (next_offset b.reservation) rest v (omega arith)
          (omega arith) (drop_rest m key b rest from e)))

-- The loop has enough fuel: it stops where the walk over the batches from `key` on does.
pub advance_lem :
    (stops : BatchRuntime → Bool) (m : DenseOrderedMap BatchRuntime) (key end : ℕ)
    → IsValid capacity m
    → m.first_key ≤ key
    → advance stops m (suc m.len) key end
      ≡ frontier stops key end (drop (key - m.first_key) (values m))
advance_lem stops m key end v from =
    advance_rest stops m (suc m.len) key end _ v from
      (omega (arith, length-drop (key - m.first_key) (values m), length-values capacity v)) refl

-- `later` has the batches of `earlier`, perhaps freed of their stop, and perhaps more after them.
abbrev pub Frees : (BatchRuntime → Bool) → List BatchRuntime → List BatchRuntime → Type 0
Frees stops [] later = Unit {0}
Frees stops (b ∷ bs) [] = ⊥
Frees stops (b ∷ bs) (c ∷ cs) =
    (c.reservation ≡ b.reservation) × (stops b ≡ false → stops c ≡ false) × Frees stops bs cs

pub frontier_ge :
    (stops : BatchRuntime → Bool) (key end : ℕ) (bs : List BatchRuntime)
    → key ≤ (frontier stops key end bs).0
unfolding frontier
frontier_ge stops key end [] = omega arith
frontier_ge stops key end (b ∷ bs) =
    ground (arith, frontier_ge stops (key + 1) (next_offset b.reservation) bs)

at_same :
    (stops : BatchRuntime → Bool) (key end : ℕ) (later : List BatchRuntime)
    → frontier stops key end (drop (key - key) later) ≡ frontier stops key end later
at_same stops key end later = ap (λ n. frontier stops key end (drop n later)) none_dropped
  where
    none_dropped : key - key ≡ 0
    none_dropped = omega arith

drop_later :
    (k key : ℕ) (c : BatchRuntime) (cs : List BatchRuntime)
    → key + 1 ≤ k
    → drop (k - key) (c ∷ cs) ≡ drop (k - (key + 1)) cs
drop_later k key c cs h =
    let shorter : k - key ≡ suc (k - (key + 1)) = omega arith in ap (λ n. drop n (c ∷ cs)) shorter

pub frontier_stops :
    (stops : BatchRuntime → Bool) (key end : ℕ) (b : BatchRuntime) (bs : List BatchRuntime)
    → (not (b.reservation.first_offset == end) || stops b) ≡ true
    → frontier stops key end (b ∷ bs) ≡ (key, end)
unfolding frontier
frontier_stops stops key end b bs h = ground (arith, h)

pub frontier_passes :
    (stops : BatchRuntime → Bool) (key end : ℕ) (b : BatchRuntime) (bs : List BatchRuntime)
    → (not (b.reservation.first_offset == end) || stops b) ≡ false
    → frontier stops key end (b ∷ bs) ≡ frontier stops (key + 1) (next_offset b.reservation) bs
unfolding frontier
frontier_passes stops key end b bs h = ground (arith, h)

Frees-passes :
    (stops : BatchRuntime → Bool) (end : ℕ) (b c : BatchRuntime)
    → c.reservation ≡ b.reservation
    → (stops b ≡ false → stops c ≡ false)
    → (not (b.reservation.first_offset == end) || stops b) ≡ false
    → (not (c.reservation.first_offset == end) || stops c) ≡ false
Frees-passes stops end b c same frees passed = ground (arith, same, frees, passed)

-- The walk over the later batches may resume where it stopped before.
pub frontier-resume :
    (stops : BatchRuntime → Bool) (key end : ℕ) (earlier later : List BatchRuntime)
    → Frees stops earlier later
    → let (k, e) = frontier stops key end earlier in
      frontier stops k e (drop (k - key) later) ≡ frontier stops key end later
unfolding frontier
frontier-resume stops key end [] later f = at_same stops key end later
frontier-resume stops key end (b ∷ bs) [] f = absurd f
frontier-resume stops key end (b ∷ bs) (c ∷ cs) f =
    elim (Bool-cases (not (b.reservation.first_offset == end) || stops b)) [
      | inl stopped ↦
          rw (frontier_stops stops key end b bs stopped) (at_same stops key end (c ∷ cs))
      | inr passed ↦
          rw
            (
              frontier_passes stops key end b bs passed,
              frontier_passes stops key end c cs (Frees-passes stops end b c f.0 f.1 passed),
              drop_later (frontier stops (key + 1) (next_offset b.reservation) bs).0 key c cs
                  (frontier_ge stops (key + 1) (next_offset b.reservation) bs),
              f.0,
            )
            (frontier-resume stops (key + 1) (next_offset b.reservation) bs cs f.2)
    ]
