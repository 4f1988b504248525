-- ===== src/Engine/Partition/Walk.antt =====
-- What the walk over the retained batches has passed, and where it stops, when they stand in the order
-- of their offsets (coordinator.rs).
use shard_stream.Prelude.{
  ℕ, zero, suc, ◌+◌, ◌==◌, ◌≤◌, ◌<◌, ◌≡◌, inl, inr, Bool, true, false, ◌||◌, not, some, List, [],
  ◌∷◌, get_elem?, arith, Bool-cases,
}
use shard_stream.Engine.Model.{BatchRuntime}
use shard_stream.Engine.Partition.{next_offset}
use shard_stream.Engine.Partition.Frontier.{frontier, frontier_ge}

-- No batch ends before it starts.
abbrev pub AreRising : List BatchRuntime → Type 0
AreRising [] = Unit {0}
AreRising (b ∷ bs) = (b.reservation.first_offset ≤ b.reservation.last_offset) × AreRising bs

pub frontier-passed :
    (stops : BatchRuntime → Bool) (key end : ℕ) (items : List BatchRuntime) (i : ℕ)
    (b : BatchRuntime)
    → get_elem? items i ≡ some b
    → key + i < (frontier stops key end items).0
    → stops b ≡ false
unfolding frontier
frontier-passed stops key end [] i b e h = absurd (omega arith)
frontier-passed stops key end (c ∷ cs) zero b e h = ground arith
frontier-passed stops key end (c ∷ cs) (suc i) b e h =
    elim (Bool-cases (not (c.reservation.first_offset == end) || stops c)) [
      | inl stopped ↦ ground (arith, stopped)
      | inr passed ↦
          frontier-passed stops (key + 1) (next_offset c.reservation) cs i b e
            (ground (arith, passed))
    ]

-- The batches stand in the order of their offsets from `from` on: each begins at the end of the one
-- before it or later.
abbrev pub AreOrdered : ℕ → List BatchRuntime → Type 0
AreOrdered from [] = Unit {0}
AreOrdered from (b ∷ bs) =
    (from ≤ b.reservation.first_offset)
    × (b.reservation.first_offset ≤ b.reservation.last_offset)
    × AreOrdered (b.reservation.last_offset + 1) bs

-- The batches follow one another from `from` on without a gap.
abbrev pub AreConsecutive : ℕ → List BatchRuntime → Type 0
AreConsecutive from [] = Unit {0}
AreConsecutive from (b ∷ bs) =
    (b.reservation.first_offset ≡ from)
    × (b.reservation.first_offset ≤ b.reservation.last_offset)
    × AreConsecutive (b.reservation.last_offset + 1) bs

pub AreConsecutive-AreOrdered :
    (from : ℕ) (items : List BatchRuntime) → AreConsecutive from items → AreOrdered from items
AreConsecutive-AreOrdered from [] c = tt
AreConsecutive-AreOrdered from (b ∷ bs) c =
    (omega (arith, c.0), c.1, AreConsecutive-AreOrdered (b.reservation.last_offset + 1) bs c.2)

AreOrdered-get_elem? :
    (from : ℕ) (items : List BatchRuntime) (i : ℕ) (b : BatchRuntime)
    → AreOrdered from items
    → get_elem? items i ≡ some b
    → from ≤ b.reservation.first_offset
AreOrdered-get_elem? from [] i b o e = absurd cc
AreOrdered-get_elem? from (c ∷ cs) zero b o e = ground arith
AreOrdered-get_elem? from (c ∷ cs) (suc i) b o e =
    omega (arith, o.0, o.1, AreOrdered-get_elem? (c.reservation.last_offset + 1) cs i b o.2 e)

frontier_end :
    (stops : BatchRuntime → Bool) (key end : ℕ) (items : List BatchRuntime)
    → AreOrdered end items
    → end ≤ (frontier stops key end items).1
unfolding frontier
frontier_end stops key end [] o = omega arith
frontier_end stops key end (b ∷ bs) o =
    ground (arith, o.0, o.1, frontier_end stops (key + 1) (next_offset b.reservation) bs o.2)

-- A batch that begins below the offset that the walk has reached is passed as a whole.
pub frontier-below :
    (stops : BatchRuntime → Bool) (key end : ℕ) (items : List BatchRuntime) (i : ℕ)
    (b : BatchRuntime)
    → AreOrdered end items
    → get_elem? items i ≡ some b
    → b.reservation.first_offset < (frontier stops key end items).1
    → (key + i < (frontier stops key end items).0)
      × (b.reservation.last_offset < (frontier stops key end items).1)
unfolding frontier
frontier-below stops key end [] i b o e h = absurd cc
frontier-below stops key end (c ∷ cs) zero b o e h = ground (
  arith,
  o.0,
  frontier_ge stops (key + 1) (next_offset c.reservation) cs,
  frontier_end stops (key + 1) (next_offset c.reservation) cs o.2,
)
frontier-below stops key end (c ∷ cs) (suc i) b o e h =
    elim (Bool-cases (not (c.reservation.first_offset == end) || stops c)) [
      | inl stopped ↦
          absurd (ground (arith, stopped, h, AreOrdered-get_elem? end (c ∷ cs) (suc i) b o e))
      | inr passed ↦
          let ih : b.reservation.first_offset
                < (frontier stops (key + 1) (next_offset c.reservation) cs).1
              → (key + 1 + i < (frontier stops (key + 1) (next_offset c.reservation) cs).0)
                × (b.reservation.last_offset
                    < (frontier stops (key + 1) (next_offset c.reservation) cs).1) =
            frontier-below stops (key + 1) (next_offset c.reservation) cs i b o.2 e in
          ground (arith, passed, h, ih)
    ]

-- The walk over consecutive batches ends at the beginning of a batch that stops it, or past them all.
pub frontier-at :
    (stops : BatchRuntime → Bool) (key end : ℕ) (items : List BatchRuntime) (i : ℕ)
    (b : BatchRuntime)
    → AreConsecutive end items
    → get_elem? items i ≡ some b
    → b.reservation.first_offset ≤ (frontier stops key end items).1
    → (frontier stops key end items).1 ≤ b.reservation.last_offset
    → (b.reservation.first_offset ≡ (frontier stops key end items).1) × (stops b ≡ true)
unfolding frontier
frontier-at stops key end [] i b o e g h = absurd cc
frontier-at stops key end (c ∷ cs) zero b o e g h = ground (
  arith,
  o.0,
  frontier_end stops (key + 1) (next_offset c.reservation) cs (AreConsecutive-AreOrdered _ cs o.2),
)
frontier-at stops key end (c ∷ cs) (suc i) b o e g h =
    elim (Bool-cases (not (c.reservation.first_offset == end) || stops c)) [
      | inl stopped ↦ absurd (
          ground (
            arith,
            stopped,
            o.0,
            o.1,
            AreOrdered-get_elem? _ cs i b (AreConsecutive-AreOrdered _ cs o.2) e,
          ))
      | inr passed ↦
          let ih : b.reservation.first_offset
                ≤ (frontier stops (key + 1) (next_offset c.reservation) cs).1
              → (frontier stops (key + 1) (next_offset c.reservation) cs).1
                ≤ b.reservation.last_offset
              → (b.reservation.first_offset
                  ≡ (frontier stops (key + 1) (next_offset c.reservation) cs).1)
                × (stops b ≡ true) =
            frontier-at stops (key + 1) (next_offset c.reservation) cs i b o.2 e in
          ground (arith, passed, g, h, ih)
    ]

-- The walk that more batches stop does not get further.
pub frontier_le :
    (p q : BatchRuntime → Bool) (key end : ℕ) (items : List BatchRuntime)
    → ((b : BatchRuntime) → p b ≡ true → q b ≡ true)
    → AreRising items
    → let (k, e) = frontier q key end items in
      let (l, f) = frontier p key end items in (k ≤ l) × (e ≤ f) × (end ≤ e)
unfolding frontier
frontier_le p q key end [] more rising = omega arith
frontier_le p q key end (b ∷ bs) more rising = ground (
  arith,
  more b,
  rising.0,
  frontier_ge q (key + 1) (next_offset b.reservation) bs,
  frontier_le p q (key + 1) (next_offset b.reservation) bs more rising.1,
)
