-- ===== src/Engine/Partition/Order.antt =====
-- The retained batches of a partition stand in the order of their offsets, between its log start and
-- the next offset of its sequencer (coordinator.rs).
use shard_stream.Prelude.{
  ℕ, zero, suc, ◌+◌, ◌≤◌, ◌≡◌, refl, ap, subst, some, List, [], ◌∷◌, ◌++◌, get_elem?, drop, modify,
  arith,
}
use shard_stream.Core.Model.{Reservation}
use shard_stream.Core.Sequencer.{TopicSequencer}
use shard_stream.SegmentMap.Dense.{DenseOrderedMap, values}
use shard_stream.SegmentMap.Dense.Inv.{IsValid}
use shard_stream.Engine.Model.{BatchRuntime, PartitionReplicationPolicy}
use shard_stream.Engine.Partition.{PartitionState, capacity, empty}
use shard_stream.Engine.Partition.Walk.{AreOrdered}

-- The reservations stand in order from `from` on, and end by `end`.
abbrev pub AreWithin : ℕ → List Reservation → ℕ → Type 0
AreWithin from [] end = from ≤ end
AreWithin from (r ∷ rs) end =
    (from ≤ r.first_offset)
    × (r.first_offset ≤ r.last_offset)
    × AreWithin (r.last_offset + 1) rs end

abbrev pub reservations : List BatchRuntime → List Reservation
reservations [] = []
reservations (b ∷ bs) = b.reservation ∷ reservations bs

pub AreWithin-AreOrdered :
    (from : ℕ) (items : List BatchRuntime) (end : ℕ)
    → AreWithin from (reservations items) end
    → AreOrdered from items
AreWithin-AreOrdered from [] end w = tt
AreWithin-AreOrdered from (b ∷ bs) end w =
    (w.0, w.1, AreWithin-AreOrdered (b.reservation.last_offset + 1) bs end w.2)

pub AreWithin-bounds :
    (from : ℕ) (rs : List Reservation) (end : ℕ) → AreWithin from rs end → from ≤ end
AreWithin-bounds from [] end w = w
AreWithin-bounds from (r ∷ rs) end w =
    omega (arith, w.0, w.1, AreWithin-bounds (r.last_offset + 1) rs end w.2)

pub AreWithin-append :
    (from : ℕ) (rs : List Reservation) (r : Reservation)
    → AreWithin from rs r.first_offset
    → r.first_offset ≤ r.last_offset
    → AreWithin from (rs ++ r ∷ []) (r.last_offset + 1)
AreWithin-append from [] r w h = (w, h, omega arith)
AreWithin-append from (x ∷ rs) r w h = (w.0, w.1, AreWithin-append (x.last_offset + 1) rs r w.2 h)

pub AreWithin-later :
    (from : ℕ) (rs : List Reservation) (end later : ℕ)
    → AreWithin from rs end
    → end ≤ later
    → AreWithin from rs later
AreWithin-later from [] end later w h = omega (arith, w, h)
AreWithin-later from (r ∷ rs) end later w h =
    (w.0, w.1, AreWithin-later (r.last_offset + 1) rs end later w.2 h)

-- What stays behind a batch begins with it.
pub AreWithin-drop :
    (from : ℕ) (items : List BatchRuntime) (end i : ℕ) (b : BatchRuntime)
    → AreWithin from (reservations items) end
    → get_elem? items i ≡ some b
    → AreWithin b.reservation.first_offset (reservations (drop i items)) end
AreWithin-drop from [] end i b w e = absurd cc
AreWithin-drop from (c ∷ cs) end zero b w e =
    let same : c ≡ b = ground (arith, e) in
    subst (λ x. AreWithin x.reservation.first_offset (reservations (c ∷ cs)) end) same
      (omega arith, w.1, w.2)
AreWithin-drop from (c ∷ cs) end (suc i) b w e =
    AreWithin-drop (c.reservation.last_offset + 1) cs end i b w.2 e

pub reservations-append :
    (xs ys : List BatchRuntime) → reservations (xs ++ ys) ≡ reservations xs ++ reservations ys
reservations-append [] ys = refl
reservations-append (x ∷ xs) ys = ap (λ l. x.reservation ∷ l) (reservations-append xs ys)

pub reservations-modify :
    (f : BatchRuntime → BatchRuntime) (items : List BatchRuntime) (i : ℕ)
    → ((b : BatchRuntime) → (f b).reservation ≡ b.reservation)
    → reservations (modify f items i) ≡ reservations items
reservations-modify f [] i k = refl
reservations-modify f (b ∷ bs) zero k = ap (λ r. r ∷ reservations bs) (k b)
reservations-modify f (b ∷ bs) (suc i) k =
    ap (λ l. b.reservation ∷ l) (reservations-modify f bs i k)

-- The batches are well formed and in order.
pub record IsInOrder (s : PartitionState) : Type 0 where
  pub valid : IsValid capacity s.batches
  pub within : AreWithin s.log_start (reservations (values s.batches)) s.sequencer.next_offset

-- What the order is read from.
abbrev pub core_of : PartitionState → DenseOrderedMap BatchRuntime × ℕ × TopicSequencer
core_of s = (s.batches, s.log_start, s.sequencer)

pub same_core-IsInOrder : (s t : PartitionState) → core_of t ≡ core_of s → IsInOrder s → IsInOrder t
same_core-IsInOrder s t e o =
    rw (ap (λ c. c.0) e, ap (λ c. c.1) e, ap (λ c. c.2) e)
      (record { valid = o.valid; within = o.within })

pub empty-IsInOrder :
    (q : TopicSequencer) (policy : PartitionReplicationPolicy) → IsInOrder (empty q policy)
unfolding empty
empty-IsInOrder q policy = record { valid = omega arith; within = omega arith }
