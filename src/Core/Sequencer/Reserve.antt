-- ===== src/Core/Sequencer/Reserve.antt =====
-- What a reservation holds and what it changes (crates/shard-stream-core/src/sequencer.rs).
use shard_stream.Prelude.{
  ℕ, ◌+◌, ◌-◌, ◌%◌, ◌≤◌, ◌<◌, ◌≡◌, ◌↔◌, refl, ap, true, some, length, get_elem?, arith, u64_mod,
  u128_mod,
}
use shard_stream.Prelude.Results.{Result, ok, err, panic}
use shard_stream.Core.Model.{Reservation, reservation_eq_iff}
use shard_stream.Core.Sequencer.{
  SequencerError, TopicSequencer, ReservationProposal, proposal_eq, propose_reservation, settle,
  commit_reservation,
}

-- The coordinates of a reservation of `count` records by `s`, and those that it leaves.
pub record Reserves (s : TopicSequencer) (count : ℕ) (r : Reservation) (t : TopicSequencer)
    : Type 0 where
  pub topic : r.topic_id ≡ s.topic_id
  pub partition : r.partition_id ≡ s.partition_id
  pub batch : r.batch_id ≡ s.next_batch_id
  pub first : r.first_offset ≡ s.next_offset
  pub last : r.last_offset + 1 ≡ t.next_offset
  pub records : r.record_count ≡ count
  pub lane :
      get_elem? s.virtual_lanes (s.next_placement_sequence % length s.virtual_lanes)
      ≡ some r.placement.virtual_lane_id
  pub sequence : r.placement.sequence ≡ s.next_placement_sequence
  pub offset : t.next_offset ≡ s.next_offset + count
  pub next_batch : t.next_batch_id ≡ s.next_batch_id + 1
  pub next_sequence : t.next_placement_sequence ≡ s.next_placement_sequence + 1
  pub epoch : (s.leader_epoch ≤ t.leader_epoch) × (r.placement.leader_epoch ≡ t.leader_epoch)
  pub ring :
      (t.ring_epoch ≡ s.ring_epoch)
      × (r.placement.ring_epoch ≡ s.ring_epoch)
      × (t.virtual_lanes ≡ s.virtual_lanes)
  pub fits :
      (t.next_offset < u64_mod)
      × (t.next_batch_id < u128_mod)
      × (t.next_placement_sequence < u64_mod)

pub proposal_eq_iff : (p q : ReservationProposal) → (proposal_eq p q ≡ true) ↔ (p ≡ q)
unfolding proposal_eq
proposal_eq_iff p q = ground (arith, reservation_eq_iff p.reservation q.reservation)

-- What a successful proposal says.
pub record Proposes (s : TopicSequencer) (count : ℕ) (epoch : ℕ) (p : ReservationProposal)
    : Type 0 where
  pub topic : p.reservation.topic_id ≡ s.topic_id
  pub partition : p.reservation.partition_id ≡ s.partition_id
  pub batch : p.reservation.batch_id ≡ s.next_batch_id
  pub first : p.reservation.first_offset ≡ s.next_offset
  pub last : p.reservation.last_offset ≡ s.next_offset + (count - 1)
  pub records : p.reservation.record_count ≡ count
  pub lane :
      get_elem? s.virtual_lanes (s.next_placement_sequence % length s.virtual_lanes)
      ≡ some p.reservation.placement.virtual_lane_id
  pub ring : p.reservation.placement.ring_epoch ≡ s.ring_epoch
  pub leader : p.reservation.placement.leader_epoch ≡ epoch
  pub sequence : p.reservation.placement.sequence ≡ s.next_placement_sequence
  pub previous : p.previous_leader_epoch ≡ s.leader_epoch
  pub current : s.leader_epoch ≤ epoch
  pub offsets_fit : s.next_offset + count < u64_mod
  pub batches_fit : s.next_batch_id + 1 < u128_mod
  pub sequences_fit : s.next_placement_sequence + 1 < u64_mod

pub propose_reservation-Proposes :
    (s : TopicSequencer) (count epoch : ℕ) (p : ReservationProposal)
    → propose_reservation s count (some epoch) ≡ ok p
    → Proposes s count epoch p
unfolding propose_reservation
propose_reservation-Proposes s count epoch p h = ground arith

settle-Reserves :
    (s t : TopicSequencer) (p : ReservationProposal) (r : Reservation)
    (c : Result SequencerError ReservationProposal)
    → ((q : ReservationProposal)
        → c ≡ ok q
        → Proposes s p.reservation.record_count p.reservation.placement.leader_epoch q)
    → 0 < p.reservation.record_count
    → settle s p c ≡ (ok r, t)
    → Reserves s p.reservation.record_count r t
unfolding settle
settle-Reserves s t p r (ok q) facts positive h = ground (arith, proposal_eq_iff q p, facts q refl)
settle-Reserves s t p r (err e) facts positive h = absurd (ground (arith, ap (λ x. x.0) h))
settle-Reserves s t p r panic facts positive h = absurd (ground (arith, ap (λ x. x.0) h))

-- A commit that succeeds grants the next coordinates of the sequencer, advances past exactly them,
-- and wraps none.
pub commit_reservation-Reserves :
    (s t : TopicSequencer) (p : ReservationProposal) (r : Reservation)
    → 0 < p.reservation.record_count
    → commit_reservation s p ≡ (ok r, t)
    → Reserves s p.reservation.record_count r t
unfolding commit_reservation
commit_reservation-Reserves s t p r positive h =
    settle-Reserves s t p r _ (λ q e. propose_reservation-Proposes s _ _ q e) positive h
