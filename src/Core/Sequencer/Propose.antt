-- ===== src/Core/Sequencer/Propose.antt =====
-- When a proposal is made, and what its commit does (crates/shard-stream-core/src/sequencer.rs).
use native.Mathlib.Nat.{mod-lt}
use shard_stream.Prelude.{
  ℕ, ◌+◌, ◌-◌, ◌%◌, ◌≤◌, ◌<◌, ◌≡◌, ◌≢◌, refl, ap, sym, subst, ap₂, ◌∙◌, Option, some, none, length,
  get_elem?, get_elem?_total, arith, u64_mod, u128_mod,
}
use shard_stream.Prelude.Results.{Result, ok, err, panic}
use shard_stream.Core.Model.{Reservation}
use shard_stream.Core.Sequencer.{
  SequencerError, TopicSequencer, ReservationProposal, reservation_proposal_changed,
  propose_reservation, settle, commit_reservation, unwrap_or,
}
use shard_stream.Core.Sequencer.Lanes.{IsRing}
use shard_stream.Core.Sequencer.Reserve.{
  Proposes, propose_reservation-Proposes, proposal_eq_iff, commit_reservation-Reserves,
}

-- There is room for the coordinates of `count` more records.
pub record HasRoom (s : TopicSequencer) (count : ℕ) : Type 0 where
  pub offsets : s.next_offset + count < u64_mod
  pub batches : s.next_batch_id + 1 < u128_mod
  pub sequences : s.next_placement_sequence + 1 < u64_mod

propose_with_lane :
    (s : TopicSequencer) (count lane : ℕ) (admitted : Option ℕ)
    → get_elem? s.virtual_lanes (s.next_placement_sequence % length s.virtual_lanes) ≡ some lane
    → HasRoom s count
    → s.leader_epoch ≤ unwrap_or admitted s.leader_epoch
    → (p : ReservationProposal) × (propose_reservation s count admitted ≡ ok p)
unfolding propose_reservation
propose_with_lane s count lane admitted e room current = (
  record {
    reservation = record {
      topic_id = s.topic_id;
      partition_id = s.partition_id;
      batch_id = s.next_batch_id;
      first_offset = s.next_offset;
      last_offset = s.next_offset + (count - 1);
      record_count = count;
      placement = record {
        virtual_lane_id = lane;
        ring_epoch = s.ring_epoch;
        leader_epoch = unwrap_or admitted s.leader_epoch;
        sequence = s.next_placement_sequence;
      };
    };
    previous_leader_epoch = s.leader_epoch;
  },
  ground (arith, e, room, current),
)

ring_lane :
    (s : TopicSequencer)
    → IsRing s.virtual_lanes
    → (lane : ℕ) × (get_elem? s.virtual_lanes (s.next_placement_sequence % length s.virtual_lanes)
        ≡ some lane)
ring_lane s ring =
    get_elem?_total s.virtual_lanes _ (mod-lt s.next_placement_sequence ring.nonempty)

-- With a ring, room and a current epoch a proposal is made.
pub propose_reservation_total :
    (s : TopicSequencer) (count : ℕ) (admitted : Option ℕ)
    → IsRing s.virtual_lanes
    → HasRoom s count
    → s.leader_epoch ≤ unwrap_or admitted s.leader_epoch
    → (p : ReservationProposal) × (propose_reservation s count admitted ≡ ok p)
propose_reservation_total s count admitted ring room current =
    let (lane, e) = ring_lane s ring in propose_with_lane s count lane admitted e room current

-- No call of it indexes past the ring.
pub propose_reservation-ne-panic :
    (s : TopicSequencer) (count : ℕ) (admitted : Option ℕ)
    → IsRing s.virtual_lanes
    → propose_reservation s count admitted ≢ panic
unfolding propose_reservation
propose_reservation-ne-panic s count admitted ring = ground (arith, ring_lane s ring)

-- A missing admission stands for the saved epoch.
propose-epoch :
    (s : TopicSequencer) (count : ℕ) (admitted : Option ℕ)
    → propose_reservation s count admitted
      ≡ propose_reservation s count (some (unwrap_or admitted s.leader_epoch))
unfolding propose_reservation
propose-epoch s count none = refl
propose-epoch s count (some e) = refl

pub propose-again :
    (s : TopicSequencer) (count : ℕ) (admitted : Option ℕ) (p : ReservationProposal)
    → propose_reservation s count admitted ≡ ok p
    → propose_reservation s p.reservation.record_count (some p.reservation.placement.leader_epoch)
      ≡ ok p
propose-again s count admitted p h =
    let f = propose_reservation-Proposes s count _ p (sym (propose-epoch s count admitted) ∙ h) in
    ap₂ (λ c l. propose_reservation s c (some l)) f.records f.leader
    ∙ sym (propose-epoch s count admitted)
    ∙ h

settle_same :
    (s : TopicSequencer) (count epoch : ℕ) (p : ReservationProposal)
    → Proposes s count epoch p
    → settle s p (ok p) ≡ (
      ok p.reservation,
      record s {
        leader_epoch = epoch;
        next_offset = s.next_offset + count;
        next_batch_id = s.next_batch_id + 1;
        next_placement_sequence = s.next_placement_sequence + 1;
      },
    )
unfolding settle
settle_same s count epoch p f = ground (arith, proposal_eq_iff p p)

-- A proposal that is committed before the sequencer changes is granted as proposed.
pub commit-propose :
    (s : TopicSequencer) (count : ℕ) (admitted : Option ℕ) (p : ReservationProposal)
    → propose_reservation s count admitted ≡ ok p
    → commit_reservation s p ≡ (
      ok p.reservation,
      record s {
        leader_epoch = unwrap_or admitted s.leader_epoch;
        next_offset = s.next_offset + count;
        next_batch_id = s.next_batch_id + 1;
        next_placement_sequence = s.next_placement_sequence + 1;
      },
    )
unfolding commit_reservation
commit-propose s count admitted p h = rw (propose-again s count admitted p h) (
    settle_same s count _ p
      (propose_reservation-Proposes s count _ p (sym (propose-epoch s count admitted) ∙ h)))

settle_refused :
    (s t : TopicSequencer) (p : ReservationProposal) (e : SequencerError)
    (c : Result SequencerError ReservationProposal)
    → ((q : ReservationProposal)
        → c ≡ ok q
        → Proposes s p.reservation.record_count p.reservation.placement.leader_epoch q)
    → settle s p c ≡ (err e, t)
    → (e ≡ reservation_proposal_changed) × (t ≡ s)
unfolding settle
settle_refused s t p e (ok q) facts h = ground (arith, facts q refl)
settle_refused s t p e (err f) facts h = ground arith
settle_refused s t p e panic facts h = ground arith

-- A refused commit has one cause, and leaves the sequencer as it was.
pub commit_reservation_refused :
    (s t : TopicSequencer) (p : ReservationProposal) (e : SequencerError)
    → commit_reservation s p ≡ (err e, t)
    → (e ≡ reservation_proposal_changed) × (t ≡ s)
unfolding commit_reservation
commit_reservation_refused s t p e h =
    settle_refused s t p e _ (λ q g. propose_reservation-Proposes s _ _ q g) h

settle_stale :
    (t : TopicSequencer) (p : ReservationProposal) (c : Result SequencerError ReservationProposal)
    → c ≢ panic
    → ((q : ReservationProposal) → c ≡ ok q → q ≢ p)
    → settle t p c ≡ (err reservation_proposal_changed, t)
unfolding settle
settle_stale t p (ok q) np ne = ground (arith, proposal_eq_iff q p, ne q refl)
settle_stale t p (err e) np ne = refl
settle_stale t p panic np ne = absurd (np refl)

commit_reservation_lem :
    (s : TopicSequencer) (p : ReservationProposal)
    → commit_reservation s p
      ≡ settle s p (
          propose_reservation s p.reservation.record_count
            (some p.reservation.placement.leader_epoch))
unfolding commit_reservation
commit_reservation_lem s p = refl

settle_granted :
    (s t : TopicSequencer) (p : ReservationProposal) (r : Reservation)
    (c : Result SequencerError ReservationProposal)
    → settle s p c ≡ (ok r, t)
    → r ≡ p.reservation
unfolding settle
settle_granted s t p r (ok q) h = ground arith
settle_granted s t p r (err e) h = ground arith
settle_granted s t p r panic h = ground arith

-- What is granted is what was proposed.
pub commit_reservation_granted :
    (s t : TopicSequencer) (p : ReservationProposal) (r : Reservation)
    → commit_reservation s p ≡ (ok r, t)
    → r ≡ p.reservation
commit_reservation_granted s t p r h =
    settle_granted s t p r _ (sym (commit_reservation_lem s p) ∙ h)

-- No proposal is granted twice: a second commit is refused and changes nothing.
pub commit_reservation_twice :
    (s t : TopicSequencer) (p : ReservationProposal) (r : Reservation)
    → IsRing s.virtual_lanes
    → 0 < p.reservation.record_count
    → commit_reservation s p ≡ (ok r, t)
    → commit_reservation t p ≡ (err reservation_proposal_changed, t)
commit_reservation_twice s t p r ring positive h =
    let f = commit_reservation-Reserves s t p r positive h in
    let g = commit_reservation_granted s t p r h in
    commit_reservation_lem t p
    ∙ settle_stale t p _ (propose_reservation-ne-panic t _ _ (subst IsRing (sym f.ring.2) ring))
        (λ q e same.
          let a = propose_reservation-Proposes t _ _ q e in
          omega (
            arith,
            a.first,
            f.first,
            f.offset,
            ap (λ x. x.first_offset) g,
            ap (λ x. x.reservation.first_offset) same,
          ))

settle_panics :
    (s t : TopicSequencer) (p : ReservationProposal) (c : Result SequencerError ReservationProposal)
    → ((q : ReservationProposal)
        → c ≡ ok q
        → Proposes s p.reservation.record_count p.reservation.placement.leader_epoch q)
    → settle s p c ≡ (panic, t)
    → t ≡ s
unfolding settle
settle_panics s t p (ok q) facts h = ground (arith, facts q refl)
settle_panics s t p (err f) facts h = ground arith
settle_panics s t p panic facts h = ground arith

pub commit_reservation_panics :
    (s t : TopicSequencer) (p : ReservationProposal) → commit_reservation s p ≡ (panic, t) → t ≡ s
commit_reservation_panics s t p h =
    settle_panics s t p _ (λ q g. propose_reservation-Proposes s _ _ q g)
      (sym (commit_reservation_lem s p) ∙ h)

pub propose_records :
    (s : TopicSequencer) (count : ℕ) (admitted : Option ℕ) (p : ReservationProposal)
    → propose_reservation s count admitted ≡ ok p
    → p.reservation.record_count ≡ count
propose_records s count admitted p h =
    (propose_reservation-Proposes s count _ p (sym (propose-epoch s count admitted) ∙ h)).records
