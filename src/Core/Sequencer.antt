-- ===== src/Core/Sequencer.antt =====
-- crates/shard-stream-core/src/sequencer.rs: the allocation of offsets, batch identifiers and lanes
-- of one partition. A method that changes the sequencer returns it beside its result.
pub mod Lanes
pub mod Reserve
pub mod Propose
pub mod History
use shard_stream.Prelude.{
  ℕ, ◌+◌, ◌-◌, ◌%◌, Bool, true, false, ◌&&◌, Option, none, some, List, [], ◌∷◌, ltb, leb, ◌==◌,
  if◌then◌else◌, length, get_elem?, checked_add, u64_mod, u128_mod,
}
use shard_stream.Prelude.Results.{Result, ok, err, panic, ◌>>=◌, ◌>>◌, guard, ok_or, expect}
use shard_stream.Core.Model.{
  TopicId, LogicalPartitionId, VirtualLaneId, RingEpoch, LeaderEpoch, TopicPartition, Placement,
  Reservation, reservation_eq,
}

pub data SequencerError : Type 0 where
  empty_ring : SequencerError
  duplicate_lane : VirtualLaneId → SequencerError
  stale_ring_epoch : (current proposed : RingEpoch) → SequencerError
  stale_leader_epoch : (current proposed : LeaderEpoch) → SequencerError
  offset_space_exhausted batch_id_space_exhausted : SequencerError
  placement_sequence_space_exhausted reservation_proposal_changed : SequencerError

pub record TopicSequencer : Type 0 where
  pub topic_id : TopicId
  pub partition_id : LogicalPartitionId
  pub ring_epoch : RingEpoch
  pub leader_epoch : LeaderEpoch
  pub virtual_lanes : List VirtualLaneId
  pub next_batch_id : ℕ
  pub next_offset : ℕ
  pub next_placement_sequence : ℕ

-- The saved state has the fields of the sequencer.
pub record SequencerState : Type 0 where
  pub topic_id : TopicId
  pub partition_id : LogicalPartitionId
  pub ring_epoch : RingEpoch
  pub leader_epoch : LeaderEpoch
  pub virtual_lanes : List VirtualLaneId
  pub next_batch_id : ℕ
  pub next_offset : ℕ
  pub next_placement_sequence : ℕ

pub record ReservationProposal : Type 0 where
  pub reservation : Reservation
  pub previous_leader_epoch : LeaderEpoch

unfoldable pub topic_partition : TopicSequencer → TopicPartition
topic_partition s = record { topic_id = s.topic_id; partition_id = s.partition_id }

unfoldable pub changes_leader_epoch : ReservationProposal → Bool
changes_leader_epoch p =
    if p.previous_leader_epoch == p.reservation.placement.leader_epoch then false else true

unfoldable pub proposal_eq : ReservationProposal → ReservationProposal → Bool
unfolding reservation_eq
proposal_eq p q =
    reservation_eq p.reservation q.reservation && p.previous_leader_epoch == q.previous_leader_epoch

unfoldable pub contains : List ℕ → ℕ → Bool
contains [] a = false
contains (x ∷ xs) a = if x == a then true else contains xs a

-- The loop over the lanes with the set of those seen.
pub validate_unique : List VirtualLaneId → List VirtualLaneId → Result SequencerError (Unit {0})
unfolding contains
validate_unique seen [] = ok tt
validate_unique seen (lane ∷ lanes) =
    if contains seen lane then err (duplicate_lane lane) else validate_unique (lane ∷ seen) lanes

pub validate_virtual_lanes : List VirtualLaneId → Result SequencerError (Unit {0})
unfolding validate_unique
validate_virtual_lanes [] = err empty_ring
validate_virtual_lanes (lane ∷ lanes) = validate_unique [] (lane ∷ lanes)

unfoldable pub new :
    TopicId
    → LogicalPartitionId
    → RingEpoch
    → List VirtualLaneId
    → Result SequencerError TopicSequencer
unfolding validate_virtual_lanes
new topic partition ring lanes = do
  validate_virtual_lanes lanes
  ok (record {
    topic_id = topic;
    partition_id = partition;
    ring_epoch = ring;
    leader_epoch = 0;
    virtual_lanes = lanes;
    next_batch_id = 0;
    next_offset = 0;
    next_placement_sequence = 0;
  })

pub restore : SequencerState → Result SequencerError TopicSequencer
restore s = do
  validate_virtual_lanes s.virtual_lanes
  ok (record {
    topic_id = s.topic_id;
    partition_id = s.partition_id;
    ring_epoch = s.ring_epoch;
    leader_epoch = s.leader_epoch;
    virtual_lanes = s.virtual_lanes;
    next_batch_id = s.next_batch_id;
    next_offset = s.next_offset;
    next_placement_sequence = s.next_placement_sequence;
  })

pub state : TopicSequencer → SequencerState
state s = record {
  topic_id = s.topic_id;
  partition_id = s.partition_id;
  ring_epoch = s.ring_epoch;
  leader_epoch = s.leader_epoch;
  virtual_lanes = s.virtual_lanes;
  next_batch_id = s.next_batch_id;
  next_offset = s.next_offset;
  next_placement_sequence = s.next_placement_sequence;
}

abbrev unwrap_or : Option LeaderEpoch → LeaderEpoch → LeaderEpoch
unwrap_or none d = d
unwrap_or (some e) d = e

-- `record_count` is not zero.
unfoldable pub propose_reservation :
    TopicSequencer → ℕ → Option LeaderEpoch → Result SequencerError ReservationProposal
propose_reservation s record_count admitted = do
  let leader_epoch = unwrap_or admitted s.leader_epoch
  guard (leb s.leader_epoch leader_epoch) (stale_leader_epoch s.leader_epoch leader_epoch)
  last_offset ← ok_or (checked_add u64_mod s.next_offset (record_count - 1)) offset_space_exhausted
  next_offset ← ok_or (checked_add u64_mod s.next_offset record_count) offset_space_exhausted
  next_batch_id ← ok_or (checked_add u128_mod s.next_batch_id 1) batch_id_space_exhausted
  next_sequence ←
      ok_or (checked_add u64_mod s.next_placement_sequence 1) placement_sequence_space_exhausted
  lane ← expect (get_elem? s.virtual_lanes (s.next_placement_sequence % length s.virtual_lanes))
  ok (record {
    reservation = record {
      topic_id = s.topic_id;
      partition_id = s.partition_id;
      batch_id = s.next_batch_id;
      first_offset = s.next_offset;
      last_offset = last_offset;
      record_count = record_count;
      placement = record {
        virtual_lane_id = lane;
        ring_epoch = s.ring_epoch;
        leader_epoch = leader_epoch;
        sequence = s.next_placement_sequence;
      };
    };
    previous_leader_epoch = s.leader_epoch;
  })

abbrev Advance : Type 0
Advance = Result SequencerError (ℕ × ℕ × ℕ)

-- The checked coordinates after a reservation of `record_count` records.
pub next_coordinates : TopicSequencer → ℕ → Advance
next_coordinates s record_count = do
  next_offset ← ok_or (checked_add u64_mod s.next_offset record_count) offset_space_exhausted
  next_batch_id ← ok_or (checked_add u128_mod s.next_batch_id 1) batch_id_space_exhausted
  next_sequence ←
      ok_or (checked_add u64_mod s.next_placement_sequence 1) placement_sequence_space_exhausted
  ok (next_offset, next_batch_id, next_sequence)

abbrev Stepped : Type 0
Stepped = Result SequencerError Reservation × TopicSequencer

pub allocate : TopicSequencer → ReservationProposal → Advance → Stepped
allocate s p (ok (next_offset, next_batch_id, next_sequence)) = (
  ok p.reservation,
  record s {
    leader_epoch = p.reservation.placement.leader_epoch;
    next_offset = next_offset;
    next_batch_id = next_batch_id;
    next_placement_sequence = next_sequence;
  },
)
allocate s p (err e) = (err e, s)
allocate s p panic = (panic, s)

-- `current.as_ref() != Ok(&proposal)` refuses, and the rest allocates.
pub settle :
    TopicSequencer → ReservationProposal → Result SequencerError ReservationProposal → Stepped
unfolding proposal_eq next_coordinates allocate
settle s p (ok current) =
    if proposal_eq current p
    then allocate s p (next_coordinates s p.reservation.record_count)
    else (err reservation_proposal_changed, s)
settle s p (err e) = (err reservation_proposal_changed, s)
settle s p panic = (panic, s)

unfoldable pub commit_reservation : TopicSequencer → ReservationProposal → Stepped
unfolding settle propose_reservation
commit_reservation s p =
    settle s p
      (propose_reservation s p.reservation.record_count (some p.reservation.placement.leader_epoch))

abbrev commit_proposed : TopicSequencer → Result SequencerError ReservationProposal → Stepped
commit_proposed s (ok p) = commit_reservation s p
commit_proposed s (err e) = (err e, s)
commit_proposed s panic = (panic, s)

unfoldable pub reserve : TopicSequencer → ℕ → Stepped
unfolding commit_reservation
reserve s record_count = commit_proposed s (propose_reservation s record_count none)

unfoldable pub reconfigure :
    TopicSequencer
    → RingEpoch
    → List VirtualLaneId
    → Result SequencerError (Unit {0}) × TopicSequencer
reconfigure s ring lanes =
    if leb ring s.ring_epoch
    then (err (stale_ring_epoch s.ring_epoch ring), s)
    else elim (validate_virtual_lanes lanes) [
      | ok u ↦ (ok tt, record s { ring_epoch = ring; virtual_lanes = lanes })
      | err e ↦ (err e, s)
      | panic ↦ (panic, s)
    ]

unfoldable pub observe_leader_epoch :
    TopicSequencer → LeaderEpoch → Result SequencerError (Unit {0}) × TopicSequencer
observe_leader_epoch s epoch =
    if ltb epoch s.leader_epoch
    then (err (stale_leader_epoch s.leader_epoch epoch), s)
    else (ok tt, record s { leader_epoch = epoch })
