-- ===== src/Core/Tests.antt =====
-- Runs of the sequencer of crates/shard-stream-core, and its theorems at concrete inputs.
use shard_stream.Prelude.{◌≤◌, ◌≡◌, ◌↔◌, refl, List, [], ◌∷◌, some, arith}
use shard_stream.Prelude.Results.{ok, err}
use shard_stream.Core.Model.{Reservation}
use shard_stream.Core.Sequencer.{
  TopicSequencer, ReservationProposal, reservation_proposal_changed, propose_reservation,
  commit_reservation, validate_virtual_lanes,
}
use shard_stream.Core.Sequencer.Lanes.{IsRing, validate_virtual_lanes_iff}
use shard_stream.Core.Sequencer.Reserve.{Reserves, commit_reservation-Reserves}
use shard_stream.Core.Sequencer.Propose.{propose_reservation_total, commit_reservation_twice}
use shard_stream.Core.Sequencer.History.{
  Call, reserves, commits, reconfigures, observes, Consecutive, run, run-Consecutive, run_epochs,
}
use shard_stream.Core.Topology.{PartitionAssignment, validate}
use shard_stream.Core.Topology.Accepts.{IsAssignment, validate_iff}

abbrev three_lanes : TopicSequencer
three_lanes = record {
  topic_id = 7;
  partition_id = 1;
  ring_epoch = 1;
  leader_epoch = 2;
  virtual_lanes = 10 ∷ 11 ∷ 12 ∷ [];
  next_batch_id = 4;
  next_offset = 100;
  next_placement_sequence = 4;
}

abbrev granted : Reservation
granted = record {
  topic_id = 7;
  partition_id = 1;
  batch_id = 4;
  first_offset = 100;
  last_offset = 104;
  record_count = 5;
  placement = record { virtual_lane_id = 11; ring_epoch = 1; leader_epoch = 3; sequence = 4 };
}

abbrev proposal : ReservationProposal
proposal = record { reservation = granted; previous_leader_epoch = 2 }

abbrev advanced : TopicSequencer
advanced = record {
  topic_id = 7;
  partition_id = 1;
  ring_epoch = 1;
  leader_epoch = 3;
  virtual_lanes = 10 ∷ 11 ∷ 12 ∷ [];
  next_batch_id = 5;
  next_offset = 105;
  next_placement_sequence = 5;
}

three_lanes-IsRing : IsRing (10 ∷ 11 ∷ 12 ∷ [])
three_lanes-IsRing = record { nonempty = omega arith; distinct = λ i j a e g. ground arith }

proposed : propose_reservation three_lanes 5 (some 3) ≡ ok proposal
unfolding propose_reservation
proposed = refl

committed : commit_reservation three_lanes proposal ≡ (ok granted, advanced)
unfolding commit_reservation
committed = ground arith

refused : commit_reservation advanced proposal ≡ (err reservation_proposal_changed, advanced)
unfolding commit_reservation
refused = ground arith

propose_reservation_total_example :
    (p : ReservationProposal) × (propose_reservation three_lanes 5 (some 3) ≡ ok p)
propose_reservation_total_example =
    propose_reservation_total three_lanes 5 (some 3) three_lanes-IsRing
      (record { offsets = omega arith; batches = omega arith; sequences = omega arith })
      (omega arith)

commit_reservation-Reserves_example : Reserves three_lanes 5 granted advanced
commit_reservation-Reserves_example =
    commit_reservation-Reserves three_lanes advanced proposal granted (omega arith) committed

commit_reservation_twice_example :
    commit_reservation advanced proposal ≡ (err reservation_proposal_changed, advanced)
commit_reservation_twice_example =
    commit_reservation_twice three_lanes advanced proposal granted three_lanes-IsRing (omega arith)
      committed

abbrev calls : List Call
calls = reserves 3 ∷ commits proposal ∷ reconfigures 2 (5 ∷ []) ∷ observes 9 ∷ reserves 1 ∷ []

run-Consecutive_example : Consecutive (run three_lanes calls).1 100 4 4 (run three_lanes calls).0
run-Consecutive_example =
    run-Consecutive three_lanes calls (omega arith, (omega arith, (tt, (tt, (omega arith, tt)))))

run_epochs_example : let t = (run three_lanes calls).1 in (2 ≤ t.leader_epoch) × (1 ≤ t.ring_epoch)
run_epochs_example =
    run_epochs three_lanes calls (omega arith, (omega arith, (tt, (tt, (omega arith, tt)))))

validate_virtual_lanes_iff_example :
    (validate_virtual_lanes (10 ∷ 11 ∷ 12 ∷ []) ≡ ok tt) ↔ IsRing (10 ∷ 11 ∷ 12 ∷ [])
validate_virtual_lanes_iff_example = validate_virtual_lanes_iff (10 ∷ 11 ∷ 12 ∷ [])

abbrev placed : PartitionAssignment
placed = record {
  topic_partition = record { topic_id = 7; partition_id = 1 };
  replicas = 4 ∷ 2 ∷ 9 ∷ [];
  leader = 2;
  preferred_follower = some 9;
  assignment_epoch = 1;
  leader_epoch = 1;
  ring_epoch = 1;
  virtual_lane_count = 3;
  min_in_sync_replicas = 2;
}

placed_run : validate placed ≡ ok tt
unfolding validate
placed_run = refl

validate_iff_example : (validate placed ≡ ok tt) ↔ IsAssignment placed
validate_iff_example = validate_iff placed
