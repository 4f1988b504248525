-- ===== src/Engine/Tests.antt =====
-- Runs of the coordinator of crates/shard-stream-engine, and its theorems at concrete inputs.
mod Followers
mod Groups
mod Parts
use shard_stream.Prelude.{
  ℕ, ◌+◌, ◌<◌, ◌≤◌, ◌≡◌, ◌≢◌, ◌⊎◌, ◌↔◌, inl, inr, refl, Bool, true, false, Option, some, none, List,
  [], ◌∷◌, ◌++◌, arith, min,
}
use shard_stream.Prelude.Results.{Result, ok, err, panic}
use shard_stream.Core.Model.{Reservation, TopicPartition}
use shard_stream.Core.Sequencer
use shard_stream.Core.Sequencer.{TopicSequencer, ReservationProposal, reservation_proposal_changed}
use shard_stream.SegmentMap.Dense
use shard_stream.SegmentMap.Dense.{values}
use shard_stream.Engine.Model.{
  EngineError, producer_sequence_out_of_order, fenced, sequencer_error, ProducerIdentity,
  ProducerCursor, PartitionReplicationPolicy, BatchRuntime, BatchStatus, pending, committed,
  unresolved, aborted, AppendResponse, Journal,
}
use shard_stream.Engine.Outcome.{append_response}
use shard_stream.Engine.Partition.{
  PartitionState, capacity, empty, advance_cached_watermarks, wait_until_visible, ordered,
}
use shard_stream.Engine.Partition.Watermarks.{IsCurrent, empty-IsCurrent}
use shard_stream.Engine.Partition.Walk.{
  AreRising, AreOrdered, AreConsecutive, AreConsecutive-AreOrdered,
}
use shard_stream.Engine.Partition.Visible.{watermarks_ordered, replicated-durable, stable-stopped}
use shard_stream.Engine.Partition.Waiting.{
  AreWaiting, asked, advance_cached_watermarks-AreWaiting, wait_until_visible-AreWaiting,
  advance_cached_watermarks-asked,
}
use shard_stream.Engine.Producer.{check_producer, advance_producer}
use shard_stream.Engine.Producer.Accepts.{Expects, check_producer_iff, advance_producer-Expects}
use shard_stream.Engine.Batch.{CompleteAppend, complete, mark_batch, finish_query_lineage_batch}
use shard_stream.Engine.Batch.Receipt.{complete-receipt}
use shard_stream.Engine.Proposal.{
  AppendIntent, PreparedAppend, prepared_new, prepare, prepare_new, find_duplicate,
}
use shard_stream.Engine.Proposal.Control.{
  ControlState, control_pending, control_cancelled, control_committing, await_commit, begin_commit,
  unallocated, timed_out, Returned, returned_error, received, Received, await_commit-unallocated,
}
use shard_stream.Engine.Commit.{commit_source}
use shard_stream.Engine.Commit.Refused.{Untouched, commit_source-refused}
use shard_stream.Engine.Commit.Exact.{Enters, commit_source-Enters}
use shard_stream.Engine.Reach.{
  Reaches, AreCounted, start, step, Step, commits, completes, Reaches-IsCurrent, Reaches-settled,
}

abbrev pub add_ids : ℕ → ℕ → ℕ → ℕ
add_ids topic partition batch = topic + partition + batch

abbrev pub queue : TopicSequencer
queue = record {
  topic_id = 7;
  partition_id = 1;
  ring_epoch = 1;
  leader_epoch = 0;
  virtual_lanes = 10 ∷ 11 ∷ [];
  next_batch_id = 0;
  next_offset = 0;
  next_placement_sequence = 0;
}

abbrev pub two_replicas : PartitionReplicationPolicy
two_replicas = record { policy_generation = 1; replication_factor = 2; min_in_sync_replicas = 1 }

abbrev pub fresh : PartitionState
fresh = empty queue two_replicas

abbrev pub writer : ProducerIdentity
writer = record { producer_id = 22; epoch = 1; first_sequence = 0; event_id = some 5 }

abbrev pub intent : AppendIntent
intent = record {
  topic_partition = record { topic_id = 7; partition_id = 1 };
  request_id = 100;
  producer = some writer;
  atomic_group = none;
  record_count = 2;
  payload_bytes = 10;
  payload_digest = 99;
  admitted_leader_epoch = none;
}

abbrev pub first_two : Reservation
first_two = record {
  topic_id = 7;
  partition_id = 1;
  batch_id = 0;
  first_offset = 0;
  last_offset = 1;
  record_count = 2;
  placement = record { virtual_lane_id = 10; ring_epoch = 1; leader_epoch = 0; sequence = 0 };
}

abbrev pub prepared : PreparedAppend
prepared = record {
  intent = intent;
  proposal = record { reservation = first_two; previous_leader_epoch = 0 };
  replication_policy = two_replicas;
  producer_before = none;
  producer_after = some (record { epoch = 1; next_sequence = 2; failed = false });
  atomic_before = none;
  atomic_after = none;
  dense_next_key = 0;
  dense_len = 0;
}

pub prepare_run : prepare add_ids fresh intent ≡ ok (prepared_new prepared)
unfolding prepare prepare_new find_duplicate empty check_producer Sequencer.propose_reservation
prepare_run = refl

pub fresh-IsCurrent : IsCurrent fresh
fresh-IsCurrent = empty-IsCurrent queue two_replicas

commit_source-Enters_example :
    Enters fresh prepared (commit_source add_ids fresh prepared (some control_pending) false).0
commit_source-Enters_example =
    commit_source-Enters add_ids fresh intent prepared (some control_pending) false
      fresh-IsCurrent.valid (omega arith) prepare_run refl

abbrev pub one_pending : PartitionState
one_pending = (commit_source add_ids fresh prepared none false).0.1

-- The producer has moved on.
again_refused :
    commit_source add_ids one_pending prepared none false
    ≡ ((err (producer_sequence_out_of_order 22 2 0), one_pending), none)
unfolding commit_source prepare prepare_new find_duplicate empty check_producer
    Sequencer.propose_reservation Sequencer.commit_reservation Dense.push
    Sequencer.changes_leader_epoch
again_refused = refl

commit_source-refused_example : Untouched one_pending one_pending
commit_source-refused_example =
    commit_source-refused add_ids one_pending one_pending prepared none none false
      (producer_sequence_out_of_order 22 2 0) again_refused

abbrev pub completion : CompleteAppend
completion = record {
  reservation = first_two;
  producer = some writer;
  payload_digest = 99;
  durable_replicas = 1;
  object_durable = false;
  response = append_response add_ids 100 first_two;
}

abbrev pub one_done : PartitionState
one_done = (complete one_pending completion).1

abbrev pub answer : AppendResponse
answer = record {
  request_id = 100;
  batch_id = 0;
  record_id = 8;
  first_offset = 0;
  last_offset = 1;
  visible_through = 2;
  placement = record { virtual_lane_id = 10; ring_epoch = 1; leader_epoch = 0; sequence = 0 };
}

complete_run : complete one_pending completion ≡ (ok answer, one_done)
unfolding commit_source prepare prepare_new find_duplicate empty check_producer
    Sequencer.propose_reservation Sequencer.commit_reservation complete mark_batch Dense.get
    Dense.push Sequencer.changes_leader_epoch advance_cached_watermarks Dense.update
    finish_query_lineage_batch
complete_run = refl

abbrev pub done_batch : BatchRuntime
done_batch = record {
  reservation = first_two;
  status = committed;
  durable_replicas = 1;
  replica_acks = 1;
  producer = some writer;
  atomic_group = none;
  payload_digest = some 99;
  payload_bytes = 10;
  object_durable = false;
  query_lineage_active = false;
}

done_found : Dense.get capacity one_done.batches 0 ≡ some done_batch
unfolding commit_source prepare prepare_new find_duplicate empty check_producer
    Sequencer.propose_reservation Sequencer.commit_reservation complete mark_batch Dense.get
    Dense.push Sequencer.changes_leader_epoch advance_cached_watermarks Dense.update
    finish_query_lineage_batch
done_found = refl

done_visible : 0 < one_done.last_stable_offset
unfolding commit_source prepare prepare_new find_duplicate empty check_producer
    Sequencer.propose_reservation Sequencer.commit_reservation complete mark_batch Dense.get
    Dense.push Sequencer.changes_leader_epoch advance_cached_watermarks Dense.update
    finish_query_lineage_batch
done_visible = omega arith

done_reached : Reaches add_ids fresh one_done
done_reached =
    step fresh one_pending one_done
      (step fresh fresh one_pending (start fresh) (commits fresh prepared none false))
      (completes one_pending completion)

Reaches-IsCurrent_example : IsCurrent one_done
Reaches-IsCurrent_example = Reaches-IsCurrent add_ids fresh one_done done_reached fresh-IsCurrent

done_AreConsecutive : AreConsecutive 0 (values one_done.batches)
unfolding commit_source prepare prepare_new find_duplicate empty check_producer
    Sequencer.propose_reservation Sequencer.commit_reservation complete mark_batch Dense.get
    Dense.push Sequencer.changes_leader_epoch advance_cached_watermarks Dense.update
    finish_query_lineage_batch
done_AreConsecutive = (refl, omega arith, tt)

done_AreOrdered : AreOrdered one_done.log_start (values one_done.batches)
unfolding commit_source prepare prepare_new find_duplicate empty check_producer
    Sequencer.propose_reservation Sequencer.commit_reservation complete mark_batch Dense.get
    Dense.push Sequencer.changes_leader_epoch advance_cached_watermarks Dense.update
    finish_query_lineage_batch
done_AreOrdered = AreConsecutive-AreOrdered 0 (values one_done.batches) done_AreConsecutive

done_AreCounted : AreCounted done_reached
unfolding prepare prepare_new find_duplicate empty check_producer Sequencer.propose_reservation
    done_reached
done_AreCounted = ((tt, omega arith), tt)

Reaches-settled_example :
    ((done_batch.status ≡ committed) ⊎ (done_batch.status ≡ aborted))
    × (done_batch.reservation.last_offset < one_done.last_stable_offset)
Reaches-settled_example =
    Reaches-settled add_ids queue two_replicas one_done 0 done_batch done_reached done_AreCounted
      done_found done_visible

done_IsCurrent : IsCurrent one_done
done_IsCurrent = Reaches-IsCurrent add_ids fresh one_done done_reached fresh-IsCurrent

done_AreRising : AreRising (values one_done.batches)
unfolding commit_source prepare prepare_new find_duplicate empty check_producer
    Sequencer.propose_reservation Sequencer.commit_reservation complete mark_batch Dense.get
    Dense.push Sequencer.changes_leader_epoch advance_cached_watermarks Dense.update
    finish_query_lineage_batch
done_AreRising = (omega arith, tt)

watermarks_ordered_example :
    (one_done.log_start ≤ one_done.last_stable_offset)
    × (one_done.last_stable_offset ≤ one_done.contiguous_log_end)
    × (one_done.log_start ≤ one_done.replicated_high_watermark)
    × (one_done.replicated_high_watermark ≤ one_done.contiguous_log_end)
watermarks_ordered_example = watermarks_ordered one_done done_IsCurrent done_AreRising

done_replicated : 0 < one_done.replicated_high_watermark
unfolding commit_source prepare prepare_new find_duplicate empty check_producer
    Sequencer.propose_reservation Sequencer.commit_reservation complete mark_batch Dense.get
    Dense.push Sequencer.changes_leader_epoch advance_cached_watermarks Dense.update
    finish_query_lineage_batch
done_replicated = omega arith

replicated-durable_example :
    ((done_batch.status ≡ aborted)
      ⊎ ((done_batch.status ≢ pending)
          × (one_done.replication_policy.min_in_sync_replicas ≤ done_batch.durable_replicas)))
    × (done_batch.reservation.last_offset < one_done.replicated_high_watermark)
replicated-durable_example =
    replicated-durable one_done 0 done_batch done_IsCurrent done_AreOrdered done_found
      done_replicated

abbrev pub moved_on : ProducerCursor
moved_on = record { epoch = 1; next_sequence = 2; failed = false }

done_producer : one_done.producers 22 ≡ some moved_on
unfolding commit_source prepare prepare_new find_duplicate empty check_producer
    Sequencer.propose_reservation Sequencer.commit_reservation complete mark_batch Dense.get
    Dense.push Sequencer.changes_leader_epoch advance_cached_watermarks Dense.update
    finish_query_lineage_batch
done_producer = refl

complete-receipt_example :
    (durable : ℕ) × (check_producer one_done 101 (some writer) 2 99
      ≡ ok (some (record answer { request_id = 101 }, durable, false)))
complete-receipt_example =
    complete-receipt one_pending one_done completion writer answer moved_on 101 refl complete_run
      done_producer refl

pending_IsCurrent : IsCurrent one_pending
pending_IsCurrent =
    Reaches-IsCurrent add_ids fresh one_pending
      (step fresh fresh one_pending (start fresh) (commits fresh prepared none false))
      fresh-IsCurrent

abbrev pub pending_batch : BatchRuntime
pending_batch = record done_batch { status = pending; durable_replicas = 0; replica_acks = 0 }

pending_found :
    (Dense.get capacity one_pending.batches 0 ≡ some pending_batch)
    × AreConsecutive one_pending.log_start (values one_pending.batches)
    × (pending_batch.reservation.first_offset ≤ one_pending.last_stable_offset)
    × (one_pending.last_stable_offset ≤ pending_batch.reservation.last_offset)
unfolding commit_source prepare prepare_new find_duplicate empty check_producer
    Sequencer.propose_reservation Sequencer.commit_reservation complete mark_batch Dense.get
    Dense.push Sequencer.changes_leader_epoch advance_cached_watermarks Dense.update
    finish_query_lineage_batch
pending_found = (refl, (refl, omega arith, tt), omega arith, omega arith)

stable-stopped_example :
    (pending_batch.reservation.first_offset ≡ one_pending.last_stable_offset)
    × ((pending_batch.status ≡ pending) ⊎ (pending_batch.status ≡ unresolved))
stable-stopped_example =
    let (found, consecutive, begins, ends) = pending_found in
    stable-stopped one_pending 0 pending_batch pending_IsCurrent consecutive found begins ends
