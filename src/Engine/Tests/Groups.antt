-- ===== src/Engine/Tests/Groups.antt =====
-- Theorems on atomic groups, retention, policies and followers at concrete inputs.
use shard_stream.Prelude.{◌≡◌, ◌⊎◌, refl, some, none, [], ◌∷◌, arith, if◌then◌else◌, ◌==◌}
use shard_stream.Prelude.Results.{ok, err}
use shard_stream.Core.Model.{TopicPartition, reservation_eq}
use shard_stream.Core.Sequencer
use shard_stream.Core.Sequencer.{TopicSequencer}
use shard_stream.SegmentMap.Dense
use shard_stream.SegmentMap.Dense.{DenseOrderedMap}
use shard_stream.SegmentMap.Dense.Inv.{IsValid}
use shard_stream.Engine.Model.{
  group_unresolved, group_aborted, atomic_group_finalized, group_committed, AtomicGroupRuntime,
  BatchRuntime, unresolved, Journal, PartitionReplicationPolicy,
}
use shard_stream.Engine.Partition.{
  PartitionState, capacity, empty, reset_cached_watermarks_after_truncate,
}
use shard_stream.Engine.Batch.{append_batch_runtime}
use shard_stream.Engine.Group.{finalize_atomic_group}
use shard_stream.Engine.Group.Final.{Ends, finalize_atomic_group-Ends}
use shard_stream.Engine.Control.{truncate, update_replication_policy}
use shard_stream.Engine.Control.Policy.{Advances, update_replication_policy-Advances}
use shard_stream.Engine.Control.Retention.{Retains, truncate-Retains}
use shard_stream.Engine.Atomic.{reserved, register_atomic_chunk}
use shard_stream.Engine.Creation.{States, create_partition, create_partition_twice}
use shard_stream.Engine.Replica.{ReplicaBatch, reserve_replica}
use shard_stream.Engine.Replica.Exact.{reserve_replica-exact}
use shard_stream.Engine.Tests.{add_ids, fresh, first_two, two_replicas, done_batch, one_done}

-- A journal that takes every event.
abbrev synced : Journal
synced event = none

abbrev stream : TopicPartition
stream = record { topic_id = 7; partition_id = 1 }

-- One durable chunk of the open group 33.
abbrev open_chunk : DenseOrderedMap BatchRuntime
open_chunk = record {
  first_key = 0;
  next_key = 1;
  len = 1;
  segments =
      record {
        first_key = 0;
        values =
            record done_batch {
              status = unresolved;
              atomic_group = some (record { transaction_id = 33; chunk_sequence = 0 });
            }
            ∷ [];
      }
      ∷ [];
}

abbrev in_group : PartitionState
in_group = record fresh {
  batches = open_chunk;
  atomic_groups = λ x.
      if x == 33
      then some (record {
        state = group_unresolved;
        batch_ids = 0 ∷ [];
        next_sequence = 1;
        payload_bytes = 10;
        record_count = 2;
      })
      else none;
}

open_chunk-IsValid : IsValid capacity open_chunk
open_chunk-IsValid = omega arith

finalize_atomic_group-Ends_example :
    let t = (finalize_atomic_group in_group synced stream 33 group_committed).1 in
    (t ≡ in_group)
    ⊎ ((group : AtomicGroupRuntime) × (in_group.atomic_groups 33 ≡ some group)
        × Ends in_group synced stream 33 group_committed group.batch_ids t)
finalize_atomic_group-Ends_example =
    finalize_atomic_group-Ends in_group synced stream 33 group_committed open_chunk-IsValid

abbrev three_replicas : PartitionReplicationPolicy
three_replicas = record { policy_generation = 2; replication_factor = 3; min_in_sync_replicas = 1 }

update_replication_policy-Advances_example :
    let t = (update_replication_policy one_done synced stream 1 three_replicas).1 in
    (t ≡ record one_done { query_lineage = t.query_lineage })
    ⊎ Advances one_done synced stream 1 three_replicas t
update_replication_policy-Advances_example =
    update_replication_policy-Advances one_done synced stream 1 three_replicas

truncate-Retains_example :
    let t = (truncate one_done synced stream 2).1 in
    (t ≡ record one_done { query_lineage = t.query_lineage }) ⊎ Retains one_done synced stream 2 t
truncate-Retains_example = truncate-Retains one_done synced stream 2

abbrev copy : ReplicaBatch
copy = record {
  reservation = first_two;
  producer = none;
  atomic_group = none;
  payload_bytes = 10;
  payload_digest = 99;
}

abbrev copied : PartitionState
copied = (reserve_replica add_ids fresh copy).1

copied_run :
    reserve_replica add_ids fresh copy ≡ (ok (reserved first_two none two_replicas), copied)
unfolding reserve_replica empty Dense.get Sequencer.reserve append_batch_runtime Dense.push
copied_run = refl

unknown_batch : Dense.get capacity fresh.batches 0 ≡ none
unfolding empty Dense.get
unknown_batch = refl

reserve_replica-exact_example :
    Sequencer.reserve fresh.sequencer 2 ≡ (ok first_two, copied.sequencer)
reserve_replica-exact_example =
    reserve_replica-exact add_ids fresh copied copy (reserved first_two none two_replicas)
      unknown_batch copied_run

-- A chunk of an aborted group that the leader sends again.
abbrev sent_again : ReplicaBatch
sent_again = record copy {
  producer = done_batch.producer;
  atomic_group = some (record { transaction_id = 33; chunk_sequence = 0 });
}

abbrev ended : PartitionState
ended = (finalize_atomic_group in_group synced stream 33 group_aborted).1

abbrev revived : PartitionState
revived = (reserve_replica add_ids ended sent_again).1

-- The chunk is refused, but its batch is pending, below a watermark that a new walk would not reach.
revived_run :
    ((reserve_replica add_ids ended sent_again).0 ≡ err (atomic_group_finalized 33))
    × (revived.contiguous_log_end ≡ 2)
    × ((reset_cached_watermarks_after_truncate revived).contiguous_log_end ≡ 0)
unfolding reserve_replica finalize_atomic_group empty Dense.get Dense.update register_atomic_chunk
    reset_cached_watermarks_after_truncate reservation_eq
revived_run = (refl, refl, refl)

abbrev nowhere : States
nowhere tp = none

abbrev somewhere : States
somewhere = (create_partition nowhere synced stream (10 ∷ 11 ∷ []) two_replicas).1

created_run :
    create_partition nowhere synced stream (10 ∷ 11 ∷ []) two_replicas ≡ (ok tt, somewhere)
unfolding create_partition Sequencer.new
created_run = refl

create_partition_twice_example :
    create_partition somewhere synced stream (10 ∷ 11 ∷ []) two_replicas ≡ (ok tt, somewhere)
create_partition_twice_example =
    create_partition_twice nowhere somewhere synced stream (10 ∷ 11 ∷ []) two_replicas created_run
