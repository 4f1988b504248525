-- ===== src/Engine/Reach.antt =====
-- Everything a coordinator may do to a partition, in any order (coordinator.rs,
-- coordinator/proposal.rs). A follower's reservations are not among the steps.
use shard_stream.Prelude.{ℕ, ◌≡◌, refl, ◌⊎◌, ◌<◌, Bool, Option, some, arith}
use shard_stream.Core.Model.{Reservation, TopicPartition}
use shard_stream.Core.Sequencer.{TopicSequencer}
use shard_stream.SegmentMap.Dense
use shard_stream.SegmentMap.Dense.{values}
use shard_stream.Engine.Model.{
  AtomicGroupState, BatchRuntime, committed, aborted, Journal, PartitionReplicationPolicy,
  ProducerIdentity,
}
use shard_stream.Engine.Partition.{
  PartitionState, capacity, empty, VisibilityMode, ordered, replicated, wait_until_visible,
}
use shard_stream.Engine.Partition.Watermarks.{IsCurrent, empty-IsCurrent}
use shard_stream.Engine.Partition.Visible.{stable-settled}
use shard_stream.Engine.Partition.Order.{
  IsInOrder, core_of, same_core-IsInOrder, empty-IsInOrder, AreWithin-AreOrdered,
}
use shard_stream.Engine.Batch.{CompleteAppend, complete, fail, set_durable_replica_count}
use shard_stream.Engine.Batch.Order.{
  complete-IsInOrder, fail-IsInOrder, set_durable_replica_count-IsInOrder,
}
use shard_stream.Engine.Group.Order.{finalize_atomic_group-IsInOrder}
use shard_stream.Engine.Commit.Order.{commit_source-IsInOrder}
use shard_stream.Engine.Control.Order.{update_replication_policy-IsInOrder, truncate-IsInOrder}
use shard_stream.Engine.Batch.Settle.{
  complete-IsCurrent, fail-IsCurrent, set_durable_replica_count-IsCurrent, log_of,
  same_log-IsCurrent,
}
use shard_stream.Engine.Group.{finalize_atomic_group}
use shard_stream.Engine.Group.Current.{finalize_atomic_group-IsCurrent}
use shard_stream.Engine.Proposal.{PreparedAppend}
use shard_stream.Engine.Proposal.Control.{ControlState}
use shard_stream.Engine.Commit.{commit_source}
use shard_stream.Engine.Commit.Current.{commit_source-IsCurrent}
use shard_stream.Engine.Control.{update_replication_policy, truncate}
use shard_stream.Engine.Control.Policy.{update_replication_policy-IsCurrent}
use shard_stream.Engine.Control.Retention.{truncate-IsCurrent}

-- One request to the coordinator, granted or refused.
pub data Step (for_batch : ℕ → ℕ → ℕ → ℕ) : PartitionState → PartitionState → Type 0 where
  commits :
      (s : PartitionState) (p : PreparedAppend) (c : Option ControlState) (replica : Bool)
      → Step for_batch s (commit_source for_batch s p c replica).0.1
  completes : (s : PartitionState) (c : CompleteAppend) → Step for_batch s (complete s c).1
  fails :
      (s : PartitionState) (r : Reservation) (p : Option ProducerIdentity) (unwritten : Bool)
      → Step for_batch s (fail s r p unwritten).1
  counts :
      (s : PartitionState) (r : Reservation) (durable : ℕ)
      → Step for_batch s (set_durable_replica_count s r durable).1
  finalizes :
      (s : PartitionState) (journal : Journal) (tp : TopicPartition) (x : ℕ)
      (outcome : AtomicGroupState)
      → Step for_batch s (finalize_atomic_group s journal tp x outcome).1
  updates :
      (s : PartitionState) (journal : Journal) (tp : TopicPartition) (expected : ℕ)
      (policy : PartitionReplicationPolicy)
      → Step for_batch s (update_replication_policy s journal tp expected policy).1
  truncates :
      (s : PartitionState) (journal : Journal) (tp : TopicPartition) (log_start : ℕ)
      → Step for_batch s (truncate s journal tp log_start).1
  -- Another thread changes the lineage word between two requests.
  changes : (s : PartitionState) (word : ℕ) → Step for_batch s (record s { query_lineage = word })
  waits :
      (s : PartitionState) (through : ℕ) (mode : VisibilityMode) (response : ℕ)
      → Step for_batch s (wait_until_visible s through mode response)

-- The states that any number of requests may lead to.
pub data Reaches (for_batch : ℕ → ℕ → ℕ → ℕ) : PartitionState → PartitionState → Type 0 where
  start : (s : PartitionState) → Reaches for_batch s s
  step :
      (s t u : PartitionState) → Reaches for_batch s t → Step for_batch t u → Reaches for_batch s u

waited-log :
    (s : PartitionState) (through : ℕ) (mode : VisibilityMode) (response : ℕ)
    → log_of (wait_until_visible s through mode response) ≡ log_of s
unfolding wait_until_visible
waited-log s through ordered response = ground arith
waited-log s through replicated response = ground arith

Step-IsCurrent :
    (for_batch : ℕ → ℕ → ℕ → ℕ) (s t : PartitionState)
    → Step for_batch s t
    → IsCurrent s
    → IsCurrent t
Step-IsCurrent for_batch s _ (commits _ p c replica) i =
    commit_source-IsCurrent for_batch s p c replica i
Step-IsCurrent for_batch s _ (completes _ c) i = complete-IsCurrent s c i
Step-IsCurrent for_batch s _ (fails _ r p unwritten) i = fail-IsCurrent s r p unwritten i
Step-IsCurrent for_batch s _ (counts _ r durable) i =
    set_durable_replica_count-IsCurrent s r durable i
Step-IsCurrent for_batch s _ (finalizes _ journal tp x outcome) i =
    finalize_atomic_group-IsCurrent s journal tp x outcome i
Step-IsCurrent for_batch s _ (updates _ journal tp expected policy) i =
    update_replication_policy-IsCurrent s journal tp expected policy i
Step-IsCurrent for_batch s _ (truncates _ journal tp log_start) i =
    truncate-IsCurrent s journal tp log_start i
Step-IsCurrent for_batch s _ (changes _ word) i = same_log-IsCurrent s _ refl i
Step-IsCurrent for_batch s _ (waits _ through mode response) i =
    same_log-IsCurrent s _ (waited-log s through mode response) i

-- Whatever requests a new partition has served, its cached watermarks are those that a walk over all
-- its batches computes.
pub Reaches-IsCurrent :
    (for_batch : ℕ → ℕ → ℕ → ℕ) (s t : PartitionState)
    → Reaches for_batch s t
    → IsCurrent s
    → IsCurrent t
Reaches-IsCurrent for_batch s _ (start _) i = i
Reaches-IsCurrent for_batch s u (step _ t _ r h) i =
    Step-IsCurrent for_batch t u h (Reaches-IsCurrent for_batch s t r i)

-- The records of a reservation are counted by a `NonZeroU32`.
abbrev pub IsCounted :
    {for_batch : ℕ → ℕ → ℕ → ℕ} {s t : PartitionState} → Step for_batch s t → Type 0
IsCounted (commits s p c replica) = 0 < p.proposal.reservation.record_count
IsCounted (completes s c) = Unit {0}
IsCounted (fails s r p unwritten) = Unit {0}
IsCounted (counts s r durable) = Unit {0}
IsCounted (finalizes s journal tp x outcome) = Unit {0}
IsCounted (updates s journal tp expected policy) = Unit {0}
IsCounted (truncates s journal tp log_start) = Unit {0}
IsCounted (changes s word) = Unit {0}
IsCounted (waits s through mode response) = Unit {0}

abbrev pub AreCounted :
    {for_batch : ℕ → ℕ → ℕ → ℕ} {s t : PartitionState} → Reaches for_batch s t → Type 0
AreCounted (start s) = Unit {0}
AreCounted (step s t u r h) = AreCounted r × IsCounted h

waited-core :
    (s : PartitionState) (through : ℕ) (mode : VisibilityMode) (response : ℕ)
    → core_of (wait_until_visible s through mode response) ≡ core_of s
unfolding wait_until_visible
waited-core s through ordered response = ground arith
waited-core s through replicated response = ground arith

Step-IsInOrder :
    (for_batch : ℕ → ℕ → ℕ → ℕ) (s t : PartitionState) (h : Step for_batch s t)
    → IsCounted h
    → IsInOrder s
    → IsInOrder t
Step-IsInOrder for_batch s _ (commits _ p c replica) n o =
    commit_source-IsInOrder for_batch s p c replica n o
Step-IsInOrder for_batch s _ (completes _ c) n o = complete-IsInOrder s c o
Step-IsInOrder for_batch s _ (fails _ r p unwritten) n o = fail-IsInOrder s r p unwritten o
Step-IsInOrder for_batch s _ (counts _ r durable) n o =
    set_durable_replica_count-IsInOrder s r durable o
Step-IsInOrder for_batch s _ (finalizes _ journal tp x outcome) n o =
    finalize_atomic_group-IsInOrder s journal tp x outcome o
Step-IsInOrder for_batch s _ (updates _ journal tp expected policy) n o =
    update_replication_policy-IsInOrder s journal tp expected policy o
Step-IsInOrder for_batch s _ (truncates _ journal tp log_start) n o =
    truncate-IsInOrder s journal tp log_start o
Step-IsInOrder for_batch s _ (changes _ word) n o = same_core-IsInOrder s _ refl o
Step-IsInOrder for_batch s _ (waits _ through mode response) n o =
    same_core-IsInOrder s _ (waited-core s through mode response) o

-- Whatever requests a partition has served, its batches stay in the order of their offsets, between
-- the log start and the next offset of the sequencer.
pub Reaches-IsInOrder :
    (for_batch : ℕ → ℕ → ℕ → ℕ) (s t : PartitionState) (r : Reaches for_batch s t)
    → AreCounted r
    → IsInOrder s
    → IsInOrder t
Reaches-IsInOrder for_batch s _ (start _) n o = o
Reaches-IsInOrder for_batch s u (step _ t _ r h) n o =
    Step-IsInOrder for_batch t u h n.1 (Reaches-IsInOrder for_batch s t r n.0 o)

-- No request order exposes an unfinished batch: in a partition that any requests led to, each commit of
-- which has a record, every batch that begins below the stable offset is committed or aborted, and
-- ends below it.
pub Reaches-settled :
    (for_batch : ℕ → ℕ → ℕ → ℕ) (q : TopicSequencer) (policy : PartitionReplicationPolicy)
    (t : PartitionState) (key : ℕ) (b : BatchRuntime) (r : Reaches for_batch (empty q policy) t)
    → AreCounted r
    → Dense.get capacity t.batches key ≡ some b
    → b.reservation.first_offset < t.last_stable_offset
    → ((b.status ≡ committed) ⊎ (b.status ≡ aborted))
      × (b.reservation.last_offset < t.last_stable_offset)
Reaches-settled for_batch q policy t key b r n found below =
    let in_order = Reaches-IsInOrder for_batch (empty q policy) t r n (empty-IsInOrder q policy) in
    stable-settled t key b
      (Reaches-IsCurrent for_batch (empty q policy) t r (empty-IsCurrent q policy))
      (AreWithin-AreOrdered t.log_start (values t.batches) t.sequencer.next_offset in_order.within)
      found below
