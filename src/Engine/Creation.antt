-- ===== src/Engine/Creation.antt =====
-- crates/shard-stream-engine/src/coordinator.rs: the creation of a partition, which may be repeated.
use shard_stream.Prelude.{
  ◌==◌, ◌≡◌, refl, ap, sym, ◌∙◌, Bool, true, false, ◌&&◌, Option, none, some, List, [], ◌∷◌,
  if◌then◌else◌, arith, ==_refl, Bool-cases, inl, inr,
}
use shard_stream.Prelude.Maps.{insert}
use shard_stream.Prelude.Results.{Result, ok, err, panic}
use shard_stream.Core.Model.{TopicPartition, VirtualLaneId}
use shard_stream.Core.Sequencer
use shard_stream.Core.Sequencer.{TopicSequencer, SequencerError, validate_virtual_lanes}
use shard_stream.Engine.Model.{
  EngineError, topic_already_exists, sequencer_error, PartitionReplicationPolicy, policy_eq,
  Journal, create_partition_event,
}
use shard_stream.Core.Sequencer.Lanes.{new_ring}
use shard_stream.Engine.Partition.{PartitionState, empty}

abbrev pub topic_partition_eq : TopicPartition → TopicPartition → Bool
topic_partition_eq a b = a.topic_id == b.topic_id && a.partition_id == b.partition_id

abbrev pub lanes_eq : List VirtualLaneId → List VirtualLaneId → Bool
lanes_eq [] [] = true
lanes_eq [] (y ∷ ys) = false
lanes_eq (x ∷ xs) [] = false
lanes_eq (x ∷ xs) (y ∷ ys) = x == y && lanes_eq xs ys

abbrev pub States : Type 0
States = TopicPartition → Option PartitionState

-- An existing partition that is the one asked for.
pub is_same : PartitionState → List VirtualLaneId → PartitionReplicationPolicy → Bool
is_same existing shards policy =
    existing.sequencer.ring_epoch == 1
    && lanes_eq existing.sequencer.virtual_lanes shards
    && policy_eq existing.replication_policy policy

-- The journal's answer for a new partition.
pub create_synced :
    States
    → TopicPartition
    → PartitionReplicationPolicy
    → TopicSequencer
    → Option EngineError
    → Result EngineError (Unit {0}) × States
create_synced states tp policy sequencer (some e) = (err e, states)
create_synced states tp policy sequencer none =
    (ok tt, insert topic_partition_eq states tp (empty sequencer policy))

pub create_new :
    States
    → Journal
    → TopicPartition
    → List VirtualLaneId
    → PartitionReplicationPolicy
    → Result SequencerError TopicSequencer
    → Result EngineError (Unit {0}) × States
unfolding create_synced
create_new states journal tp shards policy (ok sequencer) =
    create_synced states tp policy sequencer (journal (create_partition_event tp 1 shards policy))
create_new states journal tp shards policy (err e) = (err (sequencer_error e), states)
create_new states journal tp shards policy panic = (panic, states)

-- What is known of the partition decides.
pub create_found :
    States
    → Journal
    → TopicPartition
    → List VirtualLaneId
    → PartitionReplicationPolicy
    → Option PartitionState
    → Result EngineError (Unit {0}) × States
unfolding is_same create_new
create_found states journal tp shards policy (some existing) =
    if is_same existing shards policy
    then (ok tt, states)
    else (err (topic_already_exists tp.topic_id), states)
create_found states journal tp shards policy none =
    create_new states journal tp shards policy (Sequencer.new tp.topic_id tp.partition_id 1 shards)

unfoldable pub create_partition :
    States
    → Journal
    → TopicPartition
    → List VirtualLaneId
    → PartitionReplicationPolicy
    → Result EngineError (Unit {0}) × States
unfolding create_found
create_partition states journal tp shards policy =
    create_found states journal tp shards policy (states tp)

lanes_eq_refl : (lanes : List VirtualLaneId) → lanes_eq lanes lanes ≡ true
lanes_eq_refl [] = refl
lanes_eq_refl (x ∷ xs) = ground (arith, lanes_eq_refl xs)

-- A partition that is the one asked for.
record Created (t : States) (tp : TopicPartition) (shards : List VirtualLaneId)
    (policy : PartitionReplicationPolicy) : Type 0 where
  existing : PartitionState
  found : t tp ≡ some existing
  same : is_same existing shards policy ≡ true

synced-Created :
    (states t : States) (tp : TopicPartition) (shards : List VirtualLaneId)
    (policy : PartitionReplicationPolicy) (q : TopicSequencer) (answer : Option EngineError)
    → q.ring_epoch ≡ 1
    → q.virtual_lanes ≡ shards
    → create_synced states tp policy q answer ≡ (ok tt, t)
    → Created t tp shards policy
unfolding create_synced is_same empty
synced-Created states t tp shards policy q (some e) ring lanes h =
    absurd (ground (arith, ap (λ x. x.0) h))
synced-Created states t tp shards policy q none ring lanes h = record {
  existing = empty q policy;
  found = sym (ap (λ x. x.1 tp) h) ∙ found_in;
  same = ground (arith, ring, lanes, lanes_eq_refl shards);
}
  where
    found_in : insert topic_partition_eq states tp (empty q policy) tp ≡ some (empty q policy)
    found_in = rw (==_refl tp.topic_id, ==_refl tp.partition_id, insert) refl

new-Created :
    (states t : States) (journal : Journal) (tp : TopicPartition) (shards : List VirtualLaneId)
    (policy : PartitionReplicationPolicy) (made : Result SequencerError TopicSequencer)
    → Sequencer.new tp.topic_id tp.partition_id 1 shards ≡ made
    → create_new states journal tp shards policy made ≡ (ok tt, t)
    → Created t tp shards policy
unfolding create_new
new-Created states t journal tp shards policy (ok q) e h =
    let (ring, lanes) = new_ring tp.topic_id tp.partition_id 1 shards q e in
    synced-Created states t tp shards policy q _ ring lanes h
new-Created states t journal tp shards policy (err x) e h = absurd (ground (arith, ap (λ x. x.0) h))
new-Created states t journal tp shards policy panic e h = absurd (ground (arith, ap (λ x. x.0) h))

create_partition-Created :
    (states t : States) (journal : Journal) (tp : TopicPartition) (shards : List VirtualLaneId)
    (policy : PartitionReplicationPolicy) (found : Option PartitionState)
    → states tp ≡ found
    → create_partition states journal tp shards policy ≡ (ok tt, t)
    → Created t tp shards policy
unfolding create_partition
create_partition-Created states t journal tp shards policy none e h =
    new-Created states t journal tp shards policy _ refl
      (sym (ap (create_found states journal tp shards policy) e) ∙ h)
create_partition-Created states t journal tp shards policy (some existing) e h =
    let was = sym (ap (create_found states journal tp shards policy) e) ∙ h in
    elim (Bool-cases (is_same existing shards policy)) [
      | inl same ↦ record {
        existing = existing;
        found = ground (arith, same, e, ap (λ x. x.1 tp) was);
        same = same;
      }
      | inr other ↦ absurd (ground (arith, other, ap (λ x. x.0) was))
    ]

-- A creation that succeeded may be repeated: it succeeds again, and changes nothing.
pub create_partition_twice :
    (states t : States) (journal : Journal) (tp : TopicPartition) (shards : List VirtualLaneId)
    (policy : PartitionReplicationPolicy)
    → create_partition states journal tp shards policy ≡ (ok tt, t)
    → create_partition t journal tp shards policy ≡ (ok tt, t)
unfolding create_partition
create_partition_twice states t journal tp shards policy h =
    let c = create_partition-Created states t journal tp shards policy _ refl h in
    rw (c.found, create_found)
      (ap (λ b. if b then (ok tt, t) else (err (topic_already_exists tp.topic_id), t)) c.same)
