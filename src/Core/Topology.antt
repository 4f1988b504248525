-- ===== src/Core/Topology.antt =====
-- crates/shard-stream-core/src/topology.rs: the placement of a partition, and the check of one. An
-- error, a text in the source, is one constructor for each text.
pub mod Accepts
use shard_stream.Prelude.{
  ℕ, zero, suc, ◌+◌, ◌≤◌, ◌<◌, ◌≡◌, ◌≢◌, ◌↔◌, refl, ap, sym, ◌∙◌, subst, Bool, true, false, not,
  ◌||◌, Option, none, some, List, [], ◌∷◌, ltb, leb, ◌==◌, if◌then◌else◌, length, arith, Bool-cases,
  inl, inr, leb→le, leb→lt,
}
use shard_stream.Prelude.Results.{Result, ok, err, panic, ◌>>=◌, ◌>>◌, guard}
use shard_stream.Core.Model.{TopicPartition, RingEpoch, LeaderEpoch, VirtualLaneId}
use shard_stream.Core.Sequencer.{contains}

abbrev pub BrokerId : Type 0
BrokerId = ℕ

pub record PartitionAssignment : Type 0 where
  pub topic_partition : TopicPartition
  pub replicas : List BrokerId
  pub leader : BrokerId
  pub preferred_follower : Option BrokerId
  pub assignment_epoch : ℕ
  pub leader_epoch : LeaderEpoch
  pub ring_epoch : RingEpoch
  pub virtual_lane_count : ℕ
  pub min_in_sync_replicas : ℕ

pub data AssignmentError : Type 0 where
  no_replica no_virtual_lane bad_minimum leader_not_replica : AssignmentError
  bad_preferred_follower duplicate_replicas : AssignmentError

-- `sort_unstable` on numbers, where any sorting gives the same list.
pub insert_sorted : ℕ → List ℕ → List ℕ
insert_sorted x [] = x ∷ []
insert_sorted x (y ∷ ys) = if leb x y then x ∷ y ∷ ys else y ∷ insert_sorted x ys

pub sort_unstable : List ℕ → List ℕ
unfolding insert_sorted
sort_unstable [] = []
sort_unstable (x ∷ xs) = insert_sorted x (sort_unstable xs)

-- `dedup` after a first entry: of equal neighbours one stays.
pub dedup_from : ℕ → List ℕ → List ℕ
dedup_from x [] = x ∷ []
dedup_from x (y ∷ ys) = if x == y then dedup_from x ys else x ∷ dedup_from y ys

pub dedup : List ℕ → List ℕ
unfolding dedup_from
dedup [] = []
dedup (x ∷ xs) = dedup_from x xs

-- The test on the preferred follower.
pub is_bad_follower : PartitionAssignment → Option BrokerId → Bool
is_bad_follower a none = false
is_bad_follower a (some broker) = broker == a.leader || not (contains a.replicas broker)

unfoldable pub validate : PartitionAssignment → Result AssignmentError (Unit {0})
unfolding is_bad_follower sort_unstable dedup contains
validate a =
    if length a.replicas == 0
    then err no_replica
    else if a.virtual_lane_count == 0
    then err no_virtual_lane
    else if a.min_in_sync_replicas == 0 || ltb (length a.replicas) a.min_in_sync_replicas
    then err bad_minimum
    else if not (contains a.replicas a.leader)
    then err leader_not_replica
    else if is_bad_follower a a.preferred_follower
    then err bad_preferred_follower
    else if not (length (dedup (sort_unstable a.replicas)) == length a.replicas)
    then err duplicate_replicas
    else ok tt

-- `(first..first + n)`
pub range_from : (first n : ℕ) → List VirtualLaneId
range_from first zero = []
range_from first (suc n) = first ∷ range_from (suc first) n

unfoldable pub virtual_lanes : PartitionAssignment → List VirtualLaneId
unfolding range_from
virtual_lanes a = range_from 0 a.virtual_lane_count
