-- ===== src/Core/Model.antt =====
-- crates/shardlog/src/model.rs: identifiers and reservations. An identifier is the number it wraps.
use shard_stream.Prelude.{ℕ, ◌≡◌, ◌↔◌, Bool, true, ◌&&◌, ◌==◌, arith}

abbrev pub TopicId : Type 0
TopicId = ℕ

abbrev pub LogicalPartitionId : Type 0
LogicalPartitionId = ℕ

abbrev pub VirtualLaneId : Type 0
VirtualLaneId = ℕ

abbrev pub RingEpoch : Type 0
RingEpoch = ℕ

abbrev pub LeaderEpoch : Type 0
LeaderEpoch = ℕ

abbrev pub BatchId : Type 0
BatchId = ℕ

abbrev pub LogicalOffset : Type 0
LogicalOffset = ℕ

abbrev pub PlacementSequence : Type 0
PlacementSequence = ℕ

abbrev pub RecordId : Type 0
RecordId = ℕ

pub record TopicPartition : Type 0 where
  pub topic_id : TopicId
  pub partition_id : LogicalPartitionId

pub record Placement : Type 0 where
  pub virtual_lane_id : VirtualLaneId
  pub ring_epoch : RingEpoch
  pub leader_epoch : LeaderEpoch
  pub sequence : PlacementSequence

-- `record_count` is a NonZeroU32.
pub record Reservation : Type 0 where
  pub topic_id : TopicId
  pub partition_id : LogicalPartitionId
  pub batch_id : BatchId
  pub first_offset : LogicalOffset
  pub last_offset : LogicalOffset
  pub record_count : ℕ
  pub placement : Placement

-- The derived equalities.
pub placement_eq : Placement → Placement → Bool
placement_eq p q =
    p.virtual_lane_id == q.virtual_lane_id
    && p.ring_epoch == q.ring_epoch
    && p.leader_epoch == q.leader_epoch
    && p.sequence == q.sequence

unfoldable pub reservation_eq : Reservation → Reservation → Bool
unfolding placement_eq
reservation_eq r s =
    r.topic_id == s.topic_id
    && r.partition_id == s.partition_id
    && r.batch_id == s.batch_id
    && r.first_offset == s.first_offset
    && r.last_offset == s.last_offset
    && r.record_count == s.record_count
    && placement_eq r.placement s.placement

placement_eq_iff : (p q : Placement) → (placement_eq p q ≡ true) ↔ (p ≡ q)
unfolding placement_eq
placement_eq_iff p q = ground arith

pub reservation_eq_iff : (r s : Reservation) → (reservation_eq r s ≡ true) ↔ (r ≡ s)
unfolding reservation_eq
reservation_eq_iff r s = ground (arith, placement_eq_iff r.placement s.placement)
