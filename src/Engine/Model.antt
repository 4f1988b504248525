-- ===== src/Engine/Model.antt =====
-- The data of crates/shard-stream-engine (error.rs, config.rs, engine.rs, coordinator.rs), with the
-- identities of crates/shard-stream-protocol and the journal events that it writes. A message
-- text is left out; a digest of sixteen bytes is one number.
use shard_stream.Prelude.{ℕ, Bool, true, false, ◌&&◌, ◌==◌, Option, List}
use shard_stream.Prelude.Maps.{option_eq}
use shard_stream.Core.Model.{
  TopicPartition, Placement, Reservation, BatchId, RecordId, LogicalOffset, TopicId, RingEpoch,
  VirtualLaneId, PlacementSequence,
}
use shard_stream.Core.Sequencer.{SequencerError}

pub data EngineError : Type 0 where
  invalid_config operation_busy : EngineError
  topic_already_exists : TopicId → EngineError
  unknown_partition : TopicPartition → EngineError
  unknown_shard : VirtualLaneId → EngineError
  admission_limited worker_stopped unsupported_durability : EngineError
  durability_unavailable : (required durable : ℕ) → EngineError
  replica_reorder_limited replica_buffer_limited : EngineError
  replica_in_flight : BatchId → EngineError
  object_durability_unavailable durable_sink_unavailable durable_sink_checkpoint : EngineError
  fenced : EngineError
  offset_out_of_range : (requested log_start : LogicalOffset) → EngineError
  retention_pinned : (requested pinned_at : LogicalOffset) → EngineError
  stale_producer_epoch : (producer current received : ℕ) → EngineError
  producer_sequence_out_of_order : (producer expected received : ℕ) → EngineError
  producer_requires_new_epoch : ℕ → EngineError
  duplicate_sequence_mismatch : ℕ → EngineError
  unknown_atomic_group : ℕ → EngineError
  atomic_group_finalized : ℕ → EngineError
  atomic_group_sequence_out_of_order : (transaction expected received : ℕ) → EngineError
  atomic_group_chunk_mismatch : ℕ → EngineError
  corrupt_state : EngineError
  sequencer_error : SequencerError → EngineError
  storage_error : EngineError

pub record ProducerIdentity : Type 0 where
  pub producer_id : ℕ
  pub epoch : ℕ
  pub first_sequence : ℕ
  pub event_id : Option RecordId

pub record AtomicGroupIdentity : Type 0 where
  pub transaction_id : ℕ
  pub chunk_sequence : ℕ

pub record AppendResponse : Type 0 where
  pub request_id : ℕ
  pub batch_id : BatchId
  pub record_id : RecordId
  pub first_offset : LogicalOffset
  pub last_offset : LogicalOffset
  pub visible_through : LogicalOffset
  pub placement : Placement

pub record PartitionReplicationPolicy : Type 0 where
  pub policy_generation : ℕ
  pub replication_factor : ℕ
  pub min_in_sync_replicas : ℕ

pub data BatchStatus : Type 0 where
  pending committed unresolved aborted : BatchStatus

pub data AtomicGroupState : Type 0 where
  group_unresolved group_committed group_aborted : AtomicGroupState

pub record BatchRuntime : Type 0 where
  pub reservation : Reservation
  pub status : BatchStatus
  pub durable_replicas : ℕ
  pub replica_acks : ℕ
  pub producer : Option ProducerIdentity
  pub atomic_group : Option AtomicGroupIdentity
  pub payload_digest : Option ℕ
  pub payload_bytes : ℕ
  pub object_durable : Bool
  pub query_lineage_active : Bool

pub record AtomicGroupRuntime : Type 0 where
  pub state : AtomicGroupState
  pub batch_ids : List ℕ
  pub next_sequence : ℕ
  pub payload_bytes : ℕ
  pub record_count : ℕ

pub record AtomicGroupInspection : Type 0 where
  pub transaction_id : ℕ
  pub state : AtomicGroupState
  pub chunk_count : ℕ
  pub record_count : ℕ
  pub payload_bytes : ℕ
  pub first_offset : LogicalOffset
  pub last_offset : LogicalOffset

pub record ProducerCursor : Type 0 where
  pub epoch : ℕ
  pub next_sequence : ℕ
  pub failed : Bool

pub record DedupRecord : Type 0 where
  pub digest_algorithm : ℕ
  pub payload_digest : ℕ
  pub event_id : Option RecordId
  pub record_count : ℕ
  pub durable_replicas : ℕ
  pub object_durable : Bool
  pub response : AppendResponse

-- The key (producer, epoch, first sequence) of a deduplication record.
pub record DedupKey : Type 0 where
  pub producer_id : ℕ
  pub epoch : ℕ
  pub first_sequence : ℕ

pub data JournalEvent : Type 0 where
  create_partition_event :
      TopicPartition → RingEpoch → List VirtualLaneId → PartitionReplicationPolicy → JournalEvent
  update_replication_policy_event :
      TopicPartition → (expected : ℕ) → PartitionReplicationPolicy → JournalEvent
  truncate_checkpoint :
      TopicPartition
      → (log_start : LogicalOffset) → (next_batch : BatchId) → (next_offset : LogicalOffset)
      → (next_placement : PlacementSequence) → JournalEvent
  group_commit : TopicPartition → ℕ → JournalEvent
  group_abort : TopicPartition → ℕ → JournalEvent

-- What the control journal answers to an event: nothing once it is synced, or an error.
abbrev pub Journal : Type 0
Journal = JournalEvent → Option EngineError

abbrev pub dedup_key : ProducerIdentity → DedupKey
dedup_key p = record {
  producer_id = p.producer_id;
  epoch = p.epoch;
  first_sequence = p.first_sequence;
}

abbrev pub dedup_key_eq : DedupKey → DedupKey → Bool
dedup_key_eq p q =
    p.producer_id == q.producer_id && p.epoch == q.epoch && p.first_sequence == q.first_sequence

abbrev pub producer_identity_eq : ProducerIdentity → ProducerIdentity → Bool
producer_identity_eq p q =
    p.producer_id == q.producer_id
    && p.epoch == q.epoch
    && p.first_sequence == q.first_sequence
    && option_eq ◌==◌ p.event_id q.event_id

abbrev pub atomic_identity_eq : AtomicGroupIdentity → AtomicGroupIdentity → Bool
atomic_identity_eq a b =
    a.transaction_id == b.transaction_id && a.chunk_sequence == b.chunk_sequence

abbrev pub policy_eq : PartitionReplicationPolicy → PartitionReplicationPolicy → Bool
policy_eq p q =
    p.policy_generation == q.policy_generation
    && p.replication_factor == q.replication_factor
    && p.min_in_sync_replicas == q.min_in_sync_replicas

abbrev pub is_pending : BatchStatus → Bool
is_pending pending = true
is_pending committed = false
is_pending unresolved = false
is_pending aborted = false

abbrev pub is_aborted : BatchStatus → Bool
is_aborted pending = false
is_aborted committed = false
is_aborted unresolved = false
is_aborted aborted = true

abbrev pub is_unresolved : BatchStatus → Bool
is_unresolved pending = false
is_unresolved committed = false
is_unresolved unresolved = true
is_unresolved aborted = false

abbrev pub is_group_unresolved : AtomicGroupState → Bool
is_group_unresolved group_unresolved = true
is_group_unresolved group_committed = false
is_group_unresolved group_aborted = false
