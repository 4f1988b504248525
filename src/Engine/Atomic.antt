-- ===== src/Engine/Atomic.antt =====
-- crates/shard-stream-engine/src/coordinator.rs: atomic groups, whose chunks stay unresolved until a
-- synced marker commits or aborts all of them.
use shard_stream.Prelude.{
  ℕ, ◌==◌, Bool, ◌||◌, not, Option, none, some, [], ◌∷◌, ◌++◌, ltb, if◌then◌else◌, get_elem?,
  checked_add, u64_mod,
}
use shard_stream.Prelude.Maps.{insert, option_eq}
use shard_stream.Prelude.Results.{Result, ok, err, ok_or, ◌>>=◌, ◌>>◌, guard}
use shard_stream.Core.Model.{Reservation}
use shard_stream.SegmentMap.Dense
use shard_stream.SegmentMap.Dense.{DenseOrderedMap}
use shard_stream.Engine.Model.{
  EngineError, atomic_group_finalized, atomic_group_sequence_out_of_order, corrupt_state,
  atomic_group_chunk_mismatch, replica_in_flight, invalid_config, AtomicGroupIdentity,
  AtomicGroupRuntime, group_unresolved, AppendResponse, BatchRuntime, pending, committed,
  unresolved, aborted, PartitionReplicationPolicy, atomic_identity_eq, is_group_unresolved,
}
use shard_stream.Engine.Partition.{PartitionState, capacity}
use shard_stream.Engine.Outcome.{Outcome, try_in, append_response}
use shard_stream.Engine.Producer.{ProducerSequence}

pub data ReserveOutcome : Type 0 where
  duplicate :
      AppendResponse
      → (durable_replicas : ℕ) → (object_durable : Bool) → PartitionReplicationPolicy
      → ReserveOutcome
  reserved : Reservation → Option ProducerSequence → PartitionReplicationPolicy → ReserveOutcome

abbrev pub new_group : AtomicGroupRuntime
new_group = record {
  state = group_unresolved;
  batch_ids = [];
  next_sequence = 0;
  payload_bytes = 0;
  record_count = 0;
}

abbrev pub group_or_new : Option AtomicGroupRuntime → AtomicGroupRuntime
group_or_new none = new_group
group_or_new (some g) = g

-- The batch of a chunk that comes a second time.
unfoldable pub chunk_receipt :
    (ℕ → ℕ → ℕ → ℕ)
    → PartitionState
    → ℕ
    → AtomicGroupIdentity
    → ℕ
    → ℕ
    → ℕ
    → BatchRuntime
    → Result EngineError (Option ReserveOutcome)
chunk_receipt for_batch s request_id identity record_count payload_bytes payload_digest batch =
    if not (option_eq atomic_identity_eq batch.atomic_group (some identity))
      || not (batch.reservation.record_count == record_count)
      || not (batch.payload_bytes == payload_bytes)
      || not (option_eq ◌==◌ batch.payload_digest (some payload_digest))
    then err (atomic_group_chunk_mismatch identity.transaction_id)
    else elim batch.status [
      | pending ↦ err (replica_in_flight batch.reservation.batch_id)
      | committed ↦ ok (some receipt)
      | unresolved ↦ ok (some receipt)
      | aborted ↦ err corrupt_state
    ]
  where
    receipt : ReserveOutcome
    receipt =
        duplicate (append_response for_batch request_id batch.reservation) batch.durable_replicas
          batch.object_durable s.replication_policy

unfoldable pub check_chunk :
    (ℕ → ℕ → ℕ → ℕ)
    → PartitionState
    → ℕ
    → AtomicGroupIdentity
    → ℕ
    → ℕ
    → ℕ
    → Option AtomicGroupRuntime
    → Result EngineError (Option ReserveOutcome)
unfolding chunk_receipt
check_chunk for_batch s request_id identity record_count payload_bytes payload_digest none =
    if identity.chunk_sequence == 0
    then ok none
    else err (atomic_group_sequence_out_of_order identity.transaction_id 0 identity.chunk_sequence)
check_chunk for_batch s request_id identity record_count payload_bytes payload_digest (some group) =
    do
      guard (is_group_unresolved group.state) (atomic_group_finalized identity.transaction_id)
      guard (not (ltb group.next_sequence identity.chunk_sequence)) (
          atomic_group_sequence_out_of_order identity.transaction_id group.next_sequence
            identity.chunk_sequence)
      if identity.chunk_sequence == group.next_sequence then ok none else do
        batch_id ← ok_or (get_elem? group.batch_ids identity.chunk_sequence) corrupt_state
        batch ← ok_or (Dense.get capacity s.batches batch_id) corrupt_state
        chunk_receipt for_batch s request_id identity record_count payload_bytes payload_digest
            batch

unfoldable pub check_atomic_group :
    (ℕ → ℕ → ℕ → ℕ)
    → PartitionState
    → ℕ
    → AtomicGroupIdentity
    → ℕ
    → ℕ
    → ℕ
    → Result EngineError (Option ReserveOutcome)
unfolding check_chunk
check_atomic_group for_batch s request_id identity record_count payload_bytes payload_digest =
    elim (s.finalized_groups identity.transaction_id) [
      | some outcome ↦ err (atomic_group_finalized identity.transaction_id)
      | none ↦
          check_chunk for_batch s request_id identity record_count payload_bytes payload_digest
            (s.atomic_groups identity.transaction_id)
    ]

abbrev pub put_group : PartitionState → ℕ → AtomicGroupRuntime → PartitionState
put_group s transaction_id group = record s {
  atomic_groups = insert ◌==◌ s.atomic_groups transaction_id group;
}

-- The group's entry after `or_insert_with`, changed field by field.
pub register_in :
    PartitionState → AtomicGroupIdentity → Reservation → ℕ → AtomicGroupRuntime → Outcome (Unit {0})
register_in s identity r payload_bytes group =
    let entered = put_group s identity.transaction_id group in
    if not (is_group_unresolved group.state)
    then (err (atomic_group_finalized identity.transaction_id), entered)
    else if not (identity.chunk_sequence == group.next_sequence)
    then (
      err (
          atomic_group_sequence_out_of_order identity.transaction_id group.next_sequence
            identity.chunk_sequence),
      entered,
    )
    else try_in entered
        (ok_or (checked_add u64_mod group.payload_bytes payload_bytes) invalid_config)
        (λ bytes.
          let counted : AtomicGroupRuntime = record group { payload_bytes = bytes } in
          try_in (put_group s identity.transaction_id counted)
            (ok_or (checked_add u64_mod group.record_count r.record_count) invalid_config)
            (λ records.
              let pushed : AtomicGroupRuntime = record counted {
                record_count = records;
                batch_ids = group.batch_ids ++ r.batch_id ∷ [];
              } in
              try_in (put_group s identity.transaction_id pushed)
                (ok_or (checked_add u64_mod group.next_sequence 1) invalid_config)
                (λ next. (
                  ok tt,
                  put_group s identity.transaction_id (record pushed { next_sequence = next }),
                ))))

unfoldable pub register_atomic_chunk :
    PartitionState → AtomicGroupIdentity → Reservation → ℕ → Outcome (Unit {0})
unfolding register_in
register_atomic_chunk s identity r payload_bytes =
    register_in s identity r payload_bytes (group_or_new (s.atomic_groups identity.transaction_id))
