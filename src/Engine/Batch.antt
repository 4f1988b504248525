-- ===== src/Engine/Batch.antt =====
-- crates/shard-stream-engine/src/coordinator.rs: the life of a batch, from its entry to its physical
-- result.
pub mod Order
pub mod Current
pub mod Settle
pub mod Receipt
use shard_stream.Prelude.{
  ℕ, zero, suc, ◌+◌, ◌-◌, ◌*◌, ◌/◌, ◌%◌, ◌==◌, Bool, true, false, ◌||◌, ◌&&◌, not, Option, none,
  some, List, [], ◌∷◌, ltb, if◌then◌else◌, checked_add, checked_sub, u64_mod, min, max,
}
use shard_stream.Prelude.Maps.{insert, remove, update_values, option_eq}
use shard_stream.Prelude.Results.{Result, ok, err, panic, ok_or}
use shard_stream.Core.Model.{Reservation, reservation_eq, LogicalOffset}
use shard_stream.SegmentMap.Dense
use shard_stream.SegmentMap.Dense.{DenseOrderedMap, pushed, refused}
use shard_stream.Engine.Model.{
  EngineError, corrupt_state, unknown_atomic_group, BatchRuntime, BatchStatus, pending, committed,
  unresolved, aborted, is_pending, ProducerIdentity, ProducerCursor, AtomicGroupIdentity,
  AtomicGroupRuntime, AppendResponse, DedupRecord, dedup_key, dedup_key_eq,
}
use shard_stream.Engine.Lineage
use shard_stream.Engine.Partition.{PartitionState, capacity, advance_cached_watermarks}
use shard_stream.Engine.Outcome.{Outcome, and_then, try_in, last, before_last}
use shard_stream.Engine.Producer.{digest_xxh3_128}
use shard_stream.Engine.Atomic.{put_group}

-- The number of set bits of a word of `width` bits.
pub count_ones : ℕ → ℕ → ℕ
count_ones zero word = 0
count_ones (suc width) word = word % 2 + count_ones width (word / 2)

-- `word | 1`
pub or_one : ℕ → ℕ
or_one word = if word % 2 == 0 then word + 1 else word

-- What `mark_batch` makes of the batch.
unfoldable pub marked : BatchStatus → ℕ → BatchRuntime → BatchRuntime
unfolding count_ones or_one
marked status durable b = elim status [
  | committed ↦ acked
  | unresolved ↦ acked
  | pending ↦ cleared
  | aborted ↦ cleared
]
  where
    acked : BatchRuntime
    acked = record b {
      status = status;
      replica_acks = or_one b.replica_acks;
      durable_replicas =
          max (max b.durable_replicas durable) (count_ones 64 (or_one b.replica_acks));
    }

    cleared : BatchRuntime
    cleared = record b { status = status; durable_replicas = 0; replica_acks = 0 }

abbrev pub write : PartitionState → ℕ → (BatchRuntime → BatchRuntime) → PartitionState
write s key f = record s { batches = Dense.update capacity s.batches key f }

pub mark_found : PartitionState → Reservation → BatchStatus → ℕ → Option BatchRuntime → Outcome ℕ
unfolding marked
mark_found s r status durable none = (err corrupt_state, s)
mark_found s r status durable (some b) =
    if not (reservation_eq b.reservation r) || not (is_pending b.status)
    then (err corrupt_state, s)
    else (
      ok (marked status durable b).durable_replicas,
      advance_cached_watermarks (write s r.batch_id (marked status durable)),
    )

unfoldable pub mark_batch : PartitionState → Reservation → BatchStatus → ℕ → Outcome ℕ
unfolding mark_found
mark_batch s r status durable =
    mark_found s r status durable (Dense.get capacity s.batches r.batch_id)

unfoldable pub append_batch_runtime : PartitionState → BatchRuntime → Outcome (Unit {0})
append_batch_runtime s b =
    let (result, batches) = Dense.push capacity s.batches b.reservation.batch_id b in
    elim result [
      | pushed ↦ (ok tt, advance_cached_watermarks (record s { batches = batches }))
      | refused e ↦ (err corrupt_state, record s { batches = batches })
    ]

abbrev pub is_active : Option BatchRuntime → Bool
is_active none = false
is_active (some b) = b.query_lineage_active

unfoldable pub finish_query_lineage_batch : PartitionState → Reservation → PartitionState
finish_query_lineage_batch s r =
    if is_active (Dense.get capacity s.batches r.batch_id)
    then record (write s r.batch_id (λ b. record b { query_lineage_active = false })) {
      query_lineage = Lineage.finish_alone s.query_lineage;
    }
    else s

abbrev pub group_of : Option BatchRuntime → Option AtomicGroupIdentity
group_of none = none
group_of (some b) = b.atomic_group

abbrev pub bytes_of : Option BatchRuntime → ℕ
bytes_of none = 0
bytes_of (some b) = b.payload_bytes

-- The status of a batch that was written.
abbrev pub written_status : Option AtomicGroupIdentity → BatchStatus
written_status none = committed
written_status (some identity) = unresolved

pub record CompleteAppend : Type 0 where
  pub reservation : Reservation
  pub producer : Option ProducerIdentity
  pub payload_digest : ℕ
  pub durable_replicas : ℕ
  pub object_durable : Bool
  pub response : AppendResponse

-- The record that a retry of the completed append will find.
abbrev pub completed_record : CompleteAppend → ProducerIdentity → ℕ → AppendResponse → DedupRecord
completed_record c producer durable_replicas response = record {
  digest_algorithm = digest_xxh3_128;
  payload_digest = c.payload_digest;
  event_id = producer.event_id;
  record_count = c.reservation.record_count;
  durable_replicas = durable_replicas;
  object_durable = c.object_durable;
  response = response;
}

pub remember :
    CompleteAppend → ℕ → AppendResponse → Option ProducerIdentity → PartitionState → PartitionState
remember c durable_replicas response none s = s
remember c durable_replicas response (some producer) s = record s {
  dedup =
      insert dedup_key_eq s.dedup (dedup_key producer)
        (completed_record c producer durable_replicas response);
}

-- What follows the mark of a completed append.
pub settle : CompleteAppend → ℕ → PartitionState → Outcome AppendResponse
unfolding remember
settle c durable_replicas marked =
    let stored =
      write marked c.reservation.batch_id (λ b. record b { object_durable = c.object_durable }) in
    let response : AppendResponse = record c.response {
      visible_through = stored.last_stable_offset;
    } in
    (
      ok response,
      finish_query_lineage_batch (remember c durable_replicas response c.producer stored)
          c.reservation,
    )

unfoldable pub complete : PartitionState → CompleteAppend → Outcome AppendResponse
unfolding settle
complete s c =
    and_then
      (mark_batch s c.reservation
        (written_status (group_of (Dense.get capacity s.batches c.reservation.batch_id)))
        c.durable_replicas)
      (settle c)

abbrev pub is_written : BatchStatus → Bool
is_written pending = false
is_written committed = true
is_written unresolved = true
is_written aborted = false

pub set_count_found : PartitionState → Reservation → ℕ → Option BatchRuntime → Outcome (Unit {0})
set_count_found s r durable none = (err corrupt_state, s)
set_count_found s r durable (some b) =
    if not (reservation_eq b.reservation r) || not (is_written b.status)
    then (err corrupt_state, s)
    else let t = advance_cached_watermarks (
        write s r.batch_id (λ c. record c { durable_replicas = max c.durable_replicas durable })) in
      (
        ok tt,
        record t {
          dedup =
              update_values
                (λ d.
                  if d.response.batch_id == r.batch_id
                  then record d { durable_replicas = max d.durable_replicas durable }
                  else d)
                t.dedup;
        },
      )

unfoldable pub set_durable_replica_count : PartitionState → Reservation → ℕ → Outcome (Unit {0})
unfolding set_count_found
set_durable_replica_count s r durable =
    set_count_found s r durable (Dense.get capacity s.batches r.batch_id)

pub roll_back :
    PartitionState
    → Reservation
    → AtomicGroupIdentity
    → ℕ
    → Option AtomicGroupRuntime
    → Outcome (Unit {0})
roll_back s r identity payload_bytes none = (err (unknown_atomic_group identity.transaction_id), s)
roll_back s r identity payload_bytes (some group) =
    if not (option_eq ◌==◌ (last group.batch_ids) (some r.batch_id))
      || not (group.next_sequence == min (identity.chunk_sequence + 1) (u64_mod - 1))
    then (err corrupt_state, s)
    else let popped : AtomicGroupRuntime = record group {
      batch_ids = before_last group.batch_ids;
      next_sequence = identity.chunk_sequence;
    } in
      try_in (put_group s identity.transaction_id popped)
        (ok_or (checked_sub group.payload_bytes payload_bytes) corrupt_state)
        (λ bytes.
          let lighter : AtomicGroupRuntime = record popped { payload_bytes = bytes } in
          try_in (put_group s identity.transaction_id lighter)
            (ok_or (checked_sub group.record_count r.record_count) corrupt_state)
            (λ records. (
              ok tt,
              elim (before_last group.batch_ids) [
                | [] ↦ record s {
                  atomic_groups = remove ◌==◌ s.atomic_groups identity.transaction_id;
                }
                | ◌∷◌ id ids ↦
                    put_group s identity.transaction_id (record lighter { record_count = records })
              ],
            )))

pub roll_back_group : PartitionState → Reservation → Option AtomicGroupIdentity → Outcome (Unit {0})
unfolding roll_back
roll_back_group s r none = (ok tt, s)
roll_back_group s r (some identity) =
    roll_back s r identity (bytes_of (Dense.get capacity s.batches r.batch_id))
      (s.atomic_groups identity.transaction_id)

unfoldable pub rollback_atomic_chunk : PartitionState → Reservation → Outcome (Unit {0})
unfolding roll_back_group
rollback_atomic_chunk s r = roll_back_group s r (group_of (Dense.get capacity s.batches r.batch_id))

-- The cursor of a failed append, when the producer has one.
pub fail_cursor : Option ProducerIdentity → PartitionState → PartitionState
fail_cursor none s = s
fail_cursor (some producer) s = elim (s.producers producer.producer_id) [
  | none ↦ s
  | some cursor ↦ record s {
    producers = insert ◌==◌ s.producers producer.producer_id (record cursor { failed = true });
  }
]

unfoldable pub fail :
    PartitionState → Reservation → Option ProducerIdentity → Bool → Outcome (Unit {0})
unfolding fail_cursor
fail s r producer definitely_not_written =
    let t = fail_cursor producer s in
    if definitely_not_written
    then and_then (mark_batch t r aborted 0) (λ durable u.
      and_then (rollback_atomic_chunk u r) (λ done v. (ok tt, finish_query_lineage_batch v r)))
    else if is_active (Dense.get capacity t.batches r.batch_id)
    then (ok tt, record t { query_lineage = Lineage.deny t.query_lineage })
    else (ok tt, t)
