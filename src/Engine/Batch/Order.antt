-- ===== src/Engine/Batch/Order.antt =====
-- The result of a batch keeps the order of the batches (coordinator.rs).
use shard_stream.Prelude.{
  ℕ, ◌-◌, ◌≡◌, refl, ap, sym, ◌∙◌, Bool, true, false, ◌||◌, not, Option, none, some, max, leb,
  subst, arith, Bool-cases, inl, inr,
}
use shard_stream.Core.Model.{Reservation, reservation_eq}
use shard_stream.SegmentMap.Dense
use shard_stream.SegmentMap.Dense.{DenseOrderedMap, values}
use shard_stream.SegmentMap.Dense.Update.{update-IsValid}
use shard_stream.Engine.Model.{
  AppendResponse, ProducerIdentity, BatchRuntime, BatchStatus, aborted, is_pending,
}
use shard_stream.Engine.Partition.{PartitionState, capacity, advance_cached_watermarks}
use shard_stream.Engine.Partition.Order.{
  AreWithin, IsInOrder, core_of, same_core-IsInOrder, reservations, reservations-modify,
}
use shard_stream.Engine.Batch.{
  write, marked, mark_found, mark_batch, finish_query_lineage_batch, complete, remember,
  CompleteAppend, set_count_found, set_durable_replica_count, is_active, is_written, fail,
  fail_cursor, rollback_atomic_chunk, written_status, group_of,
}
use shard_stream.Engine.Batch.Current.{write_lem}
use shard_stream.Engine.Batch.Settle.{and_then-keeps}

-- A write that keeps the reservation of every batch.
pub write-IsInOrder :
    (s : PartitionState) (key : ℕ) (f : BatchRuntime → BatchRuntime)
    → ((b : BatchRuntime) → (f b).reservation ≡ b.reservation)
    → IsInOrder s
    → IsInOrder (write s key f)
write-IsInOrder s key f k o = record {
  valid = update-IsValid f capacity s.batches key o.valid;
  within = subst (λ l. AreWithin s.log_start l s.sequencer.next_offset) (sym same) o.within;
}
  where
    same : reservations (values (write s key f).batches) ≡ reservations (values s.batches)
    same =
        ap reservations (write_lem s key f o.valid).1
        ∙ elim (Bool-cases (leb s.batches.first_key key)) [
          | inl from ↦
              rw from (reservations-modify f (values s.batches) (key - s.batches.first_key) k)
          | inr before ↦ rw before refl
        ]

advanced-core : (s : PartitionState) → core_of (advance_cached_watermarks s) ≡ core_of s
unfolding advance_cached_watermarks
advanced-core s = refl

pub advanced-IsInOrder :
    (s : PartitionState) → IsInOrder s → IsInOrder (advance_cached_watermarks s)
advanced-IsInOrder s o = same_core-IsInOrder s _ (advanced-core s) o

marked-reservation :
    (status : BatchStatus) (durable : ℕ) (b : BatchRuntime)
    → (marked status durable b).reservation ≡ b.reservation
unfolding marked
marked-reservation status durable b = ground arith

mark_found-IsInOrder :
    (s : PartitionState) (r : Reservation) (status : BatchStatus) (durable : ℕ)
    (found : Option BatchRuntime)
    → IsInOrder s
    → IsInOrder (mark_found s r status durable found).1
unfolding mark_found
mark_found-IsInOrder s r status durable none o = o
mark_found-IsInOrder s r status durable (some b) o =
    elim (Bool-cases (not (reservation_eq b.reservation r) || not (is_pending b.status))) [
      | inl bad ↦ rw bad o
      | inr good ↦ rw good (
          advanced-IsInOrder (write s r.batch_id (marked status durable)) (
            write-IsInOrder s r.batch_id (marked status durable) (marked-reservation status durable)
              o))
    ]

mark_batch-IsInOrder :
    (s : PartitionState) (r : Reservation) (status : BatchStatus) (durable : ℕ)
    → IsInOrder s
    → IsInOrder (mark_batch s r status durable).1
unfolding mark_batch
mark_batch-IsInOrder s r status durable o = mark_found-IsInOrder s r status durable _ o

finish_query_lineage_batch-IsInOrder :
    (s : PartitionState) (r : Reservation)
    → IsInOrder s
    → IsInOrder (finish_query_lineage_batch s r)
unfolding finish_query_lineage_batch
finish_query_lineage_batch-IsInOrder s r o =
    let t = write s r.batch_id (λ b. record b { query_lineage_active = false }) in
    let kept : IsInOrder t =
      write-IsInOrder s r.batch_id (λ b. record b { query_lineage_active = false }) (λ b. refl) o in
    elim (Bool-cases (is_active (Dense.get capacity s.batches r.batch_id))) [
      | inl active ↦ rw active (same_core-IsInOrder t _ refl kept)
      | inr idle ↦ rw idle o
    ]

remember-IsInOrder :
    (c : CompleteAppend) (durable : ℕ) (response : AppendResponse) (p : Option ProducerIdentity)
    (s : PartitionState)
    → IsInOrder s
    → IsInOrder (remember c durable response p s)
unfolding remember
remember-IsInOrder c durable response none s o = o
remember-IsInOrder c durable response (some p) s o = same_core-IsInOrder s _ refl o

pub complete-IsInOrder :
    (s : PartitionState) (c : CompleteAppend) → IsInOrder s → IsInOrder (complete s c).1
unfolding complete
complete-IsInOrder s c o =
    and_then-keeps IsInOrder
      (mark_batch s c.reservation
        (written_status (group_of (Dense.get capacity s.batches c.reservation.batch_id)))
        c.durable_replicas)
      _ (mark_batch-IsInOrder s c.reservation _ _ o)
      (λ durable m. finish_query_lineage_batch-IsInOrder _ c.reservation (
        remember-IsInOrder c durable _ c.producer _ (
          write-IsInOrder _ c.reservation.batch_id
            (λ b. record b { object_durable = c.object_durable }) (λ b. refl) m)))

fail_cursor-core :
    (p : Option ProducerIdentity) (s : PartitionState) → core_of (fail_cursor p s) ≡ core_of s
unfolding fail_cursor
fail_cursor-core none s = refl
fail_cursor-core (some p) s = ground arith

rollback_atomic_chunk-core :
    (s : PartitionState) (r : Reservation) → core_of (rollback_atomic_chunk s r).1 ≡ core_of s
unfolding rollback_atomic_chunk
rollback_atomic_chunk-core s r = ground arith

pub fail-IsInOrder :
    (s : PartitionState) (r : Reservation) (p : Option ProducerIdentity) (unwritten : Bool)
    → IsInOrder s
    → IsInOrder (fail s r p unwritten).1
unfolding fail
fail-IsInOrder s r p true o =
    and_then-keeps IsInOrder (mark_batch (fail_cursor p s) r aborted 0) _
      (mark_batch-IsInOrder (fail_cursor p s) r aborted 0
        (same_core-IsInOrder s (fail_cursor p s) (fail_cursor-core p s) o))
      (λ durable m.
        and_then-keeps IsInOrder (rollback_atomic_chunk _ r) _
          (same_core-IsInOrder _ _ (rollback_atomic_chunk-core _ r) m)
          (λ done n. finish_query_lineage_batch-IsInOrder _ r n))
fail-IsInOrder s r p false o =
    let kept = same_core-IsInOrder s (fail_cursor p s) (fail_cursor-core p s) o in
    elim (Bool-cases (is_active (Dense.get capacity (fail_cursor p s).batches r.batch_id))) [
      | inl active ↦ rw active (same_core-IsInOrder (fail_cursor p s) _ refl kept)
      | inr idle ↦ rw idle kept
    ]

set_count_found-IsInOrder :
    (s : PartitionState) (r : Reservation) (durable : ℕ) (found : Option BatchRuntime)
    → IsInOrder s
    → IsInOrder (set_count_found s r durable found).1
unfolding set_count_found
set_count_found-IsInOrder s r durable none o = o
set_count_found-IsInOrder s r durable (some b) o =
    let f : BatchRuntime → BatchRuntime =
      λ c. record c { durable_replicas = max c.durable_replicas durable } in
    elim (Bool-cases (not (reservation_eq b.reservation r) || not (is_written b.status))) [
      | inl bad ↦ rw bad o
      | inr good ↦ rw good (
          same_core-IsInOrder (advance_cached_watermarks (write s r.batch_id f)) _ refl (
            advanced-IsInOrder (write s r.batch_id f)
              (write-IsInOrder s r.batch_id f (λ b. refl) o)))
    ]

pub set_durable_replica_count-IsInOrder :
    (s : PartitionState) (r : Reservation) (durable : ℕ)
    → IsInOrder s
    → IsInOrder (set_durable_replica_count s r durable).1
unfolding set_durable_replica_count
set_durable_replica_count-IsInOrder s r durable o = set_count_found-IsInOrder s r durable _ o
