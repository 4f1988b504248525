-- ===== src/Engine/Batch/Settle.antt =====
-- The result of a batch, success or failure, keeps the cached watermarks up to date
-- (coordinator.rs).
use shard_stream.Prelude.{
  ℕ, zero, suc, ◌+◌, ◌==◌, ◌≡◌, inl, inr, refl, ap, sym, ◌∙◌, Bool, true, false, ◌||◌, not, Option,
  none, some, List, [], ◌∷◌, if◌then◌else◌, modify, leb, max, arith, Bool-cases,
}
use shard_stream.Prelude.Results.{ok, err, panic}
use shard_stream.Core.Model.{Reservation, reservation_eq}
use shard_stream.SegmentMap.Dense
use shard_stream.SegmentMap.Dense.{DenseOrderedMap, values}
use shard_stream.SegmentMap.Dense.Inv.{IsValid}
use shard_stream.SegmentMap.Dense.Update.{update-IsValid}
use shard_stream.Engine.Model.{
  AppendResponse, ProducerIdentity, PartitionReplicationPolicy, BatchRuntime, aborted,
}
use shard_stream.Engine.Lineage
use shard_stream.Engine.Outcome.{Outcome, and_then}
use shard_stream.Engine.Partition.{
  PartitionState, capacity, next_offset, stops_contiguous, stops_stable, advance_cached_watermarks,
}
use shard_stream.Engine.Partition.Frontier.{frontier}
use shard_stream.Engine.Partition.Watermarks.{IsCurrent, stops_policy, from_start}
use shard_stream.Engine.Batch.{
  write, mark_batch, finish_query_lineage_batch, complete, remember, CompleteAppend,
  set_count_found, set_durable_replica_count, is_active, is_written, fail, fail_cursor,
  rollback_atomic_chunk, written_status, group_of,
}
use shard_stream.Engine.Batch.Current.{write_lem, write-IsCurrent, mark_batch-IsCurrent}

-- What the watermarks are computed from, and the watermarks.
abbrev pub log_of :
    PartitionState
    → DenseOrderedMap BatchRuntime × ℕ × PartitionReplicationPolicy × (ℕ × ℕ) × (ℕ × ℕ) × (ℕ × ℕ)
log_of s = (
  s.batches,
  s.log_start,
  s.replication_policy,
  (s.next_contiguous_batch, s.contiguous_log_end),
  (s.next_stable_batch, s.last_stable_offset),
  (s.next_replicated_batch, s.replicated_high_watermark),
)

pub same_log-IsCurrent : (s t : PartitionState) → log_of t ≡ log_of s → IsCurrent s → IsCurrent t
same_log-IsCurrent s t e c =
    rw (ap (λ l. l.0) e, ap (λ l. l.1) e, ap (λ l. l.2) e)
      (record {
        valid = c.valid;
        cached = record {
          contiguous = ap (λ l. l.3) e ∙ c.cached.contiguous;
          stable = ap (λ l. l.4) e ∙ c.cached.stable;
          replicated = ap (λ l. l.5) e ∙ c.cached.replicated;
        };
      })

-- `f` keeps what the watermarks see of a batch.
abbrev IsNeutral : (BatchRuntime → BatchRuntime) → Type 0
IsNeutral f =
    (b : BatchRuntime)
    → ((f b).reservation ≡ b.reservation)
      × ((f b).status ≡ b.status)
      × ((f b).durable_replicas ≡ b.durable_replicas)

frontier-neutral :
    (stops : BatchRuntime → Bool) (f : BatchRuntime → BatchRuntime) (key end : ℕ)
    (items : List BatchRuntime) (i : ℕ)
    → ((b : BatchRuntime) → ((f b).reservation ≡ b.reservation) × (stops (f b) ≡ stops b))
    → frontier stops key end (modify f items i) ≡ frontier stops key end items
unfolding frontier
frontier-neutral stops f key end [] i k = refl
frontier-neutral stops f key end (b ∷ bs) zero k = ground (arith, k b)
frontier-neutral stops f key end (b ∷ bs) (suc i) k =
    ap (λ more. if not (b.reservation.first_offset == end) || stops b then (key, end) else more)
      (frontier-neutral stops f (key + 1) (next_offset b.reservation) bs i k)

frontier-write :
    (stops : BatchRuntime → Bool) (s : PartitionState) (key : ℕ) (f : BatchRuntime → BatchRuntime)
    → IsValid capacity s.batches
    → ((b : BatchRuntime) → ((f b).reservation ≡ b.reservation) × (stops (f b) ≡ stops b))
    → from_start stops s (values s.batches)
      ≡ from_start stops (write s key f) (values (write s key f).batches)
frontier-write stops s key f v k =
    let (first, items) = write_lem s key f v in
    rw (first, items)
      (elim (Bool-cases (leb s.batches.first_key key)) [
        | inl from ↦ rw from (sym (frontier-neutral stops f _ _ (values s.batches) _ k))
        | inr before ↦ rw before refl
      ])

-- A write that the watermarks do not see needs no advance.
neutral-IsCurrent :
    (s : PartitionState) (key : ℕ) (f : BatchRuntime → BatchRuntime)
    → IsNeutral f
    → IsCurrent s
    → IsCurrent (write s key f)
neutral-IsCurrent s key f k c = record {
  valid = update-IsValid f capacity s.batches key c.valid;
  cached = record {
    contiguous =
        c.cached.contiguous
        ∙ frontier-write stops_contiguous s key f c.valid (λ b. ((k b).0, rw (k b).1 refl));
    stable =
        c.cached.stable
        ∙ frontier-write stops_stable s key f c.valid (λ b. ((k b).0, rw (k b).1 refl));
    replicated =
        c.cached.replicated
        ∙ frontier-write (stops_policy s) s key f c.valid
            (λ b. ((k b).0, rw ((k b).1, (k b).2) refl));
  };
}

pub finish_query_lineage_batch-IsCurrent :
    (s : PartitionState) (r : Reservation)
    → IsCurrent s
    → IsCurrent (finish_query_lineage_batch s r)
unfolding finish_query_lineage_batch
finish_query_lineage_batch-IsCurrent s r c =
    elim (Bool-cases (is_active (Dense.get capacity s.batches r.batch_id))) [
      | inl active ↦ rw active (
          same_log-IsCurrent (write s r.batch_id (λ b. record b { query_lineage_active = false }))
            (record (write s r.batch_id (λ b. record b { query_lineage_active = false })) {
              query_lineage = Lineage.finish_alone s.query_lineage;
            })
            refl
            (neutral-IsCurrent s r.batch_id (λ b. record b { query_lineage_active = false })
              (λ b. (refl, refl, refl)) c))
      | inr idle ↦ rw idle c
    ]

remember-IsCurrent :
    (c : CompleteAppend) (durable : ℕ) (response : AppendResponse) (p : Option ProducerIdentity)
    (s : PartitionState)
    → IsCurrent s
    → IsCurrent (remember c durable response p s)
unfolding remember
remember-IsCurrent c durable response none s i = i
remember-IsCurrent c durable response (some p) s i = same_log-IsCurrent s _ refl i

-- A property that a call keeps, and the rest of the handler keeps as well.
pub and_then-keeps :
    {A B : Type 0} (P : PartitionState → Type 0) (x : Outcome A)
    (f : A → PartitionState → Outcome B)
    → P x.1
    → ((a : A) → P x.1 → P (f a x.1).1)
    → P (and_then x f).1
and_then-keeps P (ok a, s) f p k = k a p
and_then-keeps P (err e, s) f p k = p
and_then-keeps P (panic, s) f p k = p

-- A completed append leaves the watermarks up to date.
pub complete-IsCurrent :
    (s : PartitionState) (c : CompleteAppend) → IsCurrent s → IsCurrent (complete s c).1
unfolding complete
complete-IsCurrent s c i =
    and_then-keeps IsCurrent
      (mark_batch s c.reservation
        (written_status (group_of (Dense.get capacity s.batches c.reservation.batch_id)))
        c.durable_replicas)
      _ (mark_batch-IsCurrent s c.reservation _ _ i)
      (λ durable m. finish_query_lineage_batch-IsCurrent _ c.reservation (
        remember-IsCurrent c durable _ c.producer _ (
          neutral-IsCurrent _ c.reservation.batch_id
            (λ b. record b { object_durable = c.object_durable }) (λ b. (refl, refl, refl)) m)))

fail_cursor-log :
    (p : Option ProducerIdentity) (s : PartitionState) → log_of (fail_cursor p s) ≡ log_of s
unfolding fail_cursor
fail_cursor-log none s = refl
fail_cursor-log (some p) s = ground arith

rollback_atomic_chunk-log :
    (s : PartitionState) (r : Reservation) → log_of (rollback_atomic_chunk s r).1 ≡ log_of s
unfolding rollback_atomic_chunk
rollback_atomic_chunk-log s r = ground arith

-- A failed append leaves the watermarks up to date, on every branch.
pub fail-IsCurrent :
    (s : PartitionState) (r : Reservation) (p : Option ProducerIdentity) (unwritten : Bool)
    → IsCurrent s
    → IsCurrent (fail s r p unwritten).1
unfolding fail
fail-IsCurrent s r p true i =
    and_then-keeps IsCurrent (mark_batch (fail_cursor p s) r aborted 0) _
      (mark_batch-IsCurrent (fail_cursor p s) r aborted 0
        (same_log-IsCurrent s (fail_cursor p s) (fail_cursor-log p s) i))
      (λ durable m.
        and_then-keeps IsCurrent (rollback_atomic_chunk _ r) _
          (same_log-IsCurrent _ _ (rollback_atomic_chunk-log _ r) m)
          (λ done n. finish_query_lineage_batch-IsCurrent _ r n))
fail-IsCurrent s r p false i =
    elim (Bool-cases (is_active (Dense.get capacity (fail_cursor p s).batches r.batch_id))) [
      | inl active ↦ rw active (
          same_log-IsCurrent s
            (record (fail_cursor p s) {
              query_lineage = Lineage.deny (fail_cursor p s).query_lineage;
            })
            (fail_cursor-log p s) i)
      | inr idle ↦ rw idle (same_log-IsCurrent s (fail_cursor p s) (fail_cursor-log p s) i)
    ]

set_count_found-IsCurrent :
    (s : PartitionState) (r : Reservation) (durable : ℕ) (found : Option BatchRuntime)
    → IsCurrent s
    → IsCurrent (set_count_found s r durable found).1
unfolding set_count_found
set_count_found-IsCurrent s r durable none i = i
set_count_found-IsCurrent s r durable (some b) i =
    elim (Bool-cases (not (reservation_eq b.reservation r) || not (is_written b.status))) [
      | inl bad ↦ rw bad i
      | inr good ↦ rw good (
          same_log-IsCurrent
            (advance_cached_watermarks (
              write s r.batch_id
                (λ c. record c { durable_replicas = max c.durable_replicas durable })))
            _ refl
            (write-IsCurrent s r.batch_id
              (λ c. record c { durable_replicas = max c.durable_replicas durable }) i
              (λ c e. ((refl, λ h. h), (refl, λ h. h), (refl, λ h. ground (arith, h))))))
    ]

-- More durable replicas of a batch leave the watermarks up to date.
pub set_durable_replica_count-IsCurrent :
    (s : PartitionState) (r : Reservation) (durable : ℕ)
    → IsCurrent s
    → IsCurrent (set_durable_replica_count s r durable).1
unfolding set_durable_replica_count
set_durable_replica_count-IsCurrent s r durable i = set_count_found-IsCurrent s r durable _ i
