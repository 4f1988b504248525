-- ===== src/Engine/Batch/Receipt.antt =====
-- A retried append returns the receipt of the append that completed (coordinator.rs).
use shard_stream.Prelude.{
  ℕ, ◌==◌, ◌≡◌, refl, ap, sym, ◌∙◌, true, Option, none, some, arith, ==_refl,
}
use shard_stream.Prelude.Maps.{option_eq, insert}
use shard_stream.Prelude.Results.{ok, err, panic}
use shard_stream.Core.Model.{Reservation}
use shard_stream.SegmentMap.Dense
use shard_stream.Engine.Model.{
  AppendResponse, ProducerIdentity, ProducerCursor, DedupKey, dedup_key, dedup_key_eq,
}
use shard_stream.Engine.Outcome.{Outcome, and_then}
use shard_stream.Engine.Partition.{PartitionState, capacity}
use shard_stream.Engine.Producer.{check_producer}
use shard_stream.Engine.Batch.{
  write, mark_batch, settle, complete, remember, completed_record, CompleteAppend,
  finish_query_lineage_batch, written_status, group_of,
}

event_id_refl : (e : Option ℕ) → option_eq ◌==◌ e e ≡ true
event_id_refl none = refl
event_id_refl (some e) = ==_refl e

dedup_key_refl : (k : DedupKey) → dedup_key_eq k k ≡ true
dedup_key_refl k = ground arith

-- A producer in its current epoch whose append is on record gets the recorded response.
recorded-receipt :
    (s : PartitionState) (c : CompleteAppend) (p : ProducerIdentity) (durable request : ℕ)
    (response : AppendResponse) (cursor : ProducerCursor)
    → s.producers p.producer_id ≡ some cursor
    → cursor.epoch ≡ p.epoch
    → s.dedup (dedup_key p) ≡ some (completed_record c p durable response)
    → check_producer s request (some p) c.reservation.record_count c.payload_digest
      ≡ ok (some (record response { request_id = request }, durable, c.object_durable))
unfolding check_producer
recorded-receipt s c p durable request response cursor known current recorded =
    ground (arith, known, current, recorded, event_id_refl p.event_id)

finished :
    (s : PartitionState) (r : Reservation)
    → ((finish_query_lineage_batch s r).producers ≡ s.producers)
      × ((finish_query_lineage_batch s r).dedup ≡ s.dedup)
unfolding finish_query_lineage_batch
finished s r = ground arith

remembered :
    (c : CompleteAppend) (durable : ℕ) (response : AppendResponse) (p : ProducerIdentity)
    (s : PartitionState)
    → let t = remember c durable response (some p) s in
      (t.producers ≡ s.producers)
      × (t.dedup (dedup_key p) ≡ some (completed_record c p durable response))
unfolding remember
remembered c durable response p s = (refl, rw (dedup_key_refl (dedup_key p), insert) refl)

-- What is kept of a completed append for its producer.
record Keeps (c : CompleteAppend) (p : ProducerIdentity) (response : AppendResponse)
    (t : PartitionState) : Type 0 where
  durable : ℕ
  recorded : t.dedup (dedup_key p) ≡ some (completed_record c p durable response)

answered :
    (c : CompleteAppend) (durable : ℕ) (m : PartitionState) (response : AppendResponse)
    → (settle c durable m).0 ≡ ok response
    → record c.response { visible_through = m.last_stable_offset } ≡ response
unfolding settle
answered c durable m response h = ground (arith, h)

marked-Keeps :
    (s t : PartitionState) (c : CompleteAppend) (p : ProducerIdentity) (response : AppendResponse)
    (x : Outcome ℕ)
    → mark_batch s c.reservation
        (written_status (group_of (Dense.get capacity s.batches c.reservation.batch_id)))
        c.durable_replicas
      ≡ x
    → c.producer ≡ some p
    → complete s c ≡ (ok response, t)
    → Keeps c p response t
unfolding complete
marked-Keeps s t c p response (ok durable, m) e who h =
    let stored =
      write m c.reservation.batch_id (λ b. record b { object_durable = c.object_durable }) in
    let answer : AppendResponse = record c.response {
      visible_through = stored.last_stable_offset;
    } in
    let done = sym (ap (λ x. and_then x (settle c)) e) ∙ h in
    record {
      durable = durable;
      recorded =
          sym (ap (λ x. x.1.dedup (dedup_key p)) done)
          ∙ ap (λ d. d (dedup_key p))
              (finished (remember c durable answer c.producer stored) c.reservation).1
          ∙ ap (λ o. (remember c durable answer o stored).dedup (dedup_key p)) who
          ∙ (remembered c durable answer p stored).1
          ∙ ap (λ a. some (completed_record c p durable a))
              (answered c durable m response (ap (λ x. x.0) done));
    }
marked-Keeps s t c p response (err x, m) e who h = absurd (ground (arith, e, ap (λ y. y.0) h))
marked-Keeps s t c p response (panic, m) e who h = absurd (ground (arith, e, ap (λ y. y.0) h))

-- Once an append of a producer has completed, a retry of it with the same payload, count and event
-- returns its response under the retry's request identifier, as long as the producer has not moved to
-- a later epoch.
pub complete-receipt :
    (s t : PartitionState) (c : CompleteAppend) (p : ProducerIdentity) (response : AppendResponse)
    (cursor : ProducerCursor) (request : ℕ)
    → c.producer ≡ some p
    → complete s c ≡ (ok response, t)
    → t.producers p.producer_id ≡ some cursor
    → cursor.epoch ≡ p.epoch
    → (durable : ℕ) × (check_producer t request (some p) c.reservation.record_count c.payload_digest
        ≡ ok (some (record response { request_id = request }, durable, c.object_durable)))
complete-receipt s t c p response cursor request who h known current =
    let k = marked-Keeps s t c p response _ refl who h in
    (k.durable, recorded-receipt t c p k.durable request response cursor known current k.recorded)
