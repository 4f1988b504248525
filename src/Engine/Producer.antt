-- ===== src/Engine/Producer.antt =====
-- crates/shard-stream-engine/src/coordinator.rs: producers, their sequences, and the records that
-- let a retried append return its first receipt.
pub mod Accepts
use shard_stream.Prelude.{
  ℕ, ◌+◌, ◌==◌, Bool, true, false, ◌||◌, ◌&&◌, not, Option, none, some, ltb, if◌then◌else◌, max,
  checked_add, u64_mod,
}
use shard_stream.Prelude.Maps.{insert, option_eq}
use shard_stream.Prelude.Results.{Result, ok, err, panic, ok_or}
use shard_stream.Core.Model.{Reservation}
use shard_stream.Engine.Model.{
  EngineError, stale_producer_epoch, duplicate_sequence_mismatch, producer_requires_new_epoch,
  producer_sequence_out_of_order, invalid_config, corrupt_state, ProducerIdentity, ProducerCursor,
  DedupRecord, AppendResponse, dedup_key, dedup_key_eq,
}
use shard_stream.Engine.Partition.{PartitionState}
use shard_stream.Engine.Outcome.{Outcome, try_in, append_response}

-- DIGEST_XXH3_128
abbrev pub digest_xxh3_128 : ℕ
digest_xxh3_128 = 1

abbrev pub Receipt : Type 0
Receipt = Option (AppendResponse × ℕ × Bool)

pub record_matches : DedupRecord → ProducerIdentity → ℕ → ℕ → Bool
record_matches r producer record_count payload_digest =
    r.digest_algorithm == digest_xxh3_128
    && r.payload_digest == payload_digest
    && option_eq ◌==◌ r.event_id producer.event_id
    && r.record_count == record_count

-- The sequence that a cursor expects.
pub check_sequence : ProducerIdentity → ℕ → Result EngineError Receipt
check_sequence producer expected =
    if producer.first_sequence == expected
    then ok none
    else err (producer_sequence_out_of_order producer.producer_id expected producer.first_sequence)

-- A producer in its current epoch: the receipt of a retry, or the next sequence.
pub check_current :
    ℕ → ProducerIdentity → ProducerCursor → ℕ → ℕ → Option DedupRecord → Result EngineError Receipt
unfolding record_matches check_sequence
check_current request_id producer cursor record_count payload_digest none =
    if cursor.failed
    then err (producer_requires_new_epoch producer.producer_id)
    else check_sequence producer cursor.next_sequence
check_current request_id producer cursor record_count payload_digest (some r) =
    if record_matches r producer record_count payload_digest
    then ok
        (some (record r.response { request_id = request_id }, r.durable_replicas, r.object_durable))
    else err (duplicate_sequence_mismatch producer.producer_id)

pub check_cursor :
    PartitionState
    → ℕ
    → ProducerIdentity
    → ℕ
    → ℕ
    → Option ProducerCursor
    → Result EngineError Receipt
unfolding check_current
check_cursor s request_id producer record_count payload_digest none = check_sequence producer 0
check_cursor s request_id producer record_count payload_digest (some cursor) =
    if ltb producer.epoch cursor.epoch
    then err (stale_producer_epoch producer.producer_id cursor.epoch producer.epoch)
    else if producer.epoch == cursor.epoch
    then check_current request_id producer cursor record_count payload_digest
        (s.dedup (dedup_key producer))
    else check_sequence producer cursor.next_sequence

unfoldable pub check_producer :
    PartitionState → ℕ → Option ProducerIdentity → ℕ → ℕ → Result EngineError Receipt
unfolding check_cursor
check_producer s request_id none record_count payload_digest = ok none
check_producer s request_id (some producer) record_count payload_digest =
    check_cursor s request_id producer record_count payload_digest
      (s.producers producer.producer_id)

unfoldable pub idempotent_receipt :
    PartitionState → ProducerIdentity → Result EngineError (Option AppendResponse)
idempotent_receipt s producer = elim (s.dedup (dedup_key producer)) [
  | none ↦ ok none
  | some r ↦
      if option_eq ◌==◌ r.event_id producer.event_id
      then ok (some r.response)
      else err (duplicate_sequence_mismatch producer.producer_id)
]

-- What the match on `producers.get_mut` leaves under the producer.
pub advance_cursor : Option ProducerCursor → ProducerIdentity → ℕ → ProducerCursor
advance_cursor none producer next = record {
  epoch = producer.epoch;
  next_sequence = next;
  failed = false;
}
advance_cursor (some cursor) producer next =
    if ltb cursor.epoch producer.epoch
    then record { epoch = producer.epoch; next_sequence = next; failed = false }
    else record cursor { next_sequence = next }

unfoldable pub advance_producer : PartitionState → ProducerIdentity → ℕ → Outcome (Unit {0})
unfolding advance_cursor
advance_producer s producer record_count =
    try_in s (ok_or (checked_add u64_mod producer.first_sequence record_count) invalid_config)
      (λ next. (
        ok tt,
        record s {
          producers =
              insert ◌==◌ s.producers producer.producer_id
                (advance_cursor (s.producers producer.producer_id) producer next);
        },
      ))

-- What recovery makes of the cursor: `entry(…).or_insert(…)` and the two tests after it.
pub restore_cursor : Option ProducerCursor → ProducerIdentity → ℕ → ProducerCursor
restore_cursor none producer next = record {
  epoch = producer.epoch;
  next_sequence = next;
  failed = false;
}
restore_cursor (some cursor) producer next =
    if ltb cursor.epoch producer.epoch
    then record { epoch = producer.epoch; next_sequence = next; failed = false }
    else if producer.epoch == cursor.epoch
    then record cursor { next_sequence = max cursor.next_sequence next }
    else cursor

-- The recovered identity carries the algorithm and the digest of its payload.
pub record ProducerSequence : Type 0 where
  pub identity : ProducerIdentity
  pub digest_algorithm : ℕ
  pub payload_digest : ℕ

unfoldable pub restore_producer :
    (ℕ → ℕ → ℕ → ℕ)
    → PartitionState
    → Reservation
    → Option ProducerSequence
    → ℕ
    → Bool
    → Outcome (Unit {0})
unfolding restore_cursor
restore_producer for_batch s r none durable_replicas object_durable = (ok tt, s)
restore_producer for_batch s r (some p) durable_replicas object_durable =
    let t : PartitionState = record s {
      dedup = insert dedup_key_eq s.dedup (dedup_key p.identity) (record {
        digest_algorithm = p.digest_algorithm;
        payload_digest = p.payload_digest;
        event_id = p.identity.event_id;
        record_count = r.record_count;
        durable_replicas = durable_replicas;
        object_durable = object_durable;
        response = append_response for_batch 0 r;
      });
    } in
    try_in t (ok_or (checked_add u64_mod p.identity.first_sequence r.record_count) corrupt_state)
      (λ next. (
        ok tt,
        record t {
          producers =
              insert ◌==◌ s.producers p.identity.producer_id
                (restore_cursor (s.producers p.identity.producer_id) p.identity next);
        },
      ))
