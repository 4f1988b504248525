-- ===== src/Kafka/Batch/Total.antt =====
-- The inspection of record batches on any bytes (crates/shard-stream-kafka/src/batch.rs).
use shard_stream.Prelude.{
  ℕ, zero, suc, ◌+◌, ◌-◌, ◌^◌, ◌≤◌, ◌<◌, ◌≡◌, ◌⊎◌, refl, subst, sym, true, not, Option, none, some,
  ltb, ◌==◌, length, checked_add, checked_sub, usize_mod, arith, ltb→le, ltb→lt, not-true,
}
use shard_stream.Prelude.Bytes.{Bytes}
use shard_stream.Prelude.Integers.{non_negative}
use shard_stream.Prelude.Results.{
  ok, err, Ensures, holds, fails, Ensures-bind, ok_or-Ensures, guard-Ensures, if-Ensures,
  Ensures-cases,
}
use shard_stream.Engine.Model.{ProducerIdentity}
use shard_stream.Kafka.Record.Records.{validate_record_data-Ensures}
use shard_stream.Kafka.Record.{
  ResponseError, corrupt_message, message_too_large, unsupported_for_message_format, Compression,
}
use shard_stream.Kafka.Batch.{
  InspectedRecordBatches, ProducerMode, unknown, non_idempotent, idempotent, Scan, inspect_batch,
  inspect_batches, inspected_producer, inspect_record_batches, read_i32,
}
use shard_stream.Kafka.Batch.Fields.{
  sum_of, part-Ensures, inspect_header-Ensures, update_producer-Ensures, Counts,
}

-- What the loop keeps of its cursor, its count and its mode.
record IsScan (records : Bytes) (t : Scan) : Type 0 where
  inside : t.cursor ≤ length records
  counts : Counts t.record_count t.producer
  small : t.record_count < 2 ^ 32

room : (size a b : ℕ) {c : ℕ} → checked_add size a b ≡ some c → c < size
room size a b h = ground arith

left_of : (a b : ℕ) {c : ℕ} → checked_sub a b ≡ some c → (b ≤ a) × (c ≡ a - b)
left_of a b h = ground arith

-- A round goes on behind its batch.
inspect_batch-Ensures :
    (crc : Bytes → ℕ) (decompress : Compression → Bytes → Option Bytes) (records : Bytes) (t : Scan)
    → IsScan records t
    → Ensures
        (λ u. (t.cursor < u.cursor) × IsScan records u)
        (inspect_batch crc decompress records t)
unfolding inspect_batch
inspect_batch-Ensures crc decompress records t v =
    Ensures-bind (ok_or-Ensures (checked_sub (length records) t.cursor) corrupt_message)
      λ remaining e.
        let l = left_of _ _ e in
        Ensures-bind (guard-Ensures (not (ltb remaining 61)) corrupt_message) λ _ long.
          let n = ltb→le remaining 61 (not-true _ long) in
          Ensures-bind (part-Ensures records t.cursor (length records) v.inside (omega arith))
            λ outer o.
              Ensures-bind (part-Ensures outer 8 12 (omega arith) (omega (arith, o, l, n)))
                λ word _.
                  Ensures-bind (ok_or-Ensures (non_negative (read_i32 word)) corrupt_message)
                    λ size _.
                      Ensures-bind (guard-Ensures (not (ltb size 49)) corrupt_message) λ _ big.
                        let m = ltb→le size 49 (not-true _ big) in
                        Ensures-bind (ok_or-Ensures (checked_add usize_mod 12 size) corrupt_message)
                          λ total s.
                            Ensures-bind (guard-Ensures (not (ltb remaining total)) corrupt_message)
                              λ _ fits.
                                let f = ltb→le remaining total (not-true _ fits) in
                                let u = sum_of _ _ _ s in
                                Ensures-bind
                                  (ok_or-Ensures (checked_add usize_mod t.cursor total)
                                    corrupt_message)
                                  λ end g.
                                    let w = sum_of _ _ _ g in
                                    let inside : end ≤ length records = omega (arith, w, f, l) in
                                    Ensures-bind
                                      (part-Ensures records (t.cursor + 12) end
                                        (omega (arith, w, u, m)) inside)
                                      λ body _.
                                        Ensures-bind (inspect_header-Ensures crc body)
                                          λ header positive.
                                            Ensures-bind
                                              (part-Ensures records (t.cursor + 61) end
                                                (omega (arith, w, u, m)) inside)
                                              λ frames _.
                                                Ensures-bind
                                                  (validate_record_data-Ensures decompress header
                                                    frames)
                                                  λ _ _.
                                                    Ensures-bind
                                                      (update_producer-Ensures t.record_count
                                                        t.producer header v.counts positive)
                                                      λ mode counts.
                                                        Ensures-bind
                                                          (ok_or-Ensures
                                                            (checked_add (2 ^ 32) t.record_count
                                                            header.record_count)
                                                            message_too_large)
                                                          λ count sum. holds (
                                                            omega (arith, w, u, m),
                                                            record {
                                                            inside = inside;
                                                            counts =
                                                            subst (λ c. Counts c mode)
                                                            (sym (sum_of _ _ _ sum)) counts;
                                                            small = room _ _ _ sum;
                                                            },
                                                          )

inspect_batches-Ensures :
    (crc : Bytes → ℕ) (decompress : Compression → Bytes → Option Bytes) (records : Bytes) (fuel : ℕ)
    (t : Scan)
    → IsScan records t
    → length records - t.cursor < fuel
    → Ensures (IsScan records) (inspect_batches crc decompress records fuel t)
unfolding inspect_batches
inspect_batches-Ensures crc decompress records zero t v enough = absurd (omega arith)
inspect_batches-Ensures crc decompress records (suc fuel) t v enough =
    if-Ensures (ltb t.cursor (length records))
      (λ inside. Ensures-bind (inspect_batch-Ensures crc decompress records t v) λ u good.
        inspect_batches-Ensures crc decompress records fuel u good.1
          (omega (arith, good.0, enough, ltb→lt _ _ inside)))
      (λ _. holds v)

-- The sequences of the records from the producer's first one are numbers of an i32.
abbrev pub Sequences : ℕ → Option ProducerIdentity → Type 0
Sequences count none = Unit {0}
Sequences count (some p) = p.first_sequence + count ≤ 2 ^ 31

-- What is said of batches that are accepted.
pub record IsInspected (r : InspectedRecordBatches) : Type 0 where
  pub some_records : 0 < r.record_count
  pub small : r.record_count < 2 ^ 32
  pub sequences : Sequences r.record_count r.producer

inspected_producer-Ensures :
    (count : ℕ) (mode : ProducerMode)
    → Counts count mode
    → Ensures (Sequences count) (inspected_producer mode)
unfolding inspected_producer
inspected_producer-Ensures count unknown h = fails
inspected_producer-Ensures count non_idempotent h = holds tt
inspected_producer-Ensures count (idempotent i e f n) h = holds (omega (arith, h.0, h.1))

inspect-Ensures :
    (crc : Bytes → ℕ) (decompress : Compression → Bytes → Option Bytes) (records : Bytes)
    → Ensures IsInspected (inspect_record_batches crc decompress records)
unfolding inspect_record_batches
inspect-Ensures crc decompress records =
    Ensures-bind
      (inspect_batches-Ensures crc decompress records (suc (length records))
        (record { cursor = 0; record_count = 0; producer = unknown })
        (record { inside = omega arith; counts = refl; small = omega arith }) (omega arith))
      λ scan v.
        Ensures-bind (guard-Ensures (not (scan.record_count == 0)) unsupported_for_message_format)
          λ _ nonzero.
            Ensures-bind (inspected_producer-Ensures scan.record_count scan.producer v.counts)
              λ producer sequences. holds (record {
                some_records = some_records_of scan.record_count nonzero;
                small = v.small;
                sequences = sequences;
              })
  where
    some_records_of : (n : ℕ) → not (n == 0) ≡ true → 0 < n
    some_records_of n h = ground arith

-- On any bytes, with any checksum and any decompressor, the inspection returns an error, or fewer
-- than 2 ^ 32 records and at least one, whose sequences, from the first one of an idempotent producer,
-- are numbers of an i32: it does not panic, and its loop ends.
pub inspect_record_batches_total :
    (crc : Bytes → ℕ) (decompress : Compression → Bytes → Option Bytes) (records : Bytes)
    → ((e : ResponseError) × (inspect_record_batches crc decompress records ≡ err e))
      ⊎ ((r : InspectedRecordBatches) × (inspect_record_batches crc decompress records ≡ ok r)
          × IsInspected r)
inspect_record_batches_total crc decompress records =
    Ensures-cases (inspect-Ensures crc decompress records)
