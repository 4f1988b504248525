-- ===== src/Kafka/Batch/Fields.antt =====
-- The header and the producer of a batch on any bytes (crates/shard-stream-kafka/src/batch.rs).
use shard_stream.Prelude.{
  ℕ, ◌+◌, ◌-◌, ◌^◌, ◌≤◌, ◌<◌, ◌≡◌, ◌/◌, ◌%◌, Bool, true, not, ◌&&◌, some, ltb, ◌==◌, length,
  get_elem?_total, checked_add, checked_sub, arith, ltb→le, not-true,
}
use shard_stream.Prelude.Bytes.{Bytes, slice-Sliced, slice_total}
use shard_stream.Prelude.Integers.{ℤ, pos, negsuc, non_negative}
use shard_stream.Prelude.Maps.{option_eq}
use shard_stream.Prelude.Results.{
  Any, Ensures, holds, fails, Ensures-bind, ok_or-Ensures, guard-Ensures, if-Ensures,
}
use shard_stream.Kafka.Record.{
  invalid_producer_epoch, corrupt_message, unsupported_for_message_format, BatchHeader,
}
use shard_stream.Kafka.Batch.{
  ProducerMode, unknown, non_idempotent, idempotent, compression_of, part, index, inspect_header,
  idempotent_mode, batch_mode, join_modes, update_producer, read_i32, from_be, int_eq, minus_one,
}

pub sum_of : (size a b : ℕ) {c : ℕ} → checked_add size a b ≡ some c → c ≡ a + b
sum_of size a b h = ground arith

compression_of-Ensures : (bits : ℕ) → Ensures Any (compression_of bits)
unfolding compression_of
compression_of-Ensures bits =
    if-Ensures (bits == 0) (λ _. holds tt)
      λ _.
        if-Ensures (bits == 1) (λ _. holds tt)
          λ _.
            if-Ensures (bits == 2) (λ _. holds tt)
              λ _.
                if-Ensures (bits == 3) (λ _. holds tt)
                  λ _. if-Ensures (bits == 4) (λ _. holds tt) (λ _. fails)

pub index-Ensures : (bytes : Bytes) (i : ℕ) → i < length bytes → Ensures Any (index bytes i)
index-Ensures bytes i h = let (b, e) = get_elem?_total bytes i h in rw e (holds tt)

pub part-Ensures :
    (bytes : Bytes) (from to : ℕ)
    → from ≤ to
    → to ≤ length bytes
    → Ensures (λ x. length x ≡ to - from) (part bytes from to)
part-Ensures bytes from to up inside =
    let (x, e) = slice_total bytes from to up inside in
    rw e (holds (slice-Sliced bytes from to x e).size)

some_of : (count : ℕ) (b : Bool) → (not (count == 0) && b) ≡ true → 0 < count
some_of count b h = ground arith

-- A header that is accepted has a record.
pub inspect_header-Ensures :
    (crc : Bytes → ℕ) (body : Bytes) → Ensures (λ h. 0 < h.record_count) (inspect_header crc body)
unfolding inspect_header
inspect_header-Ensures crc body =
    Ensures-bind (guard-Ensures (not (ltb (length body) 49)) corrupt_message) λ _ long.
      let n = ltb→le (length body) 49 (not-true _ long) in
      Ensures-bind (index-Ensures body 4 (omega arith)) λ magic _.
        Ensures-bind (guard-Ensures (magic == 2) corrupt_message) λ _ _.
          Ensures-bind (part-Ensures body 5 9 (omega arith) (omega arith)) λ supplied _.
            Ensures-bind (part-Ensures body 9 (length body) (omega arith) (omega arith))
              λ covered _.
                Ensures-bind (guard-Ensures (crc covered == from_be supplied) corrupt_message)
                  λ _ _. Ensures-bind (part-Ensures body 9 11 (omega arith) (omega arith)) λ bits _.
                    Ensures-bind
                      (guard-Ensures (from_be bits / 16 % 2 == 0 && from_be bits / 32 % 2 == 0)
                        unsupported_for_message_format)
                      λ _ _. Ensures-bind (compression_of-Ensures (from_be bits % 8)) λ _ _.
                        Ensures-bind (part-Ensures body 11 15 (omega arith) (omega arith)) λ d _.
                          Ensures-bind (part-Ensures body 31 39 (omega arith) (omega arith)) λ _ _.
                            Ensures-bind (part-Ensures body 39 41 (omega arith) (omega arith))
                              λ _ _.
                                Ensures-bind (part-Ensures body 41 45 (omega arith) (omega arith))
                                  λ _ _.
                                    Ensures-bind
                                      (part-Ensures body 45 49 (omega arith) (omega arith))
                                      λ c _.
                                        Ensures-bind
                                          (ok_or-Ensures (non_negative (read_i32 c))
                                            corrupt_message)
                                          λ count _.
                                            Ensures-bind
                                              (guard-Ensures
                                                (not (count == 0)
                                                  && option_eq ◌==◌ (non_negative (read_i32 d))
                                                      (checked_sub count 1))
                                                corrupt_message)
                                              λ _ some_records. holds (some_of count _ some_records)

-- The sequences of an idempotent producer run from the first one over the records so far, within the
-- numbers of an i32.
abbrev pub Counts : ℕ → ProducerMode → Type 0
Counts count unknown = count ≡ 0
Counts count non_idempotent = Unit {0}
Counts count (idempotent id epoch first next) = (first + count ≡ next) × (next ≤ 2 ^ 31)

idempotent_mode-Ensures :
    (id epoch base : ℤ) (count : ℕ)
    → 0 < count
    → Ensures (Counts count) (idempotent_mode id epoch base count)
unfolding idempotent_mode
idempotent_mode-Ensures (pos id) (pos epoch) (pos base) count positive =
    Ensures-bind (ok_or-Ensures (checked_add (2 ^ 63) base (count - 1)) _) λ last sum.
      Ensures-bind (guard-Ensures (not (ltb (2 ^ 31 - 1) last)) _) λ _ small.
        let fits : last ≤ 2 ^ 31 - 1 = ltb→le _ _ (not-true _ small) in
        let at : last ≡ base + (count - 1) = sum_of _ _ _ sum in
        holds (omega (arith, at, positive), omega (arith, fits))
idempotent_mode-Ensures (pos id) (pos epoch) (negsuc base) count positive = fails
idempotent_mode-Ensures (pos id) (negsuc epoch) base count positive = fails
idempotent_mode-Ensures (negsuc id) epoch base count positive = fails

batch_mode-Ensures :
    (h : BatchHeader) → 0 < h.record_count → Ensures (Counts h.record_count) (batch_mode h)
unfolding batch_mode
batch_mode-Ensures h positive =
    if-Ensures (int_eq h.producer_id minus_one)
      (λ _.
        Ensures-bind
          (guard-Ensures (int_eq h.producer_epoch minus_one && int_eq h.base_sequence minus_one)
            invalid_producer_epoch)
          λ _ _. holds tt)
      (λ _. idempotent_mode-Ensures h.producer_id h.producer_epoch h.base_sequence _ positive)

join_modes-Ensures :
    (before count : ℕ) (aggregate mode : ProducerMode)
    → Counts before aggregate
    → Counts count mode
    → 0 < count
    → Ensures (Counts (before + count)) (join_modes aggregate mode)
unfolding join_modes
join_modes-Ensures before count unknown unknown p q positive = absurd (omega (arith, q, positive))
join_modes-Ensures before count unknown non_idempotent p q positive = holds tt
join_modes-Ensures before count unknown (idempotent i e f n) p q positive =
    holds (omega (arith, p, q.0), q.1)
join_modes-Ensures before count non_idempotent non_idempotent p q positive = holds tt
join_modes-Ensures before count non_idempotent unknown p q positive = fails
join_modes-Ensures before count non_idempotent (idempotent i e f n) p q positive = fails
join_modes-Ensures before count (idempotent i e f n) unknown p q positive = fails
join_modes-Ensures before count (idempotent i e f n) non_idempotent p q positive = fails
join_modes-Ensures before count (idempotent i e f n) (idempotent j d g m) p q positive =
    if-Ensures (i == j && e == d && n == g)
      (λ same. let at : n ≡ g = ground arith in holds (omega (arith, p.0, q.0, at), q.1))
      (λ _. fails)

pub update_producer-Ensures :
    (before : ℕ) (aggregate : ProducerMode) (h : BatchHeader)
    → Counts before aggregate
    → 0 < h.record_count
    → Ensures (Counts (before + h.record_count)) (update_producer aggregate h)
unfolding update_producer
update_producer-Ensures before aggregate h counted positive =
    Ensures-bind (batch_mode-Ensures h positive)
      λ mode batch. join_modes-Ensures before h.record_count aggregate mode counted batch positive
