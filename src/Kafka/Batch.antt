-- ===== src/Kafka/Batch.antt =====
-- crates/shard-stream-kafka/src/batch.rs: the record batches of a produce request are inspected.
-- The functions `crc` and `decompress` are of other packages.
pub mod Header
pub mod Writer
pub mod Round
pub mod Request
pub mod Fields
pub mod Total
use shard_stream.Prelude.{
  ℕ, zero, suc, ◌+◌, ◌-◌, ◌*◌, ◌/◌, ◌%◌, ◌^◌, Bool, true, false, ◌||◌, ◌&&◌, not, Option, none,
  some, List, [], ◌∷◌, if◌then◌else◌, ltb, leb, ◌==◌, length, take, drop, get_elem?, checked_add,
  checked_sub, usize_mod,
}
use shard_stream.Prelude.Bytes.{Bytes, slice}
use shard_stream.Prelude.Integers.{ℤ, pos, negsuc, signed, non_negative}
use shard_stream.Prelude.Maps.{option_eq}
use shard_stream.Prelude.Results.{Result, ok, err, panic, ◌>>=◌, ◌>>◌, guard, ok_or, expect}
use shard_stream.Engine.Model.{ProducerIdentity}
use shard_stream.Kafka.Record.{
  ResponseError, Compression, BatchHeader, take_bytes, read_byte, zigzag, read_shifts,
  varint_shifts, varlong_shifts, read_varint, read_varlong, skip_length, skip_nullable_bytes,
  skip_headers, inspect_record, inspect_frames, validate_record_frames, as_corrupt,
  validate_decoded, validate_as, validate_record_data, corrupt_message, message_too_large,
  unsupported_for_message_format, invalid_record, invalid_producer_epoch, uncompressed, gzip,
  snappy, lz4, zstd,
}

pub record InspectedRecordBatches : Type 0 where
  pub record_count : ℕ
  pub producer : Option ProducerIdentity

-- The numbers of an idempotent producer are not negative.
pub data ProducerMode : Type 0 where
  unknown non_idempotent : ProducerMode
  idempotent : (producer_id producer_epoch first_sequence next_sequence : ℕ) → ProducerMode

-- The value of big-endian bytes behind those read.
unfoldable pub be_onto : ℕ → Bytes → ℕ
be_onto value [] = value
be_onto value (b ∷ bs) = be_onto (256 * value + b) bs

-- `from_be_bytes` of an unsigned word.
abbrev pub from_be : Bytes → ℕ
from_be bytes = be_onto 0 bytes

abbrev pub read_i16 : Bytes → ℤ
read_i16 bytes = signed (2 ^ 15) (from_be bytes)

abbrev pub read_i32 : Bytes → ℤ
read_i32 bytes = signed (2 ^ 31) (from_be bytes)

abbrev pub read_u32 : Bytes → ℕ
read_u32 bytes = from_be bytes

abbrev pub read_i64 : Bytes → ℤ
read_i64 bytes = signed (2 ^ 63) (from_be bytes)

-- The low three bits of the attributes.
pub compression_of : ℕ → Result ResponseError Compression
compression_of bits =
    if bits == 0
    then ok uncompressed
    else if bits == 1
    then ok gzip
    else if bits == 2
    then ok snappy
    else if bits == 3
    then ok lz4
    else if bits == 4
    then ok zstd
    else err corrupt_message

-- `&body[from..to]`
abbrev pub part : Bytes → ℕ → ℕ → Result ResponseError Bytes
part body from to = expect (slice body from to)

abbrev pub index : Bytes → ℕ → Result ResponseError ℕ
index body i = expect (get_elem? body i)

-- The bits of the attributes are read from their unsigned word.
unfoldable pub inspect_header : (Bytes → ℕ) → Bytes → Result ResponseError BatchHeader
unfolding be_onto compression_of
inspect_header crc body = do
  guard (not (ltb (length body) 49)) corrupt_message
  magic ← index body 4
  guard (magic == 2) corrupt_message
  supplied ← part body 5 9
  covered ← part body 9 (length body)
  guard (crc covered == read_u32 supplied) corrupt_message
  bits ← part body 9 11
  let attributes = from_be bits
  guard (attributes / 16 % 2 == 0 && attributes / 32 % 2 == 0) unsupported_for_message_format
  compression ← compression_of (attributes % 8)
  delta ← part body 11 15
  id ← part body 31 39
  epoch ← part body 39 41
  base ← part body 41 45
  count ← part body 45 49
  record_count ← ok_or (non_negative (read_i32 count)) corrupt_message
  guard
      (not (record_count == 0)
        && option_eq ◌==◌ (non_negative (read_i32 delta)) (checked_sub record_count 1))
      corrupt_message
  ok (record {
    compression = compression;
    last_offset_delta = read_i32 delta;
    producer_id = read_i64 id;
    producer_epoch = read_i16 epoch;
    base_sequence = read_i32 base;
    record_count = record_count;
  })

abbrev pub int_eq : ℤ → ℤ → Bool
int_eq (pos m) (pos n) = m == n
int_eq (pos m) (negsuc n) = false
int_eq (negsuc m) (pos n) = false
int_eq (negsuc m) (negsuc n) = m == n

-- NO_PRODUCER_ID, NO_PRODUCER_EPOCH and NO_SEQUENCE.
abbrev pub minus_one : ℤ
minus_one = negsuc 0

-- `record_count` is not zero, and no sum reaches the limit of an i64 before that of an i32.
pub idempotent_mode : (id epoch base : ℤ) → ℕ → Result ResponseError ProducerMode
idempotent_mode (pos id) (pos epoch) (pos base) record_count = do
  last_sequence ← ok_or (checked_add (2 ^ 63) base (record_count - 1)) invalid_producer_epoch
  guard (not (ltb (2 ^ 31 - 1) last_sequence)) invalid_producer_epoch
  ok (idempotent id epoch base (last_sequence + 1))
idempotent_mode (pos id) (pos epoch) (negsuc base) record_count = err invalid_producer_epoch
idempotent_mode (pos id) (negsuc epoch) base record_count = err invalid_producer_epoch
idempotent_mode (negsuc id) epoch base record_count = err invalid_producer_epoch

pub batch_mode : BatchHeader → Result ResponseError ProducerMode
unfolding idempotent_mode
batch_mode h =
    if int_eq h.producer_id minus_one
    then (guard (int_eq h.producer_epoch minus_one && int_eq h.base_sequence minus_one)
          invalid_producer_epoch
        >> ok non_idempotent)
    else idempotent_mode h.producer_id h.producer_epoch h.base_sequence h.record_count

-- The match on the mode so far and that of the batch.
pub join_modes : ProducerMode → ProducerMode → Result ResponseError ProducerMode
join_modes unknown mode = ok mode
join_modes non_idempotent non_idempotent = ok non_idempotent
join_modes (idempotent i e f n) (idempotent id epoch first next) =
    if i == id && e == epoch && n == first
    then ok (idempotent i e f next)
    else err invalid_producer_epoch
join_modes non_idempotent unknown = err invalid_producer_epoch
join_modes non_idempotent (idempotent id epoch first next) = err invalid_producer_epoch
join_modes (idempotent i e f n) unknown = err invalid_producer_epoch
join_modes (idempotent i e f n) non_idempotent = err invalid_producer_epoch

unfoldable pub update_producer : ProducerMode → BatchHeader → Result ResponseError ProducerMode
unfolding batch_mode join_modes
update_producer aggregate header = do mode ← batch_mode header; join_modes aggregate mode

-- What the loop carries: the cursor, the number of records so far, and the mode of the producer.
pub record Scan : Type 0 where
  pub cursor : ℕ
  pub record_count : ℕ
  pub producer : ProducerMode

-- One round of the loop.
unfoldable pub inspect_batch :
    (Bytes → ℕ) → (Compression → Bytes → Option Bytes) → Bytes → Scan → Result ResponseError Scan
unfolding be_onto inspect_header validate_record_data update_producer
inspect_batch crc decompress records scan = do
  remaining ← ok_or (checked_sub (length records) scan.cursor) corrupt_message
  guard (not (ltb remaining 61)) corrupt_message
  outer ← part records scan.cursor (length records)
  word ← part outer 8 12
  batch_length ← ok_or (non_negative (read_i32 word)) corrupt_message
  guard (not (ltb batch_length 49)) corrupt_message
  total_length ← ok_or (checked_add usize_mod 12 batch_length) corrupt_message
  guard (not (ltb remaining total_length)) corrupt_message
  batch_end ← ok_or (checked_add usize_mod scan.cursor total_length) corrupt_message
  body ← part records (scan.cursor + 12) batch_end
  header ← inspect_header crc body
  record_data ← part records (scan.cursor + 61) batch_end
  validate_record_data decompress header record_data
  producer ← update_producer scan.producer header
  record_count ←
      ok_or (checked_add (2 ^ 32) scan.record_count header.record_count) message_too_large
  ok (record { cursor = batch_end; record_count = record_count; producer = producer })

-- The loop; a round passes its batch, so that one for each byte is enough.
pub inspect_batches :
    (Bytes → ℕ)
    → (Compression → Bytes → Option Bytes)
    → Bytes
    → ℕ
    → Scan
    → Result ResponseError Scan
unfolding inspect_batch
inspect_batches crc decompress records zero scan = panic
inspect_batches crc decompress records (suc fuel) scan =
    let more = inspect_batch crc decompress records scan >>= λ next.
    inspect_batches crc decompress records fuel next in
    if ltb scan.cursor (length records) then more else ok scan

pub inspected_producer : ProducerMode → Result ResponseError (Option ProducerIdentity)
inspected_producer (idempotent id epoch first next) =
    ok (some (record { producer_id = id; epoch = epoch; first_sequence = first; event_id = none }))
inspected_producer non_idempotent = ok none
inspected_producer unknown = err invalid_record

unfoldable pub inspect_record_batches :
    (Bytes → ℕ)
    → (Compression → Bytes → Option Bytes)
    → Bytes
    → Result ResponseError InspectedRecordBatches
unfolding inspect_batches inspected_producer
inspect_record_batches crc decompress records = do
  scan ←
      inspect_batches crc decompress records (suc (length records))
        (record { cursor = 0; record_count = 0; producer = unknown })
  guard (not (scan.record_count == 0)) unsupported_for_message_format
  producer ← inspected_producer scan.producer
  ok (record { record_count = scan.record_count; producer = producer })
