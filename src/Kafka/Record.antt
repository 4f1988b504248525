-- ===== src/Kafka/Record.antt =====
-- crates/shard-stream-kafka/src/batch.rs: the records of a batch are inspected without a copy. The
-- function `decompress` is of other packages.
pub mod Varint
pub mod Records
pub mod Accepts
use shard_stream.Prelude.{
  ℕ, zero, suc, ◌+◌, ◌-◌, ◌*◌, ◌/◌, ◌%◌, ◌^◌, Bool, true, false, ◌||◌, ◌&&◌, not, Option, none,
  some, List, [], ◌∷◌, if◌then◌else◌, ltb, leb, ◌==◌, length, take, drop, get_elem?, checked_add,
  checked_sub, usize_mod,
}
use shard_stream.Prelude.Bytes.{Bytes, slice}
use shard_stream.Prelude.Integers.{ℤ, pos, negsuc, signed, non_negative}
use shard_stream.Prelude.Maps.{option_eq}
use shard_stream.Prelude.Results.{Result, ok, err, panic, ◌>>=◌, ◌>>◌, guard, ok_or, expect}
use shard_stream.Engine.Model.{ProducerIdentity}

pub data ResponseError : Type 0 where
  corrupt_message message_too_large unsupported_for_message_format : ResponseError
  invalid_record invalid_producer_epoch : ResponseError

pub data Compression : Type 0 where
  uncompressed gzip snappy lz4 zstd : Compression

pub record BatchHeader : Type 0 where
  pub compression : Compression
  pub last_offset_delta : ℤ
  pub producer_id : ℤ
  pub producer_epoch : ℤ
  pub base_sequence : ℤ
  pub record_count : ℕ

-- A reader returns what is left of its input beside its value.
unfoldable pub take_bytes : ℕ → Bytes → Result ResponseError (Bytes × Bytes)
take_bytes n input =
    if ltb (length input) n then err corrupt_message else ok (take n input, drop n input)

unfoldable pub read_byte : Bytes → Result ResponseError (ℕ × Bytes)
unfolding take_bytes
read_byte input = do
  (taken, rest) ← take_bytes 1 input
  b ← ok_or (get_elem? taken 0) corrupt_message
  ok (b, rest)

-- `(value >> 1) ^ -(value & 1)`: an odd value is the complement of its half.
abbrev pub zigzag : ℕ → ℤ
zigzag value = if value % 2 == 0 then pos (value / 2) else negsuc (value / 2)

-- The loop over the shifts: at the last one the byte is below `top`. The value has no bit at or above
-- the shift, so that the bits are added.
unfoldable pub read_shifts : (last top : ℕ) → List ℕ → ℕ → Bytes → Result ResponseError (ℤ × Bytes)
unfolding read_byte
read_shifts last top [] value input = err corrupt_message
read_shifts last top (shift ∷ shifts) value input = read_byte input >>= λ (b, rest).
    guard (not (shift == last && not (b / top == 0))) corrupt_message
    >> (let next = value + b % 128 * 2 ^ shift in
        let more = read_shifts last top shifts next rest in
        if b / 128 == 0 then ok (zigzag next, rest) else more)

abbrev pub varint_shifts : List ℕ
varint_shifts = 0 ∷ 7 ∷ 14 ∷ 21 ∷ 28 ∷ []

abbrev pub varlong_shifts : List ℕ
varlong_shifts = 0 ∷ 7 ∷ 14 ∷ 21 ∷ 28 ∷ 35 ∷ 42 ∷ 49 ∷ 56 ∷ 63 ∷ []

unfoldable pub read_varint : Bytes → Result ResponseError (ℤ × Bytes)
unfolding read_shifts
read_varint input = read_shifts 28 16 varint_shifts 0 input

unfoldable pub read_varlong : Bytes → Result ResponseError (ℤ × Bytes)
unfolding read_shifts
read_varlong input = read_shifts 63 2 varlong_shifts 0 input

pub skip_length : ℤ → Bytes → Result ResponseError Bytes
unfolding take_bytes
skip_length (pos n) input = take_bytes n input >>= λ (taken, rest). ok rest
skip_length (negsuc n) input = if n == 0 then ok input else err corrupt_message

unfoldable pub skip_nullable_bytes : Bytes → Result ResponseError Bytes
unfolding read_varint skip_length
skip_nullable_bytes input = do (n, rest) ← read_varint input; skip_length n rest

-- The loop over the headers of a record.
pub skip_headers : ℕ → Bytes → Result ResponseError Bytes
unfolding read_varint skip_nullable_bytes take_bytes
skip_headers zero input = ok input
skip_headers (suc left) input = do
  (key, rest) ← read_varint input
  key_length ← ok_or (non_negative key) corrupt_message
  (taken, rest) ← take_bytes key_length rest
  rest ← skip_nullable_bytes rest
  skip_headers left rest

unfoldable pub inspect_record : Bytes → ℕ → Result ResponseError (Unit {0})
unfolding take_bytes read_varlong read_varint skip_nullable_bytes skip_headers
inspect_record bytes expected_delta = do
  (attributes, rest) ← take_bytes 1 bytes
  (timestamp, rest) ← read_varlong rest
  (offset_delta, rest) ← read_varint rest
  guard (option_eq ◌==◌ (non_negative offset_delta) (some expected_delta)) corrupt_message
  rest ← skip_nullable_bytes rest
  rest ← skip_nullable_bytes rest
  (headers, rest) ← read_varint rest
  header_count ← ok_or (non_negative headers) corrupt_message
  rest ← skip_headers header_count rest
  guard (length rest == 0) corrupt_message

-- The loop over the records, the next of which has the delta `expected_delta`.
pub inspect_frames : ℕ → ℕ → Bytes → Result ResponseError Bytes
unfolding read_varint inspect_record
inspect_frames zero expected_delta bytes = ok bytes
inspect_frames (suc left) expected_delta bytes = do
  (n, rest) ← read_varint bytes
  size ← ok_or (non_negative n) corrupt_message
  guard (not (ltb (length rest) size)) corrupt_message
  inspect_record (take size rest) expected_delta
  inspect_frames left (suc expected_delta) (drop size rest)

unfoldable pub validate_record_frames : Bytes → BatchHeader → Result ResponseError (Unit {0})
unfolding inspect_frames
validate_record_frames bytes header = do
  rest ← inspect_frames header.record_count 0 bytes
  guard
      (length rest == 0
        && option_eq ◌==◌ (non_negative header.last_offset_delta)
            (checked_sub header.record_count 1))
      corrupt_message

-- `result.map_err(…)`
pub as_corrupt : Result ResponseError (Unit {0}) → Result ResponseError (Unit {0})
as_corrupt (ok u) = ok tt
as_corrupt (err e) = err corrupt_message
as_corrupt panic = panic

-- A decompressor hands the decoded bytes to the check, or fails before.
pub validate_decoded : BatchHeader → Option Bytes → Result ResponseError (Unit {0})
unfolding validate_record_frames as_corrupt
validate_decoded header (some decoded) = as_corrupt (validate_record_frames decoded header)
validate_decoded header none = err corrupt_message

-- The match on the compression.
unfoldable pub validate_as :
    (Compression → Bytes → Option Bytes)
    → BatchHeader
    → Bytes
    → Compression
    → Result ResponseError (Unit {0})
unfolding validate_record_frames validate_decoded
validate_as decompress header bytes uncompressed = validate_record_frames bytes header
validate_as decompress header bytes gzip = validate_decoded header (decompress gzip bytes)
validate_as decompress header bytes snappy = validate_decoded header (decompress snappy bytes)
validate_as decompress header bytes lz4 = validate_decoded header (decompress lz4 bytes)
validate_as decompress header bytes zstd = validate_decoded header (decompress zstd bytes)

unfoldable pub validate_record_data :
    (Compression → Bytes → Option Bytes) → BatchHeader → Bytes → Result ResponseError (Unit {0})
unfolding validate_as
validate_record_data decompress header bytes =
    validate_as decompress header bytes header.compression
