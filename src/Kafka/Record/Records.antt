-- ===== src/Kafka/Record/Records.antt =====
-- The inspection of the records of a batch does not panic on any bytes
-- (crates/shard-stream-kafka/src/batch.rs).
use shard_stream.Prelude.{
  ℕ, zero, suc, not, ◌&&◌, Option, none, some, List, [], ◌∷◌, ltb, ◌==◌, length, take, drop,
  get_elem?, ◌/◌,
}
use shard_stream.Prelude.Bytes.{Bytes}
use shard_stream.Prelude.Integers.{ℤ, pos, negsuc, non_negative}
use shard_stream.Prelude.Maps.{option_eq}
use shard_stream.Prelude.Results.{
  Result, ok, err, panic, Any, Ensures, holds, fails, Ensures-bind, ok_or-Ensures, guard-Ensures,
  if-Ensures, Ensures-weaken,
}
use shard_stream.Kafka.Record.{
  ResponseError, corrupt_message, Compression, uncompressed, gzip, snappy, lz4, zstd, BatchHeader,
  take_bytes, read_byte, read_shifts, read_varint, read_varlong, varint_shifts, varlong_shifts,
  skip_length, skip_nullable_bytes, skip_headers, inspect_record, inspect_frames,
  validate_record_frames, as_corrupt, validate_decoded, validate_record_data, validate_as,
}

take_bytes-Ensures : (n : ℕ) (input : Bytes) → Ensures Any (take_bytes n input)
unfolding take_bytes
take_bytes-Ensures n input = if-Ensures (ltb (length input) n) (λ _. fails) (λ _. holds tt)

read_byte-Ensures : (input : Bytes) → Ensures Any (read_byte input)
unfolding read_byte
read_byte-Ensures input =
    Ensures-bind (take_bytes-Ensures 1 input)
      λ r _. Ensures-bind (ok_or-Ensures (get_elem? r.0 0) corrupt_message) λ _ _. holds tt

read_shifts-Ensures :
    (last top : ℕ) (shifts : List ℕ) (value : ℕ) (input : Bytes)
    → Ensures Any (read_shifts last top shifts value input)
unfolding read_shifts
read_shifts-Ensures last top [] value input = fails
read_shifts-Ensures last top (shift ∷ shifts) value input =
    Ensures-bind (read_byte-Ensures input) λ r _.
      Ensures-bind (guard-Ensures (not (shift == last && not (r.0 / top == 0))) corrupt_message)
        λ _ _.
          if-Ensures (r.0 / 128 == 0) (λ _. holds tt)
            (λ _. read_shifts-Ensures last top shifts _ r.1)

read_varint-Ensures : (input : Bytes) → Ensures Any (read_varint input)
unfolding read_varint
read_varint-Ensures input = read_shifts-Ensures 28 16 varint_shifts 0 input

read_varlong-Ensures : (input : Bytes) → Ensures Any (read_varlong input)
unfolding read_varlong
read_varlong-Ensures input = read_shifts-Ensures 63 2 varlong_shifts 0 input

skip_length-Ensures : (n : ℤ) (input : Bytes) → Ensures Any (skip_length n input)
unfolding skip_length
skip_length-Ensures (pos n) input = Ensures-bind (take_bytes-Ensures n input) λ _ _. holds tt
skip_length-Ensures (negsuc n) input = if-Ensures (n == 0) (λ _. holds tt) (λ _. fails)

skip_nullable_bytes-Ensures : (input : Bytes) → Ensures Any (skip_nullable_bytes input)
unfolding skip_nullable_bytes
skip_nullable_bytes-Ensures input =
    Ensures-bind (read_varint-Ensures input) λ r _. skip_length-Ensures r.0 r.1

skip_headers-Ensures : (left : ℕ) (input : Bytes) → Ensures Any (skip_headers left input)
unfolding skip_headers
skip_headers-Ensures zero input = holds tt
skip_headers-Ensures (suc left) input = Ensures-bind (read_varint-Ensures input) λ r _.
    Ensures-bind (ok_or-Ensures (non_negative r.0) corrupt_message) λ n _.
      Ensures-bind (take_bytes-Ensures n r.1) λ t _.
        Ensures-bind (skip_nullable_bytes-Ensures t.1) λ rest _. skip_headers-Ensures left rest

inspect_record-Ensures : (bytes : Bytes) (delta : ℕ) → Ensures Any (inspect_record bytes delta)
unfolding inspect_record
inspect_record-Ensures bytes delta = Ensures-bind (take_bytes-Ensures 1 bytes) λ a _.
    Ensures-bind (read_varlong-Ensures a.1) λ t _. Ensures-bind (read_varint-Ensures t.1) λ d _.
      Ensures-bind (guard-Ensures (option_eq ◌==◌ (non_negative d.0) (some delta)) corrupt_message)
        λ _ _. Ensures-bind (skip_nullable_bytes-Ensures d.1) λ k _.
          Ensures-bind (skip_nullable_bytes-Ensures k) λ v _.
            Ensures-bind (read_varint-Ensures v) λ h _.
              Ensures-bind (ok_or-Ensures (non_negative h.0) corrupt_message) λ n _.
                Ensures-bind (skip_headers-Ensures n h.1)
                  λ rest _. Ensures-weaken (guard-Ensures _ _)

inspect_frames-Ensures :
    (left expected : ℕ) (bytes : Bytes) → Ensures Any (inspect_frames left expected bytes)
unfolding inspect_frames
inspect_frames-Ensures zero expected bytes = holds tt
inspect_frames-Ensures (suc left) expected bytes = Ensures-bind (read_varint-Ensures bytes) λ r _.
    Ensures-bind (ok_or-Ensures (non_negative r.0) corrupt_message) λ n _.
      Ensures-bind (guard-Ensures (not (ltb (length r.1) n)) corrupt_message) λ _ _.
        Ensures-bind (inspect_record-Ensures (take n r.1) expected)
          λ _ _. inspect_frames-Ensures left (suc expected) (drop n r.1)

validate_record_frames-Ensures :
    (bytes : Bytes) (header : BatchHeader) → Ensures Any (validate_record_frames bytes header)
unfolding validate_record_frames
validate_record_frames-Ensures bytes header =
    Ensures-bind (inspect_frames-Ensures header.record_count 0 bytes)
      λ rest _. Ensures-weaken (guard-Ensures _ _)

as_corrupt-Ensures :
    (r : Result ResponseError (Unit {0})) → Ensures Any r → Ensures Any (as_corrupt r)
unfolding as_corrupt
as_corrupt-Ensures (ok u) h = holds tt
as_corrupt-Ensures (err e) h = fails
as_corrupt-Ensures panic h = h

validate_decoded-Ensures :
    (header : BatchHeader) (decoded : Option Bytes) → Ensures Any (validate_decoded header decoded)
unfolding validate_decoded
validate_decoded-Ensures header none = fails
validate_decoded-Ensures header (some bytes) =
    as_corrupt-Ensures _ (validate_record_frames-Ensures bytes header)

validate_as-Ensures :
    (decompress : Compression → Bytes → Option Bytes) (header : BatchHeader) (bytes : Bytes)
    (compression : Compression)
    → Ensures Any (validate_as decompress header bytes compression)
unfolding validate_as
validate_as-Ensures decompress header bytes uncompressed =
    validate_record_frames-Ensures bytes header
validate_as-Ensures decompress header bytes gzip =
    validate_decoded-Ensures header (decompress gzip bytes)
validate_as-Ensures decompress header bytes snappy =
    validate_decoded-Ensures header (decompress snappy bytes)
validate_as-Ensures decompress header bytes lz4 =
    validate_decoded-Ensures header (decompress lz4 bytes)
validate_as-Ensures decompress header bytes zstd =
    validate_decoded-Ensures header (decompress zstd bytes)

pub validate_record_data-Ensures :
    (decompress : Compression → Bytes → Option Bytes) (header : BatchHeader) (bytes : Bytes)
    → Ensures Any (validate_record_data decompress header bytes)
unfolding validate_record_data
validate_record_data-Ensures decompress header bytes =
    validate_as-Ensures decompress header bytes header.compression
