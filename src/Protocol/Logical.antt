-- ===== src/Protocol/Logical.antt =====
-- crates/shard-stream-protocol/src/logical.rs: topic bindings, and the cursor of a logical topic with
-- its binary and its hexadecimal form. The CRC-32 of a crate is the argument `crc`.
pub mod Decode
pub mod RoundTrip
pub mod Hex
use Prim.Native.Nat.{bit_or}
use shard_stream.Prelude.{
  ℕ, zero, suc, ◌+◌, ◌-◌, ◌*◌, ◌/◌, ◌%◌, Bool, true, false, ◌&&◌, ◌||◌, not, Option, none, some,
  List, [], ◌∷◌, ◌++◌, ltb, leb, ◌==◌, if◌then◌else◌, length, take, drop, checked_add, checked_sub,
  try_from, u32_mod, usize_mod,
}
use shard_stream.Prelude.Bytes.{Bytes, le_bytes, from_le, bytes_eq, slice}
use shard_stream.Prelude.Results.{Result, ok, err, panic, ◌>>=◌, ◌>>◌, guard, ok_or, expect}
use shard_stream.Core.Model.{TopicId, TopicPartition, LogicalOffset}

pub data TopicHaMode : Type 0 where
  active_passive active_active : TopicHaMode

pub record ActiveActiveCursorPosition : Type 0 where
  pub origin_id : ℕ
  pub writer_epoch : ℕ
  pub next_sequence : ℕ

pub data LogicalCursorPosition : Type 0 where
  passive_position : (next_offset : LogicalOffset) → LogicalCursorPosition
  active_position :
      (membership_epoch : ℕ) (positions : List ActiveActiveCursorPosition) → LogicalCursorPosition

pub record LogicalTopicCursor : Type 0 where
  pub topic_partition : TopicPartition
  pub data_generation : ℕ
  pub position : LogicalCursorPosition

pub data LogicalCursorError : Type 0 where
  truncated invalid_magic : LogicalCursorError
  unsupported_version invalid_mode : ℕ → LogicalCursorError
  reserved_bits checksum_mismatch invalid_generation invalid_membership_epoch : LogicalCursorError
  empty_origins too_many_origins origins_not_canonical invalid_writer_epoch : LogicalCursorError
  length_overflow trailing_bytes invalid_hex : LogicalCursorError

-- "SSCURS01"
abbrev pub cursor_magic : Bytes
cursor_magic = 83 ∷ 83 ∷ 67 ∷ 85 ∷ 82 ∷ 83 ∷ 48 ∷ 49 ∷ []

abbrev pub cursor_version : ℕ
cursor_version = 1

abbrev pub max_cursor_origins : ℕ
max_cursor_origins = 1024

pub decode_mode : ℕ → Result LogicalCursorError TopicHaMode
decode_mode value =
    if value == 1
    then ok active_passive
    else if value == 2
    then ok active_active
    else err (invalid_mode value)

abbrev pub mode_byte : LogicalCursorPosition → ℕ
mode_byte (passive_position next_offset) = 1
mode_byte (active_position membership_epoch positions) = 2

-- `windows(2).any(…)`: the identifiers do not grow somewhere.
pub unsorted : List ActiveActiveCursorPosition → Bool
unsorted [] = false
unsorted (p ∷ []) = false
unsorted (p ∷ (q ∷ ps)) = leb q.origin_id p.origin_id || unsorted (q ∷ ps)

pub any_zero_epoch : List ActiveActiveCursorPosition → Bool
any_zero_epoch [] = false
any_zero_epoch (p ∷ ps) = p.writer_epoch == 0 || any_zero_epoch ps

pub validate_position : LogicalCursorPosition → Result LogicalCursorError (Unit {0})
unfolding unsorted any_zero_epoch
validate_position (passive_position next_offset) = ok tt
validate_position (active_position membership_epoch positions) = do
  guard (not (membership_epoch == 0)) invalid_membership_epoch
  guard (not (length positions == 0)) empty_origins
  guard (not (ltb max_cursor_origins (length positions))) too_many_origins
  guard (not (unsorted positions)) origins_not_canonical
  guard (not (any_zero_epoch positions)) invalid_writer_epoch

unfoldable pub validate : LogicalTopicCursor → Result LogicalCursorError (Unit {0})
unfolding validate_position
validate c = do
  guard (not (c.data_generation == 0)) invalid_generation
  validate_position c.position

pub positions_bytes : List ActiveActiveCursorPosition → Bytes
positions_bytes [] = []
positions_bytes (p ∷ ps) =
    le_bytes 4 p.origin_id
    ++ (le_bytes 4 p.writer_epoch ++ (le_bytes 8 p.next_sequence ++ positions_bytes ps))

pub position_bytes : LogicalCursorPosition → Result LogicalCursorError Bytes
unfolding positions_bytes
position_bytes (passive_position next_offset) = ok (le_bytes 8 next_offset)
position_bytes (active_position membership_epoch positions) = do
  count ← ok_or (try_from u32_mod (length positions)) too_many_origins
  ok (le_bytes 8 membership_epoch ++ (le_bytes 4 count ++ positions_bytes positions))

-- The bytes before the position.
pub head_bytes : LogicalTopicCursor → Bytes → Bytes
head_bytes c rest =
    cursor_magic
    ++ (le_bytes 2 cursor_version
        ++ (mode_byte c.position
            ∷ 0
            ∷ (le_bytes 16 c.topic_partition.topic_id
                ++ (le_bytes 4 c.topic_partition.partition_id
                    ++ (le_bytes 8 c.data_generation ++ rest)))))

-- `origin_bytes`, which only sizes the buffer.
pub origin_bytes : LogicalCursorPosition → Result LogicalCursorError ℕ
origin_bytes (passive_position next_offset) = ok 0
origin_bytes (active_position membership_epoch positions) =
    ok_or (try_from usize_mod (length positions * 16)) length_overflow

unfoldable pub encode : (Bytes → ℕ) → LogicalTopicCursor → Result LogicalCursorError Bytes
unfolding position_bytes head_bytes origin_bytes
encode crc c = do
  validate c
  size ← origin_bytes c.position
  position ← position_bytes c.position
  let bytes = head_bytes c position
  ok (bytes ++ le_bytes 4 (crc bytes))

pub record Decoder : Type 0 where
  pub bytes : Bytes
  pub cursor : ℕ

pub is_empty : Decoder → Bool
is_empty d = d.cursor == length d.bytes

pub take_bytes : ℕ → Decoder → Result LogicalCursorError (Bytes × Decoder)
take_bytes len d = do
  end ← ok_or (checked_add usize_mod d.cursor len) length_overflow
  bytes ← ok_or (slice d.bytes d.cursor end) truncated
  ok (bytes, record d { cursor = end })

-- `u8`, `u16`, `u32`, `u64` and `u128`, by the width.
pub word : ℕ → Decoder → Result LogicalCursorError (ℕ × Decoder)
unfolding take_bytes
word width d = do (bytes, d') ← take_bytes width d; ok (from_le bytes, d')

pub read_positions :
    ℕ → Decoder → Result LogicalCursorError (List ActiveActiveCursorPosition × Decoder)
read_positions zero d = ok ([], d)
read_positions (suc count) d = do
  (origin_id, d1) ← word 4 d
  (writer_epoch, d2) ← word 4 d1
  (next_sequence, d3) ← word 8 d2
  (positions, d4) ← read_positions count d3
  ok (
    record { origin_id = origin_id; writer_epoch = writer_epoch; next_sequence = next_sequence }
        ∷ positions,
    d4,
  )

pub read_position :
    TopicHaMode → Decoder → Result LogicalCursorError (LogicalCursorPosition × Decoder)
unfolding read_positions
read_position active_passive d = do
  (next_offset, d') ← word 8 d
  ok (passive_position next_offset, d')
read_position active_active d = do
  (membership_epoch, d1) ← word 8 d
  (count, d2) ← word 4 d1
  guard (not (ltb max_cursor_origins count)) too_many_origins
  (positions, d3) ← read_positions count d2
  ok (active_position membership_epoch positions, d3)

-- The body under the checksum.
pub decode_body : Decoder → Result LogicalCursorError LogicalTopicCursor
unfolding is_empty decode_mode read_position validate
decode_body d = do
  (got, d1) ← take_bytes 8 d
  guard (bytes_eq got cursor_magic) invalid_magic
  (version, d2) ← word 2 d1
  guard (version == cursor_version) (unsupported_version version)
  (value, d3) ← word 1 d2
  mode ← decode_mode value
  (reserved, d4) ← word 1 d3
  guard (reserved == 0) reserved_bits
  (topic_id, d5) ← word 16 d4
  (partition_id, d6) ← word 4 d5
  (data_generation, d7) ← word 8 d6
  (position, d8) ← read_position mode d7
  guard (is_empty d8) trailing_bytes
  let cursor : LogicalTopicCursor = record {
    topic_partition = record { topic_id = topic_id; partition_id = partition_id };
    data_generation = data_generation;
    position = position;
  }
  validate cursor
  ok cursor

unfoldable pub decode : (Bytes → ℕ) → Bytes → Result LogicalCursorError LogicalTopicCursor
unfolding decode_body
decode crc bytes = do
  guard (not (ltb (length bytes) 52)) truncated
  body_len ← ok_or (checked_sub (length bytes) 4) truncated
  guard (crc (take body_len bytes) == from_le (drop body_len bytes)) checksum_mismatch
  decode_body (record { bytes = take body_len bytes; cursor = 0 })

-- `write!(…, "{byte:02x}")`
pub hex_digit : ℕ → ℕ
hex_digit n = if ltb n 10 then 48 + n else 87 + n

pub hex : Bytes → Bytes
unfolding hex_digit
hex [] = []
hex (b ∷ bs) = hex_digit (b / 16) ∷ hex_digit (b % 16) ∷ hex bs

unfoldable pub encode_hex : (Bytes → ℕ) → LogicalTopicCursor → Result LogicalCursorError Bytes
unfolding hex
encode_hex crc c = do bytes ← encode crc c; ok (hex bytes)

pub decode_hex_nibble : ℕ → Option ℕ
decode_hex_nibble value =
    if leb 48 value && leb value 57
    then some (value - 48)
    else if leb 97 value && leb value 102
    then some (value - 97 + 10)
    else if leb 65 value && leb value 70
    then some (value - 65 + 10)
    else none

-- The loop over the pairs.
pub unhex : Bytes → Result LogicalCursorError Bytes
unfolding decode_hex_nibble
unhex [] = ok []
unhex (a ∷ []) = ok []
unhex (a ∷ (b ∷ rest)) = do
  high ← ok_or (decode_hex_nibble a) invalid_hex
  low ← ok_or (decode_hex_nibble b) invalid_hex
  bytes ← unhex rest
  ok (bit_or (high * 16) low ∷ bytes)

unfoldable pub decode_hex : (Bytes → ℕ) → Bytes → Result LogicalCursorError LogicalTopicCursor
unfolding unhex
decode_hex crc encoded = do
  guard (length encoded % 2 == 0) invalid_hex
  bytes ← unhex encoded
  decode crc bytes
