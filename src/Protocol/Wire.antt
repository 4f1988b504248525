-- ===== src/Protocol/Wire.antt =====
-- crates/shard-stream-protocol/src/wire.rs: the append receipt and the frames of a fetch. The CRC-32
-- of a crate is the argument `crc`. A buffer in memory is shorter than `usize::MAX`.
pub mod Receipt
pub mod Body
pub mod Frame
pub mod RoundTrip
pub mod Total
use shard_stream.Prelude.{
  ℕ, zero, suc, ◌+◌, ◌-◌, Bool, true, false, ◌&&◌, ◌||◌, not, Option, none, some, List, [], ◌∷◌,
  ◌++◌, ltb, ◌==◌, if◌then◌else◌, length, take, drop, get_elem?, checked_add, checked_sub, try_from,
  u64_mod, usize_mod,
}
use shard_stream.Prelude.Bytes.{Bytes, le_bytes, from_le, bytes_eq, slice}
use shard_stream.Prelude.Maps.{option_eq}
use shard_stream.Prelude.Results.{Result, ok, err, panic, ◌>>=◌, ◌>>◌, guard, ok_or, expect}
use shard_stream.Core.Model.{BatchId, LogicalOffset, RecordId, Placement}
use shard_stream.Engine.Model.{AppendResponse, AtomicGroupIdentity}

-- "SSB5", "SAR1"
abbrev pub magic : Bytes
magic = 83 ∷ 83 ∷ 66 ∷ 53 ∷ []

abbrev pub append_response_magic : Bytes
append_response_magic = 83 ∷ 65 ∷ 82 ∷ 49 ∷ []

abbrev pub version : ℕ
version = 5

abbrev pub prefix_len : ℕ
prefix_len = 16

abbrev pub body_fixed_len : ℕ
body_fixed_len = 136

abbrev pub header_len : ℕ
header_len = 152

abbrev pub crc_len : ℕ
crc_len = 4

abbrev pub append_response_len : ℕ
append_response_len = 108

pub record NativeFetchBatch : Type 0 where
  pub request_id : ℕ
  pub batch_id : BatchId
  pub event_id : Option RecordId
  pub atomic_group : Option AtomicGroupIdentity
  pub first_offset : LogicalOffset
  pub last_offset : LogicalOffset
  pub record_count : ℕ
  pub placement : Placement
  pub payload : Bytes

pub data WireError : Type 0 where
  frame_too_large truncated invalid_magic : WireError
  unsupported_version : ℕ → WireError
  unsupported_flags : ℕ → WireError
  invalid_header_length invalid_frame_length checksum_mismatch : WireError
  invalid_record_range trailing_bytes : WireError

-- `read_u32`, `read_u64` and `read_u128`, by the width.
pub read : ℕ → Bytes → ℕ → Result WireError ℕ
read width bytes offset = do
  end ← ok_or (checked_add usize_mod offset width) truncated
  field ← ok_or (slice bytes offset end) truncated
  ok (from_le field)

-- `bytes[i]`
abbrev pub index : Bytes → ℕ → Result WireError ℕ
index bytes i = expect (get_elem? bytes i)

pub placement_bytes : Placement → Bytes → Bytes
placement_bytes p rest =
    le_bytes 4 p.virtual_lane_id
    ++ (le_bytes 8 p.ring_epoch ++ (le_bytes 8 p.leader_epoch ++ (le_bytes 8 p.sequence ++ rest)))

unfoldable pub encode_append_response : AppendResponse → Bytes
unfolding placement_bytes
encode_append_response r =
    append_response_magic
    ++ (1
        ∷ 0
        ∷ (le_bytes 2 append_response_len
            ++ (le_bytes 16 r.request_id
                ++ (le_bytes 16 r.batch_id
                    ++ (le_bytes 16 r.record_id
                        ++ (le_bytes 8 r.first_offset
                            ++ (le_bytes 8 r.last_offset
                                ++ (le_bytes 8 r.visible_through
                                    ++ placement_bytes r.placement []))))))))

pub read_placement : Bytes → ℕ → ℕ → ℕ → ℕ → Result WireError Placement
read_placement bytes lane ring leader sequence = do
  virtual_lane_id ← read 4 bytes lane
  ring_epoch ← read 8 bytes ring
  leader_epoch ← read 8 bytes leader
  sequence' ← read 8 bytes sequence
  ok (record {
    virtual_lane_id = virtual_lane_id;
    ring_epoch = ring_epoch;
    leader_epoch = leader_epoch;
    sequence = sequence';
  })

pub read_receipt : Bytes → Result WireError AppendResponse
unfolding read_placement
read_receipt bytes = do
  request_id ← read 16 bytes 8
  batch_id ← read 16 bytes 24
  record_id ← read 16 bytes 40
  first_offset ← read 8 bytes 56
  last_offset ← read 8 bytes 64
  visible_through ← read 8 bytes 72
  placement ← read_placement bytes 80 84 92 100
  ok (record {
    request_id = request_id;
    batch_id = batch_id;
    record_id = record_id;
    first_offset = first_offset;
    last_offset = last_offset;
    visible_through = visible_through;
    placement = placement;
  })

unfoldable pub decode_append_response : Bytes → Result WireError AppendResponse
unfolding read read_receipt
decode_append_response bytes = do
  guard (not (ltb (length bytes) append_response_len)) truncated
  guard (length bytes == append_response_len) invalid_frame_length
  guard (bytes_eq (take 4 bytes) append_response_magic) invalid_magic
  got ← index bytes 4
  guard (got == 1) (unsupported_version got)
  flags ← index bytes 5
  guard (flags == 0) (unsupported_flags flags)
  size ← expect (slice bytes 6 8)
  guard (from_le size == append_response_len) invalid_header_length
  read_receipt bytes

-- The presence byte, three bytes of padding, and the value.
pub event_bytes : Option RecordId → Bytes → Bytes
event_bytes none rest = le_bytes 20 0 ++ rest
event_bytes (some e) rest = 1 ∷ 0 ∷ 0 ∷ 0 ∷ (le_bytes 16 e ++ rest)

pub group_bytes : Option AtomicGroupIdentity → Bytes → Bytes
group_bytes none rest = le_bytes 28 0 ++ rest
group_bytes (some g) rest =
    1 ∷ 0 ∷ 0 ∷ 0 ∷ (le_bytes 16 g.transaction_id ++ (le_bytes 8 g.chunk_sequence ++ rest))

pub prefix_bytes : ℕ → Bytes
prefix_bytes frame_len = magic ++ (version ∷ 0 ∷ (le_bytes 2 header_len ++ le_bytes 8 frame_len))

pub fixed_bytes : NativeFetchBatch → Bytes
unfolding placement_bytes event_bytes group_bytes
fixed_bytes b =
    le_bytes 16 b.request_id
    ++ (le_bytes 16 b.batch_id
        ++ (le_bytes 8 b.first_offset
            ++ (le_bytes 8 b.last_offset
                ++ (le_bytes 4 b.record_count
                    ++ placement_bytes b.placement (
                        event_bytes b.event_id
                          (group_bytes b.atomic_group (le_bytes 8 (length b.payload))))))))

pub header_bytes : NativeFetchBatch → ℕ → Bytes
unfolding prefix_bytes fixed_bytes
header_bytes b frame_len = prefix_bytes frame_len ++ fixed_bytes b

-- `EncodedFetchResponse`
pub record EncodedFetchResponse : Type 0 where
  pub encoded_len : ℕ
  pub segments : List Bytes

pub encode_segments :
    (Bytes → ℕ)
    → ℕ
    → EncodedFetchResponse
    → List NativeFetchBatch
    → Result WireError EncodedFetchResponse
unfolding header_bytes
encode_segments crc max_output_bytes out [] = ok out
encode_segments crc max_output_bytes out (batch ∷ batches) = do
  with_payload ← ok_or (checked_add usize_mod header_len (length batch.payload)) frame_too_large
  frame_len ← ok_or (checked_add usize_mod with_payload crc_len) frame_too_large
  encoded_len ← ok_or (checked_add usize_mod out.encoded_len frame_len) frame_too_large
  guard (not (ltb max_output_bytes encoded_len)) frame_too_large
  frame_len_u64 ← ok_or (try_from u64_mod frame_len) frame_too_large
  payload_len_u64 ← ok_or (try_from u64_mod (length batch.payload)) frame_too_large
  let header = header_bytes batch frame_len_u64
  let checksum = crc (header ++ batch.payload)
  encode_segments crc max_output_bytes
      (record {
        encoded_len = encoded_len;
        segments = out.segments ++ (header ∷ batch.payload ∷ le_bytes 4 checksum ∷ []);
      })
      batches

unfoldable pub encode_fetch_batches_segmented :
    (Bytes → ℕ) → List NativeFetchBatch → ℕ → Result WireError EncodedFetchResponse
unfolding encode_segments
encode_fetch_batches_segmented crc batches max_output_bytes =
    encode_segments crc max_output_bytes (record { encoded_len = 0; segments = [] }) batches

pub concat : List Bytes → Bytes
concat [] = []
concat (s ∷ ss) = s ++ concat ss

unfoldable pub encode_fetch_batches :
    (Bytes → ℕ) → List NativeFetchBatch → ℕ → Result WireError Bytes
unfolding encode_fetch_batches_segmented concat
encode_fetch_batches crc batches max_output_bytes = do
  response ← encode_fetch_batches_segmented crc batches max_output_bytes
  ok (concat response.segments)

-- The length of a frame, checked.
pub read_length : ℕ → ℕ → Result WireError ℕ
read_length max_frame_bytes frame_len_u64 = do
  frame_len ← ok_or (try_from usize_mod frame_len_u64) frame_too_large
  guard (not (ltb frame_len (header_len + crc_len) || ltb max_frame_bytes frame_len))
      invalid_frame_length
  ok frame_len

-- The first bytes of a frame, with the frame's length.
pub read_prefix : Bytes → ℕ → Result WireError ℕ
unfolding read_length
read_prefix prefix max_frame_bytes = do
  guard (bytes_eq (take 4 prefix) magic) invalid_magic
  got ← index prefix 4
  guard (got == version) (unsupported_version got)
  flags ← index prefix 5
  guard (flags == 0) (unsupported_flags flags)
  size ← expect (slice prefix 6 8)
  guard (from_le size == header_len) invalid_header_length
  width ← expect (slice prefix 8 16)
  read_length max_frame_bytes (from_le width)

-- `&frame[frame.len() - CRC_LEN..]`
pub check_crc : (Bytes → ℕ) → Bytes → Result WireError (Unit {0})
check_crc crc frame = do
  end ← expect (checked_sub (length frame) crc_len)
  guard (crc (take end frame) == from_le (drop end frame)) checksum_mismatch

pub read_event : ℕ → RecordId → Result WireError (Option RecordId)
read_event present event_id =
    if present == 0 && event_id == 0
    then ok none
    else if present == 1
    then ok (some event_id)
    else err invalid_frame_length

pub read_group : ℕ → ℕ → ℕ → Result WireError (Option AtomicGroupIdentity)
read_group present transaction_id chunk_sequence =
    if present == 0 && transaction_id == 0 && chunk_sequence == 0
    then ok none
    else if present == 1
    then ok (some (record { transaction_id = transaction_id; chunk_sequence = chunk_sequence }))
    else err invalid_frame_length

-- The padding behind a presence byte.
abbrev pub padding : Bytes → ℕ → ℕ → Result WireError (Unit {0})
padding body from to = do
  pad ← expect (slice body from to)
  guard (bytes_eq pad (0 ∷ 0 ∷ 0 ∷ [])) invalid_frame_length

-- The fields of a body, without the payload, and the length of the payload.
pub read_body : Bytes → Result WireError (NativeFetchBatch × ℕ)
unfolding read_placement read_event read_group
read_body body = do
  guard (not (ltb (length body) body_fixed_len)) truncated
  request_id ← read 16 body 0
  batch_id ← read 16 body 16
  first_offset ← read 8 body 32
  last_offset ← read 8 body 40
  record_count ← read 4 body 48
  guard (not (record_count == 0)) invalid_record_range
  placement ← read_placement body 52 56 64 72
  event_present ← index body 80
  padding body 81 84
  event ← read 16 body 84
  event_id ← read_event event_present event
  group_present ← index body 100
  padding body 101 104
  transaction_id ← read 16 body 104
  chunk_sequence ← read 8 body 120
  atomic_group ← read_group group_present transaction_id chunk_sequence
  width ← read 8 body 128
  payload_len ← ok_or (try_from usize_mod width) frame_too_large
  guard (option_eq ◌==◌ (checked_add u64_mod first_offset (record_count - 1)) (some last_offset))
      invalid_record_range
  ok (
    record {
      request_id = request_id;
      batch_id = batch_id;
      event_id = event_id;
      atomic_group = atomic_group;
      first_offset = first_offset;
      last_offset = last_offset;
      record_count = record_count;
      placement = placement;
      payload = [];
    },
    payload_len,
  )

-- One round of the loop at a cursor: the batch, and the cursor behind it.
pub read_frame : (Bytes → ℕ) → Bytes → ℕ → ℕ → Result WireError (NativeFetchBatch × ℕ)
unfolding read_prefix check_crc read_body
read_frame crc bytes max_frame_bytes cursor = do
  prefix_end ← ok_or (checked_add usize_mod cursor prefix_len) frame_too_large
  prefix ← ok_or (slice bytes cursor prefix_end) truncated
  frame_len ← read_prefix prefix max_frame_bytes
  frame_end ← ok_or (checked_add usize_mod cursor frame_len) frame_too_large
  frame ← ok_or (slice bytes cursor frame_end) truncated
  check_crc crc frame
  body_start ← ok_or (checked_add usize_mod cursor prefix_len) frame_too_large
  body_end ← ok_or (checked_sub frame_end crc_len) invalid_frame_length
  body ← ok_or (slice bytes body_start body_end) truncated
  (batch, payload_len) ← read_body body
  payload_start ← ok_or (checked_add usize_mod body_start body_fixed_len) frame_too_large
  payload ← ok_or (slice bytes payload_start body_end) invalid_frame_length
  guard (length payload == payload_len) invalid_frame_length
  ok (record batch { payload = payload }, frame_end)

-- The loop; every frame is longer than its header, so a round for each byte is enough.
pub read_frames :
    (Bytes → ℕ)
    → Bytes
    → ℕ
    → ℕ
    → ℕ
    → List NativeFetchBatch
    → Result WireError (List NativeFetchBatch)
unfolding read_frame
read_frames crc bytes max_frame_bytes zero cursor batches = panic
read_frames crc bytes max_frame_bytes (suc fuel) cursor batches =
    let more = read_frame crc bytes max_frame_bytes cursor >>= λ (batch, next).
    read_frames crc bytes max_frame_bytes fuel next (batches ++ (batch ∷ [])) in
    if ltb cursor (length bytes)
    then more
    else (guard (cursor == length bytes) trailing_bytes >> ok batches)

unfoldable pub decode_fetch_batches :
    (Bytes → ℕ) → Bytes → ℕ → Result WireError (List NativeFetchBatch)
unfolding read_frames
decode_fetch_batches crc bytes max_frame_bytes =
    read_frames crc bytes max_frame_bytes (suc (length bytes)) 0 []
