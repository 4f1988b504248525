-- ===== src/Protocol/Tests.antt =====
-- The messages of the native protocol at concrete inputs.
use shard_stream.Prelude.{
  ℕ, ◌%◌, ◌<◌, ◌≡◌, ◌⊎◌, ◌↔◌, refl, some, none, List, [], ◌∷◌, length, u32_mod, ◌-◌, ◌^◌, arith,
}
use shard_stream.Prelude.Bytes.{Bytes}
use shard_stream.Prelude.Results.{Result, ok, err, panic}
use shard_stream.Core.Model.{Placement}
use shard_stream.Engine.Model.{AppendResponse}
use shard_stream.Protocol.Wire.{
  NativeFetchBatch, WireError, truncated, encode_append_response, decode_append_response,
  encode_fetch_batches, decode_fetch_batches,
}
use shard_stream.Protocol.Wire.Receipt.{decode-encode_append_response}
use shard_stream.Protocol.Wire.RoundTrip.{decode-encode_fetch_batches}
use shard_stream.Protocol.Wire.Total.{AllSpan, decode_fetch_batches_total}
use shard_stream.Protocol.Logical.{
  LogicalTopicCursor, LogicalCursorError, active_position, encode_hex, decode_hex, encode, decode,
  validate,
}
use shard_stream.Protocol.Logical.Hex.{decode_hex-encode_hex}
use shard_stream.Protocol.Logical.Decode.{IsValid, validate_cursor_iff, decode_total}

-- In place of the CRC: the number of bytes.
abbrev sum : Bytes → ℕ
sum bytes = length bytes % u32_mod

sum_word : (bytes : Bytes) → sum bytes < u32_mod
sum_word bytes = omega arith

abbrev place : Placement
place = record { virtual_lane_id = 3; ring_epoch = 4; leader_epoch = 6; sequence = 5 }

abbrev receipt : AppendResponse
receipt = record {
  request_id = 2 ^ 128 - 1;
  batch_id = 2;
  record_id = 3;
  first_offset = 4;
  last_offset = 5;
  visible_through = 6;
  placement = place;
}

decode-encode_append_response_example :
    decode_append_response (encode_append_response receipt) ≡ ok receipt
decode-encode_append_response_example = decode-encode_append_response receipt (omega arith)

abbrev batch : NativeFetchBatch
batch = record {
  request_id = 1;
  batch_id = 2;
  event_id = some 9;
  atomic_group = some (record { transaction_id = 7; chunk_sequence = 1 });
  first_offset = 10;
  last_offset = 11;
  record_count = 2;
  placement = place;
  payload = 102 ∷ 105 ∷ 114 ∷ [];
}

abbrev later : NativeFetchBatch
later = record batch {
  event_id = none;
  atomic_group = none;
  first_offset = 12;
  last_offset = 13;
  payload = [];
}

abbrev encoded_batches : Bytes
encoded_batches = or_empty (encode_fetch_batches sum (batch ∷ later ∷ []) 4096)
  where
    or_empty : Result WireError Bytes → Bytes
    or_empty (ok bytes) = bytes
    or_empty (err e) = []
    or_empty panic = []

encode_run : encode_fetch_batches sum (batch ∷ later ∷ []) 4096 ≡ ok encoded_batches
unfolding encode_fetch_batches
encode_run = refl

decode-encode_fetch_batches_example :
    decode_fetch_batches sum encoded_batches 4096 ≡ ok (batch ∷ later ∷ [])
decode-encode_fetch_batches_example =
    decode-encode_fetch_batches sum sum_word (batch ∷ later ∷ []) 4096 4096 encoded_batches
      (omega arith) (omega arith) encode_run

decode_short : decode_fetch_batches sum (83 ∷ 83 ∷ []) 4096 ≡ err truncated
unfolding decode_fetch_batches
decode_short = refl

decode_fetch_batches_total_example :
    ((e : WireError) × (decode_fetch_batches sum encoded_batches 200 ≡ err e))
    ⊎ ((batches : List NativeFetchBatch) × (decode_fetch_batches sum encoded_batches 200
          ≡ ok batches)
        × AllSpan batches)
decode_fetch_batches_total_example = decode_fetch_batches_total sum encoded_batches 200

abbrev cursor : LogicalTopicCursor
cursor = record {
  topic_partition = record { topic_id = 17; partition_id = 3 };
  data_generation = 5;
  position = active_position 8 (
      record { origin_id = 1; writer_epoch = 2; next_sequence = 300 }
      ∷ record { origin_id = 4; writer_epoch = 1; next_sequence = 0 }
      ∷ []);
}

abbrev cursor_hex : Bytes
cursor_hex = or_empty (encode_hex sum cursor)
  where
    or_empty : Result LogicalCursorError Bytes → Bytes
    or_empty (ok bytes) = bytes
    or_empty (err e) = []
    or_empty panic = []

encode_hex_run : encode_hex sum cursor ≡ ok cursor_hex
unfolding encode_hex encode validate
encode_hex_run = refl

decode_hex-encode_hex_example : decode_hex sum cursor_hex ≡ ok cursor
decode_hex-encode_hex_example =
    decode_hex-encode_hex sum sum_word cursor cursor_hex (omega arith) encode_hex_run

validate_cursor_iff_example : (validate cursor ≡ ok tt) ↔ IsValid cursor
validate_cursor_iff_example = validate_cursor_iff cursor

decode_total_example :
    ((e : LogicalCursorError) × (decode sum cursor_hex ≡ err e))
    ⊎ ((c : LogicalTopicCursor) × (decode sum cursor_hex ≡ ok c) × IsValid c)
decode_total_example = decode_total sum cursor_hex
