-- ===== src/Protocol/Wire/Receipt.antt =====
-- The append receipt is decoded to itself (crates/shard-stream-protocol/src/wire.rs).
use shard_stream.Prelude.{◌<◌, ◌≡◌, u32_mod, u64_mod, u128_mod}
use shard_stream.Prelude.Bytes.{from_le, from_le-le_bytes}
use shard_stream.Prelude.Results.{ok}
use shard_stream.Core.Model.{Placement}
use shard_stream.Engine.Model.{AppendResponse}
use shard_stream.Protocol.Wire.{encode_append_response, decode_append_response}

-- The values fit the words of the source.
pub record IsPlacement (p : Placement) : Type 0 where
  pub lane : p.virtual_lane_id < u32_mod
  pub ring : p.ring_epoch < u64_mod
  pub leader : p.leader_epoch < u64_mod
  pub sequence : p.sequence < u64_mod

pub record IsResponse (r : AppendResponse) : Type 0 where
  pub request : r.request_id < u128_mod
  pub batch : r.batch_id < u128_mod
  pub entry : r.record_id < u128_mod
  pub first : r.first_offset < u64_mod
  pub last : r.last_offset < u64_mod
  pub visible : r.visible_through < u64_mod
  pub place : IsPlacement r.placement

-- A receipt that was encoded is decoded to itself.
pub decode-encode_append_response :
    (r : AppendResponse) → IsResponse r → decode_append_response (encode_append_response r) ≡ ok r
unfolding decode_append_response encode_append_response from_le
decode-encode_append_response r h = λ i. ok (record {
  request_id = from_le-le_bytes 16 r.request_id h.request i;
  batch_id = from_le-le_bytes 16 r.batch_id h.batch i;
  record_id = from_le-le_bytes 16 r.record_id h.entry i;
  first_offset = from_le-le_bytes 8 r.first_offset h.first i;
  last_offset = from_le-le_bytes 8 r.last_offset h.last i;
  visible_through = from_le-le_bytes 8 r.visible_through h.visible i;
  placement = record {
    virtual_lane_id = from_le-le_bytes 4 r.placement.virtual_lane_id h.place.lane i;
    ring_epoch = from_le-le_bytes 8 r.placement.ring_epoch h.place.ring i;
    leader_epoch = from_le-le_bytes 8 r.placement.leader_epoch h.place.leader i;
    sequence = from_le-le_bytes 8 r.placement.sequence h.place.sequence i;
  };
})
