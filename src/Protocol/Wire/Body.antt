-- ===== src/Protocol/Wire/Body.antt =====
-- The fixed part of a frame's body is read back field by field (crates/shard-stream-protocol/src/wire.rs).
use shard_stream.Prelude.{
  ℕ, ◌+◌, ◌-◌, ◌≤◌, ◌<◌, ◌≡◌, refl, ap, ◌∙◌, true, false, Option, some, none, [], ◌++◌, ltb, ◌==◌,
  length, length-append, get_elem?-append_left, u32_mod, u64_mod, u128_mod, usize_mod, arith,
  lt→ltb, ==_refl, gt→ne, le→ltb,
}
use shard_stream.Prelude.Bytes.{Bytes, le_bytes, from_le, from_le-le_bytes, slice_left}
use shard_stream.Prelude.Results.{ok, expect}
use shard_stream.Core.Model.{RecordId}
use shard_stream.Engine.Model.{AtomicGroupIdentity}
use shard_stream.Protocol.Wire.{
  NativeFetchBatch, read, index, padding, read_event, read_group, read_body, fixed_bytes,
}
use shard_stream.Protocol.Wire.Receipt.{IsPlacement}

abbrev IsEvent : Option RecordId → Type 0
IsEvent none = Unit {0}
IsEvent (some e) = e < u128_mod

abbrev IsGroup : Option AtomicGroupIdentity → Type 0
IsGroup none = Unit {0}
IsGroup (some g) = (g.transaction_id < u128_mod) × (g.chunk_sequence < u64_mod)

-- A batch whose values fit the words of the source, whose record count is not zero, and whose
-- offsets span the count.
pub record IsBatch (b : NativeFetchBatch) : Type 0 where
  pub request : b.request_id < u128_mod
  pub batch : b.batch_id < u128_mod
  pub event : IsEvent b.event_id
  pub group : IsGroup b.atomic_group
  pub last : b.last_offset < u64_mod
  pub some_records : 0 < b.record_count
  pub count : b.record_count < u32_mod
  pub span : b.first_offset + (b.record_count - 1) ≡ b.last_offset
  pub place : IsPlacement b.placement
  pub size : length b.payload < u64_mod

read_left :
    (width offset : ℕ) (x after : Bytes)
    → offset + width ≤ length x
    → length x < usize_mod
    → read width (x ++ after) offset ≡ read width x offset
unfolding read
read_left width offset x after h k =
    let fits = lt→ltb (offset + width) usize_mod (omega arith) in
    let same = slice_left x after offset (offset + width) h in ground (arith, fits, same)

-- What stands at the presence bytes and behind them.
record OptionFields (x : Bytes) (event : Option RecordId) (group : Option AtomicGroupIdentity)
    (len : ℕ) : Type 0 where
  event_present : ℕ
  event_value : ℕ
  group_present : ℕ
  transaction : ℕ
  chunk : ℕ
  event_at : index x 80 ≡ ok event_present
  event_pad : padding x 81 84 ≡ ok tt
  value_at : read 16 x 84 ≡ ok event_value
  event_read : read_event event_present event_value ≡ ok event
  group_at : index x 100 ≡ ok group_present
  group_pad : padding x 101 104 ≡ ok tt
  transaction_at : read 16 x 104 ≡ ok transaction
  chunk_at : read 8 x 120 ≡ ok chunk
  group_read : read_group group_present transaction chunk ≡ ok group
  length_at : read 8 x 128 ≡ ok len

record Options (x : Bytes) (event : Option RecordId) (group : Option AtomicGroupIdentity) (len : ℕ)
    : Type 0 where
  total : length x ≡ 136
  fields : OptionFields x event group len

abbrev with_options :
    NativeFetchBatch → Option RecordId → Option AtomicGroupIdentity → NativeFetchBatch
with_options b event group = record b { event_id = event; atomic_group = group }

fixed_bytes-Options :
    (b : NativeFetchBatch) (event : Option RecordId) (group : Option AtomicGroupIdentity)
    → IsEvent event
    → IsGroup group
    → length b.payload < u64_mod
    → Options (fixed_bytes (with_options b event group)) event group (length b.payload)
unfolding fixed_bytes read read_event read_group from_le
fixed_bytes-Options b none none e g n = record {
  total = refl;
  fields = record {
    event_present = 0;
    event_value = 0;
    group_present = 0;
    transaction = 0;
    chunk = 0;
    event_at = refl;
    event_pad = refl;
    value_at = refl;
    event_read = refl;
    group_at = refl;
    group_pad = refl;
    transaction_at = refl;
    chunk_at = refl;
    group_read = refl;
    length_at = λ i. ok (from_le-le_bytes 8 (length b.payload) n i);
  };
}
fixed_bytes-Options b none (some h) e g n = record {
  total = refl;
  fields = record {
    event_present = 0;
    event_value = 0;
    group_present = 1;
    transaction = h.transaction_id;
    chunk = h.chunk_sequence;
    event_at = refl;
    event_pad = refl;
    value_at = refl;
    event_read = refl;
    group_at = refl;
    group_pad = refl;
    transaction_at = λ i. ok (from_le-le_bytes 16 h.transaction_id g.0 i);
    chunk_at = λ i. ok (from_le-le_bytes 8 h.chunk_sequence g.1 i);
    group_read = refl;
    length_at = λ i. ok (from_le-le_bytes 8 (length b.payload) n i);
  };
}
fixed_bytes-Options b (some x) none e g n = record {
  total = refl;
  fields = record {
    event_present = 1;
    event_value = x;
    group_present = 0;
    transaction = 0;
    chunk = 0;
    event_at = refl;
    event_pad = refl;
    value_at = λ i. ok (from_le-le_bytes 16 x e i);
    event_read = refl;
    group_at = refl;
    group_pad = refl;
    transaction_at = refl;
    chunk_at = refl;
    group_read = refl;
    length_at = λ i. ok (from_le-le_bytes 8 (length b.payload) n i);
  };
}
fixed_bytes-Options b (some x) (some h) e g n = record {
  total = refl;
  fields = record {
    event_present = 1;
    event_value = x;
    group_present = 1;
    transaction = h.transaction_id;
    chunk = h.chunk_sequence;
    event_at = refl;
    event_pad = refl;
    value_at = λ i. ok (from_le-le_bytes 16 x e i);
    event_read = refl;
    group_at = refl;
    group_pad = refl;
    transaction_at = λ i. ok (from_le-le_bytes 16 h.transaction_id g.0 i);
    chunk_at = λ i. ok (from_le-le_bytes 8 h.chunk_sequence g.1 i);
    group_read = refl;
    length_at = λ i. ok (from_le-le_bytes 8 (length b.payload) n i);
  };
}

-- The fields that stand before the presence bytes.
record Plain (x : Bytes) (b : NativeFetchBatch) : Type 0 where
  request_at : read 16 x 0 ≡ ok b.request_id
  batch_at : read 16 x 16 ≡ ok b.batch_id
  first_at : read 8 x 32 ≡ ok b.first_offset
  last_at : read 8 x 40 ≡ ok b.last_offset
  count_at : read 4 x 48 ≡ ok b.record_count
  lane_at : read 4 x 52 ≡ ok b.placement.virtual_lane_id
  ring_at : read 8 x 56 ≡ ok b.placement.ring_epoch
  leader_at : read 8 x 64 ≡ ok b.placement.leader_epoch
  sequence_at : read 8 x 72 ≡ ok b.placement.sequence

abbrev plain_bytes : NativeFetchBatch → Bytes
plain_bytes b =
    le_bytes 16 b.request_id
    ++ (le_bytes 16 b.batch_id
        ++ (le_bytes 8 b.first_offset
            ++ (le_bytes 8 b.last_offset
                ++ (le_bytes 4 b.record_count
                    ++ (le_bytes 4 b.placement.virtual_lane_id
                        ++ (le_bytes 8 b.placement.ring_epoch
                            ++ (le_bytes 8 b.placement.leader_epoch
                                ++ le_bytes 8 b.placement.sequence)))))))

plain_bytes-Plain : (b : NativeFetchBatch) → IsBatch b → Plain (plain_bytes b) b
unfolding read from_le
plain_bytes-Plain b h = record {
  request_at = λ i. ok (from_le-le_bytes 16 b.request_id h.request i);
  batch_at = λ i. ok (from_le-le_bytes 16 b.batch_id h.batch i);
  first_at = λ i. ok (from_le-le_bytes 8 b.first_offset (omega (arith, h.span, h.last)) i);
  last_at = λ i. ok (from_le-le_bytes 8 b.last_offset h.last i);
  count_at = λ i. ok (from_le-le_bytes 4 b.record_count h.count i);
  lane_at = λ i. ok (from_le-le_bytes 4 b.placement.virtual_lane_id h.place.lane i);
  ring_at = λ i. ok (from_le-le_bytes 8 b.placement.ring_epoch h.place.ring i);
  leader_at = λ i. ok (from_le-le_bytes 8 b.placement.leader_epoch h.place.leader i);
  sequence_at = λ i. ok (from_le-le_bytes 8 b.placement.sequence h.place.sequence i);
}

-- Bytes behind a part change no field of it.
append-Plain :
    (x after : Bytes) (b : NativeFetchBatch)
    → 80 ≤ length x
    → length x < usize_mod
    → Plain x b
    → Plain (x ++ after) b
append-Plain x after b n k h = record {
  request_at = read_left 16 0 x after (omega arith) k ∙ h.request_at;
  batch_at = read_left 16 16 x after (omega arith) k ∙ h.batch_at;
  first_at = read_left 8 32 x after (omega arith) k ∙ h.first_at;
  last_at = read_left 8 40 x after (omega arith) k ∙ h.last_at;
  count_at = read_left 4 48 x after (omega arith) k ∙ h.count_at;
  lane_at = read_left 4 52 x after (omega arith) k ∙ h.lane_at;
  ring_at = read_left 8 56 x after (omega arith) k ∙ h.ring_at;
  leader_at = read_left 8 64 x after (omega arith) k ∙ h.leader_at;
  sequence_at = read_left 8 72 x after (omega arith) k ∙ h.sequence_at;
}

fixed_bytes-Plain :
    (b : NativeFetchBatch) (after : Bytes) → IsBatch b → Plain (fixed_bytes b ++ after) b
unfolding fixed_bytes
fixed_bytes-Plain b after h =
    append-Plain (plain_bytes b) _ b (omega arith) (omega arith) (plain_bytes-Plain b h)

index_left : (i : ℕ) (x after : Bytes) → i < length x → index (x ++ after) i ≡ index x i
index_left i x after h = ap expect (get_elem?-append_left x after i h)

padding_left :
    (from to : ℕ) (x after : Bytes)
    → to ≤ length x
    → padding (x ++ after) from to ≡ padding x from to
padding_left from to x after h = rw (slice_left x after from to h)

append-Options :
    (x after : Bytes) (event : Option RecordId) (group : Option AtomicGroupIdentity) (len : ℕ)
    → (o : Options x event group len) → OptionFields (x ++ after) event group len
append-Options x after event group len o = record {
  event_present = o.fields.event_present;
  event_value = o.fields.event_value;
  group_present = o.fields.group_present;
  transaction = o.fields.transaction;
  chunk = o.fields.chunk;
  event_at = index_left 80 x after (omega (arith, o.total)) ∙ o.fields.event_at;
  event_pad = padding_left 81 84 x after (omega (arith, o.total)) ∙ o.fields.event_pad;
  value_at =
      read_left 16 84 x after (omega (arith, o.total)) (omega (arith, o.total)) ∙ o.fields.value_at;
  event_read = o.fields.event_read;
  group_at = index_left 100 x after (omega (arith, o.total)) ∙ o.fields.group_at;
  group_pad = padding_left 101 104 x after (omega (arith, o.total)) ∙ o.fields.group_pad;
  transaction_at =
      read_left 16 104 x after (omega (arith, o.total)) (omega (arith, o.total))
      ∙ o.fields.transaction_at;
  chunk_at =
      read_left 8 120 x after (omega (arith, o.total)) (omega (arith, o.total)) ∙ o.fields.chunk_at;
  group_read = o.fields.group_read;
  length_at =
      read_left 8 128 x after (omega (arith, o.total)) (omega (arith, o.total))
      ∙ o.fields.length_at;
}

-- The body of an encoded batch gives back the batch and the length of its payload.
pub read_body-fixed_bytes :
    (b : NativeFetchBatch) (after : Bytes)
    → IsBatch b
    → read_body (fixed_bytes b ++ after) ≡ ok (record b { payload = [] }, length b.payload)
unfolding read_body
read_body-fixed_bytes b after h =
    let o = fixed_bytes-Options b b.event_id b.atomic_group h.event h.group h.size in
    let a = append-Options (fixed_bytes b) after b.event_id b.atomic_group (length b.payload) o in
    let p = fixed_bytes-Plain b after h in
    let long : ltb (length (fixed_bytes b ++ after)) 136 ≡ false =
      le→ltb _ _ (omega (arith, length-append (fixed_bytes b) after, o.total)) in
    let nonzero : (b.record_count == 0) ≡ false = gt→ne _ 0 h.some_records in
    let fits : ltb (length b.payload) usize_mod ≡ true = lt→ltb _ _ h.size in
    let below : ltb (b.first_offset + (b.record_count - 1)) u64_mod ≡ true =
      lt→ltb _ _ (omega (arith, h.span, h.last)) in
    let same : (b.first_offset + (b.record_count - 1) == b.last_offset) ≡ true =
      rw h.span (==_refl b.last_offset) in
    rw
      (
        long, p.request_at, p.batch_at, p.first_at, p.last_at, p.count_at, nonzero, p.lane_at,
        p.ring_at, p.leader_at, p.sequence_at, a.event_at, a.event_pad, a.value_at, a.event_read,
        a.group_at, a.group_pad, a.transaction_at, a.chunk_at, a.group_read, a.length_at, fits,
        below, same,
      )
      refl

pub length-fixed_bytes : (b : NativeFetchBatch) → IsBatch b → length (fixed_bytes b) ≡ 136
length-fixed_bytes b h =
    (fixed_bytes-Options b b.event_id b.atomic_group h.event h.group h.size).total
