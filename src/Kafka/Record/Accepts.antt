-- ===== src/Kafka/Record/Accepts.antt =====
-- The records that Kafka's encoding writes are accepted (crates/shard-stream-kafka/src/batch.rs).
use shard_stream.Prelude.{
  ℕ, suc, ◌-◌, ◌^◌, ◌<◌, ◌≡◌, refl, ◌∙◌, Option, none, some, List, [], ◌∷◌, ◌++◌, ==_refl, length,
  arith, le→ltb, length-append,
}
use shard_stream.Prelude.Bytes.{Bytes, take_left, drop_left}
use shard_stream.Prelude.Integers.{ℤ, pos, negsuc}
use shard_stream.Prelude.Results.{ok}
use shard_stream.Kafka.Record.{
  BatchHeader, take_bytes, skip_length, skip_nullable_bytes, skip_headers, inspect_record,
  inspect_frames, validate_record_frames,
}
use shard_stream.Kafka.Record.Varint.{
  IsInt, write_varint, write_varlong, read_varint-write_varint, read_varlong-write_varlong,
}

-- A record of Kafka; its position in the batch is its offset delta.
pub record Content : Type 0 where
  pub attributes : ℕ
  pub timestamp_delta : ℤ
  pub key : Option Bytes
  pub value : Option Bytes
  pub headers : List (Bytes × Option Bytes)

-- The encodings, before other bytes.
nullable_bytes : Option Bytes → Bytes → Bytes
nullable_bytes none rest = write_varint (negsuc 0) ++ rest
nullable_bytes (some xs) rest = write_varint (pos (length xs)) ++ (xs ++ rest)

headers_bytes : List (Bytes × Option Bytes) → Bytes → Bytes
unfolding nullable_bytes
headers_bytes [] rest = rest
headers_bytes ((key, value) ∷ headers) rest =
    write_varint (pos (length key)) ++ (key ++ nullable_bytes value (headers_bytes headers rest))

unfoldable pub record_bytes : ℕ → Content → Bytes
unfolding nullable_bytes headers_bytes
record_bytes delta c =
    c.attributes
    ∷ (write_varlong c.timestamp_delta
        ++ (write_varint (pos delta)
            ++ nullable_bytes c.key (
                nullable_bytes c.value
                  (write_varint (pos (length c.headers)) ++ headers_bytes c.headers []))))

unfoldable pub records_bytes : ℕ → List Content → Bytes
unfolding record_bytes
records_bytes delta [] = []
records_bytes delta (c ∷ cs) =
    write_varint (pos (length (record_bytes delta c)))
    ++ (record_bytes delta c ++ records_bytes (suc delta) cs)

-- The lengths are numbers of an i32, and the timestamps of an i64.
abbrev AreShort : Option Bytes → Type 0
AreShort none = Unit {0}
AreShort (some xs) = length xs < 2 ^ 31

abbrev AreHeaders : List (Bytes × Option Bytes) → Type 0
AreHeaders [] = Unit {0}
AreHeaders ((key, value) ∷ headers) = (length key < 2 ^ 31) × AreShort value × AreHeaders headers

abbrev pub IsContent : ℕ → Content → Type 0
IsContent delta c =
    (delta < 2 ^ 31)
    × IsInt (2 ^ 63) c.timestamp_delta
    × AreShort c.key
    × AreShort c.value
    × (length c.headers < 2 ^ 31)
    × AreHeaders c.headers
    × (length (record_bytes delta c) < 2 ^ 31)

abbrev pub AllContent : ℕ → List Content → Type 0
AllContent delta [] = Unit {0}
AllContent delta (c ∷ cs) = IsContent delta c × AllContent (suc delta) cs

take_bytes-append : (xs rest : Bytes) → take_bytes (length xs) (xs ++ rest) ≡ ok (xs, rest)
unfolding take_bytes
take_bytes-append xs rest =
    rw
      (
        le→ltb (length (xs ++ rest)) (length xs) (omega (arith, length-append xs rest)),
        take_left xs rest (length xs) refl,
        drop_left xs rest (length xs) refl,
      )
      refl

skip-nullable_bytes :
    (x : Option Bytes) (rest : Bytes)
    → AreShort x
    → skip_nullable_bytes (nullable_bytes x rest) ≡ ok rest
unfolding skip_nullable_bytes nullable_bytes skip_length
skip-nullable_bytes none rest h = rw (read_varint-write_varint (negsuc 0) rest (omega arith)) refl
skip-nullable_bytes (some xs) rest h =
    rw (read_varint-write_varint (pos (length xs)) (xs ++ rest) h, take_bytes-append xs rest) refl

skip_headers-headers_bytes :
    (headers : List (Bytes × Option Bytes)) (rest : Bytes)
    → AreHeaders headers
    → skip_headers (length headers) (headers_bytes headers rest) ≡ ok rest
unfolding skip_headers headers_bytes
skip_headers-headers_bytes [] rest h = refl
skip_headers-headers_bytes ((key, value) ∷ headers) rest h =
    rw
      (
        read_varint-write_varint (pos (length key))
            (key ++ nullable_bytes value (headers_bytes headers rest)) h.0,
        take_bytes-append key (nullable_bytes value (headers_bytes headers rest)),
        skip-nullable_bytes value (headers_bytes headers rest) h.1,
      )
      (skip_headers-headers_bytes headers rest h.2)

inspect-record_bytes :
    (delta : ℕ) (c : Content)
    → IsContent delta c
    → inspect_record (record_bytes delta c) delta ≡ ok tt
unfolding inspect_record record_bytes
inspect-record_bytes delta c h =
    let headers = headers_bytes c.headers [] in
    let counted = write_varint (pos (length c.headers)) ++ headers in
    let value = nullable_bytes c.value counted in
    let key = nullable_bytes c.key value in
    let delta_on = write_varint (pos delta) ++ key in
    rw
      (
        take_bytes-append (c.attributes ∷ []) (write_varlong c.timestamp_delta ++ delta_on),
        read_varlong-write_varlong c.timestamp_delta delta_on h.1,
        read_varint-write_varint (pos delta) key h.0,
        ==_refl delta,
        skip-nullable_bytes c.key value h.2,
        skip-nullable_bytes c.value counted h.3,
        read_varint-write_varint (pos (length c.headers)) headers h.4,
        skip_headers-headers_bytes c.headers [] h.5,
      )
      refl

inspect_frames-frame :
    (left delta : ℕ) (bytes rest : Bytes)
    → length bytes < 2 ^ 31
    → inspect_record bytes delta ≡ ok tt
    → inspect_frames (suc left) delta (write_varint (pos (length bytes)) ++ (bytes ++ rest))
      ≡ inspect_frames left (suc delta) rest
unfolding inspect_frames
inspect_frames-frame left delta bytes rest short accepted =
    rw
      (
        read_varint-write_varint (pos (length bytes)) (bytes ++ rest) short,
        le→ltb (length (bytes ++ rest)) (length bytes) (omega (arith, length-append bytes rest)),
        take_left bytes rest (length bytes) refl,
        drop_left bytes rest (length bytes) refl,
        accepted,
      )
      refl

frames-records_bytes :
    (delta : ℕ) (cs : List Content)
    → AllContent delta cs
    → inspect_frames (length cs) delta (records_bytes delta cs) ≡ ok []
unfolding inspect_frames records_bytes
frames-records_bytes delta [] h = refl
frames-records_bytes delta (c ∷ cs) h =
    inspect_frames-frame (length cs) delta (record_bytes delta c) (records_bytes (suc delta) cs)
      h.0.6 (inspect-record_bytes delta c h.0)
    ∙ frames-records_bytes (suc delta) cs h.1

-- Records whose lengths are numbers of an i32, encoded one after another with their positions as
-- deltas, are accepted under a header that counts them.
pub validate-records_bytes :
    (header : BatchHeader) (cs : List Content)
    → AllContent 0 cs
    → 0 < length cs
    → header.record_count ≡ length cs
    → header.last_offset_delta ≡ pos (length cs - 1)
    → validate_record_frames (records_bytes 0 cs) header ≡ ok tt
unfolding validate_record_frames
validate-records_bytes header cs h some_records count last =
    rw (count, frames-records_bytes 0 cs h, last)
      (ground (arith, some_records, ==_refl (length cs - 1)))
