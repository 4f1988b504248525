-- ===== src/Kafka/Batch/Round.antt =====
-- A round of the loop over record batches accepts an encoded batch
-- (crates/shard-stream-kafka/src/batch.rs).
use shard_stream.Prelude.{
  ℕ, suc, ◌+◌, ◌-◌, ◌^◌, ◌≤◌, ◌<◌, ◌≡◌, refl, ap, sym, ◌∙◌, Option, none, some, List, [], ◌∷◌, ◌++◌,
  length, arith, le→ltb, lt→ltb, le→leb, length-append, append-nil, append_assoc, usize_mod,
}
use shard_stream.Prelude.Bytes.{Bytes, slice, slice_middle}
use shard_stream.Prelude.Integers.{pos}
use shard_stream.Prelude.Results.{ok, expect}
use shard_stream.Kafka.Record.{Compression, BatchHeader, validate_record_data, validate_as}
use shard_stream.Kafka.Batch.{
  ProducerMode, Scan, from_be, part, inspect_header, update_producer, inspect_batch,
}
use shard_stream.Kafka.Record.Accepts.{
  record_bytes, Content, records_bytes, AllContent, validate-records_bytes,
}
use shard_stream.Kafka.Record.Varint.{write_varint}
use shard_stream.Kafka.Batch.Header.{
  be_bytes, from_be-be_bytes, AreWords, body_bytes, body_head, covered_head, header_of,
  inspect_header-body_bytes,
}
use shard_stream.Kafka.Batch.Writer.{
  Writer, Batch, words, mode_of, IsWriter, Fits, Joins, update_producer-words,
}

-- The encoding of a batch whose first sequence is `first`, and of the batches of a request.
abbrev pub size_of : Batch → ℕ
size_of b = 49 + length (records_bytes 0 b.records)

abbrev pub batch_head : (Bytes → ℕ) → Option Writer → ℕ → Batch → Bytes
batch_head crc writer first b =
    let w = words writer first b in
    be_bytes 8 b.base_offset
    ++ (be_bytes 4 (size_of b) ++ body_head (crc (covered_head w ++ records_bytes 0 b.records)) w)

unfoldable pub batch_bytes : (Bytes → ℕ) → Option Writer → ℕ → Batch → Bytes
batch_bytes crc writer first b =
    be_bytes 8 b.base_offset
    ++ (be_bytes 4 (size_of b) ++ body_bytes crc (words writer first b) (records_bytes 0 b.records))

unfoldable pub request_bytes : (Bytes → ℕ) → Option Writer → ℕ → List Batch → Bytes
unfolding batch_bytes
request_bytes crc writer first [] = []
request_bytes crc writer first (b ∷ bs) =
    batch_bytes crc writer first b ++ request_bytes crc writer (first + length b.records) bs

abbrev pub IsBatch : Batch → Type 0
IsBatch b = (0 < length b.records) × AllContent 0 b.records × (size_of b < 2 ^ 31)

length-records_bytes : (delta : ℕ) (cs : List Content) → length cs ≤ length (records_bytes delta cs)
unfolding records_bytes record_bytes
length-records_bytes delta [] = omega arith
length-records_bytes delta (c ∷ cs) = omega (
  arith,
  length-append (write_varint (pos (length (record_bytes delta c))))
      (record_bytes delta c ++ records_bytes (suc delta) cs),
  length-append (record_bytes delta c) (records_bytes (suc delta) cs),
  length-records_bytes (suc delta) cs,
)

words-AreWords :
    (writer : Option Writer) (first : ℕ) (b : Batch)
    → IsWriter writer
    → IsBatch b
    → Fits writer first (length b.records)
    → AreWords (words writer first b)
words-AreWords none first b is batch fits = record {
  id = omega arith;
  epoch = omega arith;
  sequence = omega arith;
  some_records = batch.0;
  count = omega (arith, length-records_bytes 0 b.records, batch.2);
}
words-AreWords (some writer) first b is batch fits = record {
  id = omega (arith, is.0);
  epoch = omega (arith, is.1);
  sequence = omega (arith, batch.0, fits);
  some_records = batch.0;
  count = omega (arith, length-records_bytes 0 b.records, batch.2);
}

-- A part of the bytes behind others.
part_at :
    (before pre x after : Bytes) (records : Bytes) (from to : ℕ)
    → records ≡ before ++ (pre ++ (x ++ after))
    → from ≡ length before + length pre
    → to ≡ from + length x
    → part records from to ≡ ok x
part_at before pre x after records from to e f t = ap expect (
    ap (λ bytes. slice bytes from to) (e ∙ sym (append_assoc before pre (x ++ after)))
    ∙ slice_middle (before ++ pre) x after from to (omega (arith, f, length-append before pre)) t)

validate-batch :
    (decompress : Compression → Bytes → Option Bytes) (writer : Option Writer) (first : ℕ)
    (b : Batch)
    → IsBatch b
    → validate_record_data decompress (header_of (words writer first b)) (records_bytes 0 b.records)
      ≡ ok tt
unfolding validate_record_data validate_as
validate-batch decompress writer first b batch =
    validate-records_bytes (header_of (words writer first b)) b.records batch.1 batch.0 refl refl

-- A round of the loop, from its parts, wherever they stand.
round_from :
    (crc : Bytes → ℕ) (decompress : Compression → Bytes → Option Bytes)
    (records outer word body frames : Bytes) (t : Scan) (remaining size : ℕ) (header : BatchHeader)
    (mode : ProducerMode)
    → length records ≡ t.cursor + remaining
    → length records < usize_mod
    → part records t.cursor (length records) ≡ ok outer
    → (part outer 8 12 ≡ ok word) × (from_be word ≡ size)
    → (49 ≤ size) × (size < 2 ^ 31) × (12 + size ≤ remaining)
    → part records (t.cursor + 12) (t.cursor + (12 + size)) ≡ ok body
    → inspect_header crc body ≡ ok header
    → part records (t.cursor + 61) (t.cursor + (12 + size)) ≡ ok frames
    → validate_record_data decompress header frames ≡ ok tt
    → update_producer t.producer header ≡ ok mode
    → t.record_count + header.record_count < 2 ^ 32
    → inspect_batch crc decompress records t
      ≡ ok (record {
        cursor = t.cursor + (12 + size);
        record_count = t.record_count + header.record_count;
        producer = mode;
      })
unfolding inspect_batch
round_from crc decompress records outer word body frames t remaining size header mode all fits o
      (w, w') (big, small, inside) b h f valid update room =
    rw
      (
        o,
        le→leb t.cursor (length records) (omega (arith, all)),
        left,
        le→ltb remaining 61 (omega (arith, big, inside)),
        w,
        w',
        lt→ltb size (2 ^ 31) small,
        le→ltb size 49 big,
        lt→ltb (12 + size) usize_mod (omega (arith, small)),
        le→ltb remaining (12 + size) inside,
        lt→ltb (t.cursor + (12 + size)) usize_mod (omega (arith, all, fits, inside)),
        b,
        h,
        f,
        valid,
        update,
        lt→ltb (t.record_count + header.record_count) (2 ^ 32) room,
      )
      refl
  where
    left : length records - t.cursor ≡ remaining
    left = omega (arith, all)

module _ (crc : Bytes → ℕ) (decompress : Compression → Bytes → Option Bytes)
    (small : (bytes : Bytes) → crc bytes < 2 ^ 32) (writer : Option Writer)
    (is : IsWriter writer) where
  -- The round for an encoded batch.
  pub round-batch :
      (records before after : Bytes) (t : Scan) (origin first : ℕ) (b : Batch)
      → records ≡ before ++ (batch_bytes crc writer first b ++ after)
      → length records < usize_mod
      → t.cursor ≡ length before
      → IsBatch b
      → Fits writer first (length b.records)
      → Joins writer origin first t.producer
      → t.record_count + length b.records < 2 ^ 32
      → inspect_batch crc decompress records t
        ≡ ok (record {
          cursor = t.cursor + (12 + size_of b);
          record_count = t.record_count + length b.records;
          producer = mode_of writer origin (first + length b.records);
        })
  unfolding batch_bytes
  round-batch records before after t origin first b e fits at batch sequences joins room =
      let w = words writer first b in
      let frames = records_bytes 0 b.records in
      let body = body_bytes crc w frames in
      let outer = batch_bytes crc writer first b ++ after in
      let inner = length-append (body_head (crc (covered_head w ++ frames)) w) frames in
      let long = length-append body after in
      let all : length records ≡ t.cursor + length outer =
        ap length e ∙ length-append before outer ∙ ap (λ c. c + length outer) (sym at) in
      round_from crc decompress records outer (be_bytes 4 (size_of b)) body frames t (length outer)
        (size_of b) (header_of w) (mode_of writer origin (first + length b.records)) all fits
        (part_at before [] outer [] records t.cursor (length records)
          (e ∙ ap (◌++◌ before) (sym (append-nil outer))) (omega (arith, at)) all)
        (
          part_at (be_bytes 8 b.base_offset) [] (be_bytes 4 (size_of b)) (body ++ after) outer 8 12
              refl refl refl,
          from_be-be_bytes 4 (size_of b) (omega (arith, batch.2)),
        )
        (omega arith, batch.2, omega (arith, inner, long))
        (part_at before (be_bytes 8 b.base_offset ++ be_bytes 4 (size_of b)) body after records
          (t.cursor + 12) (t.cursor + (12 + size_of b)) e (omega (arith, at))
          (omega (arith, inner)))
        (inspect_header-body_bytes crc w frames (words-AreWords writer first b is batch sequences)
          small)
        (part_at before (batch_head crc writer first b) frames after records (t.cursor + 61)
          (t.cursor + (12 + size_of b)) e (omega (arith, at)) (omega arith))
        (validate-batch decompress writer first b batch)
        (update_producer-words writer origin first b t.producer is batch.0 sequences joins) room
