-- ===== src/Kafka/Batch/Request.antt =====
-- The batches that Kafka's encoding writes are accepted, and counted
-- (crates/shard-stream-kafka/src/batch.rs).
use shard_stream.Prelude.{
  ℕ, zero, suc, ◌+◌, ◌-◌, ◌^◌, ◌<◌, ◌≡◌, inl, inr, refl, ap, sym, ◌∙◌, Option, none, some, List, [],
  ◌∷◌, ◌++◌, length, arith, le→ltb, lt→ltb, gt→ne, length-append, append_assoc, usize_mod,
}
use shard_stream.Prelude.Bytes.{Bytes}
use shard_stream.Prelude.Results.{Result, ok}
use shard_stream.Engine.Model.{ProducerIdentity}
use shard_stream.Kafka.Record.{ResponseError, Compression}
use shard_stream.Kafka.Batch.{
  ProducerMode, unknown, Scan, inspect_batches, inspected_producer, inspect_record_batches,
}
use shard_stream.Kafka.Record.Accepts.{records_bytes}
use shard_stream.Kafka.Batch.Writer.{Writer, Batch, mode_of, IsWriter, Fits, Joins}
use shard_stream.Kafka.Batch.Round.{
  size_of, batch_head, batch_bytes, request_bytes, IsBatch, round-batch,
}

-- How many records the batches have.
abbrev pub total : List Batch → ℕ
total [] = 0
total (b ∷ bs) = length b.records + total bs

abbrev pub AreBatches : List Batch → Type 0
AreBatches [] = Unit {0}
AreBatches (b ∷ bs) = IsBatch b × AreBatches bs

Fits-part :
    (writer : Option Writer) (first m n : ℕ) → Fits writer first (m + n) → Fits writer first m
Fits-part none first m n h = tt
Fits-part (some writer) first m n h = omega (arith, h)

Fits-rest :
    (writer : Option Writer) (first m n : ℕ) → Fits writer first (m + n) → Fits writer (first + m) n
Fits-rest none first m n h = tt
Fits-rest (some writer) first m n h = omega (arith, h)

lengths :
    (records before bytes after : Bytes)
    → records ≡ before ++ (bytes ++ after)
    → length records ≡ length before + (length bytes + length after)
lengths records before bytes after e =
    ap length e
    ∙ length-append before (bytes ++ after)
    ∙ ap (λ n. length before + n) (length-append bytes after)

length-batch_bytes :
    (crc : Bytes → ℕ) (writer : Option Writer) (first : ℕ) (b : Batch)
    → length (batch_bytes crc writer first b) ≡ 12 + size_of b
unfolding batch_bytes
length-batch_bytes crc writer first b =
    omega (arith, length-append (batch_head crc writer first b) (records_bytes 0 b.records))

request_bytes-cons :
    (crc : Bytes → ℕ) (writer : Option Writer) (first : ℕ) (b : Batch) (bs : List Batch)
    → request_bytes crc writer first (b ∷ bs)
      ≡ batch_bytes crc writer first b ++ request_bytes crc writer (first + length b.records) bs
unfolding request_bytes
request_bytes-cons crc writer first b bs = refl

request_bytes-nil :
    (crc : Bytes → ℕ) (writer : Option Writer) (first : ℕ) → request_bytes crc writer first [] ≡ []
unfolding request_bytes
request_bytes-nil crc writer first = refl

abbrev scanned : ℕ → ℕ → ProducerMode → Result ResponseError Scan
scanned cursor count mode = ok (record { cursor = cursor; record_count = count; producer = mode })

same_scan :
    {a b c d : ℕ} {m n : ProducerMode} → a ≡ b → c ≡ d → m ≡ n → scanned a c m ≡ scanned b d n
same_scan p q r = λ i. scanned (p i) (q i) (r i)

module _ (crc : Bytes → ℕ) (decompress : Compression → Bytes → Option Bytes)
    (small : (bytes : Bytes) → crc bytes < 2 ^ 32) (writer : Option Writer)
    (is : IsWriter writer) where
  -- What the loop carries when a batch is behind it.
  abbrev passed : (origin first : ℕ) → Batch → Scan → Scan
  passed origin first b t = record {
    cursor = t.cursor + (12 + size_of b);
    record_count = t.record_count + length b.records;
    producer = mode_of writer origin (first + length b.records);
  }

  pass_batch :
      (fuel : ℕ) (records before after : Bytes) (t : Scan) (origin first : ℕ) (b : Batch)
      → records ≡ before ++ (batch_bytes crc writer first b ++ after)
      → length records < usize_mod
      → t.cursor ≡ length before
      → IsBatch b
      → Fits writer first (length b.records)
      → Joins writer origin first t.producer
      → t.record_count + length b.records < 2 ^ 32
      → inspect_batches crc decompress records (suc fuel) t
        ≡ inspect_batches crc decompress records fuel (passed origin first b t)
  unfolding inspect_batches
  pass_batch fuel records before after t origin first b e fits at batch sequences joins room =
      let long = lengths records before (batch_bytes crc writer first b) after e in
      rw
        (
          lt→ltb t.cursor (length records)
              (omega (arith, at, long, length-batch_bytes crc writer first b)),
          round-batch crc decompress small writer is records before after t origin first b e fits at
              batch sequences joins room,
        )
        refl

  stop :
      (fuel : ℕ) (records : Bytes) (t : Scan)
      → t.cursor ≡ length records
      → 0 < fuel
      → inspect_batches crc decompress records fuel t ≡ ok t
  unfolding inspect_batches
  stop zero records t e h = absurd (omega arith)
  stop (suc fuel) records t e h = rw (le→ltb t.cursor (length records) (omega (arith, e))) refl

  -- The loop over the batches that are left.
  loop-request :
      (fuel : ℕ) (records before : Bytes) (t : Scan) (origin first : ℕ) (b : Batch)
      (bs : List Batch)
      → records ≡ before ++ request_bytes crc writer first (b ∷ bs)
      → length records < usize_mod
      → length records - length before < fuel
      → t.cursor ≡ length before
      → AreBatches (b ∷ bs)
      → Fits writer first (total (b ∷ bs))
      → Joins writer origin first t.producer
      → t.record_count + total (b ∷ bs) < 2 ^ 32
      → inspect_batches crc decompress records fuel t
        ≡ ok (record {
          cursor = length records;
          record_count = t.record_count + total (b ∷ bs);
          producer = mode_of writer origin (first + total (b ∷ bs));
        })
  loop-request zero records before t origin first b bs e fits enough at are sequences joins room =
      absurd (omega (arith, enough))
  loop-request (suc fuel) records before t origin first b [] e fits enough at are sequences joins
        room =
      let bytes = batch_bytes crc writer first b in
      let rest = request_bytes crc writer (first + length b.records) [] in
      let e' = e ∙ ap (λ r. before ++ r) (request_bytes-cons crc writer first b []) in
      let long : length records ≡ length before + (12 + size_of b) =
        lengths records before bytes rest e'
        ∙ omega (
          arith,
          length-batch_bytes crc writer first b,
          ap length (request_bytes-nil crc writer (first + length b.records)),
        ) in
      pass_batch fuel records before rest t origin first b e' fits at are.0
        (Fits-part writer first (length b.records) 0 sequences) joins (omega (arith, room))
      ∙ stop fuel records (passed origin first b t) (omega (arith, long, at))
          (omega (arith, enough, long))
      ∙ same_scan (omega (arith, long, at)) (omega arith) (ap (mode_of writer origin) (omega arith))
  loop-request (suc fuel) records before t origin first b (c ∷ cs) e fits enough at are sequences
        joins room =
      let bytes = batch_bytes crc writer first b in
      let next = first + length b.records in
      let rest = request_bytes crc writer next (c ∷ cs) in
      let e' = e ∙ ap (λ r. before ++ r) (request_bytes-cons crc writer first b (c ∷ cs)) in
      let long = lengths records before bytes rest e' in
      let wide = length-batch_bytes crc writer first b in
      let at' : length (before ++ bytes) ≡ length before + (12 + size_of b) =
        length-append before bytes ∙ ap (λ n. length before + n) wide in
      pass_batch fuel records before rest t origin first b e' fits at are.0
        (Fits-part writer first (length b.records) (total (c ∷ cs)) sequences) joins
        (omega (arith, room))
      ∙ loop-request fuel records (before ++ bytes) (passed origin first b t) origin next c cs
          (e' ∙ sym (append_assoc before bytes rest)) fits (omega (arith, enough, long, wide, at'))
          (omega (arith, at, at')) are.1
          (Fits-rest writer first (length b.records) (total (c ∷ cs)) sequences) (inr refl)
          (omega (arith, room))
      ∙ same_scan refl (omega arith) (ap (mode_of writer origin) (omega arith))

-- The identity that the inspection reports.
abbrev pub producer_of : Option Writer → ℕ → Option ProducerIdentity
producer_of none first = none
producer_of (some writer) first = some (record {
  producer_id = writer.id;
  epoch = writer.epoch;
  first_sequence = first;
  event_id = none;
})

inspected_producer-mode_of :
    (writer : Option Writer) (first next : ℕ)
    → inspected_producer (mode_of writer first next) ≡ ok (producer_of writer first)
unfolding inspected_producer
inspected_producer-mode_of none first next = refl
inspected_producer-mode_of (some writer) first next = refl

-- The batches of a request that Kafka's encoding writes, without compression, for one producer with
-- contiguous sequences or for none, are accepted: the inspection counts their records, and reports
-- the producer and its first sequence.
pub inspect-request_bytes :
    (crc : Bytes → ℕ) (decompress : Compression → Bytes → Option Bytes)
    (small : (bytes : Bytes) → crc bytes < 2 ^ 32) (writer : Option Writer) (first : ℕ) (b : Batch)
    (bs : List Batch)
    → IsWriter writer
    → AreBatches (b ∷ bs)
    → Fits writer first (total (b ∷ bs))
    → total (b ∷ bs) < 2 ^ 32
    → length (request_bytes crc writer first (b ∷ bs)) < usize_mod
    → inspect_record_batches crc decompress (request_bytes crc writer first (b ∷ bs))
      ≡ ok (record { record_count = total (b ∷ bs); producer = producer_of writer first })
unfolding inspect_record_batches
inspect-request_bytes crc decompress small writer first b bs is are sequences room fits =
    let records = request_bytes crc writer first (b ∷ bs) in
    rw
      (
        loop-request crc decompress small writer is (suc (length records)) records []
              (record { cursor = 0; record_count = 0; producer = unknown }) first first b bs refl
              fits (omega arith) refl are sequences (inl (refl, refl)) (omega (arith, room))
            ∙ same_scan {d = total (b ∷ bs)} refl (omega arith) refl,
        gt→ne (total (b ∷ bs)) 0 (omega (arith, are.0.0)),
        inspected_producer-mode_of writer first (first + total (b ∷ bs)),
      )
      refl
