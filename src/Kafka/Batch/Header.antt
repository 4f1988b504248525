-- ===== src/Kafka/Batch/Header.antt =====
-- The header of a batch that Kafka's encoding writes is read
-- (crates/shard-stream-kafka/src/batch.rs).
use shard_stream.Prelude.{
  ℕ, zero, suc, ◌+◌, ◌-◌, ◌*◌, ◌/◌, ◌%◌, ◌^◌, ◌≤◌, ◌<◌, ◌≡◌, refl, ap, sym, ◌∙◌, [], ◌∷◌, ◌++◌,
  ==_refl, length, arith, le→ltb, lt→ltb, le→leb, gt→ne, length-append, append-nil,
}
use shard_stream.Prelude.Bytes.{Bytes, slice, slice_middle, slice_left}
use shard_stream.Prelude.Integers.{pos, signed}
use shard_stream.Prelude.Results.{ok, expect}
use shard_stream.Kafka.Record.{uncompressed, BatchHeader}
use shard_stream.Kafka.Batch.{be_onto, from_be, part, index, inspect_header, compression_of}

-- `to_be_bytes` of a word of `width` bytes.
abbrev pub be_bytes : ℕ → ℕ → Bytes
be_bytes zero v = []
be_bytes (suc width) v = be_bytes width (v / 256) ++ (v % 256 ∷ [])

be_onto-snoc :
    (acc b : ℕ) (bytes : Bytes) → be_onto acc (bytes ++ (b ∷ [])) ≡ 256 * be_onto acc bytes + b
unfolding be_onto
be_onto-snoc acc b [] = refl
be_onto-snoc acc b (c ∷ bytes) = be_onto-snoc (256 * acc + c) b bytes

pub from_be-be_bytes : (width v : ℕ) → v < 256 ^ width → from_be (be_bytes width v) ≡ v
unfolding be_onto
from_be-be_bytes zero v h = omega arith
from_be-be_bytes (suc width) v h =
    be_onto-snoc 0 (v % 256) (be_bytes width (v / 256))
    ∙ omega (arith, from_be-be_bytes width (v / 256) (omega arith))

-- The words of the header of a batch that are not fixed.
pub record Words : Type 0 where
  pub leader_epoch : ℕ
  pub base_timestamp : ℕ
  pub max_timestamp : ℕ
  pub producer_id : ℕ
  pub producer_epoch : ℕ
  pub base_sequence : ℕ
  pub record_count : ℕ

-- What the checksum covers of the header.
abbrev pub covered_head : Words → Bytes
covered_head w =
    be_bytes 2 0
    ++ (be_bytes 4 (w.record_count - 1)
        ++ (be_bytes 8 w.base_timestamp
            ++ (be_bytes 8 w.max_timestamp
                ++ (be_bytes 8 w.producer_id
                    ++ (be_bytes 2 w.producer_epoch
                        ++ (be_bytes 4 w.base_sequence ++ be_bytes 4 w.record_count))))))

abbrev pub body_head : ℕ → Words → Bytes
body_head crc w = be_bytes 4 w.leader_epoch ++ (2 ∷ (be_bytes 4 crc ++ covered_head w))

abbrev pub body_bytes : (Bytes → ℕ) → Words → Bytes → Bytes
body_bytes crc w frames = body_head (crc (covered_head w ++ frames)) w ++ frames

pub record AreWords (w : Words) : Type 0 where
  pub id : w.producer_id < 2 ^ 64
  pub epoch : w.producer_epoch < 2 ^ 16
  pub sequence : w.base_sequence < 2 ^ 32
  pub some_records : 0 < w.record_count
  pub count : w.record_count < 2 ^ 31

abbrev pub header_of : Words → BatchHeader
header_of w = record {
  compression = uncompressed;
  last_offset_delta = pos (w.record_count - 1);
  producer_id = signed (2 ^ 63) w.producer_id;
  producer_epoch = signed (2 ^ 15) w.producer_epoch;
  base_sequence = signed (2 ^ 31) w.base_sequence;
  record_count = w.record_count;
}

pub signed_pos : (half v : ℕ) → v < half → signed half v ≡ pos v
signed_pos half v h = rw (lt→ltb v half h) refl

-- The header from its fields, wherever they stand.
header_from :
    (crc : Bytes → ℕ) (body supplied covered bits delta id epoch base count : Bytes) (w : Words)
    → AreWords w
    → 49 ≤ length body
    → index body 4 ≡ ok 2
    → (part body 5 9 ≡ ok supplied) × (from_be supplied ≡ crc covered)
    → part body 9 (length body) ≡ ok covered
    → (part body 9 11 ≡ ok bits) × (from_be bits ≡ 0)
    → (part body 11 15 ≡ ok delta) × (from_be delta ≡ w.record_count - 1)
    → (part body 31 39 ≡ ok id) × (from_be id ≡ w.producer_id)
    → (part body 39 41 ≡ ok epoch) × (from_be epoch ≡ w.producer_epoch)
    → (part body 41 45 ≡ ok base) × (from_be base ≡ w.base_sequence)
    → (part body 45 49 ≡ ok count) × (from_be count ≡ w.record_count)
    → inspect_header crc body ≡ ok (header_of w)
unfolding inspect_header compression_of
header_from crc body supplied covered bits delta id epoch base count w are long magic (s, s') c
      (a, a') (d, d') (i, i') (e, e') (q, q') (n, n') =
    rw
      (
        le→ltb (length body) 49 long,
        magic,
        s,
        c,
        s',
        ==_refl (crc covered),
        a,
        a',
        d,
        i,
        e,
        q,
        n,
        n',
        d',
        i',
        e',
        q',
        lt→ltb w.record_count (2 ^ 31) are.count,
        lt→ltb (w.record_count - 1) (2 ^ 31) (omega (arith, are.count)),
        gt→ne w.record_count 0 are.some_records,
        le→leb 1 w.record_count are.some_records,
        ==_refl (w.record_count - 1),
      )
      refl

head_part :
    (head rest x : Bytes) (from to : ℕ)
    → to ≤ length head
    → part head from to ≡ ok x
    → part (head ++ rest) from to ≡ ok x
head_part head rest x from to inside e = ap expect (slice_left head rest from to inside) ∙ e

-- The header of an encoded batch is read, and a word of it is what was written.
pub inspect_header-body_bytes :
    (crc : Bytes → ℕ) (w : Words) (frames : Bytes)
    → AreWords w
    → ((bytes : Bytes) → crc bytes < 2 ^ 32)
    → inspect_header crc (body_bytes crc w frames) ≡ ok (header_of w)
inspect_header-body_bytes crc w frames are small =
    header_from crc (body_bytes crc w frames) (be_bytes 4 sum) covered (be_bytes 2 0)
      (be_bytes 4 (w.record_count - 1)) (be_bytes 8 w.producer_id) (be_bytes 2 w.producer_epoch)
      (be_bytes 4 w.base_sequence) (be_bytes 4 w.record_count) w are
      (omega (arith, length-append (body_head sum w) frames)) refl
      (at 5 9 (be_bytes 4 sum) (omega arith) refl, from_be-be_bytes 4 sum (small covered)) rest
      (at 9 11 (be_bytes 2 0) (omega arith) refl, from_be-be_bytes 2 0 (omega arith))
      (
        at 11 15 (be_bytes 4 (w.record_count - 1)) (omega arith) refl,
        from_be-be_bytes 4 (w.record_count - 1) (omega (arith, are.count)),
      )
      (
        at 31 39 (be_bytes 8 w.producer_id) (omega arith) refl,
        from_be-be_bytes 8 w.producer_id are.id,
      )
      (
        at 39 41 (be_bytes 2 w.producer_epoch) (omega arith) refl,
        from_be-be_bytes 2 w.producer_epoch are.epoch,
      )
      (
        at 41 45 (be_bytes 4 w.base_sequence) (omega arith) refl,
        from_be-be_bytes 4 w.base_sequence are.sequence,
      )
      (
        at 45 49 (be_bytes 4 w.record_count) (omega arith) refl,
        from_be-be_bytes 4 w.record_count (omega (arith, are.count)),
      )
  where
    covered : Bytes
    covered = covered_head w ++ frames

    sum : ℕ
    sum = crc covered

    at :
        (from to : ℕ) (x : Bytes)
        → to ≤ 49
        → part (body_head sum w) from to ≡ ok x
        → part (body_bytes crc w frames) from to ≡ ok x
    at from to x inside e = head_part (body_head sum w) frames x from to inside e

    rest : part (body_bytes crc w frames) 9 (length (body_bytes crc w frames)) ≡ ok covered
    rest = ap expect (
        ap (λ bytes. slice bytes 9 (length (body_bytes crc w frames)))
          (sym (append-nil (body_bytes crc w frames)))
        ∙ slice_middle (be_bytes 4 w.leader_epoch ++ (2 ∷ be_bytes 4 sum)) covered [] 9
            (length (body_bytes crc w frames)) refl (omega arith))
