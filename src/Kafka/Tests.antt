-- ===== src/Kafka/Tests.antt =====
-- The inspection of record batches of crates/shard-stream-kafka at concrete inputs.
use shard_stream.Prelude.{ℕ, ◌≡◌, ◌⊎◌, refl, Option, none, some, List, [], ◌∷◌, ◌++◌}
use shard_stream.Prelude.Bytes.{Bytes}
use shard_stream.Prelude.Results.{ok, err}
use shard_stream.Kafka.Record.{
  ResponseError, invalid_producer_epoch, Compression, inspect_record, validate_record_data,
  validate_record_frames, read_varint, read_varlong, read_shifts, read_byte, take_bytes,
  skip_nullable_bytes,
}
use shard_stream.Kafka.Batch.{
  InspectedRecordBatches, inspect_record_batches, inspect_batch, inspect_header, update_producer,
}
use shard_stream.Prelude.Integers.{pos, negsuc}
use shard_stream.Kafka.Record.Varint.{write_varint, write_varlong}
use shard_stream.Kafka.Record.Accepts.{Content, records_bytes, record_bytes, AllContent}
use shard_stream.Kafka.Batch.Writer.{Writer, Batch}
use shard_stream.Kafka.Batch.Round.{request_bytes}
use shard_stream.Kafka.Batch.Request.{AreBatches, inspect-request_bytes}
use shard_stream.Prelude.{arith}
use shard_stream.Kafka.Batch.Total.{IsInspected, inspect_record_batches_total}

-- A checksum that is the same for all bytes.
abbrev no_crc : Bytes → ℕ
no_crc bytes = 0

abbrev no_codec : Compression → Bytes → Option Bytes
no_codec codec bytes = none

-- Two records of producer 7 from its sequence 100, and one more from 102.
abbrev two_records : Bytes
two_records =
    0 ∷ 0 ∷ 0 ∷ 0 ∷ 0 ∷ 0 ∷ 0 ∷ 0 ∷ 0 ∷ 0 ∷ 0 ∷ 63 ∷ 0 ∷ 0 ∷ 0 ∷ 0 ∷ 2 ∷ 0 ∷ 0 ∷ 0 ∷ 0 ∷ 0 ∷ 0 ∷ 0
    ∷ 0 ∷ 0 ∷ 1 ∷ 0 ∷ 0 ∷ 0 ∷ 0 ∷ 0 ∷ 0 ∷ 0 ∷ 0 ∷ 0 ∷ 0 ∷ 0 ∷ 0 ∷ 0 ∷ 0 ∷ 0 ∷ 0 ∷ 0 ∷ 0 ∷ 0 ∷ 0 ∷ 0
    ∷ 0 ∷ 0 ∷ 7 ∷ 0 ∷ 2 ∷ 0 ∷ 0 ∷ 0 ∷ 100 ∷ 0 ∷ 0 ∷ 0 ∷ 2 ∷ 12 ∷ 0 ∷ 0 ∷ 0 ∷ 1 ∷ 1 ∷ 0 ∷ 12 ∷ 0 ∷ 0
    ∷ 2 ∷ 1 ∷ 1 ∷ 0 ∷ []

abbrev third_record : Bytes
third_record =
    0 ∷ 0 ∷ 0 ∷ 0 ∷ 0 ∷ 0 ∷ 0 ∷ 0 ∷ 0 ∷ 0 ∷ 0 ∷ 56 ∷ 0 ∷ 0 ∷ 0 ∷ 0 ∷ 2 ∷ 0 ∷ 0 ∷ 0 ∷ 0 ∷ 0 ∷ 0 ∷ 0
    ∷ 0 ∷ 0 ∷ 0 ∷ 0 ∷ 0 ∷ 0 ∷ 0 ∷ 0 ∷ 0 ∷ 0 ∷ 0 ∷ 0 ∷ 0 ∷ 0 ∷ 0 ∷ 0 ∷ 0 ∷ 0 ∷ 0 ∷ 0 ∷ 0 ∷ 0 ∷ 0 ∷ 0
    ∷ 0 ∷ 0 ∷ 7 ∷ 0 ∷ 2 ∷ 0 ∷ 0 ∷ 0 ∷ 102 ∷ 0 ∷ 0 ∷ 0 ∷ 1 ∷ 12 ∷ 0 ∷ 0 ∷ 0 ∷ 1 ∷ 1 ∷ 0 ∷ []

abbrev three_records : InspectedRecordBatches
three_records = record {
  record_count = 3;
  producer = some (record { producer_id = 7; epoch = 2; first_sequence = 100; event_id = none });
}

contiguous_run :
    inspect_record_batches no_crc no_codec (two_records ++ third_record) ≡ ok three_records
unfolding inspect_record_batches inspect_batch inspect_header inspect_record validate_record_data
    validate_record_frames update_producer read_varint read_varlong read_shifts read_byte take_bytes
    skip_nullable_bytes
contiguous_run = refl

-- The batches of a producer in the other order.
swapped_run :
    inspect_record_batches no_crc no_codec (third_record ++ two_records)
    ≡ err invalid_producer_epoch
unfolding inspect_record_batches inspect_batch inspect_header inspect_record validate_record_data
    validate_record_frames update_producer read_varint read_varlong read_shifts read_byte take_bytes
    skip_nullable_bytes
swapped_run = refl

inspect_record_batches_total_example :
    ((e : ResponseError) × (inspect_record_batches no_crc no_codec (two_records ++ third_record)
        ≡ err e))
    ⊎ ((r : InspectedRecordBatches) × (inspect_record_batches no_crc no_codec
            (two_records ++ third_record)
          ≡ ok r)
        × IsInspected r)
inspect_record_batches_total_example =
    inspect_record_batches_total no_crc no_codec (two_records ++ third_record)

abbrev contents : List Content
contents =
    record {
      attributes = 0;
      timestamp_delta = pos 0;
      key = none;
      value = some (104 ∷ 105 ∷ []);
      headers = (107 ∷ [], none) ∷ [];
    }
    ∷ record {
      attributes = 0;
      timestamp_delta = negsuc 300;
      key = some (1 ∷ []);
      value = none;
      headers = [];
    }
    ∷ []

contents_run :
    records_bytes 0 contents
    ≡ 22 ∷ 0 ∷ 0 ∷ 0 ∷ 1 ∷ 4 ∷ 104 ∷ 105 ∷ 2 ∷ 2 ∷ 107 ∷ 1 ∷ 16 ∷ 0 ∷ 217 ∷ 4 ∷ 2 ∷ 2 ∷ 1 ∷ 1 ∷ 0
      ∷ []
unfolding records_bytes record_bytes write_varint write_varlong
contents_run = refl

contents-AllContent : AllContent 0 contents
unfolding record_bytes write_varint write_varlong
contents-AllContent = omega arith

abbrev first_batch : Batch
first_batch = record {
  base_offset = 0;
  leader_epoch = 0;
  base_timestamp = 1700000000000;
  max_timestamp = 1700000000000;
  records = contents;
}

abbrev producer_7 : Writer
producer_7 = record { id = 7; epoch = 2 }

first_batch-AreBatches : AreBatches (first_batch ∷ first_batch ∷ [])
unfolding records_bytes record_bytes write_varint write_varlong
first_batch-AreBatches = omega arith

inspect-request_bytes_example :
    inspect_record_batches no_crc no_codec
      (request_bytes no_crc (some producer_7) 100 (first_batch ∷ first_batch ∷ []))
    ≡ ok (record {
      record_count = 4;
      producer =
          some (record { producer_id = 7; epoch = 2; first_sequence = 100; event_id = none });
    })
unfolding request_bytes records_bytes record_bytes write_varint write_varlong
inspect-request_bytes_example =
    inspect-request_bytes no_crc no_codec (λ bytes. omega arith) (some producer_7) 100 first_batch
      (first_batch ∷ []) (omega arith, omega arith) first_batch-AreBatches (omega arith)
      (omega arith) (omega arith)
