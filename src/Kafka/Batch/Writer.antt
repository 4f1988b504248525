-- ===== src/Kafka/Batch/Writer.antt =====
-- The producer of encoded batches, and the mode that they leave
-- (crates/shard-stream-kafka/src/batch.rs).
use shard_stream.Prelude.{
  ℕ, ◌+◌, ◌-◌, ◌^◌, ◌≤◌, ◌<◌, ◌≡◌, ◌⊎◌, inl, inr, refl, ap, sym, subst, Option, none, some, List,
  ==_refl, length, arith, le→ltb, lt→ltb,
}
use shard_stream.Prelude.Results.{ok}
use shard_stream.Kafka.Batch.{
  ProducerMode, unknown, non_idempotent, idempotent, idempotent_mode, batch_mode, join_modes,
  update_producer,
}
use shard_stream.Kafka.Record.Accepts.{Content}
use shard_stream.Kafka.Batch.Header.{Words, header_of}

-- The producer of a request, and its epoch.
pub record Writer : Type 0 where
  pub id : ℕ
  pub epoch : ℕ

-- The batch of some records; the numbers have no part in its check.
pub record Batch : Type 0 where
  pub base_offset : ℕ
  pub leader_epoch : ℕ
  pub base_timestamp : ℕ
  pub max_timestamp : ℕ
  pub records : List Content

-- The words of a request without a producer stand for minus one.
abbrev pub id_word : Option Writer → ℕ
id_word none = 2 ^ 64 - 1
id_word (some writer) = writer.id

abbrev pub epoch_word : Option Writer → ℕ
epoch_word none = 2 ^ 16 - 1
epoch_word (some writer) = writer.epoch

abbrev pub sequence_word : Option Writer → ℕ → ℕ
sequence_word none first = 2 ^ 32 - 1
sequence_word (some writer) first = first

abbrev pub words : Option Writer → ℕ → Batch → Words
words writer first b = record {
  leader_epoch = b.leader_epoch;
  base_timestamp = b.base_timestamp;
  max_timestamp = b.max_timestamp;
  producer_id = id_word writer;
  producer_epoch = epoch_word writer;
  base_sequence = sequence_word writer first;
  record_count = length b.records;
}

-- The mode after the batches of a request.
abbrev pub mode_of : Option Writer → ℕ → ℕ → ProducerMode
mode_of none first next = non_idempotent
mode_of (some writer) first next = idempotent writer.id writer.epoch first next

abbrev pub IsWriter : Option Writer → Type 0
IsWriter none = Unit {0}
IsWriter (some writer) = (writer.id < 2 ^ 63) × (writer.epoch < 2 ^ 15)

-- The sequences of the next `count` records are numbers of an i32, if the writer has any.
abbrev pub Fits : Option Writer → (first count : ℕ) → Type 0
Fits none first count = Unit {0}
Fits (some writer) first count = first + count ≤ 2 ^ 31

batch_mode-words :
    (writer : Option Writer) (first : ℕ) (b : Batch)
    → IsWriter writer
    → 0 < length b.records
    → Fits writer first (length b.records)
    → batch_mode (header_of (words writer first b))
      ≡ ok (mode_of writer first (first + length b.records))
unfolding batch_mode idempotent_mode
batch_mode-words none first b is some_records fits = refl
batch_mode-words (some writer) first b is some_records fits =
    rw
      (
        lt→ltb writer.id (2 ^ 63) is.0,
        lt→ltb writer.epoch (2 ^ 15) is.1,
        lt→ltb first (2 ^ 31) (omega (arith, some_records, fits)),
        lt→ltb (first + (length b.records - 1)) (2 ^ 63) (omega (arith, fits)),
        le→ltb (2 ^ 31 - 1) (first + (length b.records - 1)) (omega (arith, some_records, fits)),
      )
      (ap (λ next. ok (idempotent writer.id writer.epoch first next)) (omega (arith, some_records)))

-- A batch that begins at `first` may follow the mode so far, of a request that began at `origin`.
abbrev pub Joins : Option Writer → (origin first : ℕ) → ProducerMode → Type 0
Joins writer origin first mode =
    ((mode ≡ unknown) × (first ≡ origin)) ⊎ (mode ≡ mode_of writer origin first)

join_next :
    (writer : Option Writer) (origin first next : ℕ)
    → join_modes (mode_of writer origin first) (mode_of writer first next)
      ≡ ok (mode_of writer origin next)
unfolding join_modes
join_next none origin first next = refl
join_next (some writer) origin first next =
    rw (==_refl writer.id, ==_refl writer.epoch, ==_refl first) refl

pub update_producer-words :
    (writer : Option Writer) (origin first : ℕ) (b : Batch) (mode : ProducerMode)
    → IsWriter writer
    → 0 < length b.records
    → Fits writer first (length b.records)
    → Joins writer origin first mode
    → update_producer mode (header_of (words writer first b))
      ≡ ok (mode_of writer origin (first + length b.records))
unfolding update_producer join_modes
update_producer-words writer origin first b mode is some_records fits joins =
    rw (batch_mode-words writer first b is some_records fits) (elim joins [
      | inl (new, begins) ↦
          subst (λ m. join_modes m (mode_of writer first next) ≡ ok (mode_of writer origin next))
            (sym new) (ap (λ f. ok (mode_of writer f next)) begins)
      | inr same ↦
          subst (λ m. join_modes m (mode_of writer first next) ≡ ok (mode_of writer origin next))
            (sym same) (join_next writer origin first next)
    ])
  where
    next : ℕ
    next = first + length b.records
