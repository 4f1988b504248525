-- ===== src/Engine/Outcome.antt =====
-- What a handler of crates/shard-stream-engine/src/coordinator.rs returns, with the state it leaves.
use shard_stream.Prelude.{ℕ, Option, none, some, List, [], ◌∷◌}
use shard_stream.Prelude.Results.{Result, ok, err, panic}
use shard_stream.Engine.Model.{EngineError, AppendResponse}
use shard_stream.Engine.Partition.{PartitionState}
use shard_stream.Core.Model.{Reservation}

abbrev pub Outcome : Type 0 → Type 0
Outcome A = Result EngineError A × PartitionState

-- `?` after a call that may have changed the state.
abbrev pub and_then : {A B : Type 0} → Outcome A → (A → PartitionState → Outcome B) → Outcome B
and_then (ok a, s) f = f a s
and_then (err e, s) f = (err e, s)
and_then (panic, s) f = (panic, s)

-- `?` on a value computed from the state `s`.
abbrev pub try_in :
    {A B : Type 0} → PartitionState → Result EngineError A → (A → Outcome B) → Outcome B
try_in s (ok a) f = f a
try_in s (err e) f = (err e, s)
try_in s panic f = (panic, s)

-- The last element, and the elements before it.
abbrev pub last : List ℕ → Option ℕ
last [] = none
last (x ∷ []) = some x
last (x ∷ y ∷ ys) = last (y ∷ ys)

abbrev pub before_last : List ℕ → List ℕ
before_last [] = []
before_last (x ∷ []) = []
before_last (x ∷ y ∷ ys) = x ∷ before_last (y ∷ ys)

-- `for_batch` is RecordId::for_batch, a hash of the three identifiers.
abbrev pub append_response : (ℕ → ℕ → ℕ → ℕ) → ℕ → Reservation → AppendResponse
append_response for_batch request_id r = record {
  request_id = request_id;
  batch_id = r.batch_id;
  record_id = for_batch r.topic_id r.partition_id r.batch_id;
  first_offset = r.first_offset;
  last_offset = r.last_offset;
  visible_through = r.first_offset;
  placement = r.placement;
}
