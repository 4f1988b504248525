-- ===== src/SegmentMap/Dense.antt =====
-- crates/ordered-segment-map/src/dense.rs: insertion-ordered storage for dense monotonic keys.
-- `capacity` is the const parameter SEGMENT_CAPACITY; `new` asserts that it is positive.
pub mod Inv
pub mod Lookup
pub mod Update
pub mod Front
pub mod Truncate
pub mod Search
pub mod Iterate
pub mod Access
pub mod History
pub mod Points
use shard_stream.Prelude.{
  ℕ, ◌+◌, ◌-◌, ◌/◌, Bool, true, false, ◌||◌, Option, none, some, List, [], ◌∷◌, ◌++◌, ltb, leb,
  ◌==◌, if◌then◌else◌, length, get_elem?, drop, modify, checked_add, checked_sub, try_from,
  u128_mod, usize_mod, min, max,
}

pub record Segment {ℓ} (T : Type ℓ) : Type ℓ where
  pub first_key : ℕ
  pub values : List T

pub data DenseInsertError {ℓ} (T : Type ℓ) : Type ℓ where
  out_of_order : ℕ → ℕ → T → DenseInsertError T
  key_space_exhausted : T → DenseInsertError T
  capacity_exhausted : T → DenseInsertError T

pub data PushResult {ℓ} (T : Type ℓ) : Type ℓ where
  pushed : PushResult T
  refused : DenseInsertError T → PushResult T

pub record DenseOrderedMap {ℓ} (T : Type ℓ) : Type ℓ where
  pub first_key : ℕ
  pub next_key : ℕ
  pub len : ℕ
  pub segments : List (Segment T)

infixl 5 ◌>>=◌
abbrev ◌>>=◌ {ℓ κ} : {A : Type ℓ} {B : Type κ} → Option A → (A → Option B) → Option B
none >>= f = none
some a >>= f = f a

module _ {ℓ} {T : Type ℓ} where
  abbrev pub end_key : Segment T → ℕ
  end_key s = s.first_key + length s.values

  unfoldable pub new : ℕ → DenseOrderedMap T
  new first_key = record { first_key = first_key; next_key = first_key; len = 0; segments = [] }

  -- The value that a refused insertion hands back.
  pub into_value : DenseInsertError T → T
  into_value (out_of_order expected actual value) = value
  into_value (key_space_exhausted value) = value
  into_value (capacity_exhausted value) = value

  pub is_empty : DenseOrderedMap T → Bool
  is_empty m = m.len == 0

module _ {ℓ} {T : Type ℓ} (capacity : ℕ) where
  -- `segments.back_mut()` and the two arms of the match on it.
  pub push_segments : ℕ → T → List (Segment T) → List (Segment T)
  push_segments key value [] = record { first_key = key; values = value ∷ [] } ∷ []
  push_segments key value (s ∷ []) =
      if s.first_key / capacity == key / capacity
      then record s { values = s.values ++ value ∷ [] } ∷ []
      else s ∷ record { first_key = key; values = value ∷ [] } ∷ []
  push_segments key value (s ∷ t ∷ rest) = s ∷ push_segments key value (t ∷ rest)

  pub push_expected : DenseOrderedMap T → ℕ → T → PushResult T × DenseOrderedMap T
  push_expected m key value = elim (checked_add u128_mod key 1) [
    | none ↦ (refused (key_space_exhausted value), m)
    | some next_key ↦ elim (checked_add usize_mod m.len 1) [
      | none ↦ (refused (capacity_exhausted value), m)
      | some next_len ↦ (
        pushed,
        record {
          first_key = m.first_key;
          next_key = next_key;
          len = next_len;
          segments = push_segments key value m.segments;
        },
      )
    ]
  ]

  unfoldable pub push : DenseOrderedMap T → ℕ → T → PushResult T × DenseOrderedMap T
  unfolding push_expected push_segments
  push m key value =
      if key == m.next_key
      then push_expected m key value
      else (refused (out_of_order m.next_key key value), m)

  -- The segment's place in the deque and the value's place in the segment.
  pub position_from : DenseOrderedMap T → ℕ → List (Segment T) → Option (ℕ × ℕ)
  position_from m key [] = none
  position_from m key (first ∷ rest) = do
    segment_index ← try_from usize_mod (key / capacity - first.first_key / capacity)
    segment ← get_elem? (first ∷ rest) segment_index
    offset ← checked_sub key segment.first_key
    value_index ← try_from usize_mod offset
    if ltb value_index (length segment.values) then some (segment_index, value_index) else none

  unfoldable pub position : DenseOrderedMap T → ℕ → Option (ℕ × ℕ)
  unfolding position_from
  position m key =
      if ltb key m.first_key || leb m.next_key key then none else position_from m key m.segments

  unfoldable pub get : DenseOrderedMap T → ℕ → Option T
  unfolding position
  get m key = do
    (segment_index, value_index) ← position m key
    segment ← get_elem? m.segments segment_index
    get_elem? segment.values value_index

  -- `get_mut` with what its caller does to the borrowed value.
  unfoldable pub update : DenseOrderedMap T → ℕ → (T → T) → DenseOrderedMap T
  update m key f = elim (position m key) [
    | none ↦ m
    | some at ↦ record m {
      segments = modify (λ s. record s { values = modify f s.values at.1 }) m.segments at.0;
    }
  ]

  unfoldable pub contains_key : DenseOrderedMap T → ℕ → Bool
  contains_key m key = elim (position m key) [ none ↦ false | some at ↦ true ]

module _ {ℓ} {T : Type ℓ} where
  -- The front segment after its first value is taken, and dropped once it is empty.
  pub shrink_front : ℕ → List T → List (Segment T) → List (Segment T)
  shrink_front key [] rest = rest
  shrink_front key (v ∷ vs) rest = record { first_key = key; values = v ∷ vs } ∷ rest

  pub pop_value :
      DenseOrderedMap T → Segment T → List T → List (Segment T) → Option (ℕ × T) × DenseOrderedMap T
  pop_value m s [] rest = (none, m)
  pop_value m s (v ∷ vs) rest = (
    some (m.first_key, v),
    record m {
      first_key = if m.len - 1 == 0 then m.next_key else m.first_key + 1;
      len = m.len - 1;
      segments = shrink_front (s.first_key + 1) vs rest;
    },
  )

  pub pop_segment : DenseOrderedMap T → List (Segment T) → Option (ℕ × T) × DenseOrderedMap T
  pop_segment m [] = (none, m)
  pop_segment m (s ∷ rest) = pop_value m s s.values rest

  unfoldable pub pop_front : DenseOrderedMap T → Option (ℕ × T) × DenseOrderedMap T
  unfolding pop_segment pop_value shrink_front
  pop_front m = pop_segment m m.segments

  -- The loop that drops whole segments; the number counts the removed entries.
  pub drop_segments : ℕ → DenseOrderedMap T → ℕ → List (Segment T) → ℕ × DenseOrderedMap T
  drop_segments target m removed [] = (removed, record m { segments = [] })
  drop_segments target m removed (s ∷ rest) =
      let more =
        drop_segments target (record m { first_key = end_key s; len = m.len - length s.values })
          (removed + length s.values) rest in
      if leb (end_key s) target then more else (removed, record m { segments = s ∷ rest })

  -- The one partial drain.
  pub drain_front : ℕ → DenseOrderedMap T → ℕ → List (Segment T) → ℕ × DenseOrderedMap T
  drain_front target m removed [] = (removed, m)
  drain_front target m removed (s ∷ rest) =
      if ltb s.first_key target
      then (
        removed + (target - s.first_key),
        record m {
          first_key = target;
          len = m.len - (target - s.first_key);
          segments =
              record { first_key = target; values = drop (target - s.first_key) s.values } ∷ rest;
        },
      )
      else (removed, m)

  -- An empty map starts at its next key.
  pub reset_empty : DenseOrderedMap T → DenseOrderedMap T
  reset_empty m = if m.len == 0 then record m { first_key = m.next_key } else m

  unfoldable pub truncate_before : DenseOrderedMap T → ℕ → ℕ × DenseOrderedMap T
  unfolding drop_segments drain_front reset_empty
  truncate_before m first_retained =
      let target = max m.first_key (min first_retained m.next_key) in
      let (removed, dropped) = drop_segments target m 0 m.segments in
      let (total, drained) = drain_front target dropped removed dropped.segments in
      (total, reset_empty drained)

  abbrev pub segment_values : List (Segment T) → List T
  segment_values [] = []
  segment_values (s ∷ rest) = s.values ++ segment_values rest

  -- `values()`
  abbrev pub values : DenseOrderedMap T → List T
  values m = segment_values m.segments
