-- ===== src/SegmentMap/Sequence.antt =====
-- What the dense map of crates/ordered-segment-map promises: a list of values under consecutive
-- keys, with no segments.
use shard_stream.Prelude.{
  ℕ, ◌+◌, ◌-◌, Option, none, some, List, [], ◌∷◌, ◌++◌, ltb, leb, ◌==◌, if◌then◌else◌, length,
  get_elem?, drop, modify, u128_mod, usize_mod, min,
}
use shard_stream.SegmentMap.Dense.{
  PushResult, pushed, refused, out_of_order, key_space_exhausted, capacity_exhausted,
}

-- The key of the first value, and the values in order.
pub record Sequence {ℓ} (T : Type ℓ) : Type ℓ where
  pub first : ℕ
  pub items : List T

module _ {ℓ} {T : Type ℓ} where
  abbrev pub next : Sequence T → ℕ
  next q = q.first + length q.items

  -- A push takes exactly the next key, while the key and the number of values can be represented.
  unfoldable pub push : Sequence T → ℕ → T → PushResult T × Sequence T
  push q key value =
      if key == next q
      then if ltb (key + 1) u128_mod
        then if ltb (length q.items + 1) usize_mod
          then (pushed, record q { items = q.items ++ value ∷ [] })
          else (refused (capacity_exhausted value), q)
        else (refused (key_space_exhausted value), q)
      else (refused (out_of_order (next q) key value), q)

  unfoldable pub get : Sequence T → ℕ → Option T
  get q key = if leb q.first key then get_elem? q.items (key - q.first) else none

  unfoldable pub update : Sequence T → ℕ → (T → T) → Sequence T
  update q key f =
      if leb q.first key then record q { items = modify f q.items (key - q.first) } else q

  unfoldable pub pop_items : ℕ → List T → Option (ℕ × T) × Sequence T
  pop_items first [] = (none, record { first = first; items = [] })
  pop_items first (v ∷ vs) = (some (first, v), record { first = first + 1; items = vs })

  unfoldable pub pop_front : Sequence T → Option (ℕ × T) × Sequence T
  unfolding pop_items
  pop_front q = pop_items q.first q.items

  -- How many values have a key below `key`.
  abbrev pub below : Sequence T → ℕ → ℕ
  below q key = min (key - q.first) (length q.items)

  unfoldable pub truncate_before : Sequence T → ℕ → ℕ × Sequence T
  truncate_before q key =
      (below q key, record { first = q.first + below q key; items = drop (below q key) q.items })
