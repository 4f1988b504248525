-- ===== src/SegmentMap/Sparse.antt =====
-- crates/ordered-segment-map/src/sparse.rs: values under arbitrary keys, in the order of their
-- insertion. The hash table of another package, and the hash of a key, are parameters.
pub mod Laws
pub mod Index
pub mod Replace
pub mod Append
pub mod Insert
pub mod Front
use shard_stream.Prelude.{ℕ, zero, suc, ◌==◌, ◌&&◌, Bool, false, Option, none, some, if◌then◌else◌}
use shard_stream.Prelude.Results.{Result, ok, err, panic}
use shard_stream.SegmentMap.Dense
use shard_stream.SegmentMap.Dense.{DenseOrderedMap, PushResult, pushed, refused}

pub record LookupSlot : Type 0 where
  pub hash : ℕ
  pub ordinal : ℕ

pub record OrderedEntry (K V : Type 0) : Type 0 where
  pub hash : ℕ
  pub key : K
  pub value : V

-- What the map calls of `hashbrown::HashTable`; `remove` is `find_entry` and the removal of what it
-- found.
pub record HashTable (Table : Type 0) : Type 0 where
  pub find : Table → ℕ → (LookupSlot → Bool) → Option LookupSlot
  pub insert_unique : Table → ℕ → LookupSlot → Table
  pub remove : Table → ℕ → (LookupSlot → Bool) → Option Table

pub record OrderedAppendMap (Table K V : Type 0) : Type 0 where
  pub entries : DenseOrderedMap (OrderedEntry K V)
  pub lookup : Table

-- A call that cannot fail, but may panic.
abbrev pub Called : Type 0 → Type 0
Called A = Result (Unit {0}) A

module _ {Table K V : Type 0} (capacity : ℕ) (table : HashTable Table) (eq : K → K → Bool)
    (hash_one : K → ℕ) where
  -- The entry of a slot has the key.
  abbrev pub key_is : Option (OrderedEntry K V) → K → Bool
  key_is (some entry) key = eq entry.key key
  key_is none key = false

  abbrev pub has_key : DenseOrderedMap (OrderedEntry K V) → K → LookupSlot → Bool
  has_key entries key slot = key_is (Dense.get capacity entries slot.ordinal) key

  pub replace_at :
      OrderedAppendMap Table K V → V → LookupSlot → Called (Option V) × OrderedAppendMap Table K V
  replace_at m value slot = elim (Dense.get capacity m.entries slot.ordinal) [
    | some entry ↦ (
      ok (some entry.value),
      record m {
        entries = Dense.update capacity m.entries slot.ordinal (λ e. record e { value = value });
      },
    )
    | none ↦ (panic, m)
  ]

  pub append :
      OrderedAppendMap Table K V → ℕ → K → V → Called (Option V) × OrderedAppendMap Table K V
  append m hash key value =
      let ordinal = m.entries.next_key in
      let (result, entries) =
        Dense.push capacity m.entries ordinal (record { hash = hash; key = key; value = value }) in
      elim result [
        | pushed ↦ (
          ok none,
          record {
            entries = entries;
            lookup = table.insert_unique m.lookup hash (record { hash = hash; ordinal = ordinal });
          },
        )
        | refused e ↦ (panic, record m { entries = entries })
      ]

  pub insert_found :
      OrderedAppendMap Table K V
      → ℕ
      → K
      → V
      → Option LookupSlot
      → Called (Option V) × OrderedAppendMap Table K V
  unfolding replace_at append
  insert_found m hash key value (some slot) = replace_at m value slot
  insert_found m hash key value none = append m hash key value

  unfoldable pub insert_prehashed :
      OrderedAppendMap Table K V → ℕ → K → V → Called (Option V) × OrderedAppendMap Table K V
  unfolding insert_found
  insert_prehashed m hash key value =
      insert_found m hash key value (table.find m.lookup hash (has_key m.entries key))

  abbrev pub insert :
      OrderedAppendMap Table K V → K → V → Called (Option V) × OrderedAppendMap Table K V
  insert m key value = insert_prehashed m (hash_one key) key value

  abbrev pub value_of : Option (OrderedEntry K V) → Option V
  value_of none = none
  value_of (some entry) = some entry.value

  pub get_found : OrderedAppendMap Table K V → Option LookupSlot → Option V
  get_found m none = none
  get_found m (some slot) = value_of (Dense.get capacity m.entries slot.ordinal)

  unfoldable pub get_prehashed : OrderedAppendMap Table K V → ℕ → K → Option V
  unfolding get_found
  get_prehashed m hash key = get_found m (table.find m.lookup hash (has_key m.entries key))

  abbrev pub get : OrderedAppendMap Table K V → K → Option V
  get m key = get_prehashed m (hash_one key) key

  pub pop_entry :
      OrderedAppendMap Table K V
      → Option Table
      → Called (Option (K × V)) × OrderedAppendMap Table K V
  pop_entry m none = (panic, m)
  pop_entry m (some lookup) =
      let (popped, entries) = Dense.pop_front m.entries in
      let left : OrderedAppendMap Table K V = record { entries = entries; lookup = lookup } in
      elim popped [
        | some (ordinal, entry) ↦ (ok (some (entry.key, entry.value)), left)
        | none ↦ (panic, left)
      ]

  unfoldable pub pop_front :
      OrderedAppendMap Table K V → Called (Option (K × V)) × OrderedAppendMap Table K V
  unfolding pop_entry
  pop_front m = elim (Dense.get capacity m.entries m.entries.first_key) [
    | none ↦ (ok none, m)
    | some entry ↦
        pop_entry m (table.remove m.lookup entry.hash (λ slot. slot.ordinal == m.entries.first_key))
  ]

  -- The loop of `truncate_front`, with the number of entries that may still go.
  pub truncate_loop : ℕ → ℕ → OrderedAppendMap Table K V → Called ℕ × OrderedAppendMap Table K V
  unfolding pop_front
  truncate_loop zero removed m = (ok removed, m)
  truncate_loop (suc left) removed m =
      let (popped, rest) = pop_front m in
      elim popped [
        | ok found ↦ elim found [
          | some entry ↦ truncate_loop left (suc removed) rest
          | none ↦ (ok removed, rest)
        ]
        | err e ↦ (err e, rest)
        | panic ↦ (panic, rest)
      ]

  unfoldable pub truncate_front :
      OrderedAppendMap Table K V → ℕ → Called ℕ × OrderedAppendMap Table K V
  unfolding truncate_loop
  truncate_front m count = truncate_loop count 0 m
