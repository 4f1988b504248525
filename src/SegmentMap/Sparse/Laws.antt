-- ===== src/SegmentMap/Sparse/Laws.antt =====
-- What `OrderedAppendMap` (sparse.rs) relies on: the behaviour of the hash table and of key equality.
use shard_stream.Prelude.{ℕ, ◌+◌, ◌<◌, ◌≡◌, ◌==◌, ◌&&◌, ◌↔◌, Bool, true, none, some, if◌then◌else◌}
use shard_stream.SegmentMap.Sparse.{LookupSlot, HashTable}

-- One if the slots are the same, and else nothing.
abbrev pub same : LookupSlot → LookupSlot → ℕ
same s x = if s.hash == x.hash && s.ordinal == x.ordinal then 1 else 0

-- How often a table holds a slot, and what its methods do to that. A search under a hash finds a slot
-- that passes the test, unless no slot with that hash passes it.
pub record TableLaws {Table : Type 0} (table : HashTable Table) : Type 0 where
  pub count : Table → LookupSlot → ℕ
  pub found :
      (t : Table) (h : ℕ) (p : LookupSlot → Bool) (s : LookupSlot)
      → table.find t h p ≡ some s
      → (0 < count t s) × (p s ≡ true)
  pub missed :
      (t : Table) (h : ℕ) (p : LookupSlot → Bool) (s : LookupSlot)
      → table.find t h p ≡ none
      → s.hash ≡ h
      → p s ≡ true
      → count t s ≡ 0
  pub inserted :
      (t : Table) (s x : LookupSlot)
      → count (table.insert_unique t s.hash s) x ≡ count t x + same s x
  pub removed :
      (t u : Table) (h : ℕ) (p : LookupSlot → Bool)
      → table.remove t h p ≡ some u
      → (s : LookupSlot) × (p s ≡ true) × ((x : LookupSlot) → count t x ≡ count u x + same s x)
  pub kept :
      (t : Table) (h : ℕ) (p : LookupSlot → Bool) (s : LookupSlot)
      → table.remove t h p ≡ none
      → s.hash ≡ h
      → p s ≡ true
      → count t s ≡ 0

pub record KeyLaws {K : Type 0} (eq : K → K → Bool) : Type 0 where
  pub equal : (a b : K) → (eq a b ≡ true) ↔ (a ≡ b)
