-- ===== src/SegmentMap/Sparse/Insert.antt =====
-- An insertion of `OrderedAppendMap` (sparse.rs) changes the value of one key.
use shard_stream.Prelude.{
  ℕ, ◌+◌, ◌<◌, ◌≡◌, ◌↔◌, refl, ap, sym, subst, Bool, Option, none, some, Option-cases, inl, inr,
  if◌then◌else◌, u128_mod, usize_mod,
}
use shard_stream.Prelude.Results.{ok}
use shard_stream.SegmentMap.Dense
use shard_stream.SegmentMap.Dense.{DenseOrderedMap, PushResult, pushed, refused}
use shard_stream.SegmentMap.Dense.Points.{get-push}
use shard_stream.SegmentMap.Sparse.{
  LookupSlot, OrderedEntry, HashTable, OrderedAppendMap, get, get_prehashed, insert,
  insert_prehashed, insert_found, replace_at, append, get_found, Called,
}
use shard_stream.SegmentMap.Sparse.Laws.{TableLaws, KeyLaws}
use shard_stream.SegmentMap.Sparse.Index.{IsIndex, search, search-some, get-Entry}
use shard_stream.SegmentMap.Sparse.Replace.{replaced, replaced-IsIndex, replaced-get}
use shard_stream.SegmentMap.Sparse.Append.{appended, appended-IsIndex, appended-get}

module _ {Table K V : Type 0} (capacity : ℕ) (positive : 0 < capacity) (table : HashTable Table)
    (laws : TableLaws table) (eq : K → K → Bool) (keys : KeyLaws eq) (hash_one : K → ℕ) where
  abbrev IsIndexed : OrderedAppendMap Table K V → Type 0
  IsIndexed m = IsIndex capacity positive table laws eq keys hash_one m

  abbrev at : OrderedAppendMap Table K V → ℕ → Option (OrderedEntry K V)
  at m i = Dense.get capacity m.entries i

  abbrev get_in : OrderedAppendMap Table K V → K → Option V
  get_in m key = get capacity table eq hash_one m key

  entry :
      (m : OrderedAppendMap Table K V) (key : K) (value : V)
      → IsIndexed m
      → (get_in m key ≡ some value) ↔ (
          (i : ℕ) × (e : OrderedEntry K V) × ((at m i ≡ some e) × (e.key ≡ key))
          × (e.value ≡ value))
  entry m key value v = get-Entry capacity positive table laws eq keys hash_one m key value v

  replace_found :
      (m : OrderedAppendMap Table K V) (value : V) (s : LookupSlot) (e : OrderedEntry K V)
      → at m s.ordinal ≡ some e
      → replace_at capacity table eq hash_one m value s ≡ (
        ok (some e.value),
        replaced capacity positive table laws eq keys hash_one m s.ordinal value,
      )
  unfolding replace_at
  replace_found m value s e there = rw (there, replace_at) refl

  append_pushed :
      (m : OrderedAppendMap Table K V) (key : K) (value : V)
      → (Dense.push capacity m.entries m.entries.next_key
          (record { hash = hash_one key; key = key; value = value })).0
        ≡ pushed
      → append capacity table eq hash_one m (hash_one key) key value
        ≡ (ok none, appended capacity positive table laws eq keys hash_one m key value)
  unfolding append
  append_pushed m key value e = rw (e, append) refl

  unfound :
      (m : OrderedAppendMap Table K V) (key : K)
      → search capacity positive table laws eq keys hash_one m key ≡ none
      → get_in m key ≡ none
  unfolding get_prehashed get_found
  unfound m key missed = rw missed refl

  -- What an insertion leaves: the answer is the value that the key had, and the key has the new one.
  pub record Inserts (m : OrderedAppendMap Table K V) (key : K) (value : V)
      (x : Called (Option V) × OrderedAppendMap Table K V) : Type 0 where
    pub result : x.0 ≡ ok (get_in m key)
    pub index : IsIndexed x.1
    pub lookup : (k : K) → get_in x.1 k ≡ (if eq key k then some value else get_in m k)

  -- On a well-formed map with room for an entry, an insertion does not panic, keeps the map well
  -- formed, returns the value that the key had, and changes what is found under that key alone.
  pub insert-Inserts :
      (m : OrderedAppendMap Table K V) (key : K) (value : V)
      → IsIndexed m
      → m.entries.next_key + 1 < u128_mod
      → m.entries.len + 1 < usize_mod
      → Inserts m key value (insert capacity table eq hash_one m key value)
  unfolding insert_prehashed insert_found replace_at append get_prehashed get_found
  insert-Inserts m key value v ordinals room =
      elim (Option-cases (search capacity positive table laws eq keys hash_one m key)) [
        | inr (s, found) ↦
            let (e, (there, same_key)) =
              search-some capacity positive table laws eq keys hash_one m key s found in
            rw found (
              subst (Inserts m key value) (sym (replace_found m value s e there)) (record {
                result =
                    ap ok (sym ((entry m key e.value v).1 (s.ordinal, e, (there, same_key), refl)));
                index =
                    replaced-IsIndex capacity positive table laws eq keys hash_one m v s.ordinal
                      value e there;
                lookup =
                    replaced-get capacity positive table laws eq keys hash_one m v s.ordinal value e
                      there key same_key;
              }))
        | inl missed ↦ rw missed (
            subst (Inserts m key value)
              (sym (
                append_pushed m key value
                  (get-push capacity positive m.entries v.valid
                    (record { hash = hash_one key; key = key; value = value }) 0 ordinals room).0))
              (record {
                result = ap ok (sym (unfound m key missed));
                index =
                    appended-IsIndex capacity positive table laws eq keys hash_one m v key value
                      missed ordinals room;
                lookup =
                    appended-get capacity positive table laws eq keys hash_one m v key value missed
                      ordinals room;
              }))
      ]
