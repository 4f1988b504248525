-- ===== src/SegmentMap/Sparse/Index.antt =====
-- `OrderedAppendMap` (sparse.rs) is a finite map from keys to values.
use shard_stream.Prelude.{
  ℕ, ◌<◌, ◌≡◌, ◌↔◌, refl, ap, sym, ◌∙◌, Bool, true, ◌==◌, Option, none, some, Option-cases, inl,
  inr, if◌then◌else◌, arith, ==_refl,
}
use shard_stream.SegmentMap.Dense
use shard_stream.SegmentMap.Dense.{DenseOrderedMap, PushResult, pushed, refused}
use shard_stream.SegmentMap.Dense.Inv.{IsValid}
use shard_stream.SegmentMap.Sparse.{
  LookupSlot, OrderedEntry, HashTable, OrderedAppendMap, has_key, key_is, get, get_prehashed,
  get_found,
}
use shard_stream.SegmentMap.Sparse.Laws.{TableLaws, KeyLaws}

abbrev pub value_of : {K V : Type 0} → Option (OrderedEntry K V) → Option V
value_of none = none
value_of (some e) = some e.value

pub some_injective : {A : Type 0} {a b : A} → some a ≡ some b → a ≡ b
some_injective h = cc

pub zero_and_one : (n : ℕ) → n ≡ 0 → n ≡ 1 → ⊥
zero_and_one n h k = omega (arith, h, k)

-- How often the slot of an entry is held: once if its hash is that of the entry under its ordinal.
abbrev pub held : {K V : Type 0} → Option (OrderedEntry K V) → ℕ → ℕ
held none hash = 0
held (some e) hash = if e.hash == hash then 1 else 0

module _ {Table K V : Type 0} (capacity : ℕ) (positive : 0 < capacity) (table : HashTable Table)
    (laws : TableLaws table) (eq : K → K → Bool) (keys : KeyLaws eq) (hash_one : K → ℕ) where
  -- The table holds the slots of the entries, each once; an entry has the hash of its key; and no key
  -- has two entries.
  pub record IsIndex (m : OrderedAppendMap Table K V) : Type 0 where
    pub valid : IsValid capacity m.entries
    pub indexed :
        (s : LookupSlot)
        → laws.count m.lookup s ≡ held (Dense.get capacity m.entries s.ordinal) s.hash
    pub hashed :
        (i : ℕ) (e : OrderedEntry K V)
        → Dense.get capacity m.entries i ≡ some e
        → e.hash ≡ hash_one e.key
    pub unique :
        (i j : ℕ) (e f : OrderedEntry K V)
        → Dense.get capacity m.entries i ≡ some e
        → Dense.get capacity m.entries j ≡ some f
        → e.key ≡ f.key
        → i ≡ j

  abbrev pub at_ordinal : OrderedAppendMap Table K V → ℕ → Option (OrderedEntry K V)
  at_ordinal m i = Dense.get capacity m.entries i

  abbrev pub search : OrderedAppendMap Table K V → K → Option LookupSlot
  search m key =
      table.find m.lookup (hash_one key) (has_key capacity table eq hash_one m.entries key)

  -- An entry with the key, and where it is.
  abbrev pub Entry : OrderedAppendMap Table K V → K → ℕ → OrderedEntry K V → Type 0
  Entry m key i e = (at_ordinal m i ≡ some e) × (e.key ≡ key)

  key_is-Entry :
      (o : Option (OrderedEntry K V)) (key : K)
      → key_is capacity table eq hash_one o key ≡ true
      → (e : OrderedEntry K V) × (o ≡ some e) × (e.key ≡ key)
  key_is-Entry none key h = absurd (cc)
  key_is-Entry (some e) key h = (e, refl, (keys.equal e.key key).0 h)

  pub search-some :
      (m : OrderedAppendMap Table K V) (key : K) (s : LookupSlot)
      → search m key ≡ some s
      → (e : OrderedEntry K V) × Entry m key s.ordinal e
  search-some m key s h =
      let (e, at, same_key) =
        key_is-Entry (at_ordinal m s.ordinal) key
          (laws.found m.lookup (hash_one key) (has_key capacity table eq hash_one m.entries key) s
            h).1 in
      (e, (at, same_key))

  pub key_is-true :
      {o : Option (OrderedEntry K V)} {e : OrderedEntry K V} (key : K)
      → o ≡ some e
      → e.key ≡ key
      → key_is capacity table eq hash_one o key ≡ true
  key_is-true {e} key at same_key =
      ap (λ o. key_is capacity table eq hash_one o key) at ∙ (keys.equal e.key key).1 same_key

  pub held_one :
      {o : Option (OrderedEntry K V)} {e : OrderedEntry K V} (hash : ℕ)
      → o ≡ some e
      → e.hash ≡ hash
      → held o hash ≡ 1
  held_one {e} hash at h =
      ap (λ o. held o hash) at
      ∙ ap (λ n. if e.hash == n then 1 else 0) (sym h)
      ∙ ap (λ b. if b then 1 else 0) (==_refl e.hash)

  pub search-none :
      (m : OrderedAppendMap Table K V) (key : K) (i : ℕ) (e : OrderedEntry K V)
      → IsIndex m
      → search m key ≡ none
      → Entry m key i e
      → ⊥
  search-none m key i e v h (at, same_key) =
      let s : LookupSlot = record { hash = hash_one key; ordinal = i } in
      zero_and_one (laws.count m.lookup s)
        (laws.missed m.lookup (hash_one key) (has_key capacity table eq hash_one m.entries key) s h
          refl (key_is-true key at same_key))
        (v.indexed s ∙ held_one (hash_one key) at (v.hashed i e at ∙ ap hash_one same_key))

  -- A lookup finds exactly the value of an entry with the key.
  pub get-Entry :
      (m : OrderedAppendMap Table K V) (key : K) (value : V)
      → IsIndex m
      → (get capacity table eq hash_one m key ≡ some value)
        ↔ ((i : ℕ) × (e : OrderedEntry K V) × Entry m key i e × (e.value ≡ value))
  unfolding get_prehashed get_found
  get-Entry m key value v = elim (Option-cases (search m key)) [
    | inl missed ↦ rw missed (
      (λ h. absurd (cc)),
      (λ (i, e, entry, same_value). absurd (search-none m key i e v missed entry)),
    )
    | inr (s, found) ↦
        let (e, (at, same_key)) = search-some m key s found in
        rw found (
          (λ h. (s.ordinal, e, (at, same_key), some_injective (sym (ap value_of at) ∙ h))),
          (λ (i, f, (there, key_there), same_value).
              ap (λ j. value_of (at_ordinal m j))
                (v.unique s.ordinal i e f at there (same_key ∙ sym key_there))
              ∙ ap value_of there
              ∙ ap some same_value),
        )
  ]
