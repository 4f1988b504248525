-- ===== src/SegmentMap/Sparse/Front.antt =====
-- The removal of the oldest entry of `OrderedAppendMap` (sparse.rs).
use shard_stream.Prelude.{
  ℕ, ◌+◌, ◌<◌, ◌≡◌, ◌≢◌, ◌↔◌, refl, ap, sym, ◌∙◌, subst, Bool, true, false, ◌==◌, Option, none,
  some, List, [], ◌∷◌, get_elem?, Option-cases, inl, inr, if◌then◌else◌, arith, ==_refl, Bool-cases,
  ==_iff, ◌⊎◌,
}
use shard_stream.Prelude.Results.{ok}
use shard_stream.SegmentMap.Dense
use shard_stream.SegmentMap.Sequence
use shard_stream.SegmentMap.Dense.Lookup.{get_refines}
use shard_stream.SegmentMap.Dense.{DenseOrderedMap, values, PushResult, pushed, refused}
use shard_stream.SegmentMap.Dense.Points.{get-pop_front}
use shard_stream.SegmentMap.Sparse.{
  LookupSlot, OrderedEntry, HashTable, OrderedAppendMap, get, Called,
}
use shard_stream.SegmentMap.Sparse.Laws.{same, TableLaws, KeyLaws}
use shard_stream.SegmentMap.Sparse.Index.{IsIndex, held, get-Entry, some_injective}
use shard_stream.SegmentMap.Sparse.Index.{zero_and_one}
use shard_stream.SegmentMap.Sparse.Replace.{ne_false, same_or, option_ext, true_ne_false}
use shard_stream.SegmentMap.Dense.Front.{pop_front-IsValid}
use shard_stream.SegmentMap.Sparse.{pop_front, pop_entry}
use shard_stream.SegmentMap.Sparse.Index.{held_one}
use shard_stream.SegmentMap.Sparse.Append.{none_ne_some}

module _ {Table K V : Type 0} (capacity : ℕ) (positive : 0 < capacity) (table : HashTable Table)
    (laws : TableLaws table) (eq : K → K → Bool) (keys : KeyLaws eq) (hash_one : K → ℕ) where
  abbrev IsIndexed : OrderedAppendMap Table K V → Type 0
  IsIndexed m = IsIndex capacity positive table laws eq keys hash_one m

  abbrev at : OrderedAppendMap Table K V → ℕ → Option (OrderedEntry K V)
  at m i = Dense.get capacity m.entries i

  abbrev get_in : OrderedAppendMap Table K V → K → Option V
  get_in m key = get capacity table eq hash_one m key

  entry :
      (m : OrderedAppendMap Table K V) (key : K) (value : V)
      → IsIndexed m
      → (get_in m key ≡ some value) ↔ (
          (i : ℕ) × (e : OrderedEntry K V) × ((at m i ≡ some e) × (e.key ≡ key))
          × (e.value ≡ value))
  entry m key value v = get-Entry capacity positive table laws eq keys hash_one m key value v

  abbrev is_first : OrderedAppendMap Table K V → LookupSlot → Bool
  is_first m s = s.ordinal == m.entries.first_key

  -- The map without its first entry, and with the table `u`.
  abbrev popped : OrderedAppendMap Table K V → Table → OrderedAppendMap Table K V
  popped m u = record { entries = (Dense.pop_front m.entries).1; lookup = u }

  module _ (m : OrderedAppendMap Table K V) (v : IsIndexed m) (e : OrderedEntry K V)
      (there : at m m.entries.first_key ≡ some e) (u : Table) (s : LookupSlot)
      (first : is_first m s ≡ true)
      (counts : (x : LookupSlot) → laws.count m.lookup x ≡ laws.count u x + same s x) where
    popped_first : at (popped m u) m.entries.first_key ≡ none
    popped_first =
        (get-pop_front capacity positive m.entries v.valid e m.entries.first_key there).1
        ∙ ap (λ b. if b then none else at m m.entries.first_key) (==_refl m.entries.first_key)

    popped_ne : (i : ℕ) → m.entries.first_key ≢ i → at (popped m u) i ≡ at m i
    popped_ne i ne =
        (get-pop_front capacity positive m.entries v.valid e i there).1
        ∙ ap (λ b. if b then none else at m i) (ne_false i m.entries.first_key ne)

    -- An entry that is left was there, and not the first one.
    popped_back :
        (i : ℕ) (f : OrderedEntry K V)
        → at (popped m u) i ≡ some f
        → (m.entries.first_key ≢ i) × (at m i ≡ some f)
    popped_back i f h = elim (same_or m.entries.first_key i) [
      | inl e_at ↦ absurd (none_ne_some (sym popped_first ∙ ap (at (popped m u)) e_at ∙ h))
      | inr ne ↦ (ne, sym (popped_ne i ne) ∙ h)
    ]

    -- The removed slot has the hash of the first entry.
    popped_hash : s.hash ≡ e.hash
    popped_hash =
        removed_hash s (counts s)
          (v.indexed s ∙ ap (λ i. held (at m i) s.hash) at_first ∙ ap (λ o. held o s.hash) there)
      where
        at_first : s.ordinal ≡ m.entries.first_key
        at_first = (==_iff s.ordinal m.entries.first_key).0 first

        removed_hash :
            (s : LookupSlot)
            → laws.count m.lookup s ≡ laws.count u s + same s s
            → laws.count m.lookup s ≡ (if e.hash == s.hash then 1 else 0)
            → s.hash ≡ e.hash
        removed_hash s c h = ground (arith, c, h)

    popped-held : (x : LookupSlot) → laws.count u x ≡ held (at (popped m u) x.ordinal) x.hash
    popped-held x = elim (same_or m.entries.first_key x.ordinal) [
      | inl e_at ↦
          gone (counts x)
            (v.indexed x
              ∙ ap (λ i. held (at m i) x.hash) (sym e_at)
              ∙ ap (λ o. held o x.hash) there)
            ((==_iff s.ordinal m.entries.first_key).0 first ∙ e_at)
          ∙ sym (ap (λ o. held o x.hash) (sym (ap (at (popped m u)) e_at) ∙ popped_first))
      | inr ne ↦
          stays (counts x) (λ o. ne (sym ((==_iff s.ordinal m.entries.first_key).0 first) ∙ o))
          ∙ v.indexed x
          ∙ sym (ap (λ o. held o x.hash) (popped_ne x.ordinal ne))
    ]
      where
        gone :
            laws.count m.lookup x ≡ laws.count u x + same s x
            → laws.count m.lookup x ≡ (if e.hash == x.hash then 1 else 0)
            → s.ordinal ≡ x.ordinal
            → laws.count u x ≡ 0
        gone c h o = ground (arith, c, h, o, popped_hash)

        stays :
            laws.count m.lookup x ≡ laws.count u x + same s x
            → s.ordinal ≢ x.ordinal
            → laws.count u x ≡ laws.count m.lookup x
        stays c o = ground (arith, c, o)

    popped-IsIndex : IsIndexed (popped m u)
    popped-IsIndex = record {
      valid = pop_front-IsValid capacity positive m.entries v.valid;
      indexed = popped-held;
      hashed = λ i f h. v.hashed i f (popped_back i f h).1;
      unique = λ i j f g h k. v.unique i j f g (popped_back i f h).1 (popped_back j g k).1;
    }

    popped-get : (k : K) → get_in (popped m u) k ≡ (if eq e.key k then none else get_in m k)
    popped-get k = elim (Bool-cases (eq e.key k)) [
      | inl hit ↦ rw hit (
          option_ext _ _
            (λ x h.
              let (i, f, (now, key_f), val) = (entry (popped m u) k x popped-IsIndex).0 h in
              let (ne, was) = popped_back i f now in
              absurd (
                ne (
                  v.unique m.entries.first_key i e f there was
                    ((keys.equal e.key k).0 hit ∙ sym key_f))))
            (λ x h. absurd (none_ne_some h)))
      | inr miss ↦ rw miss (
          option_ext _ _
            (λ x h.
              let (i, f, (now, key_f), val) = (entry (popped m u) k x popped-IsIndex).0 h in
              (entry m k x v).1 (i, f, ((popped_back i f now).1, key_f), val))
            (λ x h.
              let (i, f, (was, key_f), val) = (entry m k x v).0 h in
              (entry (popped m u) k x popped-IsIndex).1
                (i, f, (popped_ne i (other miss i f was key_f) ∙ was, key_f), val)))
    ]
      where
        other :
            eq e.key k ≡ false
            → (i : ℕ) (f : OrderedEntry K V) → at m i ≡ some f
            → f.key ≡ k
            → m.entries.first_key ≢ i
        other miss i f was key_f e_at =
            let one : e ≡ f = some_injective (sym there ∙ ap (at m) e_at ∙ was) in
            true_ne_false (sym ((keys.equal e.key k).1 (ap (λ y. y.key) one ∙ key_f)) ∙ miss)

  -- What the removal of the oldest entry leaves of a map that has one: the answer is its key and value,
  -- and the key alone is gone.
  pub record Pops (m : OrderedAppendMap Table K V) (e : OrderedEntry K V)
      (x : Called (Option (K × V)) × OrderedAppendMap Table K V) : Type 0 where
    pub result : x.0 ≡ ok (some (e.key, e.value))
    pub index : IsIndexed x.1
    pub lookup : (k : K) → get_in x.1 k ≡ (if eq e.key k then none else get_in m k)

  pop_entry_lem :
      (m : OrderedAppendMap Table K V) (u : Table) (e : OrderedEntry K V)
      → (Dense.pop_front m.entries).0 ≡ some (m.entries.first_key, e)
      → pop_entry capacity table eq hash_one m (some u) ≡ (ok (some (e.key, e.value)), popped m u)
  unfolding pop_entry
  pop_entry_lem m u e h = rw (h, pop_entry) refl

  pop_front_lem :
      (m : OrderedAppendMap Table K V) (e : OrderedEntry K V)
      → at m m.entries.first_key ≡ some e
      → pop_front capacity table eq hash_one m
        ≡ pop_entry capacity table eq hash_one m (table.remove m.lookup e.hash (is_first m))
  unfolding pop_front
  pop_front_lem m e there = rw (there, pop_front) refl

  no_entries :
      (m : OrderedAppendMap Table K V)
      → IsIndexed m
      → at m m.entries.first_key ≡ none
      → values m.entries ≡ []
  unfolding Sequence.get
  no_entries m v e =
      nothing (values m.entries)
        (ground (arith, get_refines capacity positive m.entries m.entries.first_key v.valid, e))
    where
      nothing : (items : List (OrderedEntry K V)) → get_elem? items 0 ≡ none → items ≡ []
      nothing [] h = refl
      nothing (x ∷ xs) h = absurd (none_ne_some (sym h))

  no_keys :
      (m : OrderedAppendMap Table K V)
      → IsIndexed m
      → values m.entries ≡ []
      → (k : K) → get_in m k ≡ none
  unfolding Sequence.get
  no_keys m v e k =
      option_ext _ _
        (λ x h.
          let (i, f, (was, key_f), val) = (entry m k x v).0 h in
          absurd (none_ne_some (sym (nothing_at m i v e) ∙ was)))
        (λ x h. absurd (none_ne_some h))
    where
      nothing_at :
          (m : OrderedAppendMap Table K V) (i : ℕ)
          → IsIndexed m
          → values m.entries ≡ []
          → at m i ≡ none
      nothing_at m i v e = ground (arith, get_refines capacity positive m.entries i v.valid, e)

  -- On a well-formed map the removal of the oldest entry does not panic. It finds no entry and changes
  -- nothing only when the map has no entry and no key; otherwise it hands out the first one, keeps the
  -- map well formed, and takes that key alone away.
  pub pop_front-Pops :
      (m : OrderedAppendMap Table K V)
      → IsIndexed m
      → ((pop_front capacity table eq hash_one m ≡ (ok none, m))
          × (values m.entries ≡ [])
          × ((k : K) → get_in m k ≡ none))
        ⊎ ((e : OrderedEntry K V) × (at m m.entries.first_key ≡ some e)
            × Pops m e (pop_front capacity table eq hash_one m))
  unfolding pop_front
  pop_front-Pops m v = elim (Option-cases (at m m.entries.first_key)) [
    | inl empty ↦
        let none_left = no_entries m v empty in
        inl (rw (empty, pop_front) refl, none_left, no_keys m v none_left)
    | inr (e, there) ↦ elim (Option-cases (table.remove m.lookup e.hash (is_first m))) [
      | inl missed ↦
          let s : LookupSlot = record { hash = e.hash; ordinal = m.entries.first_key } in
          absurd (
            zero_and_one (laws.count m.lookup s)
              (laws.kept m.lookup e.hash (is_first m) s missed refl (==_refl m.entries.first_key))
              (v.indexed s
                ∙ held_one capacity positive table laws eq keys hash_one e.hash there refl))
      | inr (u, removed) ↦
          let (s, first, counts) = laws.removed m.lookup u e.hash (is_first m) removed in
          let handed = (get-pop_front capacity positive m.entries v.valid e 0 there).0 in
          inr (
            e,
            there,
            subst (Pops m e)
                (sym (
                  pop_front_lem m e there
                  ∙ ap (pop_entry capacity table eq hash_one m) removed
                  ∙ pop_entry_lem m u e handed))
                (record {
                  result = refl;
                  index = popped-IsIndex m v e there u s first counts;
                  lookup = popped-get m v e there u s first counts;
                }),
          )
    ]
  ]
