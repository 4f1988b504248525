-- ===== src/SegmentMap/Sparse/Append.antt =====
-- A new key of `OrderedAppendMap` (sparse.rs).
use shard_stream.Prelude.{
  ℕ, ◌+◌, ◌<◌, ◌≡◌, ◌≢◌, ◌↔◌, refl, ap, sym, ◌∙◌, subst, Bool, Option, none, some, inl, inr,
  if◌then◌else◌, arith, ==_refl, u128_mod, usize_mod, Bool-cases, ◌⊎◌,
}
use shard_stream.SegmentMap.Dense
use shard_stream.SegmentMap.Dense.{DenseOrderedMap, PushResult, pushed, refused}
use shard_stream.SegmentMap.Dense.Points.{get-push}
use shard_stream.SegmentMap.Sparse.{LookupSlot, OrderedEntry, HashTable, OrderedAppendMap, get}
use shard_stream.SegmentMap.Sparse.Laws.{same, TableLaws, KeyLaws}
use shard_stream.SegmentMap.Sparse.Index.{
  IsIndex, held, search, search-none, get-Entry, some_injective,
}
use shard_stream.SegmentMap.Dense.Points.{get-next_key}
use shard_stream.SegmentMap.Dense.Inv.{push-IsValid}
use shard_stream.SegmentMap.Sparse.Replace.{ne_false, same_or, option_ext, true_ne_false}

pub none_ne_some : {A : Type 0} {a : A} → none ≡ some a → ⊥
none_ne_some h = cc

module _ {Table K V : Type 0} (capacity : ℕ) (positive : 0 < capacity) (table : HashTable Table)
    (laws : TableLaws table) (eq : K → K → Bool) (keys : KeyLaws eq) (hash_one : K → ℕ) where
  abbrev IsIndexed : OrderedAppendMap Table K V → Type 0
  IsIndexed m = IsIndex capacity positive table laws eq keys hash_one m

  abbrev at : OrderedAppendMap Table K V → ℕ → Option (OrderedEntry K V)
  at m i = Dense.get capacity m.entries i

  abbrev get_in : OrderedAppendMap Table K V → K → Option V
  get_in m key = get capacity table eq hash_one m key

  entry :
      (m : OrderedAppendMap Table K V) (key : K) (value : V)
      → IsIndexed m
      → (get_in m key ≡ some value) ↔ (
          (i : ℕ) × (e : OrderedEntry K V) × ((at m i ≡ some e) × (e.key ≡ key))
          × (e.value ≡ value))
  entry m key value v = get-Entry capacity positive table laws eq keys hash_one m key value v

  abbrev new : K → V → OrderedEntry K V
  new key value = record { hash = hash_one key; key = key; value = value }

  abbrev slot : OrderedAppendMap Table K V → K → LookupSlot
  slot m key = record { hash = hash_one key; ordinal = m.entries.next_key }

  -- The map with one more entry.
  abbrev pub appended : OrderedAppendMap Table K V → K → V → OrderedAppendMap Table K V
  appended m key value =
      let n = m.entries.next_key in
      record {
        entries =
            (Dense.push capacity m.entries n
              (record { hash = hash_one key; key = key; value = value })).1;
        lookup =
            table.insert_unique m.lookup (hash_one key)
              (record { hash = hash_one key; ordinal = n });
      }

  module _ (m : OrderedAppendMap Table K V) (v : IsIndexed m) (key : K) (value : V)
      (missed : search capacity positive table laws eq keys hash_one m key ≡ none)
      (ordinals : m.entries.next_key + 1 < u128_mod) (room : m.entries.len + 1 < usize_mod) where
    appended_self : at (appended m key value) m.entries.next_key ≡ some (new key value)
    appended_self =
        (get-push capacity positive m.entries v.valid (new key value) m.entries.next_key ordinals
          room).1
        ∙ ap (λ b. if b then some (new key value) else at m m.entries.next_key)
            (==_refl m.entries.next_key)

    appended_ne : (i : ℕ) → m.entries.next_key ≢ i → at (appended m key value) i ≡ at m i
    appended_ne i ne =
        (get-push capacity positive m.entries v.valid (new key value) i ordinals room).1
        ∙ ap (λ b. if b then some (new key value) else at m i) (ne_false i m.entries.next_key ne)

    -- An entry is the new one, or was there.
    appended_cases :
        (i : ℕ) (f : OrderedEntry K V)
        → at (appended m key value) i ≡ some f
        → ((i ≡ m.entries.next_key) × (f ≡ (new key value))) ⊎ (at m i ≡ some f)
    appended_cases i f h = elim (same_or m.entries.next_key i) [
      | inl e ↦ inl (
        sym e,
        some_injective
            (sym (subst (λ j. at (appended m key value) j ≡ some f) (sym e) h) ∙ appended_self),
      )
      | inr ne ↦ inr (sym (appended_ne i ne) ∙ h)
    ]

    absent : (i : ℕ) (f : OrderedEntry K V) → at m i ≡ some f → f.key ≡ key → ⊥
    absent i f was same_key =
        search-none capacity positive table laws eq keys hash_one m key i f v missed (was, same_key)

    appended-held :
        (s : LookupSlot)
        → laws.count m.lookup s + same (slot m key) s
          ≡ held (at (appended m key value) s.ordinal) s.hash
    appended-held s = elim (same_or m.entries.next_key s.ordinal) [
      | inl e ↦
          held_new s
            (v.indexed s
              ∙ ap (λ x. held x s.hash)
                  (sym (ap (at m) e) ∙ get-next_key capacity positive m.entries v.valid))
            e (subst (λ j. at (appended m key value) j ≡ some (new key value)) e appended_self)
      | inr ne ↦ held_old s (v.indexed s) ne (appended_ne s.ordinal ne)
    ]
      where
        held_new :
            (s : LookupSlot)
            → laws.count m.lookup s ≡ 0
            → m.entries.next_key ≡ s.ordinal
            → at (appended m key value) s.ordinal ≡ some (new key value)
            → laws.count m.lookup s + same (slot m key) s
              ≡ held (at (appended m key value) s.ordinal) s.hash
        held_new s none_held e now =
            ground (arith, none_held, e) ∙ sym (ap (λ x. held x s.hash) now)

        held_old :
            (s : LookupSlot)
            → laws.count m.lookup s ≡ held (at m s.ordinal) s.hash
            → m.entries.next_key ≢ s.ordinal
            → at (appended m key value) s.ordinal ≡ at m s.ordinal
            → laws.count m.lookup s + same (slot m key) s
              ≡ held (at (appended m key value) s.ordinal) s.hash
        held_old s was ne now = ground (arith, ne) ∙ was ∙ sym (ap (λ x. held x s.hash) now)

    pub appended-IsIndex : IsIndexed (appended m key value)
    appended-IsIndex = record {
      valid = push-IsValid capacity positive m.entries m.entries.next_key (new key value) v.valid;
      indexed = λ s. laws.inserted m.lookup (slot m key) s ∙ appended-held s;
      hashed = λ i f h. elim (appended_cases i f h) [
        | inl (e, is_new) ↦ ap (λ x. x.hash) is_new ∙ ap hash_one (sym (ap (λ x. x.key) is_new))
        | inr was ↦ v.hashed i f was
      ];
      unique = λ i j f g h k same_key. elim (appended_cases i f h) [
        | inl (e, is_new) ↦ elim (appended_cases j g k) [
          | inl (e', is_new') ↦ e ∙ sym e'
          | inr was ↦ absurd (absent j g was (sym same_key ∙ ap (λ x. x.key) is_new))
        ]
        | inr was ↦ elim (appended_cases j g k) [
          | inl (e', is_new') ↦ absurd (absent i f was (same_key ∙ ap (λ x. x.key) is_new'))
          | inr was' ↦ v.unique i j f g was was' same_key
        ]
      ];
    }

    -- What a lookup finds afterwards.
    pub appended-get :
        (k : K) → get_in (appended m key value) k ≡ (if eq key k then some value else get_in m k)
    appended-get k = elim (Bool-cases (eq key k)) [
      | inl hit ↦ rw hit (
          (entry (appended m key value) k value appended-IsIndex).1
            (m.entries.next_key, (new key value), (appended_self, (keys.equal key k).0 hit), refl))
      | inr miss ↦ rw miss (
          option_ext _ _
            (λ x h.
              let (i, f, (now, key_f), val) =
                (entry (appended m key value) k x appended-IsIndex).0 h in
              elim (appended_cases i f now) [
                | inl (e, is_new) ↦ absurd (
                    true_ne_false
                      (sym ((keys.equal key k).1 (sym (ap (λ y. y.key) is_new) ∙ key_f)) ∙ miss))
                | inr was ↦ (entry m k x v).1 (i, f, (was, key_f), val)
              ])
            (λ x h.
              let (i, f, (was, key_f), val) = (entry m k x v).0 h in
              (entry (appended m key value) k x appended-IsIndex).1
                (i, f, (appended_ne i (not_next i f was) ∙ was, key_f), val)))
    ]
      where
        not_next : (i : ℕ) (f : OrderedEntry K V) → at m i ≡ some f → m.entries.next_key ≢ i
        not_next i f was e =
            none_ne_some
              (sym (get-next_key capacity positive m.entries v.valid) ∙ ap (at m) e ∙ was)
