-- ===== src/SegmentMap/SparseTests.antt =====
-- A hash table as a list, and `OrderedAppendMap` (sparse.rs) over it at concrete inputs.
use shard_stream.Prelude.{
  ℕ, ◌+◌, ◌%◌, ◌<◌, ◌≡◌, ◌⊎◌, refl, ap, sym, ◌∙◌, Bool, true, false, ◌==◌, ◌&&◌, Option, none, some,
  List, [], ◌∷◌, if◌then◌else◌, arith, ==_iff, Bool-cases, Option-cases, subst, inl, inr,
}
use shard_stream.Prelude.Results.{ok}
use shard_stream.SegmentMap.Dense
use shard_stream.SegmentMap.Dense.{DenseOrderedMap, values}
use shard_stream.SegmentMap.Sparse.{
  LookupSlot, OrderedEntry, HashTable, OrderedAppendMap, insert, get, pop_front, insert_prehashed,
  get_prehashed,
}
use shard_stream.SegmentMap.Sparse.Laws.{same, TableLaws, KeyLaws}
use shard_stream.SegmentMap.Sparse.Index.{IsIndex, held}
use shard_stream.SegmentMap.Dense.Lookup.{position-outside}
use shard_stream.SegmentMap.Sparse.Insert.{Inserts, insert-Inserts}
use shard_stream.SegmentMap.Sparse.Front.{Pops, pop_front-Pops}

abbrev Slots : Type 0
Slots = List LookupSlot

hits : LookupSlot → ℕ → (LookupSlot → Bool) → Bool
hits s h p = s.hash == h && p s

find : Slots → ℕ → (LookupSlot → Bool) → Option LookupSlot
unfolding hits
find [] h p = none
find (s ∷ t) h p = if hits s h p then some s else find t h p

kept_with : LookupSlot → Option Slots → Option Slots
kept_with s none = none
kept_with s (some t) = some (s ∷ t)

remove : Slots → ℕ → (LookupSlot → Bool) → Option Slots
unfolding hits kept_with
remove [] h p = none
remove (s ∷ t) h p = if hits s h p then some t else kept_with s (remove t h p)

abbrev list_table : HashTable Slots
list_table = record { find = find; insert_unique = λ t h s. s ∷ t; remove = remove }

count : Slots → LookupSlot → ℕ
count [] x = 0
count (s ∷ t) x = count t x + same s x

true_ne_false : true ≡ false → ⊥
true_ne_false h = cc

some_ne_none : {A : Type 0} {a : A} → some a ≡ none → ⊥
some_ne_none h = cc

same_self : (s : LookupSlot) → same s s ≡ 1
same_self s = ground arith

some_injective : {A : Type 0} {a b : A} → some a ≡ some b → a ≡ b
some_injective h = cc

and_true : (a b : Bool) → (a && b) ≡ true → (a ≡ true) × (b ≡ true)
and_true a b h = ground arith

same_slot : (x s : LookupSlot) → (x.hash == s.hash && x.ordinal == s.ordinal) ≡ true → x ≡ s
same_slot x s h = ground arith

found :
    (t : Slots) (h : ℕ) (p : LookupSlot → Bool) (s : LookupSlot)
    → find t h p ≡ some s
    → (0 < count t s) × (p s ≡ true)
unfolding find count hits
found [] h p s e = absurd (cc)
found (x ∷ t) h p s e = elim (Bool-cases (x.hash == h && p x)) [
  | inl hit ↦
      let one : x ≡ s = some_injective (rw hit at e) in
      subst (λ y. (0 < count t y + same x y) × (p y ≡ true)) one
        (omega (arith, same_self x), (and_true (x.hash == h) (p x) hit).1)
  | inr miss ↦ let rest = found t h p s (rw miss at e) in (omega (arith, rest.0), rest.1)
]

-- A slot that passes the test is not one that does not.
differs :
    (x s : LookupSlot) (h : ℕ) (p : LookupSlot → Bool)
    → (x.hash == h && p x) ≡ false
    → s.hash ≡ h
    → p s ≡ true
    → same x s ≡ 0
differs x s h p miss at test = elim (Bool-cases (x.hash == s.hash && x.ordinal == s.ordinal)) [
  | inl one ↦ absurd (
      true_ne_false (
        sym (
          subst (λ y. (y.hash == h && p y) ≡ true) (sym (same_slot x s one))
            (rw ((==_iff s.hash h).1 at, test) refl))
        ∙ miss))
  | inr other ↦ rw other refl
]

missed :
    (t : Slots) (h : ℕ) (p : LookupSlot → Bool) (s : LookupSlot)
    → find t h p ≡ none
    → s.hash ≡ h
    → p s ≡ true
    → count t s ≡ 0
unfolding find count hits
missed [] h p s e at test = refl
missed (x ∷ t) h p s e at test = elim (Bool-cases (x.hash == h && p x)) [
  | inl hit ↦ absurd (some_ne_none (rw hit at e))
  | inr miss ↦ omega (arith, missed t h p s (rw miss at e) at test, differs x s h p miss at test)
]

kept :
    (t : Slots) (h : ℕ) (p : LookupSlot → Bool) (s : LookupSlot)
    → remove t h p ≡ none
    → s.hash ≡ h
    → p s ≡ true
    → count t s ≡ 0
unfolding remove count hits kept_with
kept [] h p s e at test = refl
kept (x ∷ t) h p s e at test = elim (Bool-cases (x.hash == h && p x)) [
  | inl hit ↦ absurd (some_ne_none (rw hit at e))
  | inr miss ↦ elim (Option-cases (remove t h p)) [
    | inl gone ↦ omega (arith, kept t h p s gone at test, differs x s h p miss at test)
    | inr (u, left) ↦ absurd (some_ne_none (sym (ap (kept_with x) left) ∙ (rw miss at e)))
  ]
]

removed :
    (t u : Slots) (h : ℕ) (p : LookupSlot → Bool)
    → remove t h p ≡ some u
    → (s : LookupSlot) × (p s ≡ true) × ((x : LookupSlot) → count t x ≡ count u x + same s x)
unfolding remove count hits kept_with
removed [] u h p e = absurd (some_ne_none (sym e))
removed (y ∷ t) u h p e = elim (Bool-cases (y.hash == h && p y)) [
  | inl hit ↦
      let one : t ≡ u = some_injective (rw hit at e) in
      (y, (and_true (y.hash == h) (p y) hit).1, λ x. ap (λ r. count r x + same y x) one)
  | inr miss ↦ elim (Option-cases (remove t h p)) [
    | inl gone ↦ absurd (some_ne_none (sym (rw miss at e) ∙ ap (kept_with y) gone))
    | inr (r, left) ↦
        let (s, test, counts) = removed t r h p left in
        let one : y ∷ r ≡ u = some_injective (sym (ap (kept_with y) left) ∙ (rw miss at e)) in
        (s, test, λ x. omega (arith, counts x) ∙ ap (λ q. count q x + same s x) one)
  ]
]

list_laws : TableLaws list_table
unfolding count
list_laws = record {
  count = count;
  found = found;
  missed = missed;
  inserted = λ t s x. refl;
  removed = removed;
  kept = kept;
}

number_keys : KeyLaws ◌==◌
number_keys = record { equal = ==_iff }

-- A hash with collisions.
abbrev hash_of : ℕ → ℕ
hash_of key = key % 4

abbrev Numbers : Type 0
Numbers = OrderedAppendMap Slots ℕ ℕ

abbrev no_entries : Numbers
no_entries = record {
  entries = record { first_key = 0; next_key = 0; len = 0; segments = [] };
  lookup = [];
}

nothing : (i : ℕ) → Dense.get 2 no_entries.entries i ≡ none
unfolding Dense.get
nothing i = rw (position-outside 2 (omega arith) no_entries.entries i (inr (omega arith))) refl

no_entries-IsIndex :
    IsIndex 2 (omega arith) list_table list_laws ◌==◌ number_keys hash_of no_entries
unfolding list_laws count
no_entries-IsIndex = record {
  valid = omega arith;
  indexed = λ s. sym (ap (λ o. held o s.hash) (nothing s.ordinal));
  hashed = λ i e h. absurd (some_ne_none (sym h ∙ nothing i));
  unique = λ i j e f h k same_key. absurd (some_ne_none (sym h ∙ nothing i));
}

abbrev one_entry : Numbers
one_entry = (insert 2 list_table ◌==◌ hash_of no_entries 5 50).1

one_entry-Inserts :
    Inserts 2
      (omega arith)
      list_table
      list_laws
      ◌==◌
      number_keys
      hash_of
      no_entries
      5
      50
      (insert 2 list_table ◌==◌ hash_of no_entries 5 50)
one_entry-Inserts =
    insert-Inserts 2 (omega arith) list_table list_laws ◌==◌ number_keys hash_of no_entries 5 50
      no_entries-IsIndex (omega arith) (omega arith)

-- The keys 5 and 9 have the same hash.
two_entries_run :
    (get 2 list_table ◌==◌ hash_of (insert 2 list_table ◌==◌ hash_of one_entry 9 90).1 5 ≡ some 50)
    × (get 2 list_table ◌==◌ hash_of (insert 2 list_table ◌==◌ hash_of one_entry 9 90).1 9
        ≡ some 90)
unfolding insert_prehashed get_prehashed Dense.get Dense.push Dense.update find hits
two_entries_run = (refl, refl)

insert-Inserts_example :
    Inserts 2
      (omega arith)
      list_table
      list_laws
      ◌==◌
      number_keys
      hash_of
      one_entry
      9
      90
      (insert 2 list_table ◌==◌ hash_of one_entry 9 90)
unfolding insert_prehashed Dense.get Dense.push Dense.update find hits
insert-Inserts_example =
    insert-Inserts 2 (omega arith) list_table list_laws ◌==◌ number_keys hash_of one_entry 9 90
      one_entry-Inserts.index (omega arith) (omega arith)

pop_front-Pops_example :
    ((pop_front 2 list_table ◌==◌ hash_of one_entry ≡ (ok none, one_entry))
      × (values one_entry.entries ≡ [])
      × ((k : ℕ) → get 2 list_table ◌==◌ hash_of one_entry k ≡ none))
    ⊎ ((e : OrderedEntry ℕ ℕ) × (Dense.get 2 one_entry.entries one_entry.entries.first_key ≡ some e)
        × Pops 2
            (omega arith)
            list_table
            list_laws
            ◌==◌
            number_keys
            hash_of
            one_entry
            e
            (pop_front 2 list_table ◌==◌ hash_of one_entry))
pop_front-Pops_example =
    pop_front-Pops 2 (omega arith) list_table list_laws ◌==◌ number_keys hash_of one_entry
      one_entry-Inserts.index
