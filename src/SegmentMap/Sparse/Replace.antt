-- ===== src/SegmentMap/Sparse/Replace.antt =====
-- The new value of a key that `OrderedAppendMap` (sparse.rs) holds.
use shard_stream.Prelude.{
  ℕ, ◌<◌, ◌≡◌, ◌≢◌, ◌↔◌, refl, ap, sym, ◌∙◌, subst, Bool, true, false, ◌==◌, Option, none, some,
  inl, inr, if◌then◌else◌, arith, Bool-cases, ==_iff, ◌⊎◌,
}
use shard_stream.SegmentMap.Dense
use shard_stream.SegmentMap.Dense.{DenseOrderedMap, PushResult, pushed, refused}
use shard_stream.SegmentMap.Dense.Update.{update-IsValid}
use shard_stream.SegmentMap.Dense.Access.{get-update_self, get-update_ne}
use shard_stream.SegmentMap.Sparse.{OrderedEntry, HashTable, OrderedAppendMap, get}
use shard_stream.SegmentMap.Sparse.Laws.{TableLaws, KeyLaws}
use shard_stream.SegmentMap.Sparse.Index.{IsIndex, held, get-Entry, some_injective}

pub same_or : (a b : ℕ) → (a ≡ b) ⊎ (a ≢ b)
same_or a b = elim (Bool-cases (a == b)) [
  | inl h ↦ inl ((==_iff a b).0 h)
  | inr h ↦ inr (λ e. ground (arith, h, e))
]

pub true_ne_false : true ≡ false → ⊥
true_ne_false h = cc

pub ne_false : (a b : ℕ) → b ≢ a → (a == b) ≡ false
ne_false a b h = elim (Bool-cases (a == b)) [
  | inl e ↦ absurd (h (sym ((==_iff a b).0 e)))
  | inr e ↦ e
]

pub option_ext :
    {A : Type 0} (a b : Option A)
    → ((x : A) → a ≡ some x → b ≡ some x)
    → ((x : A) → b ≡ some x → a ≡ some x)
    → a ≡ b
option_ext none none f g = refl
option_ext none (some y) f g = g y refl
option_ext (some x) b f g = sym (f x refl)

module _ {Table K V : Type 0} (capacity : ℕ) (positive : 0 < capacity) (table : HashTable Table)
    (laws : TableLaws table) (eq : K → K → Bool) (keys : KeyLaws eq) (hash_one : K → ℕ) where
  abbrev IsIndexed : OrderedAppendMap Table K V → Type 0
  IsIndexed m = IsIndex capacity positive table laws eq keys hash_one m

  abbrev at : OrderedAppendMap Table K V → ℕ → Option (OrderedEntry K V)
  at m i = Dense.get capacity m.entries i

  abbrev get_in : OrderedAppendMap Table K V → K → Option V
  get_in m key = get capacity table eq hash_one m key

  entry :
      (m : OrderedAppendMap Table K V) (key : K) (value : V)
      → IsIndexed m
      → (get_in m key ≡ some value) ↔ (
          (i : ℕ) × (e : OrderedEntry K V) × ((at m i ≡ some e) × (e.key ≡ key))
          × (e.value ≡ value))
  entry m key value v = get-Entry capacity positive table laws eq keys hash_one m key value v

  -- The map with a new value in one entry.
  abbrev pub replaced : OrderedAppendMap Table K V → ℕ → V → OrderedAppendMap Table K V
  replaced m o value = record m {
    entries = Dense.update capacity m.entries o (λ e. record e { value = value });
  }

  module _ (m : OrderedAppendMap Table K V) (v : IsIndexed m) (o : ℕ) (value : V)
      (e : OrderedEntry K V) (there : at m o ≡ some e) where
    replaced_self : at (replaced m o value) o ≡ some (record e { value = value })
    replaced_self =
        get-update_self capacity m.entries positive v.valid o (λ e. record e { value = value }) e
          there

    replaced_ne : (i : ℕ) → o ≢ i → at (replaced m o value) i ≡ at m i
    replaced_ne i ne =
        get-update_ne capacity m.entries positive v.valid o i (λ e. record e { value = value }) ne

    -- The entries have the keys and hashes that they had.
    replaced_back :
        (i : ℕ) (f : OrderedEntry K V)
        → at (replaced m o value) i ≡ some f
        → (g : OrderedEntry K V) × (at m i ≡ some g) × (g.key ≡ f.key) × (g.hash ≡ f.hash)
    replaced_back i f h = elim (same_or o i) [
      | inl e_at ↦
          let new : some (record e { value = value }) ≡ some f =
            sym (
              subst (λ j. at (replaced m o value) j ≡ some (record e { value = value })) e_at
                replaced_self)
            ∙ h in
          (
            e,
            subst (λ j. at m j ≡ some e) e_at there,
            ap (λ x. x.key) (some_injective new),
            ap (λ x. x.hash) (some_injective new),
          )
      | inr ne ↦ (f, sym (replaced_ne i ne) ∙ h, refl, refl)
    ]

    replaced-held : (i hash : ℕ) → held (at m i) hash ≡ held (at (replaced m o value) i) hash
    replaced-held i hash = elim (same_or o i) [
      | inl e_at ↦
          subst (λ j. held (at m j) hash ≡ held (at (replaced m o value) j) hash) e_at
            (ap (λ x. held x hash) there ∙ sym (ap (λ x. held x hash) replaced_self))
      | inr ne ↦ ap (λ x. held x hash) (sym (replaced_ne i ne))
    ]

    pub replaced-IsIndex : IsIndexed (replaced m o value)
    replaced-IsIndex = record {
      valid = update-IsValid (λ e. record e { value = value }) capacity m.entries o v.valid;
      indexed = λ s. v.indexed s ∙ replaced-held s.ordinal s.hash;
      hashed = λ i f h.
          let (g, was, key, hash) = replaced_back i f h in
          sym hash ∙ v.hashed i g was ∙ ap hash_one key;
      unique = λ i j f g h k same_key.
          let (f', was, key, hash) = replaced_back i f h in
          let (g', was', key', hash') = replaced_back j g k in
          v.unique i j f' g' was was' (key ∙ same_key ∙ sym key');
    }

    -- An entry of another key is not the one that is replaced.
    other_ordinal :
        (key k : K)
        → e.key ≡ key
        → eq key k ≡ false
        → (i : ℕ) (g : OrderedEntry K V) → at m i ≡ some g
        → g.key ≡ k
        → o ≢ i
    other_ordinal key k same_key miss i g was key_g e_at =
        let one : e ≡ g = some_injective (sym there ∙ ap (at m) e_at ∙ was) in
        let hit = (keys.equal key k).1 (sym same_key ∙ ap (λ x. x.key) one ∙ key_g) in
        true_ne_false (sym hit ∙ miss)

    -- What a lookup finds after the replacement.
    pub replaced-get :
        (key : K)
        → e.key ≡ key
        → (k : K) → get_in (replaced m o value) k ≡ (if eq key k then some value else get_in m k)
    replaced-get key same_key k = elim (Bool-cases (eq key k)) [
      | inl hit ↦ rw hit (
          (entry (replaced m o value) k value replaced-IsIndex).1 (
            o,
            record e { value = value },
            (replaced_self, same_key ∙ (keys.equal key k).0 hit),
            refl,
          ))
      | inr miss ↦
          let apart = other_ordinal key k same_key miss in
          rw miss (
            option_ext _ _
              (λ x h.
                let (i, f, (now, key_f), val) =
                  (entry (replaced m o value) k x replaced-IsIndex).0 h in
                let (g, was, key_g, hash_g) = replaced_back i f now in
                let ne = apart i g was (key_g ∙ key_f) in
                (entry m k x v).1 (i, f, (sym (replaced_ne i ne) ∙ now, key_f), val))
              (λ x h.
                let (i, f, (was, key_f), val) = (entry m k x v).0 h in
                (entry (replaced m o value) k x replaced-IsIndex).1
                  (i, f, (replaced_ne i (apart i f was key_f) ∙ was, key_f), val)))
    ]
