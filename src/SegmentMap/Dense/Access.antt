-- ===== src/SegmentMap/Dense/Access.antt =====
-- Reading after writing in `DenseOrderedMap` (dense.rs).
use shard_stream.Prelude.{
  ℕ, ◌-◌, ◌<◌, ◌≡◌, ◌≢◌, refl, ap, sym, ◌∙◌, some, get_elem?-modify_self, get_elem?-modify_ne, leb,
  Bool-cases, inl, inr, arith,
}
use shard_stream.SegmentMap.Sequence
use shard_stream.SegmentMap.Sequence.{Sequence}
use shard_stream.SegmentMap.Dense.{DenseOrderedMap, get, update}
use shard_stream.SegmentMap.Dense.Inv.{IsValid, view}
use shard_stream.SegmentMap.Dense.Lookup.{get_refines}
use shard_stream.SegmentMap.Dense.Update.{update-IsValid, update_refines}

module _ {ℓ} {T : Type ℓ} where
  read_written :
      (q : Sequence T) (k : ℕ) (f : T → T) (a : T)
      → Sequence.get q k ≡ some a
      → Sequence.get (Sequence.update q k f) k ≡ some (f a)
  unfolding Sequence.get Sequence.update
  read_written q k f a e = elim (Bool-cases (leb q.first k)) [
    | inl from ↦
        rw (from, from) (get_elem?-modify_self f q.items (k - q.first) (ground (arith, e, from)))
    | inr before ↦ absurd (ground (arith, e, before))
  ]

  read_other :
      (q : Sequence T) (j k : ℕ) (f : T → T)
      → j ≢ k
      → Sequence.get (Sequence.update q j f) k ≡ Sequence.get q k
  unfolding Sequence.get Sequence.update
  read_other q j k f ne = elim (Bool-cases (leb q.first j)) [
    | inl from ↦ rw from (elim (Bool-cases (leb q.first k)) [
      | inl at ↦ rw at (
          get_elem?-modify_ne f q.items (j - q.first) (k - q.first)
            (λ e. ne (ground (arith, from, at, e))))
      | inr before ↦ rw before refl
    ])
    | inr before ↦ rw before refl
  ]

module _ {ℓ} {T : Type ℓ} (capacity : ℕ) (m : DenseOrderedMap T) (positive : 0 < capacity)
    (v : IsValid capacity m) where
  get_updated :
      (j k : ℕ) (f : T → T)
      → get capacity (update capacity m j f) k
        ≡ Sequence.get (Sequence.update (view capacity m) j f) k
  get_updated j k f =
      get_refines capacity positive (update capacity m j f) k (update-IsValid f capacity m j v)
      ∙ ap (λ q. Sequence.get q k) (update_refines f capacity m j positive v)

  -- What was written under a key is read back.
  pub get-update_self :
      (k : ℕ) (f : T → T) (a : T)
      → get capacity m k ≡ some a
      → get capacity (update capacity m k f) k ≡ some (f a)
  get-update_self k f a e =
      get_updated k k f
      ∙ read_written (view capacity m) k f a (sym (get_refines capacity positive m k v) ∙ e)

  -- A write changes nothing under another key.
  pub get-update_ne :
      (j k : ℕ) (f : T → T) → j ≢ k → get capacity (update capacity m j f) k ≡ get capacity m k
  get-update_ne j k f ne =
      get_updated j k f
      ∙ read_other (view capacity m) j k f ne
      ∙ sym (get_refines capacity positive m k v)
