-- ===== src/Core/Sequencer/Lanes.antt =====
-- The placement ring is accepted exactly when it is not empty and names no lane twice
-- (crates/shard-stream-core/src/sequencer.rs).
use shard_stream.Prelude.{
  ℕ, zero, suc, ◌<◌, ◌≡◌, ◌↔◌, ◌≢◌, inl, inr, refl, ap, false, List, [], ◌∷◌, some, length,
  get_elem?, arith, Bool-cases,
}
use shard_stream.Prelude.Results.{ok}
use shard_stream.Core.Sequencer.{
  TopicSequencer, new, contains, validate_unique, validate_virtual_lanes,
}

-- A ring: at least one lane, and every lane at one place.
pub record IsRing (lanes : List ℕ) : Type 0 where
  pub nonempty : 0 < length lanes
  pub distinct : (i j : ℕ) (a : ℕ) → get_elem? lanes i ≡ some a → get_elem? lanes j ≡ some a → i ≡ j

-- The loop's view: no lane stands in `seen` nor further on.
abbrev IsFresh : List ℕ → List ℕ → Type 0
IsFresh seen [] = Unit {0}
IsFresh seen (x ∷ xs) = (contains seen x ≡ false) × IsFresh (x ∷ seen) xs

IsFresh-unseen :
    (seen xs : List ℕ) (i a : ℕ)
    → IsFresh seen xs
    → get_elem? xs i ≡ some a
    → contains seen a ≡ false
unfolding contains
IsFresh-unseen seen [] i a f e = absurd cc
IsFresh-unseen seen (x ∷ xs) zero a f e = ground (arith, f.0)
IsFresh-unseen seen (x ∷ xs) (suc i) a f e = ground (arith, IsFresh-unseen (x ∷ seen) xs i a f.1 e)

IsFresh-distinct :
    (seen xs : List ℕ) (i j a : ℕ)
    → IsFresh seen xs
    → get_elem? xs i ≡ some a
    → get_elem? xs j ≡ some a
    → i ≡ j
unfolding contains
IsFresh-distinct seen [] i j a f e g = absurd cc
IsFresh-distinct seen (x ∷ xs) zero zero a f e g = refl
IsFresh-distinct seen (x ∷ xs) zero (suc j) a f e g =
    ground (arith, IsFresh-unseen (x ∷ seen) xs j a f.1 g)
IsFresh-distinct seen (x ∷ xs) (suc i) zero a f e g =
    ground (arith, IsFresh-unseen (x ∷ seen) xs i a f.1 e)
IsFresh-distinct seen (x ∷ xs) (suc i) (suc j) a f e g =
    ap suc (IsFresh-distinct (x ∷ seen) xs i j a f.1 e g)

contains-cons :
    (seen : List ℕ) (x a : ℕ) → contains seen a ≡ false → x ≢ a → contains (x ∷ seen) a ≡ false
unfolding contains
contains-cons seen x a h ne = ground arith

distinct-IsFresh :
    (seen xs : List ℕ)
    → ((i a : ℕ) → get_elem? xs i ≡ some a → contains seen a ≡ false)
    → ((i j a : ℕ) → get_elem? xs i ≡ some a → get_elem? xs j ≡ some a → i ≡ j)
    → IsFresh seen xs
distinct-IsFresh seen [] u d = tt
distinct-IsFresh seen (x ∷ xs) u d = (
  u 0 x refl,
  distinct-IsFresh (x ∷ seen) xs
      (λ i a e.
        contains-cons seen x a (u (suc i) a e)
          (λ same. absurd (omega (arith, d 0 (suc i) a (ap some same) e))))
      (λ i j a e g. omega (arith, d (suc i) (suc j) a e g)),
)

validate_unique-IsFresh :
    (seen lanes : List ℕ) → IsFresh seen lanes → validate_unique seen lanes ≡ ok tt
unfolding validate_unique
validate_unique-IsFresh seen [] f = refl
validate_unique-IsFresh seen (x ∷ xs) f = ground (arith, validate_unique-IsFresh (x ∷ seen) xs f.1)

IsFresh-validate_unique :
    (seen lanes : List ℕ) → validate_unique seen lanes ≡ ok tt → IsFresh seen lanes
unfolding validate_unique
IsFresh-validate_unique seen [] h = tt
IsFresh-validate_unique seen (x ∷ xs) h = elim (Bool-cases (contains seen x)) [
  | inl twice ↦ ground (arith, twice)
  | inr once ↦ (once, IsFresh-validate_unique (x ∷ seen) xs (ground (arith, once)))
]

nothing_seen : (a : ℕ) → contains [] a ≡ false
unfolding contains
nothing_seen a = refl

-- The ring is accepted exactly when it has a lane and no lane twice.
pub validate_virtual_lanes_iff :
    (lanes : List ℕ) → (validate_virtual_lanes lanes ≡ ok tt) ↔ IsRing lanes
unfolding validate_virtual_lanes
validate_virtual_lanes_iff [] = ((λ h. absurd cc), (λ r. absurd (omega (arith, r.nonempty))))
validate_virtual_lanes_iff (x ∷ xs) = (
  (λ h. record {
    nonempty = omega arith;
    distinct = λ i j a. IsFresh-distinct [] (x ∷ xs) i j a (IsFresh-validate_unique [] (x ∷ xs) h);
  }),
  (λ r.
      validate_unique-IsFresh [] (x ∷ xs) (distinct-IsFresh [] (x ∷ xs) (unseen x xs) r.distinct)),
)
  where
    unseen : (x : ℕ) (xs : List ℕ) (i a : ℕ) → get_elem? (x ∷ xs) i ≡ some a → contains [] a ≡ false
    unseen x xs i a e = nothing_seen a

-- A new sequencer starts in the given ring.
pub new_ring :
    (topic partition ring : ℕ) (lanes : List ℕ) (q : TopicSequencer)
    → new topic partition ring lanes ≡ ok q
    → (q.ring_epoch ≡ ring) × (q.virtual_lanes ≡ lanes)
unfolding new
new_ring topic partition ring lanes q h = ground (arith, h)
