-- ===== src/Core/Topology/Accepts.antt =====
-- The placements that the check accepts (crates/shard-stream-core/src/topology.rs).
use shard_stream.Prelude.{
  ℕ, zero, suc, ◌+◌, ◌≤◌, ◌<◌, ◌≡◌, ◌≢◌, ◌↔◌, refl, ap, sym, ◌∙◌, subst, true, false, Option, none,
  some, List, [], ◌∷◌, leb, ◌==◌, if◌then◌else◌, length, arith, Bool-cases, inl, inr, leb→le,
  leb→lt,
}
use shard_stream.Prelude.Results.{ok}
use shard_stream.Core.Sequencer.{contains}
use shard_stream.Prelude.{get_elem?}
use shard_stream.Core.Sequencer.{validate_virtual_lanes}
use shard_stream.Core.Sequencer.Lanes.{validate_virtual_lanes_iff}
use shard_stream.Core.Topology.{
  BrokerId, PartitionAssignment, insert_sorted, sort_unstable, dedup, dedup_from, is_bad_follower,
  validate, range_from, virtual_lanes,
}

-- How often an entry stands in a list.
abbrev pub count : ℕ → List ℕ → ℕ
count a [] = 0
count a (x ∷ xs) = (if x == a then 1 else 0) + count a xs

abbrev IsAscending : ℕ → List ℕ → Type 0
IsAscending x [] = Unit {0}
IsAscending x (y ∷ ys) = (x ≤ y) × IsAscending y ys

abbrev IsSorted : List ℕ → Type 0
IsSorted [] = Unit {0}
IsSorted (x ∷ xs) = IsAscending x xs

count-insert_sorted : (a x : ℕ) (ys : List ℕ) → count a (insert_sorted x ys) ≡ count a (x ∷ ys)
unfolding insert_sorted
count-insert_sorted a x [] = refl
count-insert_sorted a x (y ∷ ys) = ground (arith, count-insert_sorted a x ys)

length-insert_sorted : (x : ℕ) (ys : List ℕ) → length (insert_sorted x ys) ≡ suc (length ys)
unfolding insert_sorted
length-insert_sorted x [] = refl
length-insert_sorted x (y ∷ ys) = ground (arith, length-insert_sorted x ys)

insert_sorted-IsAscending :
    (z x : ℕ) (ys : List ℕ) → z ≤ x → IsAscending z ys → IsAscending z (insert_sorted x ys)
unfolding insert_sorted
insert_sorted-IsAscending z x [] le c = (le, tt)
insert_sorted-IsAscending z x (y ∷ ys) le c = elim (Bool-cases (leb x y)) [
  | inl first ↦ rw first (le, (leb→le _ _ first, c.1))
  | inr later ↦
      rw later (c.0, insert_sorted-IsAscending y x ys (omega (arith, leb→lt _ _ later)) c.1)
]

insert_sorted-IsSorted : (x : ℕ) (ys : List ℕ) → IsSorted ys → IsSorted (insert_sorted x ys)
unfolding insert_sorted
insert_sorted-IsSorted x [] c = tt
insert_sorted-IsSorted x (y ∷ ys) c = elim (Bool-cases (leb x y)) [
  | inl first ↦ rw first (leb→le _ _ first, c)
  | inr later ↦ rw later (insert_sorted-IsAscending y x ys (omega (arith, leb→lt _ _ later)) c)
]

-- Sorting sorts, and keeps the number of each entry.
record Sorts (xs ys : List ℕ) : Type 0 where
  sorted : IsSorted ys
  size : length ys ≡ length xs
  counts : (a : ℕ) → count a ys ≡ count a xs

sort_unstable-Sorts : (xs : List ℕ) → Sorts xs (sort_unstable xs)
unfolding sort_unstable
sort_unstable-Sorts [] = record { sorted = tt; size = refl; counts = λ a. refl }
sort_unstable-Sorts (x ∷ xs) =
    let rest = sort_unstable-Sorts xs in
    record {
      sorted = insert_sorted-IsSorted x (sort_unstable xs) rest.sorted;
      size = omega (arith, length-insert_sorted x (sort_unstable xs), rest.size);
      counts = λ a. ground (arith, count-insert_sorted a x (sort_unstable xs), rest.counts a);
    }

length-dedup_from : (x : ℕ) (ys : List ℕ) → length (dedup_from x ys) ≤ suc (length ys)
unfolding dedup_from
length-dedup_from x [] = omega arith
length-dedup_from x (y ∷ ys) = ground (arith, length-dedup_from x ys, length-dedup_from y ys)

-- Nothing stands in an ascending list below its first entry.
count_below : (a y : ℕ) (ys : List ℕ) → IsAscending y ys → a < y → count a (y ∷ ys) ≡ 0
count_below a y [] c below = ground arith
count_below a y (z ∷ zs) c below = ground (arith, count_below a z zs c.1 (omega (arith, c.0)))

dedup_from-once :
    (x : ℕ) (ys : List ℕ)
    → IsAscending x ys
    → length (dedup_from x ys) ≡ suc (length ys)
    → (a : ℕ) → count a (x ∷ ys) ≤ 1
unfolding dedup_from
dedup_from-once x [] c e a = ground arith
dedup_from-once x (y ∷ ys) c e a = elim (Bool-cases (x == y)) [
  | inl same ↦ absurd (ground (arith, same, length-dedup_from x ys, e))
  | inr other ↦
      let e' : length (dedup_from y ys) ≡ suc (length ys) = ground (arith, other, e) in
      let rest = dedup_from-once y ys c.1 e' a in
      elim (Bool-cases (x == a)) [
        | inl here ↦
            let none_left = count_below x y ys c.1 (ground (arith, other, c.0)) in
            let equal : x ≡ a = ground (arith, here) in
            subst (λ b. count b (x ∷ y ∷ ys) ≤ 1) equal (ground (arith, none_left))
        | inr there ↦ ground (arith, there, rest)
      ]
]

once-dedup_from :
    (x : ℕ) (ys : List ℕ)
    → ((a : ℕ) → count a (x ∷ ys) ≤ 1)
    → length (dedup_from x ys) ≡ suc (length ys)
unfolding dedup_from
once-dedup_from x [] h = refl
once-dedup_from x (y ∷ ys) h = elim (Bool-cases (x == y)) [
  | inl same ↦ absurd (ground (arith, same, h x))
  | inr other ↦ rw other (ap suc (once-dedup_from y ys (λ a. ground (arith, h a))))
]

-- The list after sorting and `dedup` is as long as before exactly when every entry stands once.
dedup-sort_unstable_iff :
    (xs : List ℕ) → (length (dedup (sort_unstable xs)) ≡ length xs) ↔ ((a : ℕ) → count a xs ≤ 1)
unfolding dedup
dedup-sort_unstable_iff xs =
    let s = sort_unstable-Sorts xs in
    (
      (λ e a.
          subst (λ n. n ≤ 1) (s.counts a)
            (dedup-once (sort_unstable xs) s.sorted (e ∙ sym s.size) a)),
      (λ h.
          once-dedup (sort_unstable xs) (λ a. subst (λ n. n ≤ 1) (sym (s.counts a)) (h a))
          ∙ s.size),
    )
  where
    dedup-once :
        (ys : List ℕ) → IsSorted ys → length (dedup ys) ≡ length ys → (a : ℕ) → count a ys ≤ 1
    dedup-once [] c e a = omega arith
    dedup-once (y ∷ ys) c e a = dedup_from-once y ys c e a

    once-dedup : (ys : List ℕ) → ((a : ℕ) → count a ys ≤ 1) → length (dedup ys) ≡ length ys
    once-dedup [] h = refl
    once-dedup (y ∷ ys) h = once-dedup_from y ys h

-- What a placement must be.
pub record IsAssignment (a : PartitionAssignment) : Type 0 where
  pub lanes : 0 < a.virtual_lane_count
  pub least : 0 < a.min_in_sync_replicas
  pub most : a.min_in_sync_replicas ≤ length a.replicas
  pub leads : contains a.replicas a.leader ≡ true
  pub follows :
      (broker : BrokerId)
      → a.preferred_follower ≡ some broker
      → (broker ≢ a.leader) × (contains a.replicas broker ≡ true)
  pub once : (broker : BrokerId) → count broker a.replicas ≤ 1

follower_iff :
    (a : PartitionAssignment) (preferred : Option BrokerId)
    → (is_bad_follower a preferred ≡ false) ↔ (
        (broker : BrokerId)
        → preferred ≡ some broker
        → (broker ≢ a.leader) × (contains a.replicas broker ≡ true))
unfolding is_bad_follower
follower_iff a none = ((λ h broker e. absurd cc), (λ h. refl))
follower_iff a (some broker) =
    ((λ h b e. ground (arith, h, e)), (λ h. ground (arith, h broker refl)))

-- A placement is accepted exactly when it has lanes, its minimum of replicas is between one and
-- their number, no replica stands twice, the leader is a replica, and the preferred follower, if
-- there is one, is another replica.
pub validate_iff : (a : PartitionAssignment) → (validate a ≡ ok tt) ↔ IsAssignment a
unfolding validate
validate_iff a =
    let distinct = dedup-sort_unstable_iff a.replicas in
    let follower = follower_iff a a.preferred_follower in
    (
      (λ h. record {
        lanes = ground (arith, h);
        least = ground (arith, h);
        most = ground (arith, h);
        leads = ground (arith, h);
        follows = follower.0 (ground (arith, h));
        once = distinct.0 (ground (arith, h));
      }),
      (λ r.
          ground
            (arith, r.lanes, r.least, r.most, r.leads, follower.1 r.follows, distinct.1 r.once)),
    )

length-range_from : (first n : ℕ) → length (range_from first n) ≡ n
unfolding range_from
length-range_from first zero = refl
length-range_from first (suc n) = ap suc (length-range_from (suc first) n)

get_elem?-range_from : (first n i a : ℕ) → get_elem? (range_from first n) i ≡ some a → a ≡ first + i
unfolding range_from
get_elem?-range_from first zero i a e = absurd cc
get_elem?-range_from first (suc n) zero a e = ground (arith, e)
get_elem?-range_from first (suc n) (suc i) a e =
    omega (arith, get_elem?-range_from (suc first) n i a e)

-- The lanes of an accepted placement are a ring that the sequencer accepts.
pub virtual_lanes-ring :
    (a : PartitionAssignment)
    → validate a ≡ ok tt
    → validate_virtual_lanes (virtual_lanes a) ≡ ok tt
unfolding virtual_lanes
virtual_lanes-ring a h = (validate_virtual_lanes_iff (virtual_lanes a)).1 (record {
  nonempty = omega (arith, length-range_from 0 a.virtual_lane_count, ((validate_iff a).0 h).lanes);
  distinct = λ i j lane e f. omega (
    arith,
    get_elem?-range_from 0 a.virtual_lane_count i lane e,
    get_elem?-range_from 0 a.virtual_lane_count j lane f,
  );
})
