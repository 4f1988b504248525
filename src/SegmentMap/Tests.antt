-- ===== src/SegmentMap/Tests.antt =====
-- Runs of the dense map of crates/ordered-segment-map, and its theorems at concrete inputs.
use Prim.Native.Nat.{Ordering, compare}
use shard_stream.Prelude.{List, ℕ, suc, ◌≡◌, refl, [], ◌∷◌, some, none, arith}
use shard_stream.SegmentMap.Dense.{DenseOrderedMap, new, refused, out_of_order, push, get}
use shard_stream.SegmentMap.Dense.Inv.{IsValid, view}
use shard_stream.SegmentMap.Dense.Search.{
  IsMonotone, Finds, binary_search_by, binary_search_by-Finds,
}
use shard_stream.SegmentMap.Dense.History.{
  Call, pushes, gets, updates, pops, truncates, run, sequence_run, run_refines,
}
use shard_stream.SegmentMap.Dense.Iterate.{values_from, values_from_lem}

-- Keys 3 to 6 over segments of two.
abbrev sample : DenseOrderedMap ℕ
sample = record {
  first_key = 3;
  next_key = 7;
  len = 4;
  segments =
      record { first_key = 3; values = 30 ∷ [] }
      ∷ record { first_key = 4; values = 40 ∷ 50 ∷ [] }
      ∷ record { first_key = 6; values = 60 ∷ [] }
      ∷ [];
}

sample-IsValid : IsValid 2 sample
sample-IsValid = omega arith

abbrev threes : DenseOrderedMap ℕ
threes = record { first_key = 3; next_key = 3; len = 0; segments = [] }

pushes_rebuild_sample :
    (push 2 (push 2 (push 2 (push 2 threes 3 30).1 4 40).1 5 50).1 6 60).1 ≡ sample
unfolding push
pushes_rebuild_sample = refl

gap_refused : (push 2 sample 9 90).0 ≡ refused (out_of_order 7 9 90)
unfolding push
gap_refused = refl

lookups : (get 2 sample 5 ≡ some 50) × (get 2 sample 2 ≡ none) × (get 2 sample 7 ≡ none)
unfolding get
lookups = (refl, refl, refl)

values_from_lem_example : values_from 2 sample 5 ≡ some (50 ∷ 60 ∷ [])
values_from_lem_example = values_from_lem 2 sample 5 (omega arith) sample-IsValid

-- A search by the order of a key against 5.
abbrev seek : ℕ → ℕ → Ordering
seek key value = compare key 5

seek-IsMonotone : IsMonotone 2 sample seek
seek-IsMonotone i j a b e g h = ground arith

binary_search_by-Finds_example : Finds 2 sample seek (binary_search_by 2 sample seek)
binary_search_by-Finds_example =
    binary_search_by-Finds 2 sample seek (omega arith) sample-IsValid seek-IsMonotone

abbrev calls : List (Call ℕ)
calls = pushes 3 30 ∷ pushes 4 40 ∷ pushes 9 90 ∷ updates 4 suc ∷ pops ∷ gets 4 ∷ truncates 7 ∷ []

run_refines_example :
    IsValid 2 (run 2 (new 3) calls).1
    × (((run 2 (new 3) calls).0, view 2 (run 2 (new 3) calls).1)
        ≡ sequence_run (record { first = 3; items = [] }) calls)
run_refines_example = run_refines 2 (omega arith) 3 calls (omega arith)
