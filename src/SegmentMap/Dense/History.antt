-- ===== src/SegmentMap/Dense/History.antt =====
-- Any history of calls on `DenseOrderedMap` is one of the plain sequence (dense.rs).
use shard_stream.Prelude.{ℕ, ◌<◌, ◌≡◌, refl, ap, ◌∙◌, Option, List, [], ◌∷◌, arith, u128_mod}
use shard_stream.SegmentMap.Sequence
use shard_stream.SegmentMap.Sequence.{Sequence}
use shard_stream.SegmentMap.Dense.{
  DenseOrderedMap, PushResult, new, push, get, update, pop_front, truncate_before,
}
use shard_stream.SegmentMap.Dense.Inv.{IsValid, view, push-IsValid, push_refines}
use shard_stream.SegmentMap.Dense.Lookup.{get_refines}
use shard_stream.SegmentMap.Dense.Update.{update-IsValid, update_refines}
use shard_stream.SegmentMap.Dense.Front.{pop_front-IsValid, pop_front_refines}
use shard_stream.SegmentMap.Dense.Truncate.{truncate_before-IsValid, truncate_before_refines}

pub data Call {ℓ} (T : Type ℓ) : Type ℓ where
  pushes : ℕ → T → Call T
  gets : ℕ → Call T
  updates : ℕ → (T → T) → Call T
  pops : Call T
  truncates : ℕ → Call T

pub data Answer {ℓ} (T : Type ℓ) : Type ℓ where
  push_answer : PushResult T → Answer T
  found : Option T → Answer T
  updated : Answer T
  popped : Option (ℕ × T) → Answer T
  removed : ℕ → Answer T

module _ {ℓ} {T : Type ℓ} where
  abbrev sequence_call : Sequence T → Call T → Answer T × Sequence T
  sequence_call q (pushes key value) =
      let (r, q') = Sequence.push q key value in (push_answer r, q')
  sequence_call q (gets key) = (found (Sequence.get q key), q)
  sequence_call q (updates key f) = (updated, Sequence.update q key f)
  sequence_call q pops = let (r, q') = Sequence.pop_front q in (popped r, q')
  sequence_call q (truncates key) = let (n, q') = Sequence.truncate_before q key in (removed n, q')

  -- The same calls on the plain sequence.
  abbrev pub sequence_run : Sequence T → List (Call T) → List (Answer T) × Sequence T
  sequence_run q [] = ([], q)
  sequence_run q (c ∷ cs) =
      let (a, q1) = sequence_call q c in let (as_, q2) = sequence_run q1 cs in (a ∷ as_, q2)

module _ {ℓ} {T : Type ℓ} (capacity : ℕ) where
  pub call : DenseOrderedMap T → Call T → Answer T × DenseOrderedMap T
  call m (pushes key value) = let (r, m') = push capacity m key value in (push_answer r, m')
  call m (gets key) = (found (get capacity m key), m)
  call m (updates key f) = (updated, update capacity m key f)
  call m pops = let (r, m') = pop_front m in (popped r, m')
  call m (truncates key) = let (n, m') = truncate_before m key in (removed n, m')

  -- The calls of a history, with their answers.
  pub run : DenseOrderedMap T → List (Call T) → List (Answer T) × DenseOrderedMap T
  unfolding call
  run m [] = ([], m)
  run m (c ∷ cs) = let (a, m1) = call m c in let (as_, m2) = run m1 cs in (a ∷ as_, m2)

  module _ (positive : 0 < capacity) where
    call_refines :
        (m : DenseOrderedMap T) (c : Call T)
        → IsValid capacity m
        → IsValid capacity (call m c).1
          × (((call m c).0, view capacity (call m c).1) ≡ sequence_call (view capacity m) c)
    unfolding call
    call_refines m (pushes key value) v = (
      push-IsValid capacity positive m key value v,
      ap (λ (r, q). (push_answer r, q)) (push_refines capacity positive m key value v),
    )
    call_refines m (gets key) v =
        (v, ap (λ r. (found r, view capacity m)) (get_refines capacity positive m key v))
    call_refines m (updates key f) v = (
      update-IsValid f capacity m key v,
      ap (λ q. (updated, q)) (update_refines f capacity m key positive v),
    )
    call_refines m pops v = (
      pop_front-IsValid capacity positive m v,
      ap (λ (r, q). (popped r, q)) (pop_front_refines capacity positive m v),
    )
    call_refines m (truncates key) v = (
      truncate_before-IsValid capacity positive m key v,
      ap (λ (n, q). (removed n, q)) (truncate_before_refines capacity positive m key v),
    )

    run-IsValid :
        (m : DenseOrderedMap T) (cs : List (Call T))
        → IsValid capacity m
        → IsValid capacity (run m cs).1
          × (((run m cs).0, view capacity (run m cs).1) ≡ sequence_run (view capacity m) cs)
    unfolding run
    run-IsValid m [] v = (v, refl)
    run-IsValid m (c ∷ cs) v =
        let (v1, e1) = call_refines m c v in
        let (v2, e2) = run-IsValid (call m c).1 cs v1 in
        (
          v2,
          ap (λ (as_, q). ((call m c).0 ∷ as_, q)) e2
              ∙ ap (λ (a, q). (a ∷ (sequence_run q cs).0, (sequence_run q cs).1)) e1,
        )

    new-IsValid : (first_key : ℕ) → first_key < u128_mod → IsValid capacity (new {T = T} first_key)
    unfolding new
    new-IsValid first_key h = record {
      chain = refl;
      counted = omega arith;
      keys = h;
      entries = omega arith;
    }

    new-view :
        (first_key : ℕ)
        → view capacity (new {T = T} first_key) ≡ record { first = first_key; items = [] }
    unfolding new
    new-view first_key = refl

    -- From an empty map, whatever pushes, lookups, writes, removals and truncations follow, every
    -- answer is that of the plain sequence, the map stands for its values, and stays well formed.
    pub run_refines :
        (first_key : ℕ) (cs : List (Call T))
        → first_key < u128_mod
        → IsValid capacity (run (new first_key) cs).1
          × (((run (new first_key) cs).0, view capacity (run (new first_key) cs).1)
              ≡ sequence_run (record { first = first_key; items = [] }) cs)
    run_refines first_key cs h =
        let (v, e) = run-IsValid (new first_key) cs (new-IsValid first_key h) in
        (v, e ∙ ap (λ q. sequence_run q cs) (new-view first_key))
