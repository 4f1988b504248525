-- ===== src/Engine/Partition/Waiting.antt =====
-- The callers that wait for an offset: each is answered as soon as it is visible (coordinator.rs).
use shard_stream.Prelude.{
  ℕ, ◌+◌, ◌==◌, ◌<◌, ◌≡◌, refl, ap, List, [], ◌∷◌, ◌++◌, if◌then◌else◌, leb, ltb, min, arith,
  Bool-cases, inl, inr,
}
use shard_stream.Engine.Partition.{
  PartitionState, Waiters, ready, waiting, add_waiter, advance_cached_watermarks, VisibilityMode,
  wait_until_visible,
}

-- Every waiter waits for more than `visible`.
abbrev pub AreAfter : ℕ → Waiters → Type 0
AreAfter visible [] = Unit {0}
AreAfter visible ((offset, responses) ∷ rest) = (visible < offset) × AreAfter visible rest

-- Nobody waits for an offset that is visible.
pub record AreWaiting (s : PartitionState) : Type 0 where
  pub ordered : AreAfter s.last_stable_offset s.ordered_waiters
  pub replicated :
      AreAfter (min s.replicated_high_watermark s.last_stable_offset) s.replicated_waiters

waiting-AreAfter : (visible : ℕ) (ws : Waiters) → AreAfter visible (waiting visible ws)
unfolding waiting
waiting-AreAfter visible [] = tt
waiting-AreAfter visible ((offset, responses) ∷ rest) = elim (Bool-cases (leb offset visible)) [
  | inl due ↦ rw due (waiting-AreAfter visible rest)
  | inr late ↦ rw late (ground (arith, late), waiting-AreAfter visible rest)
]

add_waiter-AreAfter :
    (visible through response : ℕ) (ws : Waiters)
    → visible < through
    → AreAfter visible ws
    → AreAfter visible (add_waiter through response ws)
unfolding add_waiter
add_waiter-AreAfter visible through response [] h a = (h, tt)
add_waiter-AreAfter visible through response ((offset, responses) ∷ rest) h a =
    elim (Bool-cases (through == offset)) [
      | inl same ↦ rw same a
      | inr other ↦ rw other (elim (Bool-cases (ltb through offset)) [
        | inl before ↦ rw before (h, a)
        | inr after ↦ rw after (a.0, add_waiter-AreAfter visible through response rest h a.1)
      ])
    ]

-- After an advance nobody waits for an offset that is visible.
pub advance_cached_watermarks-AreWaiting :
    (s : PartitionState) → AreWaiting (advance_cached_watermarks s)
unfolding advance_cached_watermarks
advance_cached_watermarks-AreWaiting s =
    let t = advance_cached_watermarks s in
    record {
      ordered = waiting-AreAfter t.last_stable_offset s.ordered_waiters;
      replicated =
          waiting-AreAfter (min t.replicated_high_watermark t.last_stable_offset)
            s.replicated_waiters;
    }

-- A caller that asks for a visible offset is answered at once, and one that asks for more waits.
pub wait_until_visible-AreWaiting :
    (s : PartitionState) (through : ℕ) (mode : VisibilityMode) (response : ℕ)
    → AreWaiting s
    → AreWaiting (wait_until_visible s through mode response)
unfolding wait_until_visible
wait_until_visible-AreWaiting s through VisibilityMode.ordered response a =
    elim (Bool-cases (leb through s.last_stable_offset)) [
      | inl seen ↦ rw seen (record { ordered = a.ordered; replicated = a.replicated })
      | inr unseen ↦ rw unseen (record {
        ordered =
            add_waiter-AreAfter _ through response s.ordered_waiters (ground (arith, unseen))
              a.ordered;
        replicated = a.replicated;
      })
    ]
wait_until_visible-AreWaiting s through VisibilityMode.replicated response a =
    elim (Bool-cases (leb through (min s.replicated_high_watermark s.last_stable_offset))) [
      | inl seen ↦ rw seen (record { ordered = a.ordered; replicated = a.replicated })
      | inr unseen ↦ rw unseen (record {
        ordered = a.ordered;
        replicated =
            add_waiter-AreAfter _ through response s.replicated_waiters (ground (arith, unseen))
              a.replicated;
      })
    ]

-- How often a caller stands in a list of callers, and among the waiters.
abbrev pub times : ℕ → List ℕ → ℕ
times w [] = 0
times w (v ∷ vs) = (if v == w then 1 else 0) + times w vs

abbrev pub waits : ℕ → Waiters → ℕ
waits w [] = 0
waits w ((offset, responses) ∷ rest) = times w responses + waits w rest

times-append : (w : ℕ) (xs ys : List ℕ) → times w (xs ++ ys) ≡ times w xs + times w ys
times-append w [] ys = omega arith
times-append w (x ∷ xs) ys = omega (arith, times-append w xs ys)

ready-waits :
    (w visible : ℕ) (ws : Waiters)
    → times w (ready visible ws) + waits w (waiting visible ws) ≡ waits w ws
unfolding ready waiting
ready-waits w visible [] = omega arith
ready-waits w visible ((offset, responses) ∷ rest) =
    ground (arith, ready-waits w visible rest, times-append w responses (ready visible rest))

add_waiter-waits :
    (w through response : ℕ) (ws : Waiters)
    → waits w (add_waiter through response ws) ≡ times w (response ∷ []) + waits w ws
unfolding add_waiter
add_waiter-waits w through response [] = omega arith
add_waiter-waits w through response ((offset, responses) ∷ rest) =
    ground
      (arith, add_waiter-waits w through response rest, times-append w responses (response ∷ []))

-- How often a caller waits or was answered.
abbrev pub asked : ℕ → PartitionState → ℕ
asked w s = times w s.answered + waits w s.ordered_waiters + waits w s.replicated_waiters

notified :
    (s : PartitionState)
    → let t = advance_cached_watermarks s in
      let visible = min t.replicated_high_watermark t.last_stable_offset in
      (t.answered
        ≡ s.answered
          ++ ready t.last_stable_offset s.ordered_waiters
          ++ ready visible s.replicated_waiters)
      × (t.ordered_waiters ≡ waiting t.last_stable_offset s.ordered_waiters)
      × (t.replicated_waiters ≡ waiting visible s.replicated_waiters)
unfolding advance_cached_watermarks
notified s = (refl, refl, refl)

-- An advance drops no caller and answers none twice.
pub advance_cached_watermarks-asked :
    (s : PartitionState) (w : ℕ) → asked w (advance_cached_watermarks s) ≡ asked w s
advance_cached_watermarks-asked s w =
    let t = advance_cached_watermarks s in
    let visible = min t.replicated_high_watermark t.last_stable_offset in
    let (a, o, r) = notified s in
    omega (
      arith,
      ap (times w) a,
      ap (waits w) o,
      ap (waits w) r,
      ready-waits w t.last_stable_offset s.ordered_waiters,
      ready-waits w visible s.replicated_waiters,
      times-append w (s.answered ++ ready t.last_stable_offset s.ordered_waiters)
          (ready visible s.replicated_waiters),
      times-append w s.answered (ready t.last_stable_offset s.ordered_waiters),
    )
