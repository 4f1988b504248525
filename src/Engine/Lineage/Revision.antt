-- ===== src/Engine/Lineage/Revision.antt =====
-- No observation of a source survives a mutation (crates/shard-stream-engine/src/query_lineage.rs),
-- whatever threads change its word and however their atomic operations interleave.
use shard_stream.Prelude.{
  ℕ, ◌+◌, ◌*◌, ◌/◌, ◌≤◌, ◌<◌, ◌≡◌, ◌≢◌, ◌⊎◌, inl, inr, subst, Bool, true, List, [], ◌∷◌, some, none,
  arith,
}
use shard_stream.Engine.Lineage.{
  capture, deny, deny_if, begin, finish, begin_exchange, finish_exchange, begin_alone, finish_alone,
  active_step, denied_bit,
}

-- One atomic operation of some thread on the word: the compare-exchange of a `begin` or of a
-- `finish` that loaded the word given, at any time, or a denial.
pub data Action : Type 0 where
  begins finishes : ℕ → Action
  denies : Action

unfoldable pub act : ℕ → Action → ℕ
act now (begins before) = (begin_exchange before now).1
act now (finishes before) = (finish_exchange before now).1
act now denies = deny now

unfoldable pub act_all : ℕ → List Action → ℕ
act_all word [] = word
act_all word (a ∷ more) = act_all (act word a) more

-- The word is denied, or its revision is at least `revision`.
abbrev From : ℕ → ℕ → Type 0
From revision word = (denied_bit ≤ word) ⊎ (revision * active_step ≤ word)

act-From : (revision word : ℕ) (a : Action) → From revision word → From revision (act word a)
unfolding act begin_exchange finish_exchange deny
act-From revision word (begins before) f = ground arith
act-From revision word (finishes before) f = ground arith
act-From revision word denies f = ground arith

act_all-From :
    (revision word : ℕ) (actions : List Action)
    → From revision word
    → From revision (act_all word actions)
unfolding act_all
act_all-From revision word [] f = f
act_all-From revision word (a ∷ more) f =
    act_all-From revision (act word a) more (act-From revision word a f)

-- No operation clears the denied bit.
act-denied : (word : ℕ) (a : Action) → denied_bit ≤ word → denied_bit ≤ act word a
unfolding act begin_exchange finish_exchange deny
act-denied word (begins before) d = ground arith
act-denied word (finishes before) d = ground arith
act-denied word denies d = ground arith

act_all-denied :
    (word : ℕ) (actions : List Action) → denied_bit ≤ word → denied_bit ≤ act_all word actions
unfolding act_all
act_all-denied word [] d = d
act_all-denied word (a ∷ more) d = act_all-denied (act word a) more (act-denied word a d)

-- After the compare-exchange the revision has gone up, or a denial is due, or the source is denied.
begin_exchange-From :
    (revision before now : ℕ)
    → From revision now
    → (denied_bit ≤ before → denied_bit ≤ now)
    → ((begin_exchange before now).0 ≡ true) ⊎ From (revision + 1) (begin_exchange before now).1
unfolding begin_exchange
begin_exchange-From revision before now f kept = ground arith

deny_if-From :
    (revision : ℕ) (due : Bool) (word : ℕ)
    → (due ≡ true) ⊎ From revision word
    → From revision (deny_if due word)
unfolding deny_if deny
deny_if-From revision due word h = ground arith

later-From :
    (revision : ℕ) (due : Bool) (word : ℕ) (actions : List Action)
    → (due ≡ true) ⊎ From revision word
    → (due ≡ true) ⊎ From revision (act_all word actions)
later-From revision due word actions (inl e) = inl e
later-From revision due word actions (inr f) = inr (act_all-From revision word actions f)

captured-From :
    (word revision : ℕ)
    → capture word ≡ some revision
    → (revision < denied_bit) × From (revision / active_step) word
unfolding capture
captured-From word revision c = ground arith

-- An observation that was captured never is the word again once a `begin` has returned after it. The
-- other threads may act between the capture and the compare-exchange (`since`), the load and the
-- compare-exchange (`earlier`), the compare-exchange and the denial it may need (`between`), and
-- afterwards (`later`), each with any operations.
pub begin-lapses :
    (seen before now revision : ℕ) (since earlier between later : List Action)
    → capture seen ≡ some revision
    → act_all seen since ≡ now
    → act_all before earlier ≡ now
    → let (due, word) = begin_exchange before now in
      act_all (deny_if due (act_all word between)) later ≢ revision
begin-lapses seen before now revision since earlier between later c at_now loaded =
    let r = revision / active_step in
    let x = begin_exchange before now in
    let (small, f) = captured-From seen revision c in
    let g = subst (From r) at_now (act_all-From r seen since f) in
    let h =
      begin_exchange-From r before now g
        (λ d. subst (λ w. denied_bit ≤ w) loaded (act_all-denied before earlier d)) in
    let k =
      act_all-From (r + 1) _ later
        (deny_if-From (r + 1) x.0 _ (later-From (r + 1) x.0 x.1 between h)) in
    λ same. omega arith

-- Until it finishes an entered mutation hides the source, and then a new revision is captured, while
-- revisions are left and no other thread comes between.
pub capture-begin :
    (word revision : ℕ)
    → capture word ≡ some revision
    → (capture (begin_alone word) ≡ none)
      × (word / active_step < 2147483647
          → capture (finish_alone (begin_alone word)) ≡ some (revision + active_step))
unfolding capture begin finish begin_exchange finish_exchange deny_if deny
capture-begin word revision c = ground arith

-- A compare-exchange that finds another word than was loaded denies the source.
pub begin-contended :
    (before now : ℕ) → before < denied_bit → now ≢ before → denied_bit ≤ begin before now
unfolding begin begin_exchange deny_if deny
begin-contended before now undenied other = ground arith
