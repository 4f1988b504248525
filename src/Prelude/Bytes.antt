-- ===== src/Prelude/Bytes.antt =====
-- Byte strings as lists of numbers, little-endian words, and slices.
use shard_stream.Prelude.Tests.{leb, ◌==◌, if◌then◌else◌, Bool-cases, leb→le, le→leb}
use shard_stream.Prelude.Lists.{length, take, drop, length-append, length-drop, drop-append_left}
use Prim.Native.Nat.{ℕ, zero, suc, ◌+◌, ◌-◌, ◌*◌, ◌/◌, ◌%◌, ◌^◌, ◌≤◌, ◌<◌}
use mathlib.Core.Path.{◌≡◌, refl, ap, sym, ◌∙◌}
use mathlib.Core.Bool.{Bool, true, false, ◌&&◌}
use mathlib.Core.List.{List, [], ◌∷◌, ◌++◌}
use mathlib.Core.Option.{Option, none, some}
use mathlib.Core.Logic.{inl, inr}
use native.Mathlib.Omega.{arith}

abbrev pub Bytes : Type 0
Bytes = List ℕ

-- `value.to_le_bytes()` of a word of `width` bytes.
abbrev pub le_bytes : ℕ → ℕ → Bytes
le_bytes zero v = []
le_bytes (suc width) v = v % 256 ∷ le_bytes width (v / 256)

-- `from_le_bytes`
unfoldable pub from_le : Bytes → ℕ
from_le [] = 0
from_le (b ∷ bs) = b + 256 * from_le bs

pub from_le-le_bytes : (width v : ℕ) → v < 256 ^ width → from_le (le_bytes width v) ≡ v
unfolding from_le
from_le-le_bytes zero v h = omega arith
from_le-le_bytes (suc width) v h = omega (arith, from_le-le_bytes width (v / 256) (omega arith))

pub length-le_bytes : (width v : ℕ) → length (le_bytes width v) ≡ width
length-le_bytes zero v = refl
length-le_bytes (suc width) v = ap suc (length-le_bytes width (v / 256))

abbrev pub bytes_eq : Bytes → Bytes → Bool
bytes_eq [] [] = true
bytes_eq [] (b ∷ bs) = false
bytes_eq (a ∷ as_) [] = false
bytes_eq (a ∷ as_) (b ∷ bs) = a == b && bytes_eq as_ bs

-- `bytes.get(from..to)`
abbrev pub slice : Bytes → ℕ → ℕ → Option Bytes
slice bytes from to =
    if leb from to && leb to (length bytes) then some (take (to - from) (drop from bytes)) else none

pub take_left : (xs ys : Bytes) (n : ℕ) → n ≡ length xs → take n (xs ++ ys) ≡ xs
take_left [] ys zero h = refl
take_left [] ys (suc n) h = absurd (omega arith)
take_left (x ∷ xs) ys zero h = absurd (omega arith)
take_left (x ∷ xs) ys (suc n) h = ap (◌∷◌ x) (take_left xs ys n (omega arith))

pub drop_left : (xs ys : Bytes) (n : ℕ) → n ≡ length xs → drop n (xs ++ ys) ≡ ys
drop_left [] ys zero h = refl
drop_left [] ys (suc n) h = absurd (omega arith)
drop_left (x ∷ xs) ys zero h = absurd (omega arith)
drop_left (x ∷ xs) ys (suc n) h = drop_left xs ys n (omega arith)

-- The middle of three parts is the slice between their ends.
pub slice_middle :
    (before x after : Bytes) (from to : ℕ)
    → from ≡ length before
    → to ≡ from + length x
    → slice (before ++ (x ++ after)) from to ≡ some x
slice_middle before x after from to e f =
    let total = length-append before (x ++ after) in
    let more = length-append x after in
    let front = drop_left before (x ++ after) from e in
    let part = take_left x after (to - from) (omega arith) in
    ground (arith, total, more, front, part)

pub slice_left :
    (xs ys : Bytes) (from to : ℕ) → to ≤ length xs → slice (xs ++ ys) from to ≡ slice xs from to
slice_left xs ys from to h = elim (Bool-cases (leb from to)) [
  | inl up ↦
      let up' = leb→le from to up in
      let fits = le→leb to (length xs) h in
      let fits' = le→leb to (length (xs ++ ys)) (omega (arith, length-append xs ys)) in
      rw (up, fits, fits')
        (ap some (
          ap (take (to - from)) (drop-append_left from xs ys (omega arith))
          ∙ take-append_left (to - from) (drop from xs) ys (omega (arith, length-drop from xs))))
  | inr down ↦ rw down
]
  where
    take-append_left : (n : ℕ) (as_ bs : Bytes) → n ≤ length as_ → take n (as_ ++ bs) ≡ take n as_
    take-append_left zero as_ bs k = refl
    take-append_left (suc n) [] bs k = absurd (omega arith)
    take-append_left (suc n) (a ∷ as_) bs k = ap (◌∷◌ a) (take-append_left n as_ bs (omega arith))

pub record Sliced (bytes : Bytes) (from to : ℕ) (x : Bytes) : Type 0 where
  pub up : from ≤ to
  pub inside : to ≤ length bytes
  pub size : length x ≡ to - from

length-take : (n : ℕ) (xs : Bytes) → n ≤ length xs → length (take n xs) ≡ n
length-take zero xs h = refl
length-take (suc n) [] h = absurd (omega arith)
length-take (suc n) (x ∷ xs) h = ap suc (length-take n xs (omega arith))

-- A slice that exists lies in the bytes, and has its width.
pub slice-Sliced :
    (bytes : Bytes) (from to : ℕ) (x : Bytes)
    → slice bytes from to ≡ some x
    → Sliced bytes from to x
slice-Sliced bytes from to x h = elim (Bool-cases (leb from to)) [
  | inl up ↦ elim (Bool-cases (leb to (length bytes))) [
    | inl inside ↦
        let e : take (to - from) (drop from bytes) ≡ x = ground (arith, up, inside, h) in
        let a = leb→le _ _ up in
        let b = leb→le _ _ inside in
        record {
          up = a;
          inside = b;
          size =
              ap length (sym e)
              ∙ length-take (to - from) (drop from bytes) (omega (arith, length-drop from bytes));
        }
    | inr outside ↦ absurd (ground (arith, up, outside, h))
  ]
  | inr down ↦ absurd (ground (arith, down, h))
]

pub slice_total :
    (bytes : Bytes) (from to : ℕ)
    → from ≤ to
    → to ≤ length bytes
    → (x : Bytes) × (slice bytes from to ≡ some x)
slice_total bytes from to up inside =
    (take (to - from) (drop from bytes), rw (le→leb _ _ up, le→leb _ _ inside) refl)
