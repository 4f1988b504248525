-- ===== src/Kafka/Record/Varint.antt =====
-- Variable-length integers of the records of Kafka: what their encoding writes is read back
-- (crates/shard-stream-kafka/src/batch.rs).
use native.Mathlib.Decide.{dec_lt}
use native.Mathlib.Nat.{div-eq_of_lt, pow-succ'}
use shard_stream.Prelude.{
  ℕ, zero, suc, ◌+◌, ◌*◌, ◌/◌, ◌%◌, ◌^◌, ◌≤◌, ◌<◌, ◌≡◌, refl, ap, sym, ◌∙◌, subst, true, false, not,
  ◌&&◌, List, [], ◌∷◌, ◌++◌, if◌then◌else◌, ltb, ◌==◌, arith, lt→ltb, le→ltb,
}
use shard_stream.Prelude.Bytes.{Bytes}
use shard_stream.Prelude.Integers.{ℤ, pos, negsuc}
use shard_stream.Prelude.Results.{ok}
use shard_stream.Kafka.Record.{
  take_bytes, read_byte, zigzag, read_shifts, read_varint, read_varlong,
}

-- The zigzag word of an integer: even from a natural number, odd from a negative one.
abbrev pub to_word : ℤ → ℕ
to_word (pos n) = 2 * n
to_word (negsuc n) = 2 * n + 1

-- At most `most` groups of seven bits, the least ones first; all but the last have the high bit.
abbrev pub groups : ℕ → ℕ → Bytes
groups zero v = []
groups (suc most) v = if ltb v 128 then v ∷ [] else (v % 128 + 128) ∷ groups most (v / 128)

unfoldable pub write_varint : ℤ → Bytes
write_varint i = groups 5 (to_word i)

unfoldable pub write_varlong : ℤ → Bytes
write_varlong i = groups 10 (to_word i)

zigzag-to_word : (i : ℤ) → zigzag (to_word i) ≡ i
zigzag-to_word (pos n) = ground arith
zigzag-to_word (negsuc n) = ground arith

-- The shifts of `n` groups, from `shift` on.
abbrev steps : ℕ → ℕ → List ℕ
steps shift zero = []
steps shift (suc n) = shift ∷ steps (shift + 7) n

-- Values that `n` full groups and a byte below `top` hold.
abbrev limit : ℕ → ℕ → ℕ
limit top zero = top
limit top (suc n) = 128 * limit top n

read_byte-cons : (b : ℕ) (rest : Bytes) → read_byte (b ∷ rest) ≡ ok (b, rest)
unfolding read_byte take_bytes
read_byte-cons b rest = ground arith

read_last :
    (last top shift v acc : ℕ) (shifts : List ℕ) (rest : Bytes)
    → v < 128
    → not (shift == last && not (v / top == 0)) ≡ true
    → read_shifts last top (shift ∷ shifts) acc (v ∷ rest) ≡ ok (zigzag (acc + v * 2 ^ shift), rest)
unfolding read_shifts
read_last last top shift v acc shifts rest small allowed =
    let low : (v / 128 == 0) ≡ true = ground arith in
    let same : v % 128 ≡ v = omega arith in rw (read_byte-cons v rest, allowed, low, same) refl

read_more :
    (last top shift v acc : ℕ) (shifts : List ℕ) (rest : Bytes)
    → shift < last
    → read_shifts last top (shift ∷ shifts) acc ((v % 128 + 128) ∷ rest)
      ≡ read_shifts last top shifts (acc + v % 128 * 2 ^ shift) rest
unfolding read_shifts
read_more last top shift v acc shifts rest before =
    let b = v % 128 + 128 in
    let high : (b / 128 == 0) ≡ false = ground arith in
    let same : b % 128 ≡ v % 128 = omega arith in
    let other : (shift == last) ≡ false = ground arith in
    rw (read_byte-cons b rest, other, high, same) refl

groups_last : (most v : ℕ) → v < 128 → groups (suc most) v ≡ v ∷ []
groups_last most v small = rw (lt→ltb v 128 small) refl

groups_more : (most v : ℕ) → 128 ≤ v → groups (suc most) v ≡ (v % 128 + 128) ∷ groups most (v / 128)
groups_more most v big = rw (le→ltb v 128 big) refl

limit_positive : (top n : ℕ) → 0 < top → top ≤ limit top n
limit_positive top zero h = omega arith
limit_positive top (suc n) h = omega (arith, limit_positive top n h)

top_allows : (last top shift v : ℕ) → v < top → not (shift == last && not (v / top == 0)) ≡ true
top_allows last top shift v h = let none_left : v / top ≡ 0 = div-eq_of_lt h in ground arith

double : (n m : ℕ) → m ≡ suc n → 2 ^ m ≡ 2 * 2 ^ n
double n m e = ap (◌^◌ 2) e ∙ pow-succ' 2 n

seven : (s : ℕ) → 2 ^ (s + 7) ≡ 128 * 2 ^ s
seven s = omega (
  arith,
  double s (s + 1) (omega arith),
  double (s + 1) (s + 2) (omega arith),
  double (s + 2) (s + 3) (omega arith),
  double (s + 3) (s + 4) (omega arith),
  double (s + 4) (s + 5) (omega arith),
  double (s + 5) (s + 6) (omega arith),
  double (s + 6) (s + 7) (omega arith),
)

scaled : (p q r v : ℕ) → v ≡ 128 * q + r → r * p + q * (128 * p) ≡ v * p
scaled p q r v e = subst (λ w. r * p + q * (128 * p) ≡ w * p) (sym e) (omega arith)

-- What is written in full groups is read back at any shift that leaves room for them.
read_groups :
    (last top n shift v acc : ℕ) (rest : Bytes)
    → last ≡ shift + 7 * n
    → 0 < top
    → top ≤ 128
    → v < limit top n
    → read_shifts last top (steps shift (suc n)) acc (groups (suc n) v ++ rest)
      ≡ ok (zigzag (acc + v * 2 ^ shift), rest)
read_groups last top zero shift v acc rest at positive fits h =
    ap (λ g. read_shifts last top (steps shift 1) acc (g ++ rest)) (groups_last 0 v (omega arith))
    ∙ read_last last top shift v acc [] rest (omega arith) (top_allows last top shift v h)
read_groups last top (suc n) shift v acc rest at positive fits h = elim (dec_lt v 128) [
  | yes low ↦
      ap (λ g. read_shifts last top (steps shift (suc (suc n))) acc (g ++ rest))
        (groups_last (suc n) v low)
      ∙ read_last last top shift v acc (steps (shift + 7) (suc n)) rest low (ground arith)
  | no high ↦
      ap (λ g. read_shifts last top (steps shift (suc (suc n))) acc (g ++ rest))
        (groups_more (suc n) v (omega arith))
      ∙ read_more last top shift v acc (steps (shift + 7) (suc n))
          (groups (suc n) (v / 128) ++ rest) (omega arith)
      ∙ read_groups last top n (shift + 7) (v / 128) (acc + v % 128 * 2 ^ shift) rest (omega arith)
          positive fits (omega arith)
      ∙ ap (λ w. ok (zigzag w, rest)) (whole acc v shift)
]
  where
    whole :
        (acc v shift : ℕ)
        → acc + v % 128 * 2 ^ shift + v / 128 * 2 ^ (shift + 7) ≡ acc + v * 2 ^ shift
    whole acc v shift =
        let pow : 2 ^ (shift + 7) ≡ 128 * 2 ^ shift = seven shift in
        omega (
          arith,
          pow,
          scaled (2 ^ shift) (v / 128) (v % 128) v (omega arith),
          ap (λ w. v / 128 * w) pow,
        )

-- The integers of `bits` bits.
abbrev pub IsInt : ℕ → ℤ → Type 0
IsInt half (pos n) = n < half
IsInt half (negsuc n) = n < half

to_word_small : (half : ℕ) (i : ℤ) → IsInt half i → to_word i < 2 * half
to_word_small half (pos n) h = omega arith
to_word_small half (negsuc n) h = omega arith

-- An integer of 32 bits that its encoding writes before other bytes is read back, and they are left.
pub read_varint-write_varint :
    (i : ℤ) (rest : Bytes) → IsInt (2 ^ 31) i → read_varint (write_varint i ++ rest) ≡ ok (i, rest)
unfolding read_varint write_varint
read_varint-write_varint i rest h =
    read_groups 28 16 4 0 (to_word i) 0 rest (omega arith) (omega arith) (omega arith)
      (to_word_small (2 ^ 31) i h)
    ∙ ap (λ w. ok (w, rest)) (ap zigzag (omega arith) ∙ zigzag-to_word i)

-- So is one of 64 bits.
pub read_varlong-write_varlong :
    (i : ℤ) (rest : Bytes)
    → IsInt (2 ^ 63) i
    → read_varlong (write_varlong i ++ rest) ≡ ok (i, rest)
unfolding read_varlong write_varlong
read_varlong-write_varlong i rest h =
    read_groups 63 2 9 0 (to_word i) 0 rest (omega arith) (omega arith) (omega arith)
      (to_word_small (2 ^ 63) i h)
    ∙ ap (λ w. ok (w, rest)) (ap zigzag (omega arith) ∙ zigzag-to_word i)
