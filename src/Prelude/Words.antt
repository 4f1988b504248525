-- ===== src/Prelude/Words.antt =====
-- Machine words as native numbers: the sizes, and the checked operations of the standard library.
use Prim.Native.Nat.{ℕ, ◌+◌, ◌-◌, ◌^◌}
use mathlib.Core.Option.{Option, none, some}
use shard_stream.Prelude.Tests.{ltb, leb, if◌then◌else◌}

-- One more than the largest value of the type; `usize` has 64 bits.
abbrev pub u16_mod : ℕ
u16_mod = 2 ^ 16

abbrev pub u32_mod : ℕ
u32_mod = 2 ^ 32

abbrev pub u64_mod : ℕ
u64_mod = 2 ^ 64

abbrev pub u128_mod : ℕ
u128_mod = 2 ^ 128

abbrev pub usize_mod : ℕ
usize_mod = u64_mod

-- `a.checked_add(b)` of the type with `size` values.
abbrev pub checked_add : ℕ → ℕ → ℕ → Option ℕ
checked_add size a b = if ltb (a + b) size then some (a + b) else none

-- `a.checked_sub(b)`
abbrev pub checked_sub : ℕ → ℕ → Option ℕ
checked_sub a b = if leb b a then some (a - b) else none

-- `T::try_from(a).ok()` of the type with `size` values.
abbrev pub try_from : ℕ → ℕ → Option ℕ
try_from size a = if ltb a size then some a else none
