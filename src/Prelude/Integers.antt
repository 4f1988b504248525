-- ===== src/Prelude/Integers.antt =====
-- Signed integers over the native numbers, and their two's complement words.
use shard_stream.Prelude.Tests.{ltb, if◌then◌else◌}
use Prim.Native.Nat.{ℕ, ◌-◌, ◌*◌}
use mathlib.Core.Option.{Option, none, some}

pub data ℤ : Type 0 where
  pos negsuc : ℕ → ℤ

-- The integer that a word with `2 * half` values stands for.
abbrev pub signed : ℕ → ℕ → ℤ
signed half v = if ltb v half then pos v else negsuc (2 * half - 1 - v)

-- `T::try_from(i).ok()`, for an unsigned type that holds the numbers of the signed one.
abbrev pub non_negative : ℤ → Option ℕ
non_negative (pos n) = some n
non_negative (negsuc n) = none
