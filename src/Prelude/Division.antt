-- ===== src/Prelude/Division.antt =====
-- The quotient that places a key in a segment.
use Prim.Native.Nat.{ℕ, suc, ◌+◌, ◌*◌, ◌/◌, ◌≤◌, ◌<◌}
use mathlib.Core.Path.{◌≡◌, sym, ◌∙◌, subst}
use mathlib.Core.Logic.{◌≢◌}
use native.Mathlib.Decide.{dec_lt}
use native.Mathlib.Nat.{div-eq_of_lt-le, div-add-mod', mod-lt, le_trans}
use native.Mathlib.Omega.{arith}

pub div_unique : (c n k : ℕ) → n * c ≤ k → k < suc n * c → k / c ≡ n
div_unique c n k lo hi = div-eq_of_lt-le {k = n} c {m = k} lo (shifted hi)
  where
    shifted : k < suc n * c → k < (n + 1) * c
    shifted h = grind arith

pub div_bounds : (c k : ℕ) → 0 < c → (k / c * c ≤ k) × (k < suc (k / c) * c)
div_bounds c k h = omega (arith, div-add-mod' k c, mod-lt k h)

module _ (c n k next : ℕ) (positive : 0 < c) (low : n * c ≤ k) (high : k < suc n * c) where
  -- A key with the quotient of `k` lies below the next multiple.
  pub lt_of_same_quotient : k / c ≡ next / c → next < suc n * c
  lt_of_same_quotient same =
      subst (λ q. next < suc q * c) (sym same ∙ div_unique c n k low high)
        (div_bounds c next positive).1

  -- A key at most the next multiple, with another quotient, is that multiple.
  pub eq_of_other_quotient : k ≤ next → next ≤ suc n * c → k / c ≢ next / c → next ≡ suc n * c
  eq_of_other_quotient above below other = elim (dec_lt next (suc n * c)) [
    | yes p ↦
        absurd
          (other (div_unique c n k low high ∙ sym (div_unique c n next (le_trans low above) p)))
    | no p ↦ omega arith
  ]
