-- ===== src/Prelude/Maps.antt =====
-- A hash map as the function that looks a key up; the key's equality test is an argument.
use mathlib.Core.Bool.{Bool, true, false}
use mathlib.Core.Option.{Option, none, some}

abbrev pub kept {κ} : {V : Type κ} → (V → Bool) → Option V → Option V
kept keep none = none
kept keep (some v) = elim (keep v) [ true ↦ some v | false ↦ none ]

abbrev pub mapped {κ} : {V : Type κ} → (V → V) → Option V → Option V
mapped f none = none
mapped f (some v) = some (f v)

module _ {ℓ κ} {K : Type ℓ} {V : Type κ} where
  abbrev pub no_entries : K → Option V
  no_entries key = none

  abbrev pub insert : (K → K → Bool) → (K → Option V) → K → V → K → Option V
  insert same entries key value k = elim (same k key) [ true ↦ some value | false ↦ entries k ]

  abbrev pub remove : (K → K → Bool) → (K → Option V) → K → K → Option V
  remove same entries key k = elim (same k key) [ true ↦ none | false ↦ entries k ]

  -- `retain`
  abbrev pub retain : (V → Bool) → (K → Option V) → K → Option V
  retain keep entries k = kept keep (entries k)

  -- `values_mut`, with what the loop does to a value.
  abbrev pub update_values : (V → V) → (K → Option V) → K → Option V
  update_values f entries k = mapped f (entries k)

-- The equality of optional values.
abbrev pub option_eq {ℓ} : {A : Type ℓ} → (A → A → Bool) → Option A → Option A → Bool
option_eq same none none = true
option_eq same none (some b) = false
option_eq same (some a) none = false
option_eq same (some a) (some b) = same a b
