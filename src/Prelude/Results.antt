-- ===== src/Prelude/Results.antt =====
-- Results of fallible code. A panic (an index out of range, an `expect` that fails) is a result of
-- its own, so that its absence can be stated.
use mathlib.Core.Path.{◌≡◌, refl, subst}
use mathlib.Core.Logic.{◌≢◌, ◌⊎◌, inl, inr}
use mathlib.Core.Bool.{Bool, true, false}
use mathlib.Core.Option.{Option, none, some}
use shard_stream.Prelude.Tests.{if◌then◌else◌}

pub data Result {ℓ κ} (E : Type ℓ) (A : Type κ) : Type (ℓ ⊔ κ) where
  ok : A → Result E A
  err : E → Result E A
  panic : Result E A

infixl 5 ◌>>=◌ ◌>>◌
abbrev pub ◌>>=◌ {ℓ κ μ} :
    {E : Type ℓ} {A : Type κ} {B : Type μ} → Result E A → (A → Result E B) → Result E B
ok a >>= f = f a
err e >>= f = err e
panic >>= f = panic

abbrev pub ◌>>◌ {ℓ μ} : {E : Type ℓ} {B : Type μ} → Result E (Unit {0}) → Result E B → Result E B
m >> k = m >>= λ _. k

abbrev pub guard {ℓ} : {E : Type ℓ} → Bool → E → Result E (Unit {0})
guard true e = ok tt
guard false e = err e

-- `o.ok_or(e)`
abbrev pub ok_or {ℓ κ} : {E : Type ℓ} {A : Type κ} → Option A → E → Result E A
ok_or none e = err e
ok_or (some a) e = ok a

-- `o.expect(…)`
abbrev pub expect {ℓ κ} : {E : Type ℓ} {A : Type κ} → Option A → Result E A
expect none = panic
expect (some a) = ok a

-- A chain that succeeds has succeeded at its first step, and then at the others.
pub bind-ok {ℓ κ μ} :
    {E : Type ℓ} {A : Type κ} {B : Type μ} {result : B} (m : Result E A) (next : A → Result E B)
    → (m >>= next) ≡ ok result
    → (value : A) × (m ≡ ok value) × (next value ≡ ok result)
bind-ok panic next h = cc
bind-ok (err e) next h = cc
bind-ok (ok value) next h = (value, refl, h)

-- The run did not panic, and `P` holds of its value if it has one.
pub data Ensures {ℓ κ μ} {E : Type ℓ} {A : Type κ} (P : A → Type μ)
    : Result E A → Type (ℓ ⊔ κ ⊔ μ) where
  holds : {a : A} → P a → Ensures P (ok a)
  fails : {e : E} → Ensures P (err e)

-- No more than that the run did not panic.
abbrev pub Any {ℓ} : {A : Type ℓ} → A → Type 0
Any a = Unit {0}

module _ {ℓ κ μ} {E : Type ℓ} {A : Type κ} {P : A → Type μ} where
  pub Ensures-bind {ν ρ} :
      {B : Type ν} {Q : B → Type ρ} {m : Result E A} {f : A → Result E B}
      → Ensures P m
      → ((a : A) → P a → Ensures Q (f a))
      → Ensures Q (m >>= f)
  Ensures-bind (holds {a} h) k = k a h
  Ensures-bind fails k = fails

  pub Ensures-ok : {m : Result E A} {a : A} → Ensures P m → m ≡ ok a → P a
  Ensures-ok (holds h) e = subst P (cc) h
  Ensures-ok fails e = cc

  pub Ensures-panic : {m : Result E A} → Ensures P m → m ≢ panic
  Ensures-panic (holds h) = cc
  Ensures-panic fails = cc

pub ok_or-Ensures {ℓ κ} :
    {E : Type ℓ} {A : Type κ} (o : Option A) (e : E) → Ensures (λ a. o ≡ some a) (ok_or o e)
ok_or-Ensures none e = fails
ok_or-Ensures (some a) e = holds refl

pub guard-Ensures {ℓ} : {E : Type ℓ} (b : Bool) (e : E) → Ensures (λ _. b ≡ true) (guard b e)
guard-Ensures true e = holds refl
guard-Ensures false e = fails

pub if-Ensures {ℓ κ μ} :
    {E : Type ℓ} {A : Type κ} {P : A → Type μ} (b : Bool) {x y : Result E A}
    → (b ≡ true → Ensures P x)
    → (b ≡ false → Ensures P y)
    → Ensures P (if b then x else y)
if-Ensures true hx hy = hx refl
if-Ensures false hx hy = hy refl

-- Only that the run did not panic.
pub Ensures-weaken {ℓ κ μ} :
    {E : Type ℓ} {A : Type κ} {P : A → Type μ} {m : Result E A} → Ensures P m → Ensures Any m
Ensures-weaken (holds h) = holds tt
Ensures-weaken fails = fails

pub Ensures-cases {ℓ κ μ} :
    {E : Type ℓ} {A : Type κ} {P : A → Type μ} {m : Result E A}
    → Ensures P m
    → ((e : E) × (m ≡ err e)) ⊎ ((a : A) × (m ≡ ok a) × P a)
Ensures-cases (holds {a} h) = inr (a, refl, h)
Ensures-cases (fails {e}) = inl (e, refl)

pub guard-eq-ok {ℓ} : {E : Type ℓ} (b : Bool) (e : E) {u : Unit {0}} → guard b e ≡ ok u → b ≡ true
guard-eq-ok true e h = refl
guard-eq-ok false e h = cc

pub Ensures-self {ℓ} :
    {E : Type ℓ} (r : Result E (Unit {0})) → Ensures Any r → Ensures (λ _. r ≡ ok tt) r
Ensures-self (ok u) h = holds refl
Ensures-self (err e) h = fails
Ensures-self panic h = absurd (Ensures-panic h refl)
