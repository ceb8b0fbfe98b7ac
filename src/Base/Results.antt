-- ===== src/Base/Results.antt =====
-- Outcomes of code that may raise; the errors are a parameter.
use mathlib.Core.Path.{◌≡◌, refl, ap}
use mathlib.Core.Bool.{Bool, true, false}
use mathlib.Core.Option.{Option, none, some}
use native.Mathlib.Omega.{arith}

pub data Result {ℓ} (E : Type 0) (A : Type ℓ) : Type ℓ where
  ok : A → Result E A
  err : E → Result E A

infix 10 ◌>>=◌
abbrev pub ◌>>=◌ {ℓ κ} :
    {E : Type 0} {A : Type ℓ} {B : Type κ} → Result E A → (A → Result E B) → Result E B
ok a >>= next = next a
err raised >>= next = err raised

abbrev pub guard : {E : Type 0} → Bool → E → Result {0} E Unit
guard true e = ok tt
guard false e = err e

abbrev pub or_raise {ℓ} : {E : Type 0} {A : Type ℓ} → E → Option A → Result E A
or_raise e none = err e
or_raise e (some a) = ok a

pub bound {ℓ κ} :
    {E : Type 0} {A : Type ℓ} {B : Type κ} (m : Result E A) (next : A → Result E B) {b : B}
    → (m >>= next) ≡ ok b
    → (a : A) × (m ≡ ok a) × (next a ≡ ok b)
bound (ok a) next h = (a, refl, h)
bound (err raised) next h = ground (arith, h)

pub guarded : {E : Type 0} (b : Bool) (e : E) {u : Unit {0}} → guard b e ≡ ok u → b ≡ true
guarded true e h = refl
guarded false e h = ground (arith, h)

abbrev pub ok_or {ℓ} : {E : Type 0} {A : Type ℓ} → A → Result E A → A
ok_or d (ok a) = a
ok_or d (err e) = d

pub ok_inj {ℓ} : {E : Type 0} {A : Type ℓ} (a b : A) → ◌≡◌ {A = Result E A} (ok a) (ok b) → a ≡ b
ok_inj a b h = ap (ok_or a) h

pub raised_none {ℓ} :
    {E : Type 0} {A : Type ℓ} (e : E) (o : Option A) (a : A) → or_raise e o ≡ ok a → o ≡ some a
raised_none e none a h = ground (arith, h)
raised_none {E = E} e (some b) a h = ap some (ok_inj {E = E} b a h)
