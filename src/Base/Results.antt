-- ===== src/Base/Results.antt =====
-- Results of fallible code, with `do` blocks.
use mathlib.Core.Option.{Option, none, some}
use mathlib.Core.Path.{◌≡◌, refl}
use mathlib.Core.Path.{◌≡◌, refl}

pub data Result {ℓ κ} (E : Type κ) (A : Type ℓ) : Type (ℓ ⊔ κ) where
  ok : A → Result E A
  err : E → Result E A

infixl 5 ◌>>=◌
abbrev pub ◌>>=◌ {ℓ κ μ} :
    {E : Type κ} {A : Type ℓ} {B : Type μ} → Result E A → (A → Result E B) → Result E B
ok a >>= f = f a
err e >>= f = err e

pub bind-eq-ok {ℓ κ μ} :
    {E : Type κ} {A : Type ℓ} {B : Type μ} (m : Result E A) (f : A → Result E B) {b : B}
    → (m >>= f) ≡ ok b
    → (a : A) × (m ≡ ok a) × (f a ≡ ok b)
bind-eq-ok (ok a) f h = (a, refl, h)
bind-eq-ok (err e) f h = cc

-- The first error of two checks.
unfoldable pub first_of {ℓ} : {E : Type ℓ} → Option E → Option E → Option E
first_of none later = later
first_of (some e) later = some e

pub first_of-none {ℓ} :
    {E : Type ℓ} (a b : Option E) → first_of a b ≡ none → (a ≡ none) × (b ≡ none)
unfolding first_of
first_of-none none b h = (refl, h)
first_of-none (some e) b h = cc
