-- ===== src/Prelude/Results.antt =====
-- Verdicts as values, and computations that may run out of fuel.
use mathlib.Core.Path.{◌≡◌, refl}
use mathlib.Core.Bool.{Bool, true, false}
use mathlib.Core.Option.{Option, none, some}

pub data Result {ℓ κ} (E : Type ℓ) (A : Type κ) : Type (ℓ ⊔ κ) where
  ok : A → Result E A
  err : E → Result E A

-- `none` says that the fuel ran out before there was a verdict.
abbrev pub M {ℓ κ} : Type ℓ → Type κ → Type (ℓ ⊔ κ)
M E A = Option (Result E A)

infixl 5 ◌>>=◌ ◌>>◌
abbrev pub ◌>>=◌ {ℓ κ μ} : {E : Type ℓ} {A : Type κ} {B : Type μ} → M E A → (A → M E B) → M E B
none >>= f = none
some (err e) >>= f = some (err e)
some (ok a) >>= f = f a

abbrev pub ◌>>◌ {ℓ μ} : {E : Type ℓ} {B : Type μ} → M E (Unit {0}) → M E B → M E B
m >> k = m >>= λ _. k

abbrev pub ret {ℓ κ} : {E : Type ℓ} {A : Type κ} → A → M E A
ret a = some (ok a)

abbrev pub fail {ℓ κ} : {E : Type ℓ} {A : Type κ} → E → M E A
fail e = some (err e)

-- Goes on if the test holds, and otherwise returns the reason.
abbrev pub require {ℓ} : {E : Type ℓ} → Bool → E → M E (Unit {0})
require true e = some (ok tt)
require false e = some (err e)

abbrev pub or_fail {ℓ κ} : {E : Type ℓ} {A : Type κ} → Option A → E → M E A
or_fail none e = some (err e)
or_fail (some a) e = some (ok a)

-- Inversion of a successful bind.
pub >>=-eq-ok {ℓ κ μ} :
    {E : Type ℓ} {A : Type κ} {B : Type μ} (m : M E A) (f : A → M E B) {b : B}
    → (m >>= f) ≡ some (ok b)
    → (a : A) × (m ≡ some (ok a)) × (f a ≡ some (ok b))
>>=-eq-ok none f h = cc
>>=-eq-ok (some (err e)) f h = cc
>>=-eq-ok (some (ok a)) f h = (a, refl, h)

pub require-eq-ok {ℓ} :
    {E : Type ℓ} (b : Bool) (e : E) {u : Unit {0}} → require b e ≡ some (ok u) → b ≡ true
require-eq-ok true e h = refl
require-eq-ok false e h = cc

pub or_fail-eq-ok {ℓ κ} :
    {E : Type ℓ} {A : Type κ} (o : Option A) (e : E) {a : A}
    → or_fail o e ≡ some (ok a)
    → o ≡ some a
or_fail-eq-ok none e h = cc
or_fail-eq-ok (some b) e h = cc
