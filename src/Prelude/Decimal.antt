-- ===== src/Prelude/Decimal.antt =====
-- What `String` makes of a natural number, and what `Number` makes of such a text.
use Prim.Native.Nat.{ℕ, zero, suc, ◌+◌, ◌-◌, ◌*◌, ◌/◌, ◌%◌, ◌<◌}
use mathlib.Core.Path.{◌≡◌, refl, ap, ◌∙◌}
use mathlib.Core.Logic.{◌≢◌, inl, inr}
use mathlib.Core.Bool.{◌&&◌}
use mathlib.Core.List.{[], ◌∷◌, ◌++◌}
use mathlib.Core.Option.{Option, none, some}
use native.Mathlib.Omega.{arith}
use wire_mesh.Prelude.Lists.{All, All-append}
use wire_mesh.Prelude.Tests.{ltb, leb, if◌then◌else◌, Bool-cases}
use wire_mesh.Prelude.Texts.{Text}

-- The digits of a number below the fuel.
unfoldable pub digits : ℕ → ℕ → Text
digits zero n = []
digits (suc fuel) n =
    let rest = digits fuel (n / 10) ++ (b'0' + n % 10) ∷ [] in
    if ltb n 10 then (b'0' + n) ∷ [] else rest

unfoldable pub decimal : ℕ → Text
decimal n = digits (n + 1) n

unfoldable pub digits_value : ℕ → Text → Option ℕ
digits_value n [] = some n
digits_value n (c ∷ s) =
    if leb b'0' c && leb c b'9' then digits_value (n * 10 + (c - b'0')) s else none

-- `none` on a text that no `String` of a natural number gives.
unfoldable pub number : Text → Option ℕ
number [] = none
number (c ∷ s) = digits_value 0 (c ∷ s)

digits_value-append :
    (m d : ℕ) (s : Text) {n : ℕ}
    → d < 10
    → digits_value m s ≡ some n
    → digits_value m (s ++ (b'0' + d) ∷ []) ≡ some (n * 10 + d)
unfolding digits_value
digits_value-append m d [] {n} h e = ground arith
digits_value-append m d (c ∷ s) {n} h e =
    ground (arith, digits_value-append (m * 10 + (c - b'0')) d s {n = n})

digits_value-digits : (fuel n : ℕ) → n < fuel → digits_value 0 (digits fuel n) ≡ some n
unfolding digits
digits_value-digits zero n h = absurd (omega arith)
digits_value-digits (suc fuel) n h = elim (Bool-cases (ltb n 10)) [
  | inl small ↦ rw small (unfold digits_value in ground arith)
  | inr large ↦ rw large (
      digits_value-append 0 (n % 10) (digits fuel (n / 10)) (omega arith)
        (digits_value-digits fuel (n / 10) (ground arith))
      ∙ ap some (omega arith))
]

number-of_value : (s : Text) → s ≢ [] → number s ≡ digits_value 0 s
unfolding number
number-of_value [] h = absurd (h refl)
number-of_value (c ∷ s) h = refl

append-ne-nil : (s : Text) (c : ℕ) → s ++ c ∷ [] ≢ []
append-ne-nil [] c h = cc
append-ne-nil (d ∷ s) c h = cc

digits-ne-nil : (fuel n : ℕ) → digits (suc fuel) n ≢ []
unfolding digits
digits-ne-nil fuel n = ground (arith, append-ne-nil (digits fuel (n / 10)) (b'0' + n % 10))

add-one : (n : ℕ) → n + 1 ≡ suc n
add-one n = omega arith

pub number-decimal : (n : ℕ) → number (decimal n) ≡ some n
unfolding decimal
number-decimal n =
    rw (add-one n)
      (number-of_value _ (digits-ne-nil n n) ∙ digits_value-digits (suc n) n (omega arith))

pub decimal-injective : {n m : ℕ} → decimal n ≡ decimal m → n ≡ m
decimal-injective {n} {m} h = ground (arith, number-decimal n, number-decimal m, ap number h)

digits-below : (fuel n : ℕ) → All (λ c. c < b':') (digits fuel n)
unfolding digits
digits-below zero n = tt
digits-below (suc fuel) n = elim (Bool-cases (ltb n 10)) [
  | inl small ↦ rw small (ground arith, tt)
  | inr large ↦ rw large (
      All-append (λ c. c < b':') (digits fuel (n / 10)) _ (digits-below fuel (n / 10))
        (omega arith, tt))
]

pub decimal-below : (n : ℕ) → All (λ c. c < b':') (decimal n)
unfolding decimal
decimal-below n = digits-below (n + 1) n
