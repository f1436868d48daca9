-- ===== src/Prelude/Maps.antt =====
-- A `Map` of the program: its entries in order of insertion, compared by a Boolean test.
use mathlib.Core.Path.{◌≡◌, refl, sym, subst}
use mathlib.Core.Logic.{◌↔◌, inl, inr}
use mathlib.Core.Bool.{Bool, true}
use mathlib.Core.List.{List, [], ◌∷◌}
use mathlib.Core.Option.{Option, none, some}
use native.Mathlib.Omega.{arith}
use wire_mesh.Prelude.Lists.{All}
use wire_mesh.Prelude.Tests.{if◌then◌else◌, Bool-cases}

module _ {K V : Type 0} (eq : K → K → Bool) where
  unfoldable pub lookup : K → List (K × V) → Option V
  lookup k [] = none
  lookup k ((j, v) ∷ m) = if eq j k then some v else lookup k m

  unfoldable pub insert : K → V → List (K × V) → List (K × V)
  insert k v [] = (k, v) ∷ []
  insert k v ((j, w) ∷ m) = let rest = (j, w) ∷ insert k v m in if eq j k then (j, v) ∷ m else rest

  unfoldable pub erase : K → List (K × V) → List (K × V)
  erase k [] = []
  erase k ((j, v) ∷ m) = let rest = erase k m in if eq j k then rest else (j, v) ∷ rest

  module _ (eq_iff : (a b : K) → (eq a b ≡ true) ↔ (a ≡ b)) where
    pub lookup-insert :
        (j k : K) (v : V) (m : List (K × V))
        → lookup j (insert k v m) ≡ (if eq k j then some v else lookup j m)
    unfolding lookup insert
    lookup-insert j k v [] = refl
    lookup-insert j k v ((i, w) ∷ m) =
        ground (arith, eq_iff i k, eq_iff i j, eq_iff k j, lookup-insert j k v m)

    pub lookup-erase :
        (j k : K) (m : List (K × V)) → lookup j (erase k m) ≡ (if eq k j then none else lookup j m)
    unfolding lookup erase
    lookup-erase j k [] = ground arith
    lookup-erase j k ((i, w) ∷ m) =
        ground (arith, eq_iff i k, eq_iff i j, eq_iff k j, lookup-erase j k m)

    module _ (P : K × V → Type 0) where
      pub All-insert :
          (k : K) (v : V) (m : List (K × V)) → P (k, v) → All P m → All P (insert k v m)
      unfolding insert
      All-insert k v [] p h = (p, tt)
      All-insert k v ((j, w) ∷ m) p h = elim (Bool-cases (eq j k)) [
        | inl hit ↦ rw hit (subst (λ i. P (i, v)) (sym ((eq_iff j k).0 hit)) p, h.1)
        | inr miss ↦ rw miss (h.0, All-insert k v m p h.1)
      ]

      pub All-erase : (k : K) (m : List (K × V)) → All P m → All P (erase k m)
      unfolding erase
      All-erase k [] h = h
      All-erase k ((j, w) ∷ m) h = elim (Bool-cases (eq j k)) [
        | inl hit ↦ rw hit (All-erase k m h.1)
        | inr miss ↦ rw miss (h.0, All-erase k m h.1)
      ]

      pub All-lookup : (k : K) (v : V) (m : List (K × V)) → lookup k m ≡ some v → All P m → P (k, v)
      unfolding lookup
      All-lookup k v [] e h = ground arith
      All-lookup k v ((j, w) ∷ m) e h = elim (Bool-cases (eq j k)) [
        | inl hit ↦
            let same : w ≡ v = ground (arith, hit) in
            subst (λ i. P (i, v)) ((eq_iff j k).0 hit) (subst (λ u. P (j, u)) same h.0)
        | inr miss ↦ All-lookup k v m (rw miss at e) h.1
      ]
