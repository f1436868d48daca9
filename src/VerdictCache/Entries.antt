-- ===== src/VerdictCache/Entries.antt =====
-- The entries of verdict-cache.ts: their cost, their keys, and what each operation makes of them.
use wire_mesh.Prelude.{
  ℕ, ◌+◌, ◌≡◌, inl, inr, refl, List, [], ◌∷◌, ◌++◌, none, some, Text, text_eq, text_eq_iff,
  if◌then◌else◌, All, arith, Bool-cases, map, subst,
}
use wire_mesh.VerdictCache.{Entry, entry_at, without, with_entry, cost_of, bytes_key}

abbrev pub Entries : Type 0
Entries = List (Text × Entry)

abbrev pub total_cost : Entries → ℕ
total_cost [] = 0
total_cost ((k, e) ∷ entries) = e.cost + total_cost entries

abbrev pub keys_of : Entries → List Text
keys_of entries = map (λ (e : Text × Entry). e.0) entries

-- No key stands twice.
abbrev pub IsDistinct : Entries → Type 0
IsDistinct [] = Unit
IsDistinct ((k, e) ∷ entries) = (entry_at entries k ≡ none) × IsDistinct entries

-- An entry stands under the key of the bytes that its computation is about, at their cost.
abbrev pub IsKeyed : Text × Entry → Type 0
IsKeyed (k, e) = (k ≡ bytes_key e.settled.parts) × (e.cost ≡ cost_of e.settled.parts)

pub entry_at-without :
    (entries : Entries) (k j : Text)
    → entry_at (without entries k) j ≡ (if text_eq k j then none else entry_at entries j)
unfolding entry_at without
entry_at-without [] k j = ground arith
entry_at-without ((i, e) ∷ entries) k j =
    ground (arith, text_eq_iff i k, text_eq_iff i j, text_eq_iff k j, entry_at-without entries k j)

pub without_absent :
    (entries : Entries) (k : Text) → entry_at entries k ≡ none → without entries k ≡ entries
unfolding entry_at without
without_absent [] k h = refl
without_absent ((i, e) ∷ entries) k h = ground (arith, without_absent entries k)

pub with_entry_absent :
    (entries : Entries) (k : Text) (e : Entry)
    → entry_at entries k ≡ none
    → with_entry entries k e ≡ entries ++ (k, e) ∷ []
unfolding entry_at with_entry
with_entry_absent [] k e h = refl
with_entry_absent ((i, f) ∷ entries) k e h = ground (arith, with_entry_absent entries k e)

pub entry_at-append :
    (entries : Entries) (k j : Text) (e : Entry)
    → entry_at (entries ++ (k, e) ∷ []) j
      ≡ elim (entry_at entries j) [ some f ↦ some f | none ↦ if text_eq k j then some e else none ]
unfolding entry_at
entry_at-append [] k j e = refl
entry_at-append ((i, f) ∷ entries) k j e = ground (arith, entry_at-append entries k j e)

pub without-IsDistinct :
    (entries : Entries) (k : Text) → IsDistinct entries → IsDistinct (without entries k)
unfolding without
without-IsDistinct [] k h = tt
without-IsDistinct ((i, e) ∷ entries) k (fresh, h) = elim (Bool-cases (text_eq i k)) [
  | inl same ↦ rw same (without-IsDistinct entries k h)
  | inr other ↦
      rw other (ground (arith, fresh, entry_at-without entries k i), without-IsDistinct entries k h)
]

pub append-IsDistinct :
    (entries : Entries) (k : Text) (e : Entry)
    → entry_at entries k ≡ none
    → IsDistinct entries
    → IsDistinct (entries ++ (k, e) ∷ [])
unfolding entry_at
append-IsDistinct [] k e absent h = (refl, tt)
append-IsDistinct ((i, f) ∷ entries) k e absent (fresh, h) = (
  ground (arith, fresh, entry_at-append entries k i e, text_eq_iff i k, text_eq_iff k i),
  append-IsDistinct entries k e (ground arith) h,
)

pub total_cost-without :
    (entries : Entries) (k : Text) (e : Entry)
    → IsDistinct entries
    → entry_at entries k ≡ some e
    → total_cost (without entries k) + e.cost ≡ total_cost entries
unfolding entry_at without
total_cost-without [] k e d h = cc
total_cost-without ((i, f) ∷ entries) k e (fresh, d) h = elim (Bool-cases (text_eq i k)) [
  | inl same ↦ ground (arith, text_eq_iff i k, without_absent entries k)
  | inr other ↦ ground (arith, total_cost-without entries k e d)
]

pub total_cost-append :
    (entries : Entries) (k : Text) (e : Entry)
    → total_cost (entries ++ (k, e) ∷ []) ≡ total_cost entries + e.cost
total_cost-append [] k e = omega arith
total_cost-append ((i, f) ∷ entries) k e = omega (arith, total_cost-append entries k e)

pub All-without {κ} :
    (P : Text × Entry → Type κ) (entries : Entries) (k : Text)
    → All P entries
    → All P (without entries k)
unfolding without
All-without P [] k h = h
All-without P ((i, e) ∷ entries) k (h, hs) = elim (Bool-cases (text_eq i k)) [
  | inl same ↦ rw same (All-without P entries k hs)
  | inr other ↦ rw other (h, All-without P entries k hs)
]

pub entry_at-All {κ} :
    (P : Text × Entry → Type κ) (entries : Entries) (k : Text) (e : Entry)
    → entry_at entries k ≡ some e
    → All P entries
    → P (k, e)
unfolding entry_at
entry_at-All P [] k e h hs = cc
entry_at-All P ((i, f) ∷ entries) k e h (p, hs) = elim (Bool-cases (text_eq i k)) [
  | inl same ↦
      let at : i ≡ k = (text_eq_iff i k).0 same in
      let held : f ≡ e = ground arith in subst P (λ t. (at t, held t)) p
  | inr other ↦ entry_at-All P entries k e (ground arith) hs
]

pub All-suffix {ℓ κ} : {A : Type ℓ} (P : A → Type κ) (xs ys : List A) → All P (xs ++ ys) → All P ys
All-suffix P [] ys h = h
All-suffix P (x ∷ xs) ys h = All-suffix P xs ys h.1

pub suffix-IsDistinct : (xs ys : Entries) → IsDistinct (xs ++ ys) → IsDistinct ys
suffix-IsDistinct [] ys h = h
suffix-IsDistinct ((k, e) ∷ xs) ys h = suffix-IsDistinct xs ys h.1
