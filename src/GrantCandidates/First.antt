-- ===== src/GrantCandidates/First.antt =====
-- The candidate that grant-candidates.ts finds is the first that qualifies.
use wire_mesh.Prelude.{
  ℕ, zero, suc, ◌≡◌, ◌≢◌, ◌↔◌, inl, inr, refl, ap, ◌∙◌, Bool, true, false, List, [], ◌∷◌, ◌++◌,
  Option, none, some, Bytes, Text, text_eq_iff, any, All, arith, Bool-cases, Option-cases,
}
use wire_mesh.Scope.{CapabilityScope, scope_narrows}
use wire_mesh.GrantCandidates.{
  GrantCandidate, DirectoryEntry, is_spent, qualifies, offers, find_grant_candidate,
}

any-eq-true {ℓ} :
    {A : Type ℓ} (p : A → Bool) (l : List A)
    → any p l ≡ true
    → (before : List A) × (a : A) × (after : List A) × (l ≡ before ++ a ∷ after) × (p a ≡ true)
any-eq-true p [] h = ground arith
any-eq-true p (x ∷ l) h = elim (Bool-cases (p x)) [
  | inl hit ↦ ([], x, l, refl, hit)
  | inr miss ↦
      let (before, a, after, e, q) = any-eq-true p l (ground (arith, miss)) in
      (x ∷ before, a, after, ap (◌∷◌ x) e, q)
]

-- What a candidate must be to be asked.
abbrev Qualifies : Text → CapabilityScope → GrantCandidate → Type 0
Qualifies capability scope c =
    (c.capability ≡ capability)
    × (c.delegations_remaining ≢ some 0)
    × (scope_narrows c.scope scope ≡ true)

is_spent_iff : (o : Option ℕ) → (is_spent o ≡ false) ↔ (o ≢ some 0)
is_spent_iff none = ground arith
is_spent_iff (some zero) = ground arith
is_spent_iff (some (suc n)) = ground arith

qualifies_iff :
    (capability : Text) (scope : CapabilityScope) (c : GrantCandidate)
    → (qualifies capability scope c ≡ true) ↔ Qualifies capability scope c
unfolding qualifies
qualifies_iff capability scope c =
    ground (arith, text_eq_iff c.capability capability, is_spent_iff c.delegations_remaining)

module _ (capability : Text) (scope : CapabilityScope) {V : Type 0}
    (safe_parse : V → Option (List GrantCandidate)) where
  -- The advert of the entry holds a list that the schema takes, with such a candidate in it.
  abbrev Offers : DirectoryEntry V → Type 0
  Offers entry =
      (raw : V) × (before : List GrantCandidate) × (c : GrantCandidate) × (after : List
        GrantCandidate)
      × (entry.raw ≡ some raw)
      × (safe_parse raw ≡ some (before ++ c ∷ after))
      × Qualifies capability scope c

  Offers-of_offers :
      (entry : DirectoryEntry V) → offers capability scope safe_parse entry ≡ true → Offers entry
  unfolding offers
  Offers-of_offers entry h = elim (Option-cases entry.raw) [
    | inl none_given ↦ absurd (ground (arith, none_given))
    | inr (raw, given) ↦ elim (Option-cases (safe_parse raw)) [
      | inl refused ↦ absurd (ground (arith, given, refused))
      | inr (l, taken) ↦
          let (before, c, after, e, q) =
            any-eq-true (qualifies capability scope) l (rw (given, taken) at h) in
          (raw, before, c, after, given, taken ∙ ap some e, (qualifies_iff capability scope c).0 q)
    ]
  ]

  any-middle :
      (before : List GrantCandidate) (c : GrantCandidate) (after : List GrantCandidate)
      → qualifies capability scope c ≡ true
      → any (qualifies capability scope) (before ++ c ∷ after) ≡ true
  any-middle [] c after h = ground arith
  any-middle (x ∷ before) c after h = ground (arith, any-middle before c after h)

  offers-of_Offers :
      (entry : DirectoryEntry V) → Offers entry → offers capability scope safe_parse entry ≡ true
  unfolding offers
  offers-of_Offers entry (raw, before, c, after, given, taken, q) =
      rw (given, taken) (any-middle before c after ((qualifies_iff capability scope c).1 q))

  abbrev IsFirst : List (DirectoryEntry V) → Option Bytes → Type 0
  IsFirst directory none = All (λ e. ¬ Offers e) directory
  IsFirst directory (some device) =
      (before : List (DirectoryEntry V)) × (entry : DirectoryEntry V) × (after : List
        (DirectoryEntry V))
      × (directory ≡ before ++ entry ∷ after)
      × (entry.device ≡ device)
      × Offers entry
      × All (λ e. ¬ Offers e) before

  IsFirst-cons :
      (entry : DirectoryEntry V) (directory : List (DirectoryEntry V)) (found : Option Bytes)
      → ¬ Offers entry
      → IsFirst directory found
      → IsFirst (entry ∷ directory) found
  IsFirst-cons entry directory none n h = (n, h)
  IsFirst-cons entry directory (some device) n (before, e, after, split, same, o, others) =
      (entry ∷ before, e, after, ap (◌∷◌ entry) split, same, o, (n, others))

  -- The device found is that of the first entry that offers such a grant, and none is found exactly
  -- when no entry does.
  find_grant_candidate-IsFirst :
      (directory : List (DirectoryEntry V))
      → IsFirst directory (find_grant_candidate capability scope safe_parse directory)
  unfolding find_grant_candidate
  find_grant_candidate-IsFirst [] = tt
  find_grant_candidate-IsFirst (entry ∷ directory) =
      elim (Bool-cases (offers capability scope safe_parse entry)) [
        | inl hit ↦ rw hit ([], entry, directory, refl, refl, Offers-of_offers entry hit, tt)
        | inr miss ↦ rw miss (
            IsFirst-cons entry directory
              (find_grant_candidate capability scope safe_parse directory)
              (λ o. ground (arith, miss, offers-of_Offers entry o))
              (find_grant_candidate-IsFirst directory))
      ]
