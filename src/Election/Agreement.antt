-- ===== src/Election/Agreement.antt =====
-- Peers that exchange their claims agree on the coordinator (coordinator-election.ts).
use wire_mesh.Prelude.{
  ℕ, ◌≤◌, ◌≡◌, inl, inr, refl, true, false, [], ◌∷◌, Option, none, some, Bytes, arith, Bool-cases,
}
use wire_mesh.Election.{
  Sign, negative, same, positive, compare_device_ids, is_supersedable_term, CoordinatorClaim,
  CoordinatorElection, next_term, claim, supersedes, evaluate, accepted,
}

abbrev flip : Sign → Sign
flip negative = positive
flip same = same
flip positive = negative

compare_device_ids-flip : (a b : Bytes) → compare_device_ids b a ≡ flip (compare_device_ids a b)
unfolding compare_device_ids
compare_device_ids-flip [] [] = refl
compare_device_ids-flip [] (y ∷ b) = refl
compare_device_ids-flip (x ∷ a) [] = refl
compare_device_ids-flip (x ∷ a) (y ∷ b) = ground (arith, compare_device_ids-flip a b)

-- Two ids compare as the same only if they are.
pub eq_of_compare_device_ids : (a b : Bytes) → compare_device_ids a b ≡ same → a ≡ b
unfolding compare_device_ids
eq_of_compare_device_ids [] [] h = refl
eq_of_compare_device_ids [] (y ∷ b) h = cc
eq_of_compare_device_ids (x ∷ a) [] h = cc
eq_of_compare_device_ids (x ∷ a) (y ∷ b) h = ground (arith, eq_of_compare_device_ids a b)

-- The part of a claim that an election is about.
abbrev pub SameHolder : CoordinatorClaim → CoordinatorClaim → Type 0
SameHolder c d = (c.term ≡ d.term) × (c.coordinator ≡ d.coordinator)

-- Of two claims that do not supersede one another the holder is the same.
SameHolder-of_neither :
    (c d : CoordinatorClaim)
    → supersedes c (some d) ≡ false
    → supersedes d (some c) ≡ false
    → SameHolder c d
unfolding supersedes
SameHolder-of_neither c d h k =
    (ground arith, eq_of_compare_device_ids c.coordinator d.coordinator same_ids)
  where
    same_ids : compare_device_ids c.coordinator d.coordinator ≡ same
    same_ids = ground (arith, compare_device_ids-flip c.coordinator d.coordinator)

supersedes_asym :
    (c d : CoordinatorClaim) → supersedes c (some d) ≡ true → supersedes d (some c) ≡ false
unfolding supersedes
supersedes_asym c d h = ground (arith, compare_device_ids-flip c.coordinator d.coordinator)

-- Two peers whose claims can be superseded, each evaluating what the other announces, end with
-- the same term and coordinator.
pub evaluate_agree :
    (e f : CoordinatorElection) (c d : CoordinatorClaim)
    → e.incumbent ≡ some c
    → f.incumbent ≡ some d
    → is_supersedable_term c.term ≡ true
    → is_supersedable_term d.term ≡ true
    → (c' d' : CoordinatorClaim) × ((evaluate e d).0.incumbent ≡ some c')
      × ((evaluate f c).0.incumbent ≡ some d')
      × SameHolder c' d'
unfolding evaluate
evaluate_agree e f c d p q s t = elim (Bool-cases (supersedes c (some d))) [
  | inl wins ↦ (c, c, ground (arith, supersedes_asym c d), ground arith, (refl, refl))
  | inr loses ↦ elim (Bool-cases (supersedes d (some c))) [
    | inl beaten ↦ (d, d, ground arith, ground arith, (refl, refl))
    | inr neither ↦ (c, d, ground arith, ground arith, SameHolder-of_neither c d loses neither)
  ]
]

-- A term never falls, whatever a peer sends.
pub evaluate_term_mono :
    (e : CoordinatorElection) (c frame : CoordinatorClaim)
    → e.incumbent ≡ some c
    → (c' : CoordinatorClaim) × ((evaluate e frame).0.incumbent ≡ some c') × (c.term ≤ c'.term)
unfolding evaluate supersedes
evaluate_term_mono e c frame p = elim (Bool-cases (is_supersedable_term frame.term)) [
  | inr bad ↦ (c, ground arith, omega arith)
  | inl good ↦ elim (Bool-cases (supersedes frame (some c))) [
    | inl wins ↦ (frame, ground arith, ground arith)
    | inr loses ↦ (c, ground arith, omega arith)
  ]
]

supersedes_of_later :
    (frame : CoordinatorClaim) (o : Option CoordinatorClaim)
    → next_term o ≤ frame.term
    → supersedes frame o ≡ true
unfolding supersedes
supersedes_of_later frame none h = refl
supersedes_of_later frame (some p) h = ground arith

claim-eq-some :
    (e e' : CoordinatorElection) (hint : Option ℕ) (frame : CoordinatorClaim)
    → claim e hint ≡ some (e', frame)
    → (frame.term ≡ next_term e.incumbent) × (is_supersedable_term frame.term ≡ true)
unfolding claim
claim-eq-some e e' hint frame h = (ground arith, ground arith)

-- A fresh claim is accepted by every peer whose incumbent is no later than the claimant's last.
pub evaluate-claim :
    (e f e' : CoordinatorElection) (hint : Option ℕ) (frame : CoordinatorClaim)
    → claim e hint ≡ some (e', frame)
    → next_term f.incumbent ≤ next_term e.incumbent
    → evaluate f frame ≡ (record f { incumbent = some frame }, accepted frame)
unfolding evaluate
evaluate-claim e f e' hint frame h le =
    let (term, good) = claim-eq-some e e' hint frame h in
    let wins : supersedes frame f.incumbent ≡ true =
      supersedes_of_later frame f.incumbent (omega arith) in
    rw (good, wins)
