-- ===== src/Tests/Elections.antt =====
-- Elections (coordinator-election.ts) between two peers.
use wire_mesh.Election.Agreement.{evaluate_agree, SameHolder}
use wire_mesh.Prelude.{ℕ, ◌≡◌, refl, [], ◌∷◌, none, some}
use wire_mesh.Election.{CoordinatorClaim, CoordinatorElection, evaluate, is_supersedable_term}

abbrev claim_by : ℕ → ℕ → CoordinatorClaim
claim_by term device = record { term = term; coordinator = device ∷ []; capacity_hint = none }

abbrev holder : ℕ → ℕ → CoordinatorElection
holder term device = record { own_device = device ∷ []; incumbent = some (claim_by term device) }

-- Both claim term 4: the lower device id takes the role on both sides.
evaluate_agree_example :
    (c d : CoordinatorClaim) × ((evaluate (holder 4 9) (claim_by 4 2)).0.incumbent ≡ some c)
    × ((evaluate (holder 4 2) (claim_by 4 9)).0.incumbent ≡ some d)
    × SameHolder c d
unfolding is_supersedable_term
evaluate_agree_example =
    evaluate_agree (holder 4 9) (holder 4 2) (claim_by 4 9) (claim_by 4 2) refl refl refl refl
