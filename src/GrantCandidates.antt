-- ===== src/GrantCandidates.antt =====
-- ts/packages/core/src/domain/grant-candidates.ts: finding the device to ask for a grant. The schema
-- of the advertised value is a parameter.
pub mod First
use wire_mesh.Prelude.{
  ℕ, zero, suc, Bool, true, false, not, List, [], ◌∷◌, Option, none, some, Bytes, Text, text_eq,
  if◌then◌else◌, any,
}
use wire_mesh.Scope.{CapabilityScope, scope_narrows}

pub record GrantCandidate : Type 0 where
  pub capability : Text
  pub scope : CapabilityScope
  pub delegations_remaining : Option ℕ

-- A gossiped device with the value its advert holds under `GOSSIP_CANDIDATES_KEY`.
pub record DirectoryEntry (V : Type 0) : Type 0 where
  pub device : Bytes
  pub raw : Option V

abbrev pub is_spent : Option ℕ → Bool
is_spent none = false
is_spent (some zero) = true
is_spent (some (suc n)) = false

module _ (capability : Text) (scope : CapabilityScope) where
  -- The body of the inner loop.
  unfoldable pub qualifies : GrantCandidate → Bool
  qualifies candidate =
      if not (text_eq candidate.capability capability)
      then false
      else if is_spent candidate.delegations_remaining
      then false
      else scope_narrows candidate.scope scope

  module _ {V : Type 0} (safe_parse : V → Option (List GrantCandidate)) where
    abbrev parsed_offers : Option (List GrantCandidate) → Bool
    parsed_offers none = false
    parsed_offers (some candidates) = any qualifies candidates

    abbrev raw_offers : Option V → Bool
    raw_offers none = false
    raw_offers (some raw) = parsed_offers (safe_parse raw)

    -- Whether the body of the outer loop returns.
    unfoldable pub offers : DirectoryEntry V → Bool
    offers entry = raw_offers entry.raw

    unfoldable pub find_grant_candidate : List (DirectoryEntry V) → Option Bytes
    find_grant_candidate [] = none
    find_grant_candidate (entry ∷ directory) =
        let rest = find_grant_candidate directory in
        if offers entry then some entry.device else rest
