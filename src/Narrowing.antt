-- ===== src/Narrowing.antt =====
-- ts/packages/core/src/domain/token-predicates.ts: the five checks by which a delegated token
-- narrows its parent, as delegate systems of the evaluator.
pub mod Laws
use wire_mesh.Prelude.{
  ℕ, Bool, true, false, List, [], ◌∷◌, Option, none, some, Bytes, Text, text, text_eq, leb, ltb,
  if◌then◌else◌,
}
use wire_mesh.Scope.{bytes_equal, scope_narrows}
use wire_mesh.Claims.{TokenClaims, NarrowingCandidate}
use wire_mesh.Trilean.{
  null, Resolution, not_found, found, boolean, boolean_found, Resolver, Trilean, first,
  is_unsatisfied, delegate_is_true,
}

pub data NarrowingSystem : Type 0 where
  bearer_is expires_at scope_narrowing capability_is depth_remaining : NarrowingSystem

unfoldable pub system_name : NarrowingSystem → Text
system_name bearer_is = text "bearer-is"
system_name expires_at = text "expires-at"
system_name scope_narrowing = text "scope-narrows"
system_name capability_is = text "capability-is"
system_name depth_remaining = text "depth-remaining"

abbrev pub narrowing_systems : List NarrowingSystem
narrowing_systems = bearer_is ∷ expires_at ∷ scope_narrowing ∷ capability_is ∷ depth_remaining ∷ []

-- `isNarrowingSystem`, with the system that it recognises.
unfoldable pub narrowing_system? : Text → Option NarrowingSystem
narrowing_system? s =
    if text_eq s (system_name bearer_is)
    then some bearer_is
    else if text_eq s (system_name expires_at)
    then some expires_at
    else if text_eq s (system_name scope_narrowing)
    then some scope_narrowing
    else if text_eq s (system_name capability_is)
    then some capability_is
    else if text_eq s (system_name depth_remaining)
    then some depth_remaining
    else none

pub record TokenPredicateContext : Type 0 where
  pub child_issuer : Bytes
  pub candidate : NarrowingCandidate
  pub parent_claims : Option TokenClaims

abbrev pub depth_narrows : Option ℕ → Option ℕ → Bool
depth_narrows none child = true
depth_narrows (some r) none = false
depth_narrows (some r) (some c) = ltb c r

-- One check, against a parent's claims.
unfoldable pub narrowing_check : NarrowingSystem → TokenClaims → Bytes → NarrowingCandidate → Bool
narrowing_check bearer_is p issuer c = bytes_equal p.bearer issuer
narrowing_check expires_at p issuer c = leb c.expires p.expires
narrowing_check scope_narrowing p issuer c = scope_narrows p.scope c.scope
narrowing_check capability_is p issuer c = text_eq p.capability c.capability
narrowing_check depth_remaining p issuer c =
    depth_narrows p.delegations_remaining c.delegations_remaining

abbrev narrowing_result :
    NarrowingSystem → Option TokenClaims → Bytes → NarrowingCandidate → Resolution
narrowing_result s none issuer c = boolean_found false
narrowing_result s (some p) issuer c = boolean_found (narrowing_check s p issuer c)

-- `narrowingHandlers[system]`.
unfoldable pub narrowing_handler : NarrowingSystem → TokenPredicateContext → Resolution
narrowing_handler s context =
    narrowing_result s context.parent_claims context.child_issuer context.candidate

abbrev resolve_system : Option NarrowingSystem → TokenPredicateContext → Resolution
resolve_system none context = not_found
resolve_system (some s) context = narrowing_handler s context

-- `resolveDelegate` of `evaluateNarrowing`.
unfoldable pub resolve_narrowing : TokenPredicateContext → Resolver
resolve_narrowing context system payload = resolve_system (narrowing_system? system) context

module _ (t : Trilean) where
  -- The first of the five systems that does not hold.
  unfoldable pub evaluate_narrowing :
      TokenClaims → Bytes → NarrowingCandidate → Option NarrowingSystem
  evaluate_narrowing parent issuer candidate =
      first
        (λ s. is_unsatisfied (
          t.evaluate (delegate_is_true t (system_name s) null) (
            resolve_narrowing (record {
              child_issuer = issuer;
              candidate = candidate;
              parent_claims = some parent;
            }))))
        narrowing_systems
