-- ===== src/Narrowing/Laws.antt =====
-- The narrowing checks (token-predicates.ts) against a plain statement of the delegation rules.
use mathlib.Core.Path.{fun_ext}
use wire_mesh.Prelude.{
  if◌then◌else◌, leb, if◌then◌else◌, leb, ℕ, ◌<◌, ◌≤◌, ◌≡◌, refl, true, not, Option, none, some,
  Bytes, ◌↔◌, arith, text_eq, text_eq_iff,
}
use wire_mesh.Scope.{bytes_equal, scope_narrows}
use wire_mesh.Scope.Order.{bytes_equal_iff}
use wire_mesh.Claims.{TokenClaims, NarrowingCandidate}
use wire_mesh.Trilean.{
  null, boolean_found, Trilean, IsKleene, first, is_unsatisfied, delegate_is_true,
}
use wire_mesh.Narrowing.{
  NarrowingSystem, bearer_is, expires_at, scope_narrowing, capability_is, depth_remaining,
  system_name, narrowing_systems, narrowing_system?, narrowing_check, narrowing_handler,
  resolve_narrowing, evaluate_narrowing, TokenPredicateContext, depth_narrows,
}

narrowing_system?-system_name : (s : NarrowingSystem) → narrowing_system? (system_name s) ≡ some s
unfolding narrowing_system? system_name text_eq
narrowing_system?-system_name bearer_is = refl
narrowing_system?-system_name expires_at = refl
narrowing_system?-system_name scope_narrowing = refl
narrowing_system?-system_name capability_is = refl
narrowing_system?-system_name depth_remaining = refl

-- What a bound on further delegations asks of the child.
abbrev pub DepthNarrows : Option ℕ → Option ℕ → Type 0
DepthNarrows none child = Unit {0}
DepthNarrows (some r) none = ⊥
DepthNarrows (some r) (some c) = c < r

-- The delegation rules of spec/tokens.cddl, for a parent's claims and a child's fields.
pub record Narrows (p : TokenClaims) (issuer : Bytes) (c : NarrowingCandidate) : Type 0 where
  pub bearer : p.bearer ≡ issuer
  pub expires : c.expires ≤ p.expires
  pub scope : scope_narrows p.scope c.scope ≡ true
  pub capability : p.capability ≡ c.capability
  pub depth : DepthNarrows p.delegations_remaining c.delegations_remaining

pub depth_narrows_iff : (r c : Option ℕ) → (depth_narrows r c ≡ true) ↔ DepthNarrows r c
depth_narrows_iff none c = ground arith
depth_narrows_iff (some r) none = ground arith
depth_narrows_iff (some r) (some c) = ground arith

module _ (t : Trilean) (k : IsKleene t) (p : TokenClaims) (issuer : Bytes)
    (c : NarrowingCandidate) where
  abbrev context : TokenPredicateContext
  context = record { child_issuer = issuer; candidate = c; parent_claims = some p }

  resolve_narrowing-system_name :
      (s : NarrowingSystem)
      → resolve_narrowing context (system_name s) null
        ≡ boolean_found (narrowing_check s p issuer c)
  unfolding resolve_narrowing narrowing_handler
  resolve_narrowing-system_name s = rw (narrowing_system?-system_name s)

  is_unsatisfied_system :
      (s : NarrowingSystem)
      → is_unsatisfied
          (t.evaluate (delegate_is_true t (system_name s) null) (resolve_narrowing context))
        ≡ not (narrowing_check s p issuer c)
  unfolding delegate_is_true
  is_unsatisfied_system s =
      rw
        (k.compare_found (system_name s) null (resolve_narrowing context)
          (narrowing_check s p issuer c) true (resolve_narrowing-system_name s))
        (ground arith)

  first_failing :
      evaluate_narrowing t p issuer c
      ≡ first (λ s. not (narrowing_check s p issuer c)) narrowing_systems
  unfolding evaluate_narrowing
  first_failing = rw (fun_ext is_unsatisfied_system)

  -- The evaluator's answer is that of five plain tests in the historical order: the first system
  -- that fails, or none.
  pub evaluate_narrowing_lem : evaluate_narrowing t p issuer c ≡ (
      if not (bytes_equal p.bearer issuer)
      then some bearer_is
      else if not (leb c.expires p.expires)
      then some expires_at
      else if not (scope_narrows p.scope c.scope)
      then some scope_narrowing
      else if not (text_eq p.capability c.capability)
      then some capability_is
      else if not (depth_narrows p.delegations_remaining c.delegations_remaining)
      then some depth_remaining
      else none)
  unfolding first narrowing_check
  evaluate_narrowing_lem = first_failing

  -- No system fails exactly when the child narrows the parent.
  pub evaluate_narrowing_iff : (evaluate_narrowing t p issuer c ≡ none) ↔ Narrows p issuer c
  evaluate_narrowing_iff = rw evaluate_narrowing_lem (
    λ h. record {
      bearer = ground (arith, bytes_equal_iff p.bearer issuer);
      expires = ground arith;
      scope = ground arith;
      capability = ground (arith, text_eq_iff p.capability c.capability);
      depth = ground (arith, depth_narrows_iff p.delegations_remaining c.delegations_remaining);
    },
    λ n. ground (
      arith,
      n.bearer,
      n.expires,
      n.scope,
      n.capability,
      n.depth,
      bytes_equal_iff p.bearer issuer,
      text_eq_iff p.capability c.capability,
      depth_narrows_iff p.delegations_remaining c.delegations_remaining,
    ),
  )
