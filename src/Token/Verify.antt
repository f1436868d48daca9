-- ===== src/Token/Verify.antt =====
-- ts/packages/core/src/domain/tokens.ts: `verifyTokenChain`, `revocationEntryGrantsRevoke` and
-- `verifyCapabilityToken`. Each nested verification takes one unit of fuel; the program has no such
-- bound where a revocation's authorization is verified, and `none` stands for its running on.
use wire_mesh.Prelude.{
  ℕ, zero, suc, ◌+◌, Bool, true, false, not, ◌&&◌, List, [], ◌∷◌, Option, none, some, Bytes, Text,
  text_eq, leb, if◌then◌else◌, ok, err, M, ret, fail, require, or_fail, ◌>>=◌, ◌>>◌,
}
use wire_mesh.Scope.{bytes_equal, scope_narrows}
use wire_mesh.DeviceId.{bytes_to_hex}
use wire_mesh.Claims.{CapabilityToken, TokenClaims, RevocationClaims}
use wire_mesh.Trilean.{Trilean}
use wire_mesh.Narrowing.{NarrowingSystem, evaluate_narrowing, depth_narrows}
use wire_mesh.Token.{
  TokenVerdictReason, malformed, bearer_mismatch, revoked, delegation_exceeds_parent,
  parent_invalid, authorisation_invalid, chain_too_deep, chain_cycle, Accepted, Verifier, Walk,
  subject_of, candidate_of, manage_grant_capability, manage_revoke_capability, authenticate,
  check_conditions,
}

-- `firstAsync` of sequential.ts, for a predicate that may run out of fuel.
unfoldable pub first_async {ℓ} : {A : Type ℓ} → (A → Option Bool) → List A → Option (Option A)
first_async p [] = some none
first_async p (x ∷ xs) =
    let rest = first_async p xs in
    elim (p x) [ none ↦ none | some true ↦ some (some x) | some false ↦ rest ]

abbrev pub is_present {ℓ} : {A : Type ℓ} → Option A → Bool
is_present none = false
is_present (some a) = true

-- A link's failure is reported as its own, but for the two that belong to the whole chain.
abbrev pub through :
    TokenVerdictReason → M TokenVerdictReason Accepted → M TokenVerdictReason Accepted
through r none = none
through r (some (ok a)) = some (ok a)
through r (some (err chain_too_deep)) = some (err chain_too_deep)
through r (some (err chain_cycle)) = some (err chain_cycle)
through r (some (err other)) = some (err r)

-- The result of a link: this token's claims under the root of the other.
abbrev pub extend : TokenClaims → Accepted → Accepted
extend claims a = record {
  claims = claims;
  root_issuer = a.root_issuer;
  root_issuer_key = a.root_issuer_key;
  depth = a.depth + 1;
}

abbrev pub as_root : TokenClaims → Accepted
as_root claims = record {
  claims = claims;
  root_issuer = claims.issuer;
  root_issuer_key = claims.issuer_key;
  depth = 0;
}

abbrev pub check_bearer : Option Bytes → Accepted → M TokenVerdictReason Accepted
check_bearer none a = ret a
check_bearer (some b) a = if bytes_equal a.claims.bearer b then ret a else fail bearer_mismatch

abbrev pub settle_narrowing : Option NarrowingSystem → M TokenVerdictReason (Unit {0})
settle_narrowing none = ret tt
settle_narrowing (some s) = fail delegation_exceeds_parent

abbrev pub settle_revoked {ℓ} : {A : Type ℓ} → Option (Option A) → M TokenVerdictReason (Unit {0})
settle_revoked none = none
settle_revoked (some none) = ret tt
settle_revoked (some (some e)) = fail revoked

-- `grantsCapability === undefined || grantsCapability === capability`.
abbrev pub grants : Option Text → Text → Bool
grants none capability = true
grants (some g) capability = text_eq g capability

-- The obligations of the authorised-by link.
unfoldable pub authorised_link_ok : TokenClaims → TokenClaims → Bool
authorised_link_ok authoriser claims =
    bytes_equal authoriser.bearer claims.issuer
    && text_eq authoriser.capability manage_grant_capability
    && grants authoriser.grants_capability claims.capability
    && scope_narrows authoriser.scope claims.scope
    && leb claims.expires authoriser.expires
    && depth_narrows authoriser.delegations_remaining claims.delegations_remaining

-- What an authorization that verified says of the target.
abbrev pub settle_authorization : TokenClaims → M TokenVerdictReason Accepted → Option Bool
settle_authorization target none = none
settle_authorization target (some (err r)) = some false
settle_authorization target (some (ok a)) = some (
    text_eq a.claims.capability manage_revoke_capability
    && scope_narrows a.claims.scope target.scope)

-- `verifyCapabilityToken` over a walk.
abbrev pub verify_leaf : Walk → CapabilityToken → Option Bytes → M TokenVerdictReason Accepted
verify_leaf walk token expected_bearer = walk token none 0 [] >>= check_bearer expected_bearer

module _ {t : Trilean} (v : Verifier t) where
  abbrev pub authorization_grants :
      Walk → Option CapabilityToken → Bytes → TokenClaims → Option Bool
  authorization_grants walk none issuer target = some false
  authorization_grants walk (some token) issuer target =
      settle_authorization target (verify_leaf walk token (some issuer))

  abbrev pub authorization_bytes_grant : Walk → Option Bytes → Bytes → TokenClaims → Option Bool
  authorization_bytes_grant walk none issuer target = some false
  authorization_bytes_grant walk (some bytes) issuer target =
      authorization_grants walk (v.decode_token bytes) issuer target

  unfoldable pub revocation_entry_grants_revoke :
      Walk → RevocationClaims → TokenClaims → Option Bool
  revocation_entry_grants_revoke walk entry target =
      if bytes_equal entry.issuer target.issuer
      then some true
      else authorization_bytes_grant walk entry.authorization entry.issuer target

  unfoldable pub check_revoked : Walk → TokenClaims → M TokenVerdictReason (Unit {0})
  check_revoked walk claims = settle_revoked (
      first_async (λ entry. revocation_entry_grants_revoke walk entry claims)
        (v.entries_for claims.token_id))

  unfoldable pub verify_parent :
      Walk → TokenClaims → ℕ → List Text → Bytes → M TokenVerdictReason Accepted
  verify_parent walk claims depth seen bytes = do
    token ← or_fail (v.decode_token bytes) parent_invalid
    parent ← through parent_invalid (walk token none (depth + 1) seen)
    settle_narrowing (evaluate_narrowing t parent.claims claims.issuer (candidate_of claims))
    ret (extend claims parent)

  unfoldable pub verify_authoriser :
      Walk → TokenClaims → ℕ → List Text → Bytes → M TokenVerdictReason Accepted
  verify_authoriser walk claims depth seen bytes = do
    token ← or_fail (v.decode_token bytes) authorisation_invalid
    authoriser ←
        through authorisation_invalid (walk token (some (subject_of claims)) (depth + 1) seen)
    require (authorised_link_ok authoriser.claims claims) authorisation_invalid
    ret (extend claims authoriser)

  abbrev pub verify_link :
      Walk
      → TokenClaims
      → ℕ
      → List Text
      → Option Bytes
      → Option Bytes
      → M TokenVerdictReason Accepted
  verify_link walk claims depth seen (some p) (some a) = fail malformed
  verify_link walk claims depth seen (some p) none = verify_parent walk claims depth seen p
  verify_link walk claims depth seen none (some a) = verify_authoriser walk claims depth seen a
  verify_link walk claims depth seen none none = ret (as_root claims)

  -- The part of `verifyTokenChain` after the conditions.
  unfoldable pub verify_links : Walk → TokenClaims → ℕ → List Text → M TokenVerdictReason Accepted
  verify_links walk claims depth seen = do
    require (not (text_eq claims.capability manage_grant_capability && is_present claims.parent))
        authorisation_invalid
    verify_link walk claims depth seen claims.parent claims.authorised_by

  unfoldable pub verify_step : Walk → Walk
  verify_step walk token subject depth seen = do
    payload ← or_fail token.payload malformed
    claims ← authenticate v token payload depth seen
    check_revoked walk claims
    check_conditions v claims subject
    verify_links walk claims depth (bytes_to_hex payload ∷ seen)

  -- `verifyTokenChain`.
  unfoldable pub verify_token_chain : ℕ → Walk
  verify_token_chain zero = λ token subject depth seen. none
  verify_token_chain (suc fuel) = verify_step (verify_token_chain fuel)

  unfoldable pub verify_capability_token :
      ℕ → CapabilityToken → Option Bytes → M TokenVerdictReason Accepted
  verify_capability_token fuel token expected_bearer =
      verify_leaf (verify_token_chain fuel) token expected_bearer
