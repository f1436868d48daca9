-- ===== src/Token/Divergence.antt =====
-- A view for which `verifyCapabilityToken` (tokens.ts) comes to no verdict.
use wire_mesh.Scope.{bytes_equal}
use wire_mesh.Claims.{RevocationClaims, TokenClaims, CapabilityToken}
use wire_mesh.Token.Verify.{
  verify_step, verify_token_chain, verify_capability_token, revocation_entry_grants_revoke,
  check_revoked, first_async,
}
use wire_mesh.Token.{Walk, authenticate, Verifier}
use wire_mesh.Trilean.{Trilean}
use wire_mesh.Prelude.{
  ℕ, zero, suc, ◌≡◌, refl, Bool, false, List, [], ◌∷◌, Option, none, some, Bytes, arith, ok,
}

module _ {t : Trilean} (v : Verifier t) where
  -- A token whose view holds, first under its id, another device's revocation that cites the token
  -- itself as its authorization.
  pub record IsSelfCited (token : CapabilityToken) : Type 0 where
    pub payload : Bytes
    pub claims : TokenClaims
    pub entry : RevocationClaims
    pub others : List RevocationClaims
    pub citation : Bytes
    pub attached : token.payload ≡ some payload
    pub authentic : authenticate v token payload 0 [] ≡ some (ok claims)
    pub recorded : v.entries_for claims.token_id ≡ entry ∷ others
    pub foreign : bytes_equal entry.issuer claims.issuer ≡ false
    pub cites : entry.authorization ≡ some citation
    pub cited : v.decode_token citation ≡ some token

  entry_diverges :
      (walk : Walk) (token : CapabilityToken) (s : IsSelfCited token)
      → walk token none 0 [] ≡ none
      → revocation_entry_grants_revoke v walk s.entry s.claims ≡ none
  unfolding revocation_entry_grants_revoke
  entry_diverges walk token s h = ground (arith, s.foreign, s.cites, s.cited)

  first_async_diverges {ℓ} :
      {A : Type ℓ} (p : A → Option Bool) (x : A) (xs : List A)
      → p x ≡ none
      → first_async p (x ∷ xs) ≡ none
  unfolding first_async
  first_async_diverges p x xs h = ground arith

  revocation_diverges :
      (walk : Walk) (token : CapabilityToken) (s : IsSelfCited token)
      → walk token none 0 [] ≡ none
      → check_revoked v walk s.claims ≡ none
  unfolding check_revoked
  revocation_diverges walk token s h = rw (
    s.recorded,
    first_async_diverges (λ e. revocation_entry_grants_revoke v walk e s.claims) s.entry s.others
        (entry_diverges walk token s h),
  )

  step_diverges :
      (walk : Walk) (token : CapabilityToken)
      → IsSelfCited token
      → walk token none 0 [] ≡ none
      → verify_step v walk token none 0 [] ≡ none
  unfolding verify_step
  step_diverges walk token s h = simp (s.attached, s.authentic, revocation_diverges walk token s h)

  chain_diverges :
      (token : CapabilityToken) (fuel : ℕ)
      → IsSelfCited token
      → verify_token_chain v fuel token none 0 [] ≡ none
  unfolding verify_token_chain
  chain_diverges token zero s = refl
  chain_diverges token (suc fuel) s =
      step_diverges (verify_token_chain v fuel) token s (chain_diverges token fuel s)

  -- No amount of fuel gives a verdict on such a token.
  pub verify_capability_token_diverges :
      (token : CapabilityToken)
      → IsSelfCited token
      → (fuel : ℕ) (expected : Option Bytes) → verify_capability_token v fuel token expected ≡ none
  unfolding verify_capability_token
  verify_capability_token_diverges token s fuel expected = rw (chain_diverges token fuel s)
