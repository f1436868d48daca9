-- ===== src/Token/Termination.antt =====
-- When `verifyCapabilityToken` (tokens.ts) comes to a verdict.
use wire_mesh.Narrowing.{evaluate_narrowing}
use wire_mesh.Token.Soundness.{authenticate-eq-ok}
use wire_mesh.DeviceId.{bytes_to_hex}
use wire_mesh.Claims.{RevocationClaims, GrantSubject, TokenClaims, CapabilityToken}
use wire_mesh.Token.Verify.{
  verify_leaf, check_bearer, extend, authorised_link_ok, settle_narrowing, verify_links,
  verify_parent, verify_link, verify_authoriser, verify_step, verify_token_chain, through,
  verify_capability_token, revocation_entry_grants_revoke, check_revoked, first_async,
}
use wire_mesh.Token.{
  candidate_of, subject_of, authorisation_invalid, parent_invalid, check_times, Walk,
  check_conditions, authenticate, Verifier, Accepted, TokenVerdictReason,
}
use wire_mesh.Trilean.{Trilean}
use wire_mesh.Prelude.{
  ℕ, zero, suc, ◌+◌, ◌<◌, ◌≡◌, ◌≢◌, inl, inr, refl, Bool, List, [], ◌∷◌, Option, none, some, Bytes,
  Text, All, arith, Result, ok, err, M, ret, require, ◌>>=◌, ◌>>◌, Option-cases,
}

>>=-ne-none {ℓ κ μ} :
    {E : Type ℓ} {A : Type κ} {B : Type μ} (m : M E A) (f : A → M E B)
    → m ≢ none
    → ((a : A) → m ≡ some (ok a) → f a ≢ none)
    → (m >>= f) ≢ none
>>=-ne-none none f h g = absurd (h refl)
>>=-ne-none (some (err e)) f h g = cc
>>=-ne-none (some (ok a)) f h g = g a refl

through-ne-none :
    (r : TokenVerdictReason) (m : M TokenVerdictReason Accepted) → m ≢ none → through r m ≢ none
through-ne-none r none h = absurd (h refl)
through-ne-none r (some (ok a)) h = cc
through-ne-none r (some (err e)) h = ground arith

first_async-ne-none {ℓ} :
    {A : Type ℓ} (p : A → Option Bool) (xs : List A)
    → All (λ x. p x ≢ none) xs
    → first_async p xs ≢ none
unfolding first_async
first_async-ne-none p [] h = cc
first_async-ne-none p (x ∷ xs) (h, hs) = ground (arith, h, first_async-ne-none p xs hs)

module _ {t : Trilean} (v : Verifier t) where
  -- The view holds revocations by issuers only, none on another's authority.
  abbrev pub HasNoAuthorizations : Type 0
  HasNoAuthorizations = (id : Bytes) → All (λ e. e.authorization ≡ none) (v.entries_for id)

  authenticate-ne-none :
      (token : CapabilityToken) (payload : Bytes) (depth : ℕ) (seen : List Text)
      → authenticate v token payload depth seen ≢ none
  unfolding authenticate check_times
  authenticate-ne-none token payload depth seen h = ground arith

  check_conditions-ne-none :
      (c : TokenClaims) (subject : Option GrantSubject) → check_conditions v c subject ≢ none
  unfolding check_conditions
  check_conditions-ne-none c subject h = ground arith

  entries_decide :
      (walk : Walk) (c : TokenClaims) (es : List RevocationClaims)
      → All (λ e. e.authorization ≡ none) es
      → All (λ e. revocation_entry_grants_revoke v walk e c ≢ none) es
  unfolding revocation_entry_grants_revoke
  entries_decide walk c [] h = tt
  entries_decide walk c (e ∷ es) (h, hs) = ((λ g. ground arith), entries_decide walk c es hs)

  check_revoked-ne-none :
      HasNoAuthorizations → (walk : Walk) (c : TokenClaims) → check_revoked v walk c ≢ none
  unfolding check_revoked
  check_revoked-ne-none n walk c h =
      first_async-ne-none (λ e. revocation_entry_grants_revoke v walk e c)
        (v.entries_for c.token_id) (entries_decide walk c (v.entries_for c.token_id) (n c.token_id))
        (ground arith)

  module _ (walk : Walk) (c : TokenClaims) (depth : ℕ) (seen : List Text)
      (settles : (token : CapabilityToken) (subject : Option GrantSubject)
        → walk token subject (depth + 1) seen ≢ none) where
    verify_parent-ne-none : (bytes : Bytes) → verify_parent v walk c depth seen bytes ≢ none
    unfolding verify_parent
    verify_parent-ne-none bytes = elim (Option-cases (v.decode_token bytes)) [
      | inl bad ↦ rw (bad, verify_parent) (λ h. cc)
      | inr (above, e) ↦
          rw (e, verify_parent)
            (>>=-ne-none (through parent_invalid (walk above none (depth + 1) seen))
              (λ p.
                settle_narrowing (evaluate_narrowing t p.claims c.issuer (candidate_of c))
                >> ret (extend c p))
              (through-ne-none parent_invalid (walk above none (depth + 1) seen)
                (settles above none))
              (λ p _ h. ground arith))
    ]

    verify_authoriser-ne-none : (bytes : Bytes) → verify_authoriser v walk c depth seen bytes ≢ none
    unfolding verify_authoriser
    verify_authoriser-ne-none bytes = elim (Option-cases (v.decode_token bytes)) [
      | inl bad ↦ rw (bad, verify_authoriser) (λ h. cc)
      | inr (above, e) ↦
          rw (e, verify_authoriser)
            (>>=-ne-none
              (through authorisation_invalid (walk above (some (subject_of c)) (depth + 1) seen))
              (λ p.
                require (authorised_link_ok p.claims c) authorisation_invalid >> ret (extend c p))
              (through-ne-none authorisation_invalid
                (walk above (some (subject_of c)) (depth + 1) seen)
                (settles above (some (subject_of c))))
              (λ p _ h. ground arith))
    ]

    verify_link-ne-none :
        (parent authorised_by : Option Bytes)
        → verify_link v walk c depth seen parent authorised_by ≢ none
    verify_link-ne-none (some p) (some a) = λ h. cc
    verify_link-ne-none (some p) none = verify_parent-ne-none p
    verify_link-ne-none none (some a) = verify_authoriser-ne-none a
    verify_link-ne-none none none = λ h. cc

    verify_links-ne-none : verify_links v walk c depth seen ≢ none
    unfolding verify_links
    verify_links-ne-none h = ground (arith, verify_link-ne-none c.parent c.authorised_by)

  module _ (n : HasNoAuthorizations) where
    after-ne-none :
        (walk : Walk) (c : TokenClaims) (subject : Option GrantSubject) (depth : ℕ)
        (seen : List Text)
        → ((token : CapabilityToken) (subject : Option GrantSubject)
            → walk token subject (depth + 1) seen ≢ none)
        → (check_revoked v walk c
            >> (check_conditions v c subject >> verify_links v walk c depth seen))
          ≢ none
    after-ne-none walk c subject depth seen settles =
        >>=-ne-none (check_revoked v walk c)
          (λ _. check_conditions v c subject >> verify_links v walk c depth seen)
          (check_revoked-ne-none n walk c)
          (λ _ _.
            >>=-ne-none (check_conditions v c subject) (λ _. verify_links v walk c depth seen)
              (check_conditions-ne-none c subject)
              (λ _ _. verify_links-ne-none walk c depth seen settles))

    step-ne-none :
        (walk : Walk) (token : CapabilityToken) (subject : Option GrantSubject) (depth : ℕ)
        (seen : List Text)
        → (depth < 64
            → (token : CapabilityToken) (subject : Option GrantSubject) (seen : List Text)
            → walk token subject (depth + 1) seen ≢ none)
        → verify_step v walk token subject depth seen ≢ none
    unfolding verify_step authenticate
    step-ne-none walk token subject depth seen settles = elim (Option-cases token.payload) [
      | inl detached ↦ simp (detached, verify_step) (λ e. cc)
      | inr (payload, attached) ↦
          simp (attached, verify_step)
            (>>=-ne-none (authenticate v token payload depth seen)
              (λ c.
                check_revoked v walk c
                >> (check_conditions v c subject
                    >> verify_links v walk c depth (bytes_to_hex payload ∷ seen)))
              (authenticate-ne-none token payload depth seen)
              (λ c au. after-ne-none walk c subject depth (bytes_to_hex payload ∷ seen) (λ above s.
                settles (authenticate-eq-ok v token payload depth seen c au).shallow above s
                  (bytes_to_hex payload ∷ seen))))
    ]

    chain-ne-none :
        (fuel : ℕ) (token : CapabilityToken) (subject : Option GrantSubject) (depth : ℕ)
        (seen : List Text)
        → 64 < fuel + depth
        → 0 < fuel
        → verify_token_chain v fuel token subject depth seen ≢ none
    unfolding verify_token_chain
    chain-ne-none zero token subject depth seen h pos = absurd (omega arith)
    chain-ne-none (suc fuel) token subject depth seen h pos =
        step-ne-none (verify_token_chain v fuel) token subject depth seen (λ shallow above s deeper.
          chain-ne-none fuel above s (depth + 1) deeper (omega arith) (omega arith))

    check_bearer-ne-none : (expected : Option Bytes) (a : Accepted) → check_bearer expected a ≢ none
    check_bearer-ne-none none a = λ h. cc
    check_bearer-ne-none (some b) a = λ h. ground arith

    -- With no delegated revocations in the view, 65 nested verifications are enough for a verdict on
    -- any token whatever.
    pub verify_capability_token_terminates :
        (fuel : ℕ) (token : CapabilityToken) (expected : Option Bytes)
        → 64 < fuel
        → (verdict : Result TokenVerdictReason Accepted) × (verify_capability_token v fuel token
              expected
            ≡ some verdict)
    unfolding verify_capability_token
    verify_capability_token_terminates fuel token expected h =
        elim (Option-cases (verify_leaf (verify_token_chain v fuel) token expected)) [
          | inl e ↦ absurd (
              >>=-ne-none (verify_token_chain v fuel token none 0 []) (check_bearer expected)
                (chain-ne-none fuel token none 0 [] (omega arith) (omega arith))
                (λ a _. check_bearer-ne-none expected a) e)
          | inr (verdict, e) ↦ (verdict, e)
        ]
