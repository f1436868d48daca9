-- ===== src/Token/Acceptance.antt =====
-- Every verdict `ok` of `verifyCapabilityToken` (tokens.ts) has a vouched chain behind it.
use wire_mesh.Scope.Order.{bytes_equal_iff}
use wire_mesh.Token.Soundness.{
  verify_authoriser-eq-ok, check_conditions-eq-ok, check_revoked-eq-ok, verify_parent-eq-ok,
  authenticate-eq-ok,
}
use wire_mesh.DeviceId.{bytes_to_hex}
use wire_mesh.Token.Chain.{root, authorised, delegated, Chain, IsVouched}
use wire_mesh.Prelude.{
  ℕ, zero, suc, ◌+◌, ◌<◌, ◌≡◌, inl, inr, refl, ap, false, ◌&&◌, List, [], ◌∷◌, Option, none, some,
  Bytes, Text, text_eq, text_eq_iff, arith, ok, M, ◌>>◌, >>=-eq-ok, Option-cases,
}
use wire_mesh.Claims.{GrantSubject, TokenClaims, CapabilityToken}
use wire_mesh.Token.Verify.{
  check_bearer, verify_capability_token, verify_link, is_present, check_revoked, verify_links,
  verify_step, verify_token_chain,
}
use wire_mesh.Token.{
  subject_of, authenticate, manage_grant_capability, check_conditions, TokenVerdictReason, Accepted,
  Walk, Verifier,
}
use wire_mesh.Trilean.{IsKleene, Trilean}

module _ {t : Trilean} (v : Verifier t) (k : IsKleene t) where
  -- A walk that accepts only what has a chain, and never below the depth bound.
  abbrev IsSound : Walk → Type 0
  IsSound walk =
      (token : CapabilityToken) (subject : Option GrantSubject) (depth : ℕ) (seen : List Text)
      (a : Accepted)
      → walk token subject depth seen ≡ some (ok a)
      → Chain v token subject a × (a.depth + depth < 64)

  link_sound :
      (walk : Walk)
      → IsSound walk
      → (token : CapabilityToken) (subject : Option GrantSubject) (c : TokenClaims) (depth : ℕ)
        (seen : List Text) (a : Accepted) (parent authorised_by : Option Bytes)
      → IsVouched v token subject c
      → depth < 64
      → c.parent ≡ parent
      → c.authorised_by ≡ authorised_by
      → (text_eq c.capability manage_grant_capability && is_present parent) ≡ false
      → verify_link v walk c depth seen parent authorised_by ≡ some (ok a)
      → Chain v token subject a × (a.depth + depth < 64)
  link_sound walk s token subject c depth seen a (some p) (some q) i d e f m h = cc
  link_sound walk s token subject c depth seen a (some bytes) none i d e f m h =
      let (above, p, decoded, w, narrows, same) =
        verify_parent-eq-ok v k walk c depth seen bytes a h in
      let (chain, deep) = s above none (depth + 1) seen p w in
      (
        delegated c bytes above p i e f
            (λ g. ground (arith, text_eq_iff c.capability manage_grant_capability)) decoded chain
            narrows same,
        omega (arith, ap (λ (x : Accepted). x.depth) same),
      )
  link_sound walk s token subject c depth seen a none (some bytes) i d e f m h =
      let (above, p, decoded, w, authorises, same) =
        verify_authoriser-eq-ok v k walk c depth seen bytes a h in
      let (chain, deep) = s above (some (subject_of c)) (depth + 1) seen p w in
      (
        authorised c bytes above p i e f decoded chain authorises same,
        omega (arith, ap (λ (x : Accepted). x.depth) same),
      )
  link_sound walk s token subject c depth seen a none none i d e f m h =
      (root c i e f (ground arith), ground arith)

  step-IsSound : (walk : Walk) → IsSound walk → IsSound (verify_step v walk)
  unfolding verify_step verify_links bytes_to_hex check_conditions check_revoked authenticate
  step-IsSound walk s token subject depth seen a h = elim (Option-cases token.payload) [
    | inl detached ↦ absurd (ground arith)
    | inr (payload, attached) ↦
        let (c, au, h1) =
          >>=-eq-ok (authenticate v token payload depth seen) (after payload)
            (rw (attached, verify_step) at h) in
        let i = authenticate-eq-ok v token payload depth seen c au in
        link_sound walk s token subject c depth (bytes_to_hex payload ∷ seen) a c.parent
          c.authorised_by
          (record {
            payload = payload;
            attached = attached;
            decoded = i.decoded;
            signed = i.signed;
            self_certifying = i.self_certifying;
            unexpired = i.times.0;
            started = i.times.1;
            content_current = i.times.2;
            unrevoked = check_revoked-eq-ok v walk c (ground arith);
            conditions =
                check_conditions-eq-ok v c subject c.conditions (conditions_ok payload c h1);
          })
          i.shallow refl refl (ground arith) (ground arith)
  ]
    where
      after : Bytes → TokenClaims → M TokenVerdictReason Accepted
      after payload c =
          check_revoked v walk c
          >> (check_conditions v c subject
              >> verify_links v walk c depth (bytes_to_hex payload ∷ seen))

      conditions_ok :
          (payload : Bytes) (c : TokenClaims)
          → after payload c ≡ some (ok a)
          → check_conditions v c subject ≡ some (ok tt)
      conditions_ok payload c e = ground arith

  chain-IsSound : (fuel : ℕ) → IsSound (verify_token_chain v fuel)
  unfolding verify_token_chain
  chain-IsSound zero token subject depth seen a h = cc
  chain-IsSound (suc fuel) token subject depth seen a h =
      step-IsSound (verify_token_chain v fuel) (chain-IsSound fuel) token subject depth seen a h

  -- Whatever the bytes, an accepted token has a vouched chain behind it, of fewer than 64 links, and
  -- names the bearer that the caller expects.
  pub verify_capability_token_sound :
      (fuel : ℕ) (token : CapabilityToken) (bearer : Bytes) (a : Accepted)
      → verify_capability_token v fuel token (some bearer) ≡ some (ok a)
      → Chain v token none a × (a.depth < 64) × (a.claims.bearer ≡ bearer)
  unfolding verify_capability_token
  verify_capability_token_sound fuel token bearer a h =
      let (b, w, g) =
        >>=-eq-ok (verify_token_chain v fuel token none 0 []) (check_bearer (some bearer)) h in
      let same : b ≡ a = ground arith in
      let (chain, deep) = chain-IsSound fuel token none 0 [] b w in
      (rw (← same) chain, ground arith, (bytes_equal_iff a.claims.bearer bearer).0 (ground arith))
