-- ===== src/Token/Soundness.antt =====
-- The walk of tokens.ts accepts nothing but vouched chains.
use wire_mesh.Narrowing.{evaluate_narrowing}
use wire_mesh.Conditions.Laws.{evaluate_conditions_iff}
use wire_mesh.Narrowing.Laws.{evaluate_narrowing_iff, depth_narrows_iff, Narrows}
use wire_mesh.Conditions.{satisfied}
use wire_mesh.Token.Verify.{
  through, settle_narrowing, grants, extend, first_async, verify_authoriser, check_revoked,
  verify_parent, authorised_link_ok, revocation_entry_grants_revoke,
}
use wire_mesh.Prelude.{
  >>=-eq-ok, require, inl, inr, [], ◌∷◌, ok, err, M, ◌>>=◌, ◌>>◌, ret, ◌≢◌, text_eq_iff, ◌∷◌, ◌+◌,
  All, Option-cases, Bool, leb, ℕ, ◌<◌, ◌≡◌, true, false, List, Option, none, some, Bytes, Text,
  arith, ok, not,
}
use wire_mesh.Scope.Order.{bytes_equal_iff}
use wire_mesh.Claims.{RevocationClaims, GrantSubject, CapabilityToken, TokenClaims}
use wire_mesh.Trilean.{IsKleene, Trilean}
use wire_mesh.Token.{
  TokenVerdictReason, authorisation_invalid, parent_invalid, candidate_of, manage_grant_capability,
  subject_of, Accepted, evaluate_conditions, Walk, check_condition_bytes, max_chain_depth, is_after,
  is_over, Verifier, sig1_to_be_signed, check_times, authenticate,
}
use wire_mesh.Token.Chain.{Authorises, Grants, ConditionsHold, NotAfter, NotOver}

NotAfter-of_tests : (o : Option ℕ) (now : ℕ) → is_after o now ≡ false → NotAfter o now
NotAfter-of_tests none now h = tt
NotAfter-of_tests (some t) now h = ground arith

NotOver-of_tests : (o : Option ℕ) (now : ℕ) → is_over o now ≡ false → NotOver o now
NotOver-of_tests none now h = tt
NotOver-of_tests (some t) now h = ground arith

check_times-eq-ok :
    (c : TokenClaims) (now : ℕ) {u : Unit {0}}
    → check_times c now ≡ some (ok u)
    → (now < c.expires) × NotAfter c.not_before now × NotOver c.valid_until now
unfolding check_times
check_times-eq-ok c now h = (
  ground arith,
  NotAfter-of_tests c.not_before now (ground arith),
  NotOver-of_tests c.valid_until now (ground arith),
)

below_of_test : (n : ℕ) → not (leb max_chain_depth n) ≡ true → n < 64
below_of_test n h = ground arith

module _ {t : Trilean} (v : Verifier t) where
  pub record IsAuthentic (token : CapabilityToken) (payload : Bytes) (depth : ℕ) (c : TokenClaims)
      : Type 0 where
    pub shallow : depth < 64
    pub decoded : v.decode_claims payload ≡ some c
    pub signed :
        v.verify c.issuer_key (sig1_to_be_signed v token.protected_header payload) token.signature
        ≡ true
    pub self_certifying : v.derive_device_id c.issuer_key.public_key ≡ c.issuer
    pub times : (v.now < c.expires) × NotAfter c.not_before v.now × NotOver c.valid_until v.now

  pub authenticate-eq-ok :
      (token : CapabilityToken) (payload : Bytes) (depth : ℕ) (seen : List Text) (c : TokenClaims)
      → authenticate v token payload depth seen ≡ some (ok c)
      → IsAuthentic token payload depth c
  unfolding authenticate
  authenticate-eq-ok token payload depth seen c h = record {
    shallow = ground arith;
    decoded = ground arith;
    signed = ground arith;
    self_certifying =
        (bytes_equal_iff (v.derive_device_id c.issuer_key.public_key) c.issuer).0 (ground arith);
    times = check_times-eq-ok c v.now {u = tt} (ground arith);
  }

  pub check_conditions-eq-ok :
      (c : TokenClaims) (subject : Option GrantSubject) (o : Option Bytes)
      → check_condition_bytes v c subject o ≡ some (ok tt)
      → ConditionsHold v c subject o
  check_conditions-eq-ok c subject none h = tt
  check_conditions-eq-ok c subject (some bytes) h =
      elim (Option-cases (v.decode_conditions bytes)) [
        | inl bad ↦ ground arith
        | inr (nodes, e) ↦ (
          nodes,
          e,
          (evaluate_conditions_iff t nodes c v.now v.handlers subject).0 (all_satisfied nodes e),
        )
      ]
    where
      all_satisfied :
          (nodes : List t.Node)
          → v.decode_conditions bytes ≡ some nodes
          → evaluate_conditions t nodes c v.now v.handlers subject ≡ satisfied
      all_satisfied nodes e = ground arith

  first_async-eq-none {ℓ} :
      {A : Type ℓ} (p : A → Option Bool) (xs : List A)
      → first_async p xs ≡ some none
      → All (λ x. p x ≡ some false) xs
  unfolding first_async
  first_async-eq-none p [] h = tt
  first_async-eq-none p (x ∷ xs) h = (ground arith, first_async-eq-none p xs (ground arith))

  foreign_of_not_revoking :
      (walk : Walk) (c : TokenClaims) (es : List RevocationClaims)
      → All (λ e. revocation_entry_grants_revoke v walk e c ≡ some false) es
      → All (λ e. e.issuer ≢ c.issuer) es
  unfolding revocation_entry_grants_revoke
  foreign_of_not_revoking walk c [] h = tt
  foreign_of_not_revoking walk c (e ∷ es) (h, hs) = (
    (λ same. ground (arith, bytes_equal_iff e.issuer c.issuer)),
    foreign_of_not_revoking walk c es hs,
  )

  pub check_revoked-eq-ok :
      (walk : Walk) (c : TokenClaims)
      → check_revoked v walk c ≡ some (ok tt)
      → All (λ e. e.issuer ≢ c.issuer) (v.entries_for c.token_id)
  unfolding check_revoked
  check_revoked-eq-ok walk c h = foreign_of_not_revoking walk c (v.entries_for c.token_id) (
      first_async-eq-none (λ e. revocation_entry_grants_revoke v walk e c)
        (v.entries_for c.token_id) (ground arith))

  Grants-of_test :
      (o : Option Text) (capability : Text) → grants o capability ≡ true → Grants o capability
  Grants-of_test none capability h = tt
  Grants-of_test (some g) capability h = (text_eq_iff g capability).0 h

  Authorises-of_test : (p c : TokenClaims) → authorised_link_ok p c ≡ true → Authorises p c
  unfolding authorised_link_ok
  Authorises-of_test p c h = record {
    bearer = (bytes_equal_iff p.bearer c.issuer).0 (ground arith);
    capability = (text_eq_iff p.capability manage_grant_capability).0 (ground arith);
    grants = Grants-of_test p.grants_capability c.capability (ground arith);
    scope = ground arith;
    expires = ground arith;
    depth = (depth_narrows_iff p.delegations_remaining c.delegations_remaining).0 (ground arith);
  }

  through-eq-ok :
      (r : TokenVerdictReason) (m : M TokenVerdictReason Accepted) (p : Accepted)
      → through r m ≡ some (ok p)
      → m ≡ some (ok p)
  through-eq-ok r none p h = cc
  through-eq-ok r (some (ok q)) p h = h
  through-eq-ok r (some (err e)) p h = ground arith

  through-cases :
      (r : TokenVerdictReason) (m : M TokenVerdictReason Accepted)
      (f : Accepted → M TokenVerdictReason Accepted) (a : Accepted)
      → (through r m >>= f) ≡ some (ok a)
      → (p : Accepted) × (m ≡ some (ok p)) × (f p ≡ some (ok a))
  through-cases r m f a h =
      let (p, e, g) = >>=-eq-ok (through r m) f h in (p, through-eq-ok r m p e, g)

  module _ (k : IsKleene t) (walk : Walk) (c : TokenClaims) (depth : ℕ) (seen : List Text) where
    pub verify_parent-eq-ok :
        (bytes : Bytes) (a : Accepted)
        → verify_parent v walk c depth seen bytes ≡ some (ok a)
        → (above : CapabilityToken) × (p : Accepted) × (v.decode_token bytes ≡ some above)
          × (walk above none (depth + 1) seen ≡ some (ok p))
          × Narrows p.claims c.issuer (candidate_of c)
          × (a ≡ extend c p)
    unfolding verify_parent
    verify_parent-eq-ok bytes a h = elim (Option-cases (v.decode_token bytes)) [
      | inl bad ↦ ground arith
      | inr (above, e) ↦
          let (p, w, g) =
            through-cases parent_invalid (walk above none (depth + 1) seen)
              (λ p.
                settle_narrowing (evaluate_narrowing t p.claims c.issuer (candidate_of c))
                >> ret (extend c p))
              a (rw (e, verify_parent) at h) in
          (
            above,
            p,
            e,
            w,
            (evaluate_narrowing_iff t k p.claims c.issuer (candidate_of c)).0 (ground arith),
            ground arith,
          )
    ]

    pub verify_authoriser-eq-ok :
        (bytes : Bytes) (a : Accepted)
        → verify_authoriser v walk c depth seen bytes ≡ some (ok a)
        → (above : CapabilityToken) × (p : Accepted) × (v.decode_token bytes ≡ some above)
          × (walk above (some (subject_of c)) (depth + 1) seen ≡ some (ok p))
          × Authorises p.claims c
          × (a ≡ extend c p)
    unfolding verify_authoriser
    verify_authoriser-eq-ok bytes a h = elim (Option-cases (v.decode_token bytes)) [
      | inl bad ↦ ground arith
      | inr (above, e) ↦
          let (p, w, g) =
            through-cases authorisation_invalid (walk above (some (subject_of c)) (depth + 1) seen)
              (λ p.
                require (authorised_link_ok p.claims c) authorisation_invalid >> ret (extend c p))
              a (rw (e, verify_authoriser) at h) in
          (above, p, e, w, Authorises-of_test p.claims c (ground arith), ground arith)
    ]
