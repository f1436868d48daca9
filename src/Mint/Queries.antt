-- ===== src/Mint/Queries.antt =====
-- The queries of tokens.ts answer what minting does.
use wire_mesh.Token.{manage_grant_capability}
use wire_mesh.Claims.{CapabilityToken, TokenClaims}
use wire_mesh.Narrowing.{evaluate_narrowing}
use wire_mesh.Narrowing.Laws.{Narrows, evaluate_narrowing_iff}
use wire_mesh.Mint.{
  encoded_conditions, minted_claims, sign_claims, narrowing_candidate, grant_subject,
  mint_capability_token, decode_token_claims, check_narrowing, can_grant_via, can_grant,
  MintOptions, Minter,
}
use wire_mesh.Trilean.{Trilean, IsKleene}
use wire_mesh.Prelude.{
  inl, inr, subst, ◌<◌, ◌≡◌, ◌≢◌, ◌↔◌, refl, true, List, [], Option, none, some, Bytes, text,
  text_eq_iff, arith, ok, Option-cases,
}

module _ {t : Trilean} (m : Minter t) where
  -- The conditions stand in the claims as they are encoded.
  abbrev pub IsEncoding : Option (List t.Node) → Option Bytes → Type 0
  IsEncoding none bytes = bytes ≡ none
  IsEncoding (some nodes) bytes = bytes ≡ some (m.encode_conditions nodes)

  -- A token of the minter's that carries a held one as its parent, and otherwise what was asked for:
  -- each claim, and the signature over the header and the claims.
  pub record IsDelegationOf (held : CapabilityToken) (o : MintOptions t) (token : CapabilityToken)
      : Type 0 where
    pub claims : TokenClaims
    pub payload : token.payload ≡ some (m.encode_claims claims)
    pub header : token.protected_header ≡ m.encode_header m.identity_key.alg m.device_id
    pub signed :
        token.signature
        ≡ m.sign (
            m.encode_signature_structure
              (text "Signature1")
              token.protected_header
              []
              (m.encode_claims claims))
    pub token_id : claims.token_id ≡ o.token_id
    pub issuer : claims.issuer ≡ m.device_id
    pub issuer_key : claims.issuer_key ≡ m.identity_key
    pub bearer : claims.bearer ≡ o.bearer
    pub capability : claims.capability ≡ o.capability
    pub scope : claims.scope ≡ o.scope
    pub expires : claims.expires ≡ o.expires
    pub not_before : claims.not_before ≡ o.not_before
    pub parent : claims.parent ≡ some (m.encode_token held)
    pub authorised_by : claims.authorised_by ≡ none
    pub delegations : claims.delegations_remaining ≡ o.delegations_remaining
    pub valid_until : claims.valid_until ≡ none
    pub conditions : IsEncoding o.conditions claims.conditions
    pub grants : claims.grants_capability ≡ o.grants_capability
    pub requests : claims.requests_capability ≡ o.requests_capability

  -- The held token's claims are narrowed by what is asked for, which has not expired.
  abbrev pub MayDelegate : CapabilityToken → MintOptions t → Type 0
  MayDelegate held o =
      (m.now < o.expires)
      × (p : TokenClaims) × (decode_token_claims m held ≡ some p)
      × Narrows p m.device_id (narrowing_candidate o)

  minted_claims-IsDelegationOf :
      (held : CapabilityToken) (o : MintOptions t)
      → IsDelegationOf held o (sign_claims m (minted_claims m o (some (m.encode_token held)) none))
  unfolding minted_claims sign_claims
  minted_claims-IsDelegationOf held o = record {
    claims = minted_claims m o (some (m.encode_token held)) none;
    payload = refl;
    header = refl;
    signed = refl;
    token_id = refl;
    issuer = refl;
    issuer_key = refl;
    bearer = refl;
    capability = refl;
    scope = refl;
    expires = refl;
    not_before = refl;
    parent = refl;
    authorised_by = refl;
    delegations = refl;
    valid_until = refl;
    conditions = encoded o.conditions;
    grants = refl;
    requests = refl;
  }
    where
      encoded : (c : Option (List t.Node)) → IsEncoding c (encoded_conditions m c)
      encoded none = refl
      encoded (some nodes) = refl

  can_grant-MayDelegate :
      IsKleene t
      → (o : MintOptions t) (held : CapabilityToken)
      → (can_grant m held m.device_id (narrowing_candidate o) m.now ≡ true) ↔ MayDelegate held o
  unfolding can_grant check_narrowing narrowing_candidate
  can_grant-MayDelegate k o held = elim (Option-cases (decode_token_claims m held)) [
    | inl bad ↦
        ((λ h. absurd (ground (arith, bad, h))), λ (_, p, e, _). absurd (ground (arith, bad, e)))
    | inr (p, found) ↦
        let iff = evaluate_narrowing_iff t k p m.device_id (narrowing_candidate o) in
        (
          (λ h. (ground (arith, found, h), p, found, iff.0 (ground (arith, found, h)))),
          λ (live, q, e, n).
              let same : q ≡ p = ground (arith, e, found) in
              let passed : evaluate_narrowing t p m.device_id (narrowing_candidate o) ≡ none =
                iff.1 (subst (λ x. Narrows x m.device_id (narrowing_candidate o)) same n) in
              ground (arith, found, live, passed),
        )
  ]

  -- What minting a delegation of a held token gives, where it gives something.
  minting_lem :
      (o : MintOptions t) (held : CapabilityToken)
      → o.parent ≡ some held
      → o.authorised_by ≡ none
      → o.capability ≢ manage_grant_capability
      → (can_grant m held m.device_id (narrowing_candidate o) m.now ≡ true) ↔ (
          mint_capability_token m o
          ≡ ok (sign_claims m (minted_claims m o (some (m.encode_token held)) none)))
  unfolding can_grant mint_capability_token narrowing_candidate
  minting_lem o held p a c = ground (arith, text_eq_iff o.capability manage_grant_capability)

  can_grant_of_minting :
      (o : MintOptions t) (held token : CapabilityToken)
      → o.parent ≡ some held
      → o.authorised_by ≡ none
      → mint_capability_token m o ≡ ok token
      → can_grant m held m.device_id (narrowing_candidate o) m.now ≡ true
  unfolding can_grant mint_capability_token narrowing_candidate
  can_grant_of_minting o held token p a h = ground (arith, h)

  -- For an ordinary capability and no authorising token, and an evaluator that keeps Kleene's tables:
  -- `canGrant` says yes exactly where the request has not expired and narrows the claims of the held
  -- token, and exactly where minting gives a token, which then carries the held one as its parent and
  -- every claim as it was asked for, signed.
  pub can_grant_iff :
      IsKleene t
      → (o : MintOptions t) (held : CapabilityToken) → o.parent ≡ some held
      → o.authorised_by ≡ none
      → o.capability ≢ manage_grant_capability
      → ((can_grant m held m.device_id (narrowing_candidate o) m.now ≡ true) ↔ MayDelegate held o)
        × ((can_grant m held m.device_id (narrowing_candidate o) m.now ≡ true) ↔ (
            (token : CapabilityToken) × (mint_capability_token m o ≡ ok token)
            × IsDelegationOf held o token))
  can_grant_iff k o held p a c = (
    can_grant-MayDelegate k o held,
    (
      (λ h. (
        sign_claims m (minted_claims m o (some (m.encode_token held)) none),
        (minting_lem o held p a c).0 h,
        minted_claims-IsDelegationOf held o,
      )),
      λ (token, e, _). can_grant_of_minting o held token p a e,
    ),
  )

  -- Minting under a held grant-capability gives the signed token that carries it, exactly when
  -- `canGrantVia` says so.
  pub can_grant_via_iff :
      (o : MintOptions t) (held : CapabilityToken)
      → o.parent ≡ none
      → o.authorised_by ≡ some held
      → (can_grant_via m held m.device_id (grant_subject o) m.now ≡ true) ↔ (
          mint_capability_token m o
          ≡ ok (sign_claims m (minted_claims m o none (some (m.encode_token held)))))
  unfolding can_grant_via mint_capability_token grant_subject
  can_grant_via_iff o held p a = ground arith
