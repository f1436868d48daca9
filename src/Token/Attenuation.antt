-- ===== src/Token/Attenuation.antt =====
-- Along a chain of tokens (tokens.ts) authority only shrinks.
use wire_mesh.Scope.Order.{scope_narrows_trans}
use wire_mesh.Token.Acceptance.{verify_capability_token_sound}
use wire_mesh.Scope.{scope_narrows}
use wire_mesh.Token.Verify.{extend, verify_capability_token}
use wire_mesh.Token.{candidate_of}
use wire_mesh.Token.Chain.{Chain}
use wire_mesh.Claims.{GrantSubject, CapabilityToken, TokenClaims}
use wire_mesh.Token.{Accepted, Verifier}
use wire_mesh.Trilean.{IsKleene, Trilean}
use wire_mesh.Prelude.{none, ℕ, ◌≤◌, ◌≡◌, ◌⊎◌, inl, inr, refl, true, Option, some, Bytes, arith, ok}
use wire_mesh.Token.Chain.{root, delegated, authorised}

module _ {t : Trilean} (v : Verifier t) where
  -- The claims that a token carries.
  abbrev pub Carries : CapabilityToken → TokenClaims → Type 0
  Carries token c =
      (payload : Bytes) × (token.payload ≡ some payload) × (v.decode_claims payload ≡ some c)

  -- The claims at the end of a token's links: its own, where it has no link, or those at the end of
  -- the links of the token that it names as its parent or its authoriser.
  pub data EndsIn : CapabilityToken → TokenClaims → Type 0 where
    here :
        {token : CapabilityToken} {r : TokenClaims}
        → Carries token r
        → r.parent ≡ none
        → r.authorised_by ≡ none
        → EndsIn token r
    above :
        {token : CapabilityToken} {r : TokenClaims} (c : TokenClaims) (bytes : Bytes)
        (next : CapabilityToken)
        → Carries token c
        → (c.parent ≡ some bytes) ⊎ (c.authorised_by ≡ some bytes)
        → v.decode_token bytes ≡ some next
        → EndsIn next r
        → EndsIn token r

  -- The authority that a chain derives from: its root's claims, self-certifying, that expire no
  -- earlier, and whose scope the token's own narrows unless the token is the root.
  pub record IsRootOf (r : TokenClaims) (a : Accepted) : Type 0 where
    pub issuer : a.root_issuer ≡ r.issuer
    pub issuer_key : a.root_issuer_key ≡ r.issuer_key
    pub self_certifying : v.derive_device_id r.issuer_key.public_key ≡ r.issuer
    pub expires : a.claims.expires ≤ r.expires
    pub scope : (a.claims ≡ r) ⊎ (scope_narrows r.scope a.claims.scope ≡ true)

  IsRootOf-extend :
      (r c : TokenClaims) (p : Accepted)
      → IsRootOf r p
      → c.expires ≤ p.claims.expires
      → scope_narrows p.claims.scope c.scope ≡ true
      → IsRootOf r (extend c p)
  IsRootOf-extend r c p i e n = record {
    issuer = i.issuer;
    issuer_key = i.issuer_key;
    self_certifying = i.self_certifying;
    expires = omega (arith, i.expires);
    scope = inr (narrower i.scope);
  }
    where
      narrower :
          (p.claims ≡ r) ⊎ (scope_narrows r.scope p.claims.scope ≡ true)
          → scope_narrows r.scope c.scope ≡ true
      narrower (inl same) = rw same at n
      narrower (inr s) = scope_narrows_trans r.scope p.claims.scope c.scope s n

  -- Every chain has a root whose authority the token does not exceed, at the end of the token's links.
  pub Chain-IsRootOf :
      {token : CapabilityToken} {subject : Option GrantSubject} {a : Accepted}
      → Chain v token subject a
      → (r : TokenClaims) × EndsIn token r × IsRootOf r a × Carries token a.claims
  unfolding candidate_of
  Chain-IsRootOf {a} (root c i p q e) = (
    c,
    here (i.payload, i.attached, i.decoded) p q,
    rw e (record {
      issuer = refl;
      issuer_key = refl;
      self_certifying = i.self_certifying;
      expires = omega arith;
      scope = inl refl;
    }),
    rw e (i.payload, i.attached, i.decoded),
  )
  Chain-IsRootOf {a} (delegated c bytes next p w link _ _ found chain n e) =
      let (r, end, i, _) = Chain-IsRootOf chain in
      (
        r,
        above c bytes next (w.payload, w.attached, w.decoded) (inl link) found end,
        rw e (IsRootOf-extend r c p i n.expires n.scope),
        rw e (w.payload, w.attached, w.decoded),
      )
  Chain-IsRootOf {a} (authorised c bytes next p w _ link found chain n e) =
      let (r, end, i, _) = Chain-IsRootOf chain in
      (
        r,
        above c bytes next (w.payload, w.attached, w.decoded) (inr link) found end,
        rw e (IsRootOf-extend r c p i n.expires n.scope),
        rw e (w.payload, w.attached, w.decoded),
      )

  -- The links of an accepted token end in claims, self-certifying, that name the root issuer, which the
  -- token's own claims do not outlive nor reach outside of.
  pub verify_capability_token_attenuates :
      IsKleene t
      → (fuel : ℕ) (token : CapabilityToken) (bearer : Bytes) (a : Accepted)
      → verify_capability_token v fuel token (some bearer) ≡ some (ok a)
      → (r : TokenClaims) × EndsIn token r × IsRootOf r a × Carries token a.claims
  verify_capability_token_attenuates k fuel token bearer a h =
      Chain-IsRootOf (verify_capability_token_sound v k fuel token bearer a h).0
