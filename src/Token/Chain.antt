-- ===== src/Token/Chain.antt =====
-- What a token that the walk of tokens.ts accepts has behind it: a chain of vouched tokens, each
-- linked to the next by the rules of spec/tokens.cddl, stated without the walk's order or its bounds.
use wire_mesh.Prelude.{ℕ, ◌<◌, ◌≤◌, ◌≡◌, ◌≢◌, true, List, Option, none, some, Bytes, Text, All}
use wire_mesh.Scope.{scope_narrows}
use wire_mesh.Claims.{CapabilityToken, TokenClaims, GrantSubject}
use wire_mesh.Trilean.{Trilean}
use wire_mesh.Narrowing.Laws.{Narrows, DepthNarrows}
use wire_mesh.Conditions.Laws.{HoldsIn}
use wire_mesh.Token.{
  Accepted, Verifier, subject_of, candidate_of, manage_grant_capability, sig1_to_be_signed,
}
use wire_mesh.Token.Verify.{as_root, extend}

abbrev pub NotAfter : Option ℕ → ℕ → Type 0
NotAfter none now = Unit {0}
NotAfter (some t) now = t ≤ now

abbrev pub NotOver : Option ℕ → ℕ → Type 0
NotOver none now = Unit {0}
NotOver (some t) now = now < t

abbrev pub Grants : Option Text → Text → Type 0
Grants none capability = Unit {0}
Grants (some g) capability = g ≡ capability

-- The rules of the authorised-by link.
pub record Authorises (p c : TokenClaims) : Type 0 where
  pub bearer : p.bearer ≡ c.issuer
  pub capability : p.capability ≡ manage_grant_capability
  pub grants : Grants p.grants_capability c.capability
  pub scope : scope_narrows p.scope c.scope ≡ true
  pub expires : c.expires ≤ p.expires
  pub depth : DepthNarrows p.delegations_remaining c.delegations_remaining

module _ {t : Trilean} (v : Verifier t) where
  abbrev pub ConditionsHold : TokenClaims → Option GrantSubject → Option Bytes → Type 0
  ConditionsHold claims subject none = Unit {0}
  ConditionsHold claims subject (some bytes) =
      (nodes : List t.Node) × (v.decode_conditions bytes ≡ some nodes)
      × All (HoldsIn t (record { now = v.now; claims = claims; subject = subject }) v.handlers)
          nodes

  -- What one token is checked for by itself.
  pub record IsVouched (token : CapabilityToken) (subject : Option GrantSubject) (c : TokenClaims)
      : Type 0 where
    pub payload : Bytes
    pub attached : token.payload ≡ some payload
    pub decoded : v.decode_claims payload ≡ some c
    pub signed :
        v.verify c.issuer_key (sig1_to_be_signed v token.protected_header payload) token.signature
        ≡ true
    pub self_certifying : v.derive_device_id c.issuer_key.public_key ≡ c.issuer
    pub unexpired : v.now < c.expires
    pub started : NotAfter c.not_before v.now
    pub content_current : NotOver c.valid_until v.now
    pub unrevoked : All (λ e. e.issuer ≢ c.issuer) (v.entries_for c.token_id)
    pub conditions : ConditionsHold c subject c.conditions

  pub data Chain : CapabilityToken → Option GrantSubject → Accepted → Type 0 where
    root :
        {token : CapabilityToken} {subject : Option GrantSubject} {a : Accepted} (c : TokenClaims)
        → IsVouched token subject c
        → c.parent ≡ none
        → c.authorised_by ≡ none
        → a ≡ as_root c
        → Chain token subject a
    delegated :
        {token : CapabilityToken} {subject : Option GrantSubject} {a : Accepted} (c : TokenClaims)
        (bytes : Bytes) (above : CapabilityToken) (p : Accepted)
        → IsVouched token subject c
        → c.parent ≡ some bytes
        → c.authorised_by ≡ none
        → c.capability ≢ manage_grant_capability
        → v.decode_token bytes ≡ some above
        → Chain above none p
        → Narrows p.claims c.issuer (candidate_of c)
        → a ≡ extend c p
        → Chain token subject a
    authorised :
        {token : CapabilityToken} {subject : Option GrantSubject} {a : Accepted} (c : TokenClaims)
        (bytes : Bytes) (above : CapabilityToken) (p : Accepted)
        → IsVouched token subject c
        → c.parent ≡ none
        → c.authorised_by ≡ some bytes
        → v.decode_token bytes ≡ some above
        → Chain above (some (subject_of c)) p
        → Authorises p.claims c
        → a ≡ extend c p
        → Chain token subject a
