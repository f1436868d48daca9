-- ===== src/Mint.antt =====
-- ts/packages/core/src/domain/tokens.ts: minting a token, with the delegation rules enforced at
-- issuance, and the queries `canGrant` and `canGrantVia`.
pub mod Queries
use wire_mesh.Token.{manage_grant_capability}
use wire_mesh.Claims.{CapabilityToken, IdentityKey, NarrowingCandidate, GrantSubject, TokenClaims}
use wire_mesh.Scope.{scope_narrows, bytes_equal, CapabilityScope}
use wire_mesh.Conditions.{satisfied, not_satisfied, evaluate_conditions, ConditionsVerdict}
use wire_mesh.Trilean.{Trilean}
use wire_mesh.Narrowing.{
  bearer_is, expires_at, scope_narrowing, capability_is, depth_remaining, depth_narrows,
  evaluate_narrowing, NarrowingSystem,
}
use wire_mesh.Token.Verify.{grants}
use wire_mesh.Prelude.{
  ℕ, Bool, true, false, not, ◌&&◌, ◌||◌, List, [], Option, none, some, Bytes, Text, text, text_eq,
  leb, ltb, if◌then◌else◌, Result, ok, err,
}

pub data MintRefusalReason : Type 0 where
  already_expired parent_malformed parent_bearer_mismatch expires_exceeds_parent : MintRefusalReason
  scope_does_not_narrow capability_mismatch delegation_exceeds_parent : MintRefusalReason
  links_exclusive authorisation_malformed authorisation_parent_forbidden : MintRefusalReason
  authorisation_bearer_mismatch authorisation_capability_mismatch : MintRefusalReason
  authorisation_scope_does_not_narrow authorisation_exceeds_authoriser : MintRefusalReason
  authorisation_delegation_exceeds authorisation_conditions_not_satisfied : MintRefusalReason

-- The issuer's identity, the clock and the codec.
pub record Minter (t : Trilean) : Type 0 where
  pub device_id : Bytes
  pub identity_key : IdentityKey
  pub sign : Bytes → Bytes
  pub now : ℕ
  pub decode_claims : Bytes → Option TokenClaims
  pub decode_conditions : Bytes → Option (List t.Node)
  pub encode_claims : TokenClaims → Bytes
  pub encode_token : CapabilityToken → Bytes
  pub encode_conditions : List t.Node → Bytes
  pub encode_header : ℕ → Bytes → Bytes
  pub encode_signature_structure : Text → Bytes → Bytes → Bytes → Bytes

pub record MintOptions (t : Trilean) : Type 0 where
  pub token_id : Bytes
  pub bearer : Bytes
  pub capability : Text
  pub scope : CapabilityScope
  pub expires : ℕ
  pub not_before : Option ℕ
  pub delegations_remaining : Option ℕ
  pub parent : Option CapabilityToken
  pub conditions : Option (List t.Node)
  pub authorised_by : Option CapabilityToken
  pub grants_capability : Option Text
  pub requests_capability : Option Text

-- `NARROWING_SYSTEM_TO_MINT_REFUSAL`.
unfoldable pub mint_refusal : NarrowingSystem → MintRefusalReason
mint_refusal bearer_is = parent_bearer_mismatch
mint_refusal expires_at = expires_exceeds_parent
mint_refusal scope_narrowing = scope_does_not_narrow
mint_refusal capability_is = capability_mismatch
mint_refusal depth_remaining = delegation_exceeds_parent

abbrev pub refusal_of : Option NarrowingSystem → Option MintRefusalReason
refusal_of none = none
refusal_of (some s) = some (mint_refusal s)

abbrev pub is_allowed : Option MintRefusalReason → Bool
is_allowed none = true
is_allowed (some r) = false

abbrev is_given {ℓ} : {A : Type ℓ} → Option A → Bool
is_given none = false
is_given (some a) = true

unfoldable pub narrowing_candidate : {t : Trilean} → MintOptions t → NarrowingCandidate
narrowing_candidate o = record {
  capability = o.capability;
  scope = o.scope;
  expires = o.expires;
  delegations_remaining = o.delegations_remaining;
}

unfoldable pub grant_subject : {t : Trilean} → MintOptions t → GrantSubject
grant_subject o = record {
  capability = o.capability;
  scope = o.scope;
  bearer = o.bearer;
  expires = o.expires;
  delegations_remaining = o.delegations_remaining;
}

abbrev conditions_refusal : ConditionsVerdict → Option MintRefusalReason
conditions_refusal satisfied = none
conditions_refusal not_satisfied = some authorisation_conditions_not_satisfied

module _ {t : Trilean} (m : Minter t) where
  abbrev pub decode_payload : Option Bytes → Option TokenClaims
  decode_payload none = none
  decode_payload (some payload) = m.decode_claims payload

  unfoldable pub decode_token_claims : CapabilityToken → Option TokenClaims
  decode_token_claims token = decode_payload token.payload

  unfoldable pub check_narrowing :
      TokenClaims → Bytes → NarrowingCandidate → Option MintRefusalReason
  check_narrowing parent granter candidate =
      refusal_of (evaluate_narrowing t parent granter candidate)

  abbrev decoded_conditions_refusal :
      TokenClaims → GrantSubject → Option (List t.Node) → Option MintRefusalReason
  decoded_conditions_refusal claims subject none = some authorisation_malformed
  decoded_conditions_refusal claims subject (some nodes) =
      conditions_refusal (evaluate_conditions t nodes claims 0 (λ name. none) (some subject))

  abbrev condition_bytes_refusal :
      TokenClaims → GrantSubject → Option Bytes → Option MintRefusalReason
  condition_bytes_refusal claims subject none = none
  condition_bytes_refusal claims subject (some bytes) =
      decoded_conditions_refusal claims subject (m.decode_conditions bytes)

  unfoldable pub check_authorisation : TokenClaims → Bytes → GrantSubject → Option MintRefusalReason
  check_authorisation p minter candidate =
      if is_given p.parent
      then some authorisation_parent_forbidden
      else if not (bytes_equal p.bearer minter)
      then some authorisation_bearer_mismatch
      else if not (text_eq p.capability manage_grant_capability)
          || not (grants p.grants_capability candidate.capability)
      then some authorisation_capability_mismatch
      else if not (scope_narrows p.scope candidate.scope)
      then some authorisation_scope_does_not_narrow
      else if ltb p.expires candidate.expires
      then some authorisation_exceeds_authoriser
      else if not (depth_narrows p.delegations_remaining candidate.delegations_remaining)
      then some authorisation_delegation_exceeds
      else condition_bytes_refusal p candidate p.conditions

  abbrev narrows_decoded : Option TokenClaims → Bytes → NarrowingCandidate → Bool
  narrows_decoded none device candidate = false
  narrows_decoded (some held) device candidate = is_allowed (check_narrowing held device candidate)

  unfoldable pub can_grant : CapabilityToken → Bytes → NarrowingCandidate → ℕ → Bool
  can_grant held device candidate now =
      if leb candidate.expires now
      then false
      else narrows_decoded (decode_token_claims held) device candidate

  abbrev authorises_decoded : Option TokenClaims → Bytes → GrantSubject → Bool
  authorises_decoded none device candidate = false
  authorises_decoded (some held) device candidate =
      is_allowed (check_authorisation held device candidate)

  unfoldable pub can_grant_via : CapabilityToken → Bytes → GrantSubject → ℕ → Bool
  can_grant_via held device candidate now =
      if leb candidate.expires now
      then false
      else authorises_decoded (decode_token_claims held) device candidate

  abbrev unless_refused : Option MintRefusalReason → Bytes → Result MintRefusalReason (Option Bytes)
  unless_refused none bytes = ok (some bytes)
  unless_refused (some r) bytes = err r

  abbrev parent_link :
      MintOptions t → CapabilityToken → Option TokenClaims → Result MintRefusalReason (Option Bytes)
  parent_link o token none = err parent_malformed
  parent_link o token (some p) =
      unless_refused (check_narrowing p m.device_id (narrowing_candidate o)) (m.encode_token token)

  abbrev parent_bytes :
      MintOptions t → Option CapabilityToken → Result MintRefusalReason (Option Bytes)
  parent_bytes o none = ok none
  parent_bytes o (some token) = parent_link o token (decode_token_claims token)

  abbrev authorisation_link :
      MintOptions t → CapabilityToken → Option TokenClaims → Result MintRefusalReason (Option Bytes)
  authorisation_link o token none = err authorisation_malformed
  authorisation_link o token (some p) =
      unless_refused (check_authorisation p m.device_id (grant_subject o)) (m.encode_token token)

  abbrev authorisation_bytes :
      MintOptions t → Option CapabilityToken → Result MintRefusalReason (Option Bytes)
  authorisation_bytes o none = ok none
  authorisation_bytes o (some token) = authorisation_link o token (decode_token_claims token)

  abbrev pub encoded_conditions : Option (List t.Node) → Option Bytes
  encoded_conditions none = none
  encoded_conditions (some nodes) = some (m.encode_conditions nodes)

  unfoldable pub minted_claims : MintOptions t → Option Bytes → Option Bytes → TokenClaims
  minted_claims o parent authorised_by = record {
    token_id = o.token_id;
    issuer = m.device_id;
    issuer_key = m.identity_key;
    bearer = o.bearer;
    capability = o.capability;
    scope = o.scope;
    expires = o.expires;
    not_before = o.not_before;
    parent = parent;
    authorised_by = authorised_by;
    delegations_remaining = o.delegations_remaining;
    valid_until = none;
    conditions = encoded_conditions o.conditions;
    grants_capability = o.grants_capability;
    requests_capability = o.requests_capability;
  }

  -- `protectedHeaderFor`.
  abbrev pub protected_header_for : Bytes
  protected_header_for = m.encode_header m.identity_key.alg m.device_id

  unfoldable pub sign_claims : TokenClaims → CapabilityToken
  sign_claims claims = record {
    protected_header = protected_header_for;
    payload = some (m.encode_claims claims);
    signature = m.sign (
        m.encode_signature_structure (text "Signature1") protected_header_for []
          (m.encode_claims claims));
  }

  abbrev mint_linked :
      MintOptions t
      → Result MintRefusalReason (Option Bytes)
      → Result MintRefusalReason (Option Bytes)
      → Result MintRefusalReason CapabilityToken
  mint_linked o (err r) authorised_by = err r
  mint_linked o (ok p) (err r) = err r
  mint_linked o (ok p) (ok a) = ok (sign_claims (minted_claims o p a))

  unfoldable pub mint_capability_token : MintOptions t → Result MintRefusalReason CapabilityToken
  mint_capability_token o =
      if leb o.expires m.now
      then err already_expired
      else if is_given o.parent && is_given o.authorised_by
      then err links_exclusive
      else if text_eq o.capability manage_grant_capability && is_given o.parent
      then err authorisation_parent_forbidden
      else mint_linked o (parent_bytes o o.parent) (authorisation_bytes o o.authorised_by)
