-- ===== src/Token.antt =====
-- ts/packages/core/src/domain/tokens.ts: the vocabulary of token verification, and what it takes from
-- outside: the signature primitives, the clock, the revocation view, the CBOR codec with the
-- schemas, and the predicate evaluator.
-- The clock stands still and the view does not change while one token is verified.
pub mod Verify
pub mod Chain
pub mod Soundness
pub mod Acceptance
pub mod Attenuation
pub mod Termination
pub mod Divergence
use wire_mesh.Prelude.{
  ◌>>◌, ◌>>=◌, ℕ, Bool, false, not, ◌||◌, List, [], ◌∷◌, Option, none, some, Bytes, Text, text,
  text_eq, leb, ltb, M, ret, fail, require, or_fail,
}
use wire_mesh.Scope.{bytes_equal}
use wire_mesh.DeviceId.{bytes_to_hex}
use wire_mesh.Claims.{
  IdentityKey, CapabilityToken, TokenClaims, RevocationClaims, NarrowingCandidate, GrantSubject,
}
use wire_mesh.Trilean.{Trilean}
use wire_mesh.Conditions.{
  Handlers, ConditionsVerdict, satisfied, not_satisfied, evaluate_conditions,
}

unfoldable pub manage_grant_capability : Text
manage_grant_capability = text "manage:grant"

unfoldable pub manage_revoke_capability : Text
manage_revoke_capability = text "manage:revoke"

abbrev pub max_chain_depth : ℕ
max_chain_depth = 64

pub data TokenVerdictReason : Type 0 where
  malformed bad_signature wrong_issuer bearer_mismatch expired not_yet_valid : TokenVerdictReason
  content_expired revoked delegation_exceeds_parent parent_invalid : TokenVerdictReason
  authorisation_invalid chain_too_deep chain_cycle conditions_invalid : TokenVerdictReason
  conditions_not_satisfied : TokenVerdictReason

-- The `ok` half of `TokenVerdict`.
pub record Accepted : Type 0 where
  pub claims : TokenClaims
  pub root_issuer : Bytes
  pub root_issuer_key : IdentityKey
  pub depth : ℕ

-- `VerifyCapabilityTokenOptions`, and the codec. Undecodable bytes and bytes that the schema
-- refuses are both `none`: the program answers them alike.
pub record Verifier (t : Trilean) : Type 0 where
  pub verify : IdentityKey → Bytes → Bytes → Bool
  pub derive_device_id : Bytes → Bytes
  pub now : ℕ
  pub entries_for : Bytes → List RevocationClaims
  pub handlers : Handlers
  pub decode_claims : Bytes → Option TokenClaims
  pub decode_token : Bytes → Option CapabilityToken
  pub decode_conditions : Bytes → Option (List t.Node)
  pub encode_signature_structure : Text → Bytes → Bytes → Bytes → Bytes

-- One verification in progress: token, subject, depth, and the payloads on the path so far.
abbrev pub Walk : Type 0
Walk = CapabilityToken → Option GrantSubject → ℕ → List Bytes → M TokenVerdictReason Accepted

-- The claims of a child, as the subject of its authoriser's conditions. The program passes the
-- claims themselves, whose bound on delegations has another name, so the subject has none.
unfoldable pub subject_of : TokenClaims → GrantSubject
subject_of c = record {
  capability = c.capability;
  scope = c.scope;
  bearer = c.bearer;
  expires = c.expires;
  delegations_remaining = none;
}

unfoldable pub candidate_of : TokenClaims → NarrowingCandidate
candidate_of c = record {
  capability = c.capability;
  scope = c.scope;
  expires = c.expires;
  delegations_remaining = c.delegations_remaining;
}

-- `seen.has(...)`.
unfoldable pub has_text : Text → List Text → Bool
has_text s [] = false
has_text s (x ∷ xs) = text_eq s x || has_text s xs

abbrev pub is_after : Option ℕ → ℕ → Bool
is_after none now = false
is_after (some t) now = ltb now t

abbrev pub is_over : Option ℕ → ℕ → Bool
is_over none now = false
is_over (some t) now = leb t now

-- The three tests against the clock.
unfoldable pub check_times : TokenClaims → ℕ → M TokenVerdictReason (Unit {0})
check_times c now = do
  require (not (leb c.expires now)) expired
  require (not (is_after c.not_before now)) not_yet_valid
  require (not (is_over c.valid_until now)) content_expired

abbrev pub settle_conditions : ConditionsVerdict → M TokenVerdictReason (Unit {0})
settle_conditions satisfied = ret tt
settle_conditions not_satisfied = fail conditions_not_satisfied

module _ {t : Trilean} (v : Verifier t) where
  unfoldable pub sig1_to_be_signed : Bytes → Bytes → Bytes
  sig1_to_be_signed protected_header payload =
      v.encode_signature_structure (text "Signature1") protected_header [] payload

  abbrev pub check_condition_bytes :
      TokenClaims → Option GrantSubject → Option Bytes → M TokenVerdictReason (Unit {0})
  check_condition_bytes claims subject none = ret tt
  check_condition_bytes claims subject (some bytes) = do
    nodes ← or_fail (v.decode_conditions bytes) conditions_invalid
    settle_conditions (evaluate_conditions t nodes claims v.now v.handlers subject)

  -- The token's own conditions, against itself or against the subject.
  unfoldable pub check_conditions :
      TokenClaims → Option GrantSubject → M TokenVerdictReason (Unit {0})
  check_conditions claims subject = check_condition_bytes claims subject claims.conditions

  -- The part of `verifyTokenChain` before the revocation view is asked.
  unfoldable pub authenticate :
      CapabilityToken → Bytes → ℕ → List Text → M TokenVerdictReason TokenClaims
  authenticate token payload depth seen = do
    require (not (leb max_chain_depth depth)) chain_too_deep
    require (not (has_text (bytes_to_hex payload) seen)) chain_cycle
    claims ← or_fail (v.decode_claims payload) malformed
    require
        (v.verify claims.issuer_key (sig1_to_be_signed token.protected_header payload)
          token.signature)
        bad_signature
    require (bytes_equal (v.derive_device_id claims.issuer_key.public_key) claims.issuer)
        wrong_issuer
    check_times claims v.now
    ret claims
