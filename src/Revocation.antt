-- ===== src/Revocation.antt =====
-- ts/packages/core/src/domain/tokens.ts (`verifyRevocationEntry`) and
-- ts/packages/core/src/domain/revocation-view.ts: gossiped revocations, verified and recorded by
-- token id. The map keeps its keys in order of insertion.
pub mod Recording
pub mod Minting
use wire_mesh.DeviceId.{bytes_to_hex}
use wire_mesh.Scope.{bytes_equal}
use wire_mesh.Claims.{CapabilityToken, RevocationClaims, IdentityKey}
use wire_mesh.Prelude.{
  ℕ, ◌+◌, Bool, not, List, [], ◌∷◌, ◌++◌, Option, none, some, Bytes, Text, text, text_eq,
  if◌then◌else◌, Result, ok, err,
}

pub data RevocationEntryVerdictReason : Type 0 where
  malformed bad_signature wrong_issuer : RevocationEntryVerdictReason

-- `VerifyRevocationEntryOptions`, and the codec.
pub record EntryVerifier : Type 0 where
  pub verify : IdentityKey → Bytes → Bytes → Bool
  pub derive_device_id : Bytes → Bytes
  pub decode_revocation_claims : Bytes → Option RevocationClaims
  pub encode_signature_structure : Text → Bytes → Bytes → Bytes → Bytes

-- `sig1ToBeSigned`.
abbrev pub entry_to_be_signed : EntryVerifier → Bytes → Bytes → Bytes
entry_to_be_signed v protected_header payload =
    v.encode_signature_structure (text "Signature1") protected_header [] payload

-- A revocation entry is a COSE_Sign1, as a token is.
abbrev verify_decoded :
    EntryVerifier
    → CapabilityToken
    → Bytes
    → Option RevocationClaims
    → Result RevocationEntryVerdictReason RevocationClaims
verify_decoded v entry payload none = err malformed
verify_decoded v entry payload (some c) =
    if not
      (v.verify c.issuer_key (entry_to_be_signed v entry.protected_header payload) entry.signature)
    then err bad_signature
    else if not (bytes_equal (v.derive_device_id c.issuer_key.public_key) c.issuer)
    then err wrong_issuer
    else ok c

abbrev verify_payload :
    EntryVerifier
    → CapabilityToken
    → Option Bytes
    → Result RevocationEntryVerdictReason RevocationClaims
verify_payload v entry none = err malformed
verify_payload v entry (some payload) =
    verify_decoded v entry payload (v.decode_revocation_claims payload)

unfoldable pub verify_revocation_entry :
    EntryVerifier → CapabilityToken → Result RevocationEntryVerdictReason RevocationClaims
verify_revocation_entry v entry = verify_payload v entry entry.payload

-- `entriesByTokenId`.
abbrev pub RevocationView : Type 0
RevocationView = List (Text × List RevocationClaims)

unfoldable pub entries_at : Text → RevocationView → List RevocationClaims
entries_at key [] = []
entries_at key ((k, es) ∷ view) = if text_eq k key then es else entries_at key view

-- Appends to the entries of the key, or starts them.
unfoldable pub add_entry : Text → RevocationClaims → RevocationView → RevocationView
add_entry key c [] = (key, c ∷ []) ∷ []
add_entry key c ((k, es) ∷ view) =
    if text_eq k key then (k, es ++ c ∷ []) ∷ view else (k, es) ∷ add_entry key c view

unfoldable pub entries_for : RevocationView → Bytes → List RevocationClaims
entries_for view token_id = entries_at (bytes_to_hex token_id) view

abbrev recorded :
    RevocationView → Result RevocationEntryVerdictReason RevocationClaims → RevocationView
recorded view (err r) = view
recorded view (ok c) = add_entry (bytes_to_hex c.token_id) c view

unfoldable pub record_entry :
    EntryVerifier
    → RevocationView
    → CapabilityToken
    → RevocationView × Result RevocationEntryVerdictReason RevocationClaims
record_entry v view entry =
    (recorded view (verify_revocation_entry v entry), verify_revocation_entry v entry)

-- The issuer's identity and the codec.
pub record Revoker : Type 0 where
  pub device_id : Bytes
  pub identity_key : IdentityKey
  pub sign : Bytes → Bytes
  pub encode_revocation_claims : RevocationClaims → Bytes
  pub encode_header : ℕ → Bytes → Bytes
  pub encode_signature_structure : Text → Bytes → Bytes → Bytes → Bytes

unfoldable pub own_revocation : Revoker → Bytes → ℕ → RevocationClaims
own_revocation r token_id revoked_at = record {
  token_id = token_id;
  issuer = r.device_id;
  issuer_key = r.identity_key;
  revoked_at = revoked_at;
  authorization = none;
}

unfoldable pub mint_revocation_entry : Revoker → Bytes → ℕ → CapabilityToken
mint_revocation_entry r token_id revoked_at =
    let payload = r.encode_revocation_claims (own_revocation r token_id revoked_at) in
    let header = r.encode_header r.identity_key.alg r.device_id in
    record {
      protected_header = header;
      payload = some payload;
      signature = r.sign (r.encode_signature_structure (text "Signature1") header [] payload);
    }
