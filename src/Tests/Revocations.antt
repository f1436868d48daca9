-- ===== src/Tests/Revocations.antt =====
-- Recording a revocation (revocation-view.ts).
use wire_mesh.Revocation.Recording.{entries_for-record_entry, IsVerified}
use wire_mesh.Tests.Tokens.{key}
use wire_mesh.Scope.{same_items, bytes_equal}
use wire_mesh.Revocation.Minting.{IsFaithful}
use wire_mesh.Revocation.{
  Revoker, own_revocation, entries_for, record_entry, entries_at, verify_revocation_entry,
  EntryVerifier,
}
use wire_mesh.Claims.{CapabilityToken, RevocationClaims}
use wire_mesh.Prelude.{Option, Bytes, ◌≡◌, refl, [], ◌∷◌, none, some, if◌then◌else◌, arith}

abbrev revocation : RevocationClaims
revocation = record {
  token_id = 100 ∷ [];
  issuer = 1 ∷ [];
  issuer_key = key 1;
  revoked_at = 5;
  authorization = none;
}

abbrev entry : CapabilityToken
entry = record { protected_header = []; payload = some (3 ∷ []); signature = 1 ∷ [] }

abbrev entry_verifier : EntryVerifier
entry_verifier = record {
  verify = λ k message signature. bytes_equal signature k.public_key;
  derive_device_id = λ k. k;
  decode_revocation_claims =
      λ payload. if bytes_equal payload (3 ∷ []) then some revocation else none;
  encode_signature_structure = λ label protected_header aad payload. payload;
}

entries_for-record_entry_example :
    IsVerified entry_verifier entry revocation
    × (entries_for (record_entry entry_verifier [] entry).0 (100 ∷ []) ≡ revocation ∷ [])
unfolding verify_revocation_entry bytes_equal same_items entries_for entries_at
entries_for-record_entry_example =
    entries_for-record_entry entry_verifier [] entry revocation (100 ∷ []) refl (omega arith)
      (omega arith)

-- The codec carries the time and the token id; a signature is the public key.
abbrev revoker : Revoker
revoker = record {
  device_id = 1 ∷ [];
  identity_key = key 1;
  sign = λ message. 1 ∷ [];
  encode_revocation_claims = λ c. c.revoked_at ∷ c.token_id;
  encode_header = λ alg id. alg ∷ id;
  encode_signature_structure = λ label protected_header aad payload. payload;
}

abbrev decode_pair : Bytes → Option RevocationClaims
decode_pair [] = none
decode_pair (revoked_at ∷ token_id) = some (own_revocation revoker token_id revoked_at)

abbrev receiver : EntryVerifier
receiver = record entry_verifier { decode_revocation_claims = decode_pair }

receiver-IsFaithful : IsFaithful receiver revoker
unfolding own_revocation bytes_equal same_items
receiver-IsFaithful = record {
  restores = λ token_id revoked_at. refl;
  same_structure = λ label header aad payload. refl;
  verifies = λ message. refl;
  self_certifies = refl;
}
