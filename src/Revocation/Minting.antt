-- ===== src/Revocation/Minting.antt =====
-- A revocation that a device mints (`mintRevocationEntry` of tokens.ts) verifies everywhere.
use wire_mesh.Prelude.{ℕ, ◌≡◌, true, some, Bytes, Text, ok}
use wire_mesh.Revocation.{
  EntryVerifier, Revoker, own_revocation, mint_revocation_entry, verify_revocation_entry,
}
use wire_mesh.Scope.Order.{bytes_equal_refl}

-- What the two ends rely on: the codec restores what it encoded, both build the same bytes to
-- sign, a signature by the identity's key verifies under it, and its device id is derived from it.
pub record IsFaithful (v : EntryVerifier) (r : Revoker) : Type 0 where
  pub restores :
      (token_id : Bytes) (revoked_at : ℕ)
      → v.decode_revocation_claims
          (r.encode_revocation_claims (own_revocation r token_id revoked_at))
        ≡ some (own_revocation r token_id revoked_at)
  pub same_structure :
      (label : Text) (header aad payload : Bytes)
      → v.encode_signature_structure label header aad payload
        ≡ r.encode_signature_structure label header aad payload
  pub verifies : (message : Bytes) → v.verify r.identity_key message (r.sign message) ≡ true
  pub self_certifies : v.derive_device_id r.identity_key.public_key ≡ r.device_id

-- Between such ends, a minted revocation verifies as the minter's own.
verify-mint_revocation_entry :
    (v : EntryVerifier) (r : Revoker) (token_id : Bytes) (revoked_at : ℕ)
    → IsFaithful v r
    → verify_revocation_entry v (mint_revocation_entry r token_id revoked_at)
      ≡ ok (own_revocation r token_id revoked_at)
unfolding verify_revocation_entry mint_revocation_entry
verify-mint_revocation_entry v r token_id revoked_at f = rw (f.restores token_id revoked_at) (
    unfold own_revocation in
    rw (f.same_structure, f.verifies, f.self_certifies, bytes_equal_refl r.device_id))
