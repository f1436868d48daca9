-- ===== src/Revocation/Recording.antt =====
-- What recording an entry changes (revocation-view.ts), and what a recorded entry was checked for.
use wire_mesh.DeviceId.{bytes_to_hex}
use wire_mesh.Scope.{bytes_equal}
use wire_mesh.Scope.Order.{bytes_equal_iff}
use wire_mesh.DeviceId.Hex.{bytes_to_hex-injective, IsBytes}
use wire_mesh.Claims.{RevocationClaims, CapabilityToken}
use wire_mesh.Revocation.{
  entries_for, RevocationEntryVerdictReason, record_entry, entry_to_be_signed, add_entry,
  RevocationView, entries_at, verify_revocation_entry, EntryVerifier,
}
use wire_mesh.Prelude.{
  ◌≡◌, ◌↔◌, inl, inr, refl, sym, ap, Bool, true, false, [], ◌∷◌, ◌++◌, some, Bytes, Text, text_eq,
  text_eq_iff, if◌then◌else◌, arith, ok, err, Option-cases,
}

entries_at-add_entry :
    (key key' : Text) (c : RevocationClaims) (view : RevocationView)
    → entries_at key' (add_entry key c view)
      ≡ (if text_eq key key' then entries_at key' view ++ c ∷ [] else entries_at key' view)
unfolding entries_at add_entry
entries_at-add_entry key key' c [] = ground arith
entries_at-add_entry key key' c ((k, es) ∷ view) = ground (
  arith,
  text_eq_iff key key',
  text_eq_iff k key,
  text_eq_iff k key',
  entries_at-add_entry key key' c view,
)

-- What a verified entry has been checked for.
pub record IsVerified (v : EntryVerifier) (entry : CapabilityToken) (c : RevocationClaims)
    : Type 0 where
  pub payload : Bytes
  pub attached : entry.payload ≡ some payload
  pub decoded : v.decode_revocation_claims payload ≡ some c
  pub signed :
      v.verify c.issuer_key (entry_to_be_signed v entry.protected_header payload) entry.signature
      ≡ true
  pub self_certifying : v.derive_device_id c.issuer_key.public_key ≡ c.issuer

pub verify_revocation_entry-IsVerified :
    (v : EntryVerifier) (entry : CapabilityToken) (c : RevocationClaims)
    → verify_revocation_entry v entry ≡ ok c
    → IsVerified v entry c
unfolding verify_revocation_entry
verify_revocation_entry-IsVerified v entry c h = elim (Option-cases entry.payload) [
  | inl detached ↦ absurd (ground arith)
  | inr (payload, attached) ↦ record {
    payload = payload;
    attached = attached;
    decoded = ground arith;
    signed = ground arith;
    self_certifying =
        (bytes_equal_iff (v.derive_device_id c.issuer_key.public_key) c.issuer).0 (ground arith);
  }
]

Bool-eq_of_iff : (a b : Bool) → (a ≡ true) ↔ (b ≡ true) → a ≡ b
Bool-eq_of_iff true true h = refl
Bool-eq_of_iff true false h = sym (h.0 refl)
Bool-eq_of_iff false true h = h.1 refl
Bool-eq_of_iff false false h = refl

text_eq-bytes_to_hex :
    (a b : Bytes)
    → IsBytes a
    → IsBytes b
    → text_eq (bytes_to_hex a) (bytes_to_hex b) ≡ bytes_equal a b
text_eq-bytes_to_hex a b ha hb = Bool-eq_of_iff _ _ (
  (λ h.
      (bytes_equal_iff a b).1
        (bytes_to_hex-injective a b ha hb ((text_eq_iff (bytes_to_hex a) (bytes_to_hex b)).0 h))),
  (λ h.
      (text_eq_iff (bytes_to_hex a) (bytes_to_hex b)).1
        (ap bytes_to_hex ((bytes_equal_iff a b).0 h))),
)

-- An entry that verifies was signed by its self-certifying issuer, and is then the last entry of
-- its own token and of no other.
pub entries_for-record_entry :
    (v : EntryVerifier) (view : RevocationView) (entry : CapabilityToken) (c : RevocationClaims)
    (token_id : Bytes)
    → verify_revocation_entry v entry ≡ ok c
    → IsBytes c.token_id
    → IsBytes token_id
    → IsVerified v entry c
      × (entries_for (record_entry v view entry).0 token_id ≡ (
          if bytes_equal c.token_id token_id
          then entries_for view token_id ++ c ∷ []
          else entries_for view token_id))
unfolding record_entry entries_for
entries_for-record_entry v view entry c token_id h hc ht = (
  verify_revocation_entry-IsVerified v entry c h,
  rw (h, ← text_eq-bytes_to_hex c.token_id token_id hc ht)
      (entries_at-add_entry (bytes_to_hex c.token_id) (bytes_to_hex token_id) c view),
)

-- An entry that does not verify leaves the view as it was, and the reason is returned.
pub record_entry_refused :
    (v : EntryVerifier) (view : RevocationView) (entry : CapabilityToken)
    (r : RevocationEntryVerdictReason)
    → verify_revocation_entry v entry ≡ err r
    → record_entry v view entry ≡ (view, err r)
unfolding record_entry
record_entry_refused v view entry r h = rw h
