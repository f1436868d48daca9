-- ===== src/SecureChannel/Agreement.antt =====
-- The handshake of secure-channel.ts, between two devices that follow it.
use wire_mesh.Prelude.{
  ◌≤◌, ◌≡◌, ◌≢◌, inl, inr, refl, true, false, not, [], ◌∷◌, some, Bytes, ◌==◌, ==_iff, arith,
  Bool-cases,
}
use wire_mesh.Scope.Order.{bytes_equal_refl}
use wire_mesh.SecureChannel.{
  sorts_first, Crypto, Identity, SecureChannel, SecureChannelPeer, PendingHandshake,
  begin_handshake, establish_channel, verify_hello, verified, hello_signing_input, channel_with,
}

-- What the platform's key agreement and cipher promise.
pub record IsSound (crypto : Crypto) : Type 0 where
  pub secret : crypto.PrivateKey → crypto.PrivateKey → Bytes
  pub derives :
      (p q : crypto.PrivateKey) → crypto.derive_bits p (crypto.export_public q) ≡ some (secret p q)
  pub agrees : (p q : crypto.PrivateKey) → secret p q ≡ secret q p
  pub decrypts :
      (key iv ad plaintext : Bytes)
      → crypto.decrypt key iv ad (crypto.encrypt key iv ad plaintext) ≡ some plaintext

-- An identity's signatures verify, and its key is that of its device id.
pub record IsGenuine (identity : Identity) (verifier : Identity) : Type 0 where
  pub derives : verifier.derive_device_id identity.identity_key.public_key ≡ some identity.device_id
  pub verifies : (m : Bytes) → verifier.verify identity.identity_key m (identity.sign m) ≡ some true

-- Frames that the first channel seals are for the second to open.
pub record IsMatched {crypto : Crypto} (a b : SecureChannel crypto) : Type 0 where
  pub key : b.receive_key ≡ a.send_key
  pub sender : b.peer.device_id ≡ a.own
  pub recipient : a.peer.device_id ≡ b.own
  pub fresh : b.least_acceptable ≤ a.next_send_counter

sorts_first_total : (a b : Bytes) → a ≢ b → sorts_first a b ≡ not (sorts_first b a)
unfolding sorts_first
sorts_first_total [] [] h = absurd (h refl)
sorts_first_total [] (y ∷ b) h = refl
sorts_first_total (x ∷ a) [] h = refl
sorts_first_total (x ∷ a) (y ∷ b) h = elim (Bool-cases (x == y)) [
  | inl same ↦
      let e : x ≡ y = (==_iff x y).0 same in
      let back : (y == x) ≡ true = ground arith in
      rw (same, back) (sorts_first_total a b (λ eq. h (λ i. e i ∷ eq i)))
  | inr other ↦ let back : (y == x) ≡ false = ground arith in rw (other, back) (ground arith)
]

abbrev pub peer_of : Identity → SecureChannelPeer
peer_of identity = record { device_id = identity.device_id; identity_key = identity.identity_key }

module _ (crypto : Crypto) (sound : IsSound crypto) (ida idb : Identity) (ka kb : crypto.PrivateKey)
    (na nb : Bytes) where
  abbrev pub half_a : PendingHandshake crypto
  half_a = begin_handshake crypto ida idb.device_id ka na

  abbrev pub half_b : PendingHandshake crypto
  half_b = begin_handshake crypto idb ida.device_id kb nb

  abbrev pub end_a : SecureChannel crypto
  end_a = channel_with crypto ida half_a half_b.hello (peer_of idb) (sound.secret ka kb)

  abbrev pub end_b : SecureChannel crypto
  end_b = channel_with crypto idb half_b half_a.hello (peer_of ida) (sound.secret kb ka)

  IsMatched-ends : ida.device_id ≢ idb.device_id → IsMatched end_a end_b × IsMatched end_b end_a
  unfolding channel_with begin_handshake
  IsMatched-ends differ =
      let low : sorts_first ida.device_id idb.device_id
          ≡ not (sorts_first idb.device_id ida.device_id) =
        sorts_first_total ida.device_id idb.device_id differ in
      elim (Bool-cases (sorts_first idb.device_id ida.device_id)) [
        | inl b_first ↦
            rw (low, b_first, sound.agrees ka kb)
              (
                record { key = refl; sender = refl; recipient = refl; fresh = omega arith },
                record { key = refl; sender = refl; recipient = refl; fresh = omega arith },
              )
        | inr a_first ↦
            rw (low, a_first, sound.agrees ka kb)
              (
                record { key = refl; sender = refl; recipient = refl; fresh = omega arith },
                record { key = refl; sender = refl; recipient = refl; fresh = omega arith },
              )
      ]

  -- Two devices that answer one another's hellos each verify the other's as the other's own, and get
  -- channels that are matched in both directions.
  pub handshake_agree :
      ida.device_id ≢ idb.device_id
      → IsGenuine ida idb
      → IsGenuine idb ida
      → (verify_hello idb half_a.hello ≡ verified (peer_of ida))
        × (verify_hello ida half_b.hello ≡ verified (peer_of idb))
        × (a : SecureChannel crypto) × (b : SecureChannel crypto) × (establish_channel crypto ida
              half_a half_b.hello
              (peer_of idb)
            ≡ some a)
        × (establish_channel crypto idb half_b half_a.hello (peer_of ida) ≡ some b)
        × IsMatched a b
        × IsMatched b a
  unfolding establish_channel begin_handshake verify_hello
  handshake_agree differ ga gb =
      let (ab, ba) = IsMatched-ends differ in
      (
        rw
            (
              ga.derives,
              bytes_equal_refl idb.device_id,
              ga.verifies
                  (hello_signing_input (crypto.export_public ka) na ida.device_id idb.device_id),
            )
            refl,
        rw
            (
              gb.derives,
              bytes_equal_refl ida.device_id,
              gb.verifies
                  (hello_signing_input (crypto.export_public kb) nb idb.device_id ida.device_id),
            )
            refl,
        end_a,
        end_b,
        rw (sound.derives ka kb) refl,
        rw (sound.derives kb ka) refl,
        ab,
        ba,
      )
