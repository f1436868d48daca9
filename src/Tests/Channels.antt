-- ===== src/Tests/Channels.antt =====
-- Secure channels (secure-channel.ts), over a cipher that writes out its key.
use wire_mesh.Prelude.{
  ℕ, ◌+◌, ◌≡◌, refl, ap, true, List, [], ◌∷◌, ◌++◌, Option, some, none, Bytes, ◌==◌, arith,
  if◌then◌else◌,
}
use wire_mesh.SecureChannel.{
  PendingHandshake, Crypto, FrameCodec, Identity, SecureChannel, SecureDataFrame, seal_at,
  verify_hello, verified, establish_channel,
}
use wire_mesh.SecureChannel.Replay.{open_all, Ascend, open_all-Ascend}
use wire_mesh.SecureChannel.Agreement.{
  IsSound, IsGenuine, IsMatched, peer_of, half_a, half_b, handshake_agree,
}
use wire_mesh.SecureChannel.Delivery.{
  Transit, deliver, lose, inject, arriving, delivered, frames, open_all-arriving,
}

unfoldable pub strip : Bytes → Bytes → Option Bytes
strip [] c = some c
strip (x ∷ p) [] = none
strip (x ∷ p) (y ∷ c) = let rest = strip p c in if x == y then rest else none

strip-append : (p c : Bytes) → strip p (p ++ c) ≡ some c
unfolding strip
strip-append [] c = refl
strip-append (x ∷ p) c = ground (arith, strip-append p c)

abbrev shared_bits : ℕ → Bytes → Option Bytes
shared_bits p [] = none
shared_bits p (q ∷ rest) = some ((p + q) ∷ [])

abbrev pub plain : Crypto
plain = record {
  PrivateKey = ℕ;
  export_public = λ p. p ∷ [];
  derive_bits = shared_bits;
  derive_key = λ secret salt info. secret ++ salt ++ info;
  encrypt = λ key iv ad plaintext. (key ++ iv ++ ad) ++ plaintext;
  decrypt = λ key iv ad ciphertext. strip (key ++ iv ++ ad) ciphertext;
}

plain-IsSound : IsSound plain
plain-IsSound = record {
  secret = λ p q. (p + q) ∷ [];
  derives = λ p q. refl;
  agrees = λ p q. ap (λ (n : ℕ). n ∷ []) (omega arith);
  decrypts = λ key iv ad plaintext. strip-append (key ++ iv ++ ad) plaintext;
}

-- Frames are bytes.
abbrev pub bytes_codec : FrameCodec
bytes_codec = record { Frame = Bytes; message_from_frame = λ f. f; try_decode_frame = λ f. some f }

-- A device's id is its public key, and a message is its own signature.
abbrev pub device : ℕ → Identity
device n = record {
  device_id = n ∷ [];
  identity_key = record { alg = 7; public_key = n ∷ [] };
  sign = λ m. m;
  verify = λ key m s. some true;
  derive_device_id = λ k. some k;
}

IsGenuine-device : (n m : ℕ) → IsGenuine (device n) (device m)
IsGenuine-device n m = record { derives = refl; verifies = λ message. refl }

abbrev half_1 : PendingHandshake plain
half_1 = half_a plain plain-IsSound (device 1) (device 2) 5 6 (8 ∷ []) (9 ∷ [])

abbrev half_2 : PendingHandshake plain
half_2 = half_b plain plain-IsSound (device 1) (device 2) 5 6 (8 ∷ []) (9 ∷ [])

handshake_agree_example :
    (verify_hello (device 2) half_1.hello ≡ verified (peer_of (device 1)))
    × (verify_hello (device 1) half_2.hello ≡ verified (peer_of (device 2)))
    × (a : SecureChannel plain) × (b : SecureChannel plain) × (establish_channel plain
          (device 1)
          half_1
          half_2.hello
          (peer_of (device 2))
        ≡ some a)
    × (establish_channel plain (device 2) half_2 half_1.hello (peer_of (device 1)) ≡ some b)
    × IsMatched a b
    × IsMatched b a
handshake_agree_example =
    handshake_agree plain plain-IsSound (device 1) (device 2) 5 6 (8 ∷ []) (9 ∷ []) (ground arith)
      (IsGenuine-device 1 2) (IsGenuine-device 2 1)

abbrev channel : ℕ → ℕ → Bytes → Bytes → SecureChannel plain
channel own peer send receive = record {
  own = own ∷ [];
  peer = peer_of (device peer);
  send_key = send;
  receive_key = receive;
  next_send_counter = 0;
  least_acceptable = 0;
}

abbrev a_end : SecureChannel plain
a_end = channel 1 2 (11 ∷ []) (12 ∷ [])

abbrev b_end : SecureChannel plain
b_end = channel 2 1 (12 ∷ []) (11 ∷ [])

-- One frame delivered, one lost, some bytes that nobody sealed, and another frame delivered.
abbrev way : List (Transit Bytes)
way =
    deliver (21 ∷ [])
    ∷ lose (22 ∷ [])
    ∷ inject (record { counter = 1; ciphertext = 99 ∷ [] })
    ∷ deliver (23 ∷ [])
    ∷ []

open_all-arriving_example :
    frames plain bytes_codec
      (open_all plain bytes_codec b_end (arriving plain bytes_codec a_end way))
    ≡ (21 ∷ []) ∷ (23 ∷ []) ∷ []
unfolding delivered strip
open_all-arriving_example =
    open_all-arriving plain bytes_codec plain-IsSound (λ f. refl) a_end b_end way
      (record { key = refl; sender = refl; recipient = refl; fresh = omega arith }) (omega arith)
      (tt, (tt, (refl, (tt, tt))))

abbrev sealed : SecureDataFrame
sealed = seal_at plain bytes_codec a_end (21 ∷ []) 0

open_all-Ascend_example :
    Ascend plain bytes_codec 0 (open_all plain bytes_codec b_end (sealed ∷ sealed ∷ []))
open_all-Ascend_example = open_all-Ascend plain bytes_codec b_end (sealed ∷ sealed ∷ [])
