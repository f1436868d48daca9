-- ===== src/SecureChannel.antt =====
-- ts/packages/core/src/domain/secure-channel.ts: the channel two devices open inside a relay pairing.
-- Seals and opens are chained by the program, so they run one after another here. The cryptography
-- of the platform, the identity and the codec of frames are parameters.
pub mod Counters
pub mod Replay
pub mod Agreement
pub mod Delivery
use wire_mesh.Prelude.{
  ◌^◌, ℕ, zero, suc, ◌+◌, ◌-◌, ◌/◌, ◌%◌, Bool, true, false, not, [], ◌∷◌, ◌++◌, Option, none, some,
  Bytes, text, ltb, ◌==◌, if◌then◌else◌,
}
use wire_mesh.Claims.{IdentityKey}
use wire_mesh.Scope.{bytes_equal}

-- A `number` counts exactly up to 2 ^ 53, and adding one to that leaves it as it is.
unfoldable pub incremented : ℕ → ℕ
incremented n = if ltb n (2 ^ 53) then n + 1 else n

-- `crypto.subtle` as the program uses it. A rejected promise is `none`.
pub record Crypto : Type 1 where
  pub PrivateKey : Type 0
  pub export_public : PrivateKey → Bytes
  pub derive_bits : PrivateKey → Bytes → Option Bytes
  pub derive_key : Bytes → Bytes → Bytes → Bytes
  pub encrypt : Bytes → Bytes → Bytes → Bytes → Bytes
  pub decrypt : Bytes → Bytes → Bytes → Bytes → Option Bytes

-- `messageFromFrame` and `tryDecodeFrame`.
pub record FrameCodec : Type 1 where
  pub Frame : Type 0
  pub message_from_frame : Frame → Bytes
  pub try_decode_frame : Bytes → Option Frame

-- The operations of `IdentityPort` that a handshake uses.
pub record Identity : Type 0 where
  pub device_id : Bytes
  pub identity_key : IdentityKey
  pub sign : Bytes → Bytes
  pub verify : IdentityKey → Bytes → Bytes → Option Bool
  pub derive_device_id : Bytes → Option Bytes

pub record SecureHelloFrame : Type 0 where
  pub ephemeral_key : Bytes
  pub nonce : Bytes
  pub identity_key : IdentityKey
  pub to_device : Bytes
  pub signature : Bytes

pub record SecureDataFrame : Type 0 where
  pub counter : ℕ
  pub ciphertext : Bytes

abbrev hello_context : Bytes
hello_context = text "wire-mesh/secure-hello/v1" ++ 0 ∷ []

abbrev channel_context : Bytes
channel_context = text "wire-mesh/secure-channel/v1" ++ 0 ∷ []

abbrev data_context : Bytes
data_context = text "wire-mesh/secure-data/v1" ++ 0 ∷ []

abbrev label_low_to_high : Bytes
label_low_to_high = text "lo-to-hi"

abbrev label_high_to_low : Bytes
label_high_to_low = text "hi-to-lo"

-- Whether `compareBytes` is negative.
unfoldable pub sorts_first : Bytes → Bytes → Bool
sorts_first [] [] = false
sorts_first [] (y ∷ b) = true
sorts_first (x ∷ a) [] = false
sorts_first (x ∷ a) (y ∷ b) = if x == y then sorts_first a b else ltb x y

-- `setBigUint64`, which keeps a counter modulo 2 ^ 64.
unfoldable pub big_endian : ℕ → ℕ → Bytes
big_endian zero n = []
big_endian (suc size) n = big_endian size (n / 256) ++ (n % 256) ∷ []

unfoldable pub counter_bytes : ℕ → Bytes
counter_bytes counter = big_endian 8 counter

unfoldable pub iv_for : ℕ → Bytes
iv_for counter = 0 ∷ 0 ∷ 0 ∷ 0 ∷ counter_bytes counter

unfoldable pub associated_data : Bytes → Bytes → ℕ → Bytes
associated_data sender recipient counter =
    data_context ++ sender ++ recipient ++ counter_bytes counter

unfoldable pub hello_signing_input : Bytes → Bytes → Bytes → Bytes → Bytes
hello_signing_input ephemeral_key nonce sender recipient =
    hello_context ++ ephemeral_key ++ nonce ++ sender ++ recipient

pub data HelloRefusal : Type 0 where
  identity_mismatch wrong_recipient bad_signature : HelloRefusal

pub record SecureChannelPeer : Type 0 where
  pub device_id : Bytes
  pub identity_key : IdentityKey

pub data HelloVerdict : Type 0 where
  verified : SecureChannelPeer → HelloVerdict
  refused : HelloRefusal → HelloVerdict

abbrev signature_verdict : Bytes → IdentityKey → Option Bool → HelloVerdict
signature_verdict sender key none = refused identity_mismatch
signature_verdict sender key (some true) =
    verified (record { device_id = sender; identity_key = key })
signature_verdict sender key (some false) = refused bad_signature

abbrev hello_from : Identity → SecureHelloFrame → Option Bytes → HelloVerdict
hello_from identity hello none = refused identity_mismatch
hello_from identity hello (some sender) =
    if not (bytes_equal hello.to_device identity.device_id)
    then refused wrong_recipient
    else signature_verdict sender hello.identity_key (
        identity.verify hello.identity_key
          (hello_signing_input hello.ephemeral_key hello.nonce sender identity.device_id)
          hello.signature)

unfoldable pub verify_hello : Identity → SecureHelloFrame → HelloVerdict
verify_hello identity hello =
    hello_from identity hello (identity.derive_device_id hello.identity_key.public_key)

module _ (crypto : Crypto) where
  pub record PendingHandshake : Type 0 where
    pub peer : Bytes
    pub hello : SecureHelloFrame
    pub private_key : crypto.PrivateKey

  -- The generated key pair and the random nonce are arguments.
  unfoldable pub begin_handshake : Identity → Bytes → crypto.PrivateKey → Bytes → PendingHandshake
  begin_handshake identity peer private_key nonce =
      let ephemeral_key : Bytes = crypto.export_public private_key in
      record {
        peer = peer;
        hello = record {
          ephemeral_key = ephemeral_key;
          nonce = nonce;
          identity_key = identity.identity_key;
          to_device = peer;
          signature =
              identity.sign (hello_signing_input ephemeral_key nonce identity.device_id peer);
        };
        private_key = private_key;
      }

  -- `highestReceived`, which starts at -1, is kept as the next counter that it lets through.
  pub record SecureChannel : Type 0 where
    pub own : Bytes
    pub peer : SecureChannelPeer
    pub send_key : Bytes
    pub receive_key : Bytes
    pub next_send_counter : ℕ
    pub least_acceptable : ℕ

  unfoldable pub derive_direction_key : Bytes → Bytes → Bytes → Bytes → Bytes → Bytes
  derive_direction_key secret salt low high label =
      crypto.derive_key secret salt (channel_context ++ low ++ high ++ label)

  unfoldable pub channel_with :
      Identity → PendingHandshake → SecureHelloFrame → SecureChannelPeer → Bytes → SecureChannel
  channel_with identity pending remote peer secret =
      let local_is_low : Bool = sorts_first identity.device_id peer.device_id in
      let low : Bytes = if local_is_low then identity.device_id else peer.device_id in
      let high : Bytes = if local_is_low then peer.device_id else identity.device_id in
      let low_nonce : Bytes = if local_is_low then pending.hello.nonce else remote.nonce in
      let high_nonce : Bytes = if local_is_low then remote.nonce else pending.hello.nonce in
      let salt : Bytes = low_nonce ++ high_nonce in
      let low_to_high : Bytes = derive_direction_key secret salt low high label_low_to_high in
      let high_to_low : Bytes = derive_direction_key secret salt low high label_high_to_low in
      record {
        own = identity.device_id;
        peer = peer;
        send_key = if local_is_low then low_to_high else high_to_low;
        receive_key = if local_is_low then high_to_low else low_to_high;
        next_send_counter = 0;
        least_acceptable = 0;
      }

  abbrev channel_for :
      Identity
      → PendingHandshake
      → SecureHelloFrame
      → SecureChannelPeer
      → Option Bytes
      → Option SecureChannel
  channel_for identity pending remote peer none = none
  channel_for identity pending remote peer (some secret) =
      some (channel_with identity pending remote peer secret)

  unfoldable pub establish_channel :
      Identity → PendingHandshake → SecureHelloFrame → SecureChannelPeer → Option SecureChannel
  establish_channel identity pending remote peer =
      channel_for identity pending remote peer
        (crypto.derive_bits pending.private_key remote.ephemeral_key)

  module _ (codec : FrameCodec) where
    unfoldable pub seal_at : SecureChannel → codec.Frame → ℕ → SecureDataFrame
    seal_at channel frame counter = record {
      counter = counter;
      ciphertext =
          crypto.encrypt channel.send_key (iv_for counter)
            (associated_data channel.own channel.peer.device_id counter)
            (codec.message_from_frame frame);
    }

    unfoldable pub seal : SecureChannel → codec.Frame → SecureChannel × SecureDataFrame
    seal channel frame = (
      record channel { next_send_counter = incremented channel.next_send_counter },
      seal_at channel frame channel.next_send_counter,
    )

    abbrev pub opened :
        SecureChannel → SecureDataFrame → Option Bytes → SecureChannel × Option codec.Frame
    opened channel sealed none = (channel, none)
    opened channel sealed (some plaintext) =
        (record channel { least_acceptable = sealed.counter + 1 }, codec.try_decode_frame plaintext)

    unfoldable pub open_one : SecureChannel → SecureDataFrame → SecureChannel × Option codec.Frame
    open_one channel sealed =
        if ltb sealed.counter channel.least_acceptable
        then (channel, none)
        else opened channel sealed (
            crypto.decrypt channel.receive_key (iv_for sealed.counter)
              (associated_data channel.peer.device_id channel.own sealed.counter) sealed.ciphertext)
