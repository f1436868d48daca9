-- ===== src/RelayChannels.antt =====
-- ts/packages/core/src/domain/relay-channels.ts: the secure channels of a session, one for each peer,
-- and the handshakes that open them. Where the program awaits, other calls come in between: putting
-- a hello on the wire, and completing a handshake once a hello is verified, are steps of their own.
pub mod Forgotten
pub mod Lost
pub mod Checked
pub mod Keyed
pub mod Pairings
use wire_mesh.Prelude.{
  ℕ, zero, suc, ◌+◌, Bool, true, false, List, [], ◌∷◌, ◌++◌, Option, none, some, Bytes, Text,
  text_eq, ◌==◌, if◌then◌else◌,
}
use wire_mesh.Prelude.Maps.{lookup, insert, erase}
use wire_mesh.DeviceId.{device_id_to_hex}
use wire_mesh.SecureChannel.{
  Crypto, FrameCodec, Identity, SecureHelloFrame, SecureDataFrame, SecureChannelPeer, HelloVerdict,
  verified, refused, verify_hello, PendingHandshake, begin_handshake, SecureChannel,
  establish_channel, open_one,
}

pub data HandshakeSettlement : Type 0 where
  resolved rejected : HandshakeSettlement

abbrev pub is_settled : List (ℕ × HandshakeSettlement) → ℕ → Bool
is_settled [] id = false
is_settled ((i, outcome) ∷ settled) id = if i == id then true else is_settled settled id

module _ (crypto : Crypto) where
  -- An entry that awaits is named by a number, as its promise is.
  pub data ChannelState : Type 0 where
    awaiting : ℕ → PendingHandshake crypto → ChannelState
    established : SecureChannel crypto → ChannelState

  -- A verified hello, between reading the entry that it completes and the channel that comes of it.
  pub record Completion : Type 0 where
    pub id : ℕ
    pub pending : PendingHandshake crypto
    pub hello : SecureHelloFrame
    pub peer : SecureChannelPeer

  -- `sending` holds the entries whose hello is under way to the wire.
  pub record RelayChannels : Type 0 where
    pub channels : List (Text × ChannelState)
    pub next_id : ℕ
    pub settled : List (ℕ × HandshakeSettlement)
    pub sending : List (ℕ × Text)
    pub completing : List Completion

  unfoldable pub create_relay_channels : RelayChannels
  create_relay_channels = record {
    channels = [];
    next_id = 0;
    settled = [];
    sending = [];
    completing = [];
  }

  abbrev pub Random : Type 0
  Random = crypto.PrivateKey × Bytes

  module _ (identity : Identity) where
    abbrev pub entry_for : RelayChannels → Bytes → Random → ChannelState
    entry_for s peer (private_key, nonce) =
        awaiting s.next_id (begin_handshake crypto identity peer private_key nonce)

    unfoldable pub start : RelayChannels → Bytes → Random → RelayChannels
    start s peer random = record s {
      channels = insert text_eq (device_id_to_hex peer) (entry_for s peer random) s.channels;
      next_id = suc s.next_id;
      sending = s.sending ++ (s.next_id, device_id_to_hex peer) ∷ [];
    }

    abbrev pub start_if_none : RelayChannels → Bytes → Random → Option ChannelState → RelayChannels
    start_if_none s peer random none = start s peer random
    start_if_none s peer random (some entry) = s

    -- The promise is that of the entry then current.
    unfoldable pub ensure : RelayChannels → Bytes → Random → RelayChannels
    ensure s peer random =
        start_if_none s peer random (lookup text_eq (device_id_to_hex peer) s.channels)

    abbrev pub complete_with :
        RelayChannels
        → ℕ
        → PendingHandshake crypto
        → SecureHelloFrame
        → SecureChannelPeer
        → RelayChannels
    complete_with s id pending hello peer = record s {
      completing =
          s.completing ++ record { id = id; pending = pending; hello = hello; peer = peer } ∷ [];
    }

    abbrev pub complete_current :
        RelayChannels
        → SecureHelloFrame
        → SecureChannelPeer
        → Random
        → Option ChannelState
        → RelayChannels
    complete_current s hello peer (private_key, nonce) none =
        complete_with (start s peer.device_id (private_key, nonce)) s.next_id
          (begin_handshake crypto identity peer.device_id private_key nonce) hello peer
    complete_current s hello peer (private_key, nonce) (some (established channel)) =
        complete_with (start s peer.device_id (private_key, nonce)) s.next_id
          (begin_handshake crypto identity peer.device_id private_key nonce) hello peer
    complete_current s hello peer random (some (awaiting id pending)) =
        complete_with s id pending hello peer

    abbrev pub apply_verdict :
        RelayChannels → SecureHelloFrame → Random → HelloVerdict → RelayChannels
    apply_verdict s hello random (refused reason) = s
    apply_verdict s hello random (verified peer) =
        complete_current s hello peer random
          (lookup text_eq (device_id_to_hex peer.device_id) s.channels)

    -- `applyHello` up to the entry that it completes.
    unfoldable pub apply_hello : RelayChannels → SecureHelloFrame → Random → RelayChannels
    apply_hello s hello random = apply_verdict s hello random (verify_hello identity hello)

    abbrev pub is_entry : ℕ → Option ChannelState → Bool
    is_entry id none = false
    is_entry id (some (established channel)) = false
    is_entry id (some (awaiting i pending)) = i == id

    -- Rejecting an entry, and forgetting it where it is still the current one.
    unfoldable pub abandon : RelayChannels → Text → ℕ → RelayChannels
    abandon s key id = record s {
      settled = s.settled ++ (id, rejected) ∷ [];
      channels =
          (if is_entry id (lookup text_eq key s.channels)
            then erase text_eq key s.channels
            else s.channels);
    }

    abbrev pub settle_completion :
        RelayChannels → Completion → Option (SecureChannel crypto) → RelayChannels
    settle_completion s c none = abandon s (device_id_to_hex c.peer.device_id) c.id
    settle_completion s c (some channel) = record s {
      channels =
          insert text_eq (device_id_to_hex c.peer.device_id) (established channel) s.channels;
      settled = s.settled ++ (c.id, resolved) ∷ [];
    }

    abbrev pub complete_taken : RelayChannels → List Completion → List Completion → RelayChannels
    complete_taken s before [] = s
    complete_taken s before (c ∷ after) =
        settle_completion (record s { completing = before ++ after }) c
          (establish_channel crypto identity c.pending c.hello c.peer)

    abbrev pub split_completing : ℕ → List Completion → List Completion × List Completion
    split_completing zero l = ([], l)
    split_completing (suc n) [] = ([], [])
    split_completing (suc n) (c ∷ l) = (c ∷ (split_completing n l).0, (split_completing n l).1)

    -- The rest of `applyHello`, for the one of those under way that comes to its end.
    unfoldable pub complete : RelayChannels → ℕ → RelayChannels
    complete s n =
        complete_taken s (split_completing n s.completing).0 (split_completing n s.completing).1

    unfoldable pub without_sending : List (ℕ × Text) → ℕ → List (ℕ × Text)
    without_sending [] id = []
    without_sending ((i, key) ∷ sending) id =
        let rest = without_sending sending id in if i == id then rest else (i, key) ∷ rest

    abbrev pub fail_sending : RelayChannels → ℕ → Option Text → RelayChannels
    fail_sending s id none = s
    fail_sending s id (some key) = abandon s key id

    -- A hello that was under way reached the wire, or did not.
    unfoldable pub hello_sent : RelayChannels → ℕ → Bool → RelayChannels
    hello_sent s id reached =
        let left : RelayChannels = record s { sending = without_sending s.sending id } in
        if reached then left else fail_sending left id (lookup ◌==◌ id s.sending)

    unfoldable pub abandoned_entries : List (Text × ChannelState) → List (ℕ × HandshakeSettlement)
    abandoned_entries [] = []
    abandoned_entries ((key, awaiting id pending) ∷ channels) =
        (id, rejected) ∷ abandoned_entries channels
    abandoned_entries ((key, established channel) ∷ channels) = abandoned_entries channels

    unfoldable pub reset : RelayChannels → RelayChannels
    reset s = record s { channels = []; settled = s.settled ++ abandoned_entries s.channels }

    abbrev pub rejection_of : Option ChannelState → List (ℕ × HandshakeSettlement)
    rejection_of none = []
    rejection_of (some (established channel)) = []
    rejection_of (some (awaiting id pending)) = (id, rejected) ∷ []

    unfoldable pub forget : RelayChannels → Bytes → RelayChannels
    forget s peer =
        let key : Text = device_id_to_hex peer in
        record s {
          channels = erase text_eq key s.channels;
          settled = s.settled ++ rejection_of (lookup text_eq key s.channels);
        }

    module _ (codec : FrameCodec) where
      abbrev pub opened_from :
          RelayChannels
          → Text
          → SecureChannelPeer
          → SecureChannel crypto × Option codec.Frame
          → RelayChannels × Option (codec.Frame × Bytes)
      opened_from s key peer (channel, none) =
          (record s { channels = insert text_eq key (established channel) s.channels }, none)
      opened_from s key peer (channel, some frame) = (
        record s { channels = insert text_eq key (established channel) s.channels },
        some (frame, peer.device_id),
      )

      abbrev pub open_with :
          RelayChannels
          → Text
          → SecureDataFrame
          → Option ChannelState
          → RelayChannels × Option (codec.Frame × Bytes)
      open_with s key sealed none = (s, none)
      open_with s key sealed (some (awaiting id pending)) = (s, none)
      open_with s key sealed (some (established channel)) =
          opened_from s key channel.peer (open_one crypto codec channel sealed)

      -- `open`, with the state of the channel that it advances.
      unfoldable pub open_from :
          RelayChannels
          → SecureDataFrame
          → Option Bytes
          → RelayChannels × Option (codec.Frame × Bytes)
      open_from s sealed none = (s, none)
      open_from s sealed (some claimed) =
          open_with s (device_id_to_hex claimed) sealed
            (lookup text_eq (device_id_to_hex claimed) s.channels)

      pub data Event : Type 0 where
        ensured : Bytes → Random → Event
        hello_came : SecureHelloFrame → Random → Event
        completed : ℕ → Event
        sent : ℕ → Bool → Event
        data_came : SecureDataFrame → Option Bytes → Event
        was_reset : Event
        forgotten : Bytes → Event

      unfoldable pub step : RelayChannels → Event → RelayChannels
      step s (ensured peer random) = ensure s peer random
      step s (hello_came hello random) = apply_hello s hello random
      step s (completed n) = complete s n
      step s (sent id reached) = hello_sent s id reached
      step s (data_came sealed claimed) = (open_from s sealed claimed).0
      step s was_reset = reset s
      step s (forgotten peer) = forget s peer

      unfoldable pub run : RelayChannels → List Event → RelayChannels
      run s [] = s
      run s (e ∷ events) = run (step s e) events
