-- ===== src/Tests/Sessions.antt =====
-- The secure channels of a session (relay-channels.ts).
use wire_mesh.Prelude.{◌≡◌, refl, true, false, List, [], ◌∷◌, Option, some, none, Bytes, text_eq}
use wire_mesh.Prelude.Maps.{lookup}
use wire_mesh.DeviceId.{device_id_to_hex}
use wire_mesh.Scope.{bytes_equal, same_items}
use wire_mesh.SecureChannel.{
  SecureChannel, SecureDataFrame, PendingHandshake, begin_handshake, hello_signing_input,
  channel_with, derive_direction_key, sorts_first, verify_hello, verified, establish_channel,
  seal_at,
}
use wire_mesh.SecureChannel.Agreement.{peer_of}
use wire_mesh.RelayChannels.{
  RelayChannels, create_relay_channels, Event, ensured, hello_came, completed, sent, run,
  is_settled, established,
}
use wire_mesh.RelayChannels.Lost.{cut_off, cut_off-never_settled}
use wire_mesh.Tests.Channels.{plain, bytes_codec, device}

abbrev half_1 : PendingHandshake plain
half_1 = begin_handshake plain (device 1) (2 ∷ []) 5 (8 ∷ [])

abbrev half_2 : PendingHandshake plain
half_2 = begin_handshake plain (device 2) (1 ∷ []) 6 (9 ∷ [])

-- What device 2 derives of the hello of device 1.
abbrev channel_of : Option (SecureChannel plain) → SecureChannel plain
channel_of none = record {
  own = [];
  peer = peer_of (device 1);
  send_key = [];
  receive_key = [];
  next_send_counter = 0;
  least_acceptable = 0;
}
channel_of (some channel) = channel

abbrev at_1 : SecureChannel plain
at_1 = channel_of (establish_channel plain (device 1) half_1 half_2.hello (peer_of (device 2)))

abbrev at_2 : SecureChannel plain
at_2 = channel_of (establish_channel plain (device 2) half_2 half_1.hello (peer_of (device 1)))

abbrev opening : List (Event plain (device 2) bytes_codec)
opening =
    ensured (1 ∷ []) (6, 9 ∷ [])
    ∷ sent 0 true
    ∷ hello_came half_1.hello (7, 9 ∷ [])
    ∷ completed 0
    ∷ []

abbrev arrived : SecureDataFrame
arrived = seal_at plain bytes_codec at_1 (21 ∷ []) 0

abbrev sessions : RelayChannels plain
sessions = run plain (device 2) bytes_codec (create_relay_channels plain) opening

abbrev one : Bytes
one = 1 ∷ []

verifies : verify_hello (device 2) half_1.hello ≡ verified (peer_of (device 1))
unfolding bytes_equal same_items verify_hello begin_handshake hello_signing_input
verifies = refl

establishes :
    establish_channel plain (device 2) half_2 half_1.hello (peer_of (device 1)) ≡ some at_2
unfolding bytes_equal same_items verify_hello begin_handshake hello_signing_input sorts_first
    establish_channel channel_with derive_direction_key
establishes = refl

cut_off-never_settled_example :
    (lookup text_eq
        (device_id_to_hex (1 ∷ []))
        (run plain (device 2) bytes_codec (create_relay_channels plain) (
          cut_off plain
            (device 2)
            bytes_codec
            (1 ∷ [])
            half_1.hello
            (6, 9 ∷ [])
            (7, 9 ∷ [])
            (8, 9 ∷ []))).channels
      ≡ some (established at_2))
    × (is_settled
          (run plain
            (device 2)
            bytes_codec
            (run plain (device 2) bytes_codec (create_relay_channels plain) (
              cut_off plain
                (device 2)
                bytes_codec
                (1 ∷ [])
                half_1.hello
                (6, 9 ∷ [])
                (7, 9 ∷ [])
                (8, 9 ∷ [])))
            opening).settled
          1
        ≡ false)
cut_off-never_settled_example =
    cut_off-never_settled plain (device 2) bytes_codec half_1.hello (peer_of (device 1)) at_2
      (6, 9 ∷ []) (7, 9 ∷ []) (8, 9 ∷ []) opening verifies establishes
