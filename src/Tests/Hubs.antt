-- ===== src/Tests/Hubs.antt =====
-- A relay hub at work (relay-hub.ts).
use wire_mesh.Prelude.{
  Text, List, ℕ, ◌≡◌, refl, Bool, true, false, [], ◌∷◌, none, some, text, text_eq, any, arith, ◌==◌,
  ◌⊎◌,
}
use wire_mesh.Prelude.Maps.{lookup, insert, erase}
use wire_mesh.Scope.{bytes_equal, same_items}
use wire_mesh.DeviceId.{bytes_to_hex, hex_digit}
use wire_mesh.PeerAdvert.{
  PeerAdvert, PeerAdvertVerifier, verify_peer_advert, check_peer_advert, peer_advert_signing_input,
}
use wire_mesh.RelayHub.{
  RelayHub, Registration, create_relay_hub, register_connection, pairings_of, forget_connection,
  device_key, export_connection, add_pairing, set_pairing, forget_registrations, forget_at_peers,
  forget_at, without_peer, without_registrations, without_item,
}
use wire_mesh.RelayHub.Handler.{
  handle_frame, serve_frame, handle_gossip, register_adverts, consider_advert, is_acceptable,
}
use wire_mesh.RelayHub.Rules.{
  gossip, relay_connect, relay_data, RelayHubOptions, register_advert, first_device, initiator_of,
  supersedes_registration, peer_for,
}
use wire_mesh.RelayHub.Held.{is_told}
use wire_mesh.RelayHub.Forgetting.{serve_frame_told}
use wire_mesh.RelayHub.Registry.{IsKeptOrRenewed, handle_frame-IsKeptOrRenewed}
use wire_mesh.RelayHub.Runs.{HubEvent, joins, sends, hub_after, hub_step}
use wire_mesh.RelayHub.Fronted.{names}
use wire_mesh.RelayHub.Dangling.{IsTakenOver, left, forget_connection_dangling}

-- Keys are device ids, and every signature verifies.
abbrev trusting : PeerAdvertVerifier
trusting = record {
  verify = λ key m s. some true;
  derive_device_id = λ key. some key;
  encode = λ advert. some [];
}

abbrev options : RelayHubOptions (Unit {0})
options = record { identity = trusting; extension_policy = none; mailbox = none }

abbrev advert : ℕ → ℕ → PeerAdvert
advert device seconds = record {
  content = record {
    device = device ∷ [];
    addresses = [];
    snapshot_seconds = seconds;
    identity_key = record { alg = 7; public_key = device ∷ [] };
    extensions = [];
  };
  signature = [];
}

abbrev never : ℕ → Bool
never c = false

hub_runs : Unit {0}
unfolding handle_frame handle_gossip register_adverts consider_advert is_acceptable
    verify_peer_advert check_peer_advert peer_advert_signing_input register_advert device_key
    bytes_to_hex hex_digit first_device initiator_of register_connection create_relay_hub lookup
    insert text_eq add_pairing set_pairing bytes_equal same_items supersedes_registration peer_for
    serve_frame forget_connection forget_registrations forget_at_peers forget_at without_peer erase
    without_registrations without_item pairings_of
hub_runs = tt

-- Connections 1 and 2, of the devices 11 and 12, which are paired; and 3, which has said nothing.
abbrev hub : RelayHub
hub = record {
  connections = 1 ∷ 2 ∷ 3 ∷ [];
  uplink = none;
  devices =
      (text "0b", record { connection = 1; advert = advert 11 5 })
      ∷ (text "0c", record { connection = 2; advert = advert 12 5 })
      ∷ [];
  connection_device = (1, 11 ∷ []) ∷ (2, 12 ∷ []) ∷ [];
  pairings = (1, (text "0c", 2) ∷ []) ∷ (2, (text "0b", 1) ∷ []) ∷ [];
  most_recent_pairing = (1, 2) ∷ (2, 1) ∷ [];
}

abbrev joined : RelayHub
joined = register_connection (register_connection (register_connection create_relay_hub 1) 2) 3

abbrev first : RelayHub
first = (handle_frame options never joined tt 1 (gossip (advert 11 5 ∷ []))).hub

abbrev second : RelayHub
second = (handle_frame options never first tt 2 (gossip (advert 12 5 ∷ []))).hub

hub_run : (handle_frame options never second tt 1 (relay_connect (12 ∷ []) none)).hub ≡ hub
unfolding hub_runs
hub_run = refl

-- Connection 3 replays the advert of device 12, and then brings a newer one.
replayed : (handle_frame options never hub tt 3 (gossip (advert 12 5 ∷ []))).hub ≡ hub
unfolding hub_runs
replayed = refl

abbrev registered : Registration
registered = record { connection = 2; advert = advert 12 5 }

found : lookup text_eq (text "0c") hub.devices ≡ some registered
unfolding hub_runs
found = refl

handle_frame-IsKeptOrRenewed_example : IsKeptOrRenewed options (text "0c") registered 3 (
    lookup text_eq
      (text "0c")
      (handle_frame options never hub tt 3 (gossip (advert 12 6 ∷ []))).hub.devices)
handle_frame-IsKeptOrRenewed_example =
    handle_frame-IsKeptOrRenewed options never hub tt 3 (text "0c") registered
      (gossip (advert 12 6 ∷ [])) found (ground arith)

-- How `hub` came about; then connection 1 relays to device 12.
abbrev history : List HubEvent
history =
    joins 1
    ∷ joins 2
    ∷ joins 3
    ∷ sends never 1 (gossip (advert 11 5 ∷ []))
    ∷ sends never 2 (gossip (advert 12 5 ∷ []))
    ∷ sends never 1 (relay_connect (12 ∷ []) none)
    ∷ []

history_run : (hub_after options (create_relay_hub, tt) history).0 ≡ hub
unfolding hub_runs hub_after hub_step
history_run = refl

-- A send to connection 2 fails, so connection 1 is dropped.
not_told :
    is_told (serve_frame options (λ c. c == 2) hub tt 1 (relay_data [] none none)).changed 3 ≡ false
unfolding hub_runs
not_told = refl

serve_frame_told_example :
    export_connection (serve_frame options (λ c. c == 2) hub tt 1 (relay_data [] none none)).hub 3
    ≡ export_connection hub 3
serve_frame_told_example =
    serve_frame_told options (λ c. c == 2) hub tt 1 (relay_data [] none none) 3 (ground arith)
      not_told

-- Device 12 has moved to connection 3.
abbrev moved : RelayHub
moved = (handle_frame options never hub tt 3 (gossip (advert 12 6 ∷ []))).hub

moved-IsTakenOver :
    IsTakenOver moved 1 2 (11 ∷ []) (12 ∷ []) (record { connection = 3; advert = advert 12 6 })
unfolding hub_runs
moved-IsTakenOver = record {
  ours = refl;
  theirs = refl;
  moved = refl;
  names = refl;
  attributed = refl;
  client = refl;
  apart = ground arith;
  elsewhere = ground arith;
  other = ground arith;
}

forget_connection_dangling_example :
    (lookup text_eq (device_key (11 ∷ [])) (
        pairings_of
          (left options never moved tt 1 2
            (11 ∷ [])
            (12 ∷ [])
            (record { connection = 3; advert = advert 12 6 }))
          2)
      ≡ some 1)
    × (any
          (λ c. c == 1)
          (left options never moved tt 1 2
            (11 ∷ [])
            (12 ∷ [])
            (record { connection = 3; advert = advert 12 6 })).connections
        ≡ false)
forget_connection_dangling_example =
    forget_connection_dangling options never moved tt 1 2 (11 ∷ []) (12 ∷ [])
      (record { connection = 3; advert = advert 12 6 }) moved-IsTakenOver

-- Connection 2 has brought the advert of device 13 as well, and 1 is paired with it under that device.
abbrev fronting : RelayHub
fronting = record hub {
  devices =
      (text "0b", record { connection = 1; advert = advert 11 5 })
      ∷ (text "0c", record { connection = 2; advert = advert 12 5 })
      ∷ (text "0d", record { connection = 2; advert = advert 13 5 })
      ∷ [];
  pairings = (1, (text "0d", 2) ∷ []) ∷ (2, (text "0b", 1) ∷ []) ∷ [];
}

-- Of its connections, the paired two survive.
abbrev surviving : List ℕ
surviving = 1 ∷ 2 ∷ []

abbrev IsOneOf : ℕ → Text → Type 0
IsOneOf c key =
    ((c ≡ 1) × (text_eq (text "0b") key ≡ true)) ⊎ ((c ≡ 2) × (text_eq (text "0b") key ≡ false))
