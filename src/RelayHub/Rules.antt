-- ===== src/RelayHub/Rules.antt =====
-- ts/packages/core/src/domain/relay-hub.ts: its frames and options, and what its handler reads of the
-- adverts, the registrations and the pairings.
use wire_mesh.Prelude.{
  ℕ, Bool, true, false, List, [], ◌∷◌, ◌++◌, Option, none, some, Bytes, Text, text_eq, leb, ltb,
  ◌==◌, if◌then◌else◌,
}
use wire_mesh.Prelude.Maps.{lookup, insert}
use wire_mesh.PeerAdvert.{
  PeerAdvert, PeerAdvertVerifier, AdvertExtensionPolicy, check_advert_extensions,
}
use wire_mesh.Mailbox.{DataFrame, Handled}
use wire_mesh.RelayHub.{Registration, RelayHub, device_key, pairings_of}

pub data Frame : Type 0 where
  gossip : List PeerAdvert → Frame
  relay_connect : Bytes → Option Bytes → Frame
  relay_inbound : Bytes → Option Bytes → Frame
  relay_data : Bytes → Option Bytes → Option Bytes → Frame
  core_data : DataFrame → Frame
  ping pong unrelated : Frame

pub record RelayHubOptions (S : Type 0) : Type 0 where
  pub identity : PeerAdvertVerifier
  pub extension_policy : Option AdvertExtensionPolicy
  pub mailbox : Option (S → Option Bytes → DataFrame → Option (Handled S))

-- The hub and the mailbox's storage after a frame, the frames sent to connections in order, those
-- for which `stateChanged` was called, and whether the handler threw.
pub record Outcome (S : Type 0) : Type 0 where
  pub hub : RelayHub
  pub store : S
  pub sent : List (ℕ × Frame)
  pub changed : List ℕ
  pub thrown : Bool

unfoldable pub supersedes_registration : Registration → PeerAdvert → ℕ → Bool
supersedes_registration registered advert connection =
    if registered.connection == connection
    then leb registered.advert.content.snapshot_seconds advert.content.snapshot_seconds
    else ltb registered.advert.content.snapshot_seconds advert.content.snapshot_seconds

abbrev pub is_ok : Option Text → Bool
is_ok none = true
is_ok (some key) = false

abbrev pub is_carried : Option AdvertExtensionPolicy → PeerAdvert → Bool
is_carried none advert = true
is_carried (some policy) advert = is_ok (check_advert_extensions policy advert.content.extensions)

-- What the loop over a gossip frame's adverts gathers; a supplanted connection may stand twice.
pub record Gathered : Type 0 where
  pub devices : List (Text × Registration)
  pub supplanted : List ℕ
  pub accepted : List PeerAdvert

abbrev pub may_register : Option Registration → PeerAdvert → ℕ → Bool
may_register none advert connection = true
may_register (some previous) advert connection = supersedes_registration previous advert connection

abbrev pub supplanted_by : Option Registration → ℕ → List ℕ
supplanted_by none connection = []
supplanted_by (some previous) connection =
    if previous.connection == connection then [] else previous.connection ∷ []

unfoldable pub register_advert : ℕ → Gathered → PeerAdvert → Gathered
register_advert connection g advert =
    let key : Text = device_key advert.content.device in
    let previous : Option Registration = lookup text_eq key g.devices in
    if may_register previous advert connection
    then record {
      devices = insert text_eq key (record { connection = connection; advert = advert }) g.devices;
      supplanted = g.supplanted ++ supplanted_by previous connection;
      accepted = g.accepted ++ advert ∷ [];
    }
    else g

unfoldable pub first_device : List (Text × Registration) → ℕ → Option Bytes
first_device [] connection = none
first_device ((key, r) ∷ devices) connection =
    let rest = first_device devices connection in
    if r.connection == connection then some r.advert.content.device else rest

abbrev pub attributed : List (ℕ × Bytes) → ℕ → Option Bytes → List (ℕ × Bytes)
attributed connection_device connection none = connection_device
attributed connection_device connection (some device) =
    insert ◌==◌ connection device connection_device

unfoldable pub forward_to : List ℕ → ℕ → Frame → List (ℕ × Frame)
forward_to [] connection frame = []
forward_to (c ∷ connections) connection frame =
    let rest = forward_to connections connection frame in
    if c == connection then rest else (c, frame) ∷ rest

-- The adverts of the devices that other connections registered.
unfoldable pub catch_up : List (Text × Registration) → ℕ → List PeerAdvert
catch_up [] connection = []
catch_up ((key, r) ∷ devices) connection =
    let rest = catch_up devices connection in
    if r.connection == connection then rest else r.advert ∷ rest

abbrev pub is_uplink : Option ℕ → ℕ → Bool
is_uplink none connection = false
is_uplink (some uplink) connection = uplink == connection

abbrev pub catch_up_frames : ℕ → Bool → List PeerAdvert → List (ℕ × Frame)
catch_up_frames connection up [] = []
catch_up_frames connection up (advert ∷ adverts) =
    if up then [] else (connection, gossip (advert ∷ adverts)) ∷ []

abbrev pub fronts : Option Registration → ℕ → Bool
fronts none connection = false
fronts (some r) connection = r.connection == connection

unfoldable pub initiator_of : RelayHub → ℕ → Option Bytes → Option Bytes
initiator_of hub connection none = lookup ◌==◌ connection hub.connection_device
initiator_of hub connection (some claimed) =
    if fronts (lookup text_eq (device_key claimed) hub.devices) connection
    then some claimed
    else none

-- The peer that relayed data goes to.
unfoldable pub peer_for : RelayHub → ℕ → Option Bytes → Option ℕ
peer_for hub connection none = lookup ◌==◌ connection hub.most_recent_pairing
peer_for hub connection (some to) = lookup text_eq (device_key to) (pairings_of hub connection)

abbrev pub leads_to : Option ℕ → ℕ → Bool
leads_to none connection = false
leads_to (some c) connection = c == connection

abbrev pub is_paired_as : RelayHub → ℕ → ℕ → Option Bytes → Bool
is_paired_as hub connection peer none = true
is_paired_as hub connection peer (some claimed) =
    leads_to (lookup text_eq (device_key claimed) (pairings_of hub peer)) connection
