-- ===== src/RelayHub.antt =====
-- ts/packages/core/src/domain/relay-hub.ts: the state of a relay hub, and how connections enter and
-- leave it. A connection is a number. Each call runs to its end before the next.
pub mod Rules
pub mod Handler
pub mod Restore
pub mod OwnDevices
pub mod Exported
pub mod Fronted
pub mod Restored
pub mod Held
pub mod Notified
pub mod Forgetting
pub mod Registry
pub mod Routing
pub mod Runs
pub mod Vouched
pub mod Dangling
use wire_mesh.Prelude.{
  ℕ, ◌+◌, List, [], ◌∷◌, ◌++◌, Option, none, some, Bytes, Text, text_eq, ◌==◌, if◌then◌else◌, any,
}
use wire_mesh.Prelude.Maps.{lookup, insert, erase}
use wire_mesh.DeviceId.{bytes_to_hex}
use wire_mesh.PeerAdvert.{PeerAdvert}

pub record Registration : Type 0 where
  pub connection : ℕ
  pub advert : PeerAdvert

pub record RelayHub : Type 0 where
  pub connections : List ℕ
  pub uplink : Option ℕ
  pub devices : List (Text × Registration)
  pub connection_device : List (ℕ × Bytes)
  pub pairings : List (ℕ × List (Text × ℕ))
  pub most_recent_pairing : List (ℕ × ℕ)

unfoldable pub device_key : Bytes → Text
device_key device = bytes_to_hex device

unfoldable pub create_relay_hub : RelayHub
create_relay_hub = record {
  connections = [];
  uplink = none;
  devices = [];
  connection_device = [];
  pairings = [];
  most_recent_pairing = [];
}

abbrev pub or_empty : Option (List (Text × ℕ)) → List (Text × ℕ)
or_empty none = []
or_empty (some own) = own

-- A connection without a map has no pairings.
unfoldable pub pairings_of : RelayHub → ℕ → List (Text × ℕ)
pairings_of hub connection = or_empty (lookup ◌==◌ connection hub.pairings)

unfoldable pub set_pairing : List (ℕ × List (Text × ℕ)) → ℕ → Text → ℕ → List (ℕ × List (Text × ℕ))
set_pairing pairings connection key peer =
    insert ◌==◌ connection (insert text_eq key peer (or_empty (lookup ◌==◌ connection pairings)))
      pairings

unfoldable pub add_pairing : RelayHub → ℕ → Bytes → ℕ → Bytes → RelayHub
add_pairing hub a a_device b b_device = record hub {
  pairings =
      set_pairing (set_pairing hub.pairings a (device_key b_device) b) b (device_key a_device) a;
  most_recent_pairing = insert ◌==◌ b a (insert ◌==◌ a b hub.most_recent_pairing);
}

unfoldable pub without_peer : List (Text × ℕ) → ℕ → List (Text × ℕ)
without_peer [] connection = []
without_peer ((key, paired) ∷ own) connection =
    let rest = without_peer own connection in
    if paired == connection then rest else (key, paired) ∷ rest

abbrev pub forget_pairings_with :
    List (ℕ × List (Text × ℕ)) → ℕ → ℕ → Option (List (Text × ℕ)) → List (ℕ × List (Text × ℕ))
forget_pairings_with pairings connection peer none = pairings
forget_pairings_with pairings connection peer (some own) =
    insert ◌==◌ peer (without_peer own connection) pairings

abbrev pub forget_most_recent : List (ℕ × ℕ) → ℕ → ℕ → Option ℕ → List (ℕ × ℕ)
forget_most_recent recent connection peer none = recent
forget_most_recent recent connection peer (some other) =
    if other == connection then erase ◌==◌ peer recent else recent

-- One round of the loop over the pairings of a connection that leaves.
unfoldable pub forget_at : RelayHub → ℕ → ℕ → RelayHub
forget_at hub connection peer = record hub {
  pairings = forget_pairings_with hub.pairings connection peer (lookup ◌==◌ peer hub.pairings);
  most_recent_pairing =
      forget_most_recent hub.most_recent_pairing connection peer
        (lookup ◌==◌ peer hub.most_recent_pairing);
}

unfoldable pub forget_at_peers : RelayHub → ℕ → List (Text × ℕ) → RelayHub
forget_at_peers hub connection [] = hub
forget_at_peers hub connection ((key, peer) ∷ own) =
    forget_at_peers (forget_at hub connection peer) connection own

unfoldable pub without_registrations : List (Text × Registration) → ℕ → List (Text × Registration)
without_registrations [] connection = []
without_registrations ((key, r) ∷ devices) connection =
    let rest = without_registrations devices connection in
    if r.connection == connection then rest else (key, r) ∷ rest

unfoldable pub without_item : List ℕ → ℕ → List ℕ
without_item [] connection = []
without_item (c ∷ connections) connection =
    let rest = without_item connections connection in if c == connection then rest else c ∷ rest

abbrev pub unless_is : Option ℕ → ℕ → Option ℕ
unless_is none connection = none
unless_is (some c) connection = if c == connection then none else some c

abbrev pub peers : List (Text × ℕ) → List ℕ
peers [] = []
peers ((key, peer) ∷ own) = peer ∷ peers own

-- The first half, up to the loop over pairings.
unfoldable pub forget_registrations : RelayHub → ℕ → RelayHub
forget_registrations hub connection = record hub {
  connections = without_item hub.connections connection;
  devices = without_registrations hub.devices connection;
  connection_device = erase ◌==◌ connection hub.connection_device;
  most_recent_pairing = erase ◌==◌ connection hub.most_recent_pairing;
  uplink = unless_is hub.uplink connection;
}

-- The hub, and the connections for which `stateChanged` was called.
unfoldable pub forget_connection : RelayHub → ℕ → RelayHub × List ℕ
forget_connection hub connection =
    let own : List (Text × ℕ) = pairings_of hub connection in
    let forgotten : RelayHub =
      forget_at_peers (forget_registrations hub connection) connection own in
    (record forgotten { pairings = erase ◌==◌ connection forgotten.pairings }, peers own)

unfoldable pub register_connection : RelayHub → ℕ → RelayHub
register_connection hub connection =
    if any (λ c. c == connection) hub.connections
    then hub
    else record hub { connections = hub.connections ++ connection ∷ [] }

unfoldable pub stop : RelayHub → RelayHub
stop hub = create_relay_hub

unfoldable pub adverts_of : List (Text × Registration) → ℕ → List PeerAdvert
adverts_of [] connection = []
adverts_of ((key, r) ∷ devices) connection =
    let rest = adverts_of devices connection in
    if r.connection == connection then r.advert ∷ rest else rest

pub record RelayConnectionState : Type 0 where
  pub device : Bytes
  pub adverts : List PeerAdvert
  pub paired_devices : List Text
  pub most_recent_device : Option Text

abbrev pub keys : List (Text × ℕ) → List Text
keys [] = []
keys ((key, peer) ∷ own) = key ∷ keys own

unfoldable pub key_of_peer : List (Text × ℕ) → ℕ → Option Text
key_of_peer [] peer = none
key_of_peer ((key, p) ∷ own) peer = if p == peer then some key else key_of_peer own peer

abbrev pub recent_device : List (Text × ℕ) → Option ℕ → Option Text
recent_device own none = none
recent_device own (some peer) = key_of_peer own peer

abbrev pub state_with :
    Option Bytes → List PeerAdvert → List (Text × ℕ) → Option ℕ → Option RelayConnectionState
state_with none adverts own recent = none
state_with (some device) adverts own recent = some (record {
  device = device;
  adverts = adverts;
  paired_devices = keys own;
  most_recent_device = recent_device own recent;
})

-- A paired device is exported as its key, from which `deviceFromKey` reads the bytes back.
unfoldable pub export_connection : RelayHub → ℕ → Option RelayConnectionState
export_connection hub connection =
    state_with (lookup ◌==◌ connection hub.connection_device) (adverts_of hub.devices connection)
      (pairings_of hub connection) (lookup ◌==◌ connection hub.most_recent_pairing)
