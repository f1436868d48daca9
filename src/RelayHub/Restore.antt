-- ===== src/RelayHub/Restore.antt =====
-- ts/packages/core/src/domain/relay-hub.ts: `restoreConnections` and `handleUplink`.
use wire_mesh.Prelude.{ℕ, List, [], ◌∷◌, Option, none, some, Text, text_eq, ◌==◌}
use wire_mesh.Prelude.Maps.{lookup, insert}
use wire_mesh.PeerAdvert.{PeerAdvert}
use wire_mesh.RelayHub.{
  Registration, RelayHub, RelayConnectionState, device_key, set_pairing, register_connection,
}
use wire_mesh.RelayHub.Rules.{Frame, gossip}

abbrev pub RelayConnectionRestore : Type 0
RelayConnectionRestore = ℕ × RelayConnectionState

unfoldable pub restore_adverts :
    List (Text × Registration) → ℕ → List PeerAdvert → List (Text × Registration)
restore_adverts devices connection [] = devices
restore_adverts devices connection (advert ∷ adverts) =
    restore_adverts
      (insert text_eq (device_key advert.content.device)
        (record { connection = connection; advert = advert }) devices)
      connection adverts

-- The first pass, over the connections and what they advertise.
unfoldable pub restore_registrations : RelayHub → List RelayConnectionRestore → RelayHub
restore_registrations hub [] = hub
restore_registrations hub ((connection, state) ∷ entries) =
    let registered : RelayHub = register_connection hub connection in
    restore_registrations
      (record registered {
        connection_device = insert ◌==◌ connection state.device hub.connection_device;
        devices = restore_adverts hub.devices connection state.adverts;
      })
      entries

unfoldable pub own_devices : List (Text × ℕ) → List RelayConnectionRestore → List (Text × ℕ)
own_devices by_device [] = by_device
own_devices by_device ((connection, state) ∷ entries) =
    own_devices (insert text_eq (device_key state.device) connection by_device) entries

abbrev pub if_absent : Option ℕ → List (Text × ℕ) → Text → ℕ → List (Text × ℕ)
if_absent none by_device key connection = insert text_eq key connection by_device
if_absent (some c) by_device key connection = by_device

unfoldable pub fronted_by : List (Text × ℕ) → ℕ → List PeerAdvert → List (Text × ℕ)
fronted_by by_device connection [] = by_device
fronted_by by_device connection (advert ∷ adverts) =
    let key : Text = device_key advert.content.device in
    fronted_by (if_absent (lookup text_eq key by_device) by_device key connection) connection
      adverts

unfoldable pub fronted_devices : List (Text × ℕ) → List RelayConnectionRestore → List (Text × ℕ)
fronted_devices by_device [] = by_device
fronted_devices by_device ((connection, state) ∷ entries) =
    fronted_devices (fronted_by by_device connection state.adverts) entries

abbrev pub restored_pairing :
    List (ℕ × List (Text × ℕ)) → ℕ → Text → Option ℕ → List (ℕ × List (Text × ℕ))
restored_pairing pairings connection key none = pairings
restored_pairing pairings connection key (some peer) = set_pairing pairings connection key peer

unfoldable pub restore_own :
    List (Text × ℕ) → List (ℕ × List (Text × ℕ)) → ℕ → List Text → List (ℕ × List (Text × ℕ))
restore_own by_device pairings connection [] = pairings
restore_own by_device pairings connection (key ∷ paired) =
    restore_own by_device (restored_pairing pairings connection key (lookup text_eq key by_device))
      connection paired

unfoldable pub restore_pairings :
    List (Text × ℕ)
    → List (ℕ × List (Text × ℕ))
    → List RelayConnectionRestore
    → List (ℕ × List (Text × ℕ))
restore_pairings by_device pairings [] = pairings
restore_pairings by_device pairings ((connection, state) ∷ entries) =
    restore_pairings by_device (restore_own by_device pairings connection state.paired_devices)
      entries

abbrev pub peer_of_recent : List (Text × ℕ) → Option Text → Option ℕ
peer_of_recent by_device none = none
peer_of_recent by_device (some key) = lookup text_eq key by_device

abbrev pub restored_recent : List (ℕ × ℕ) → ℕ → Option ℕ → List (ℕ × ℕ)
restored_recent recent connection none = recent
restored_recent recent connection (some peer) = insert ◌==◌ connection peer recent

unfoldable pub restore_recent :
    List (Text × ℕ) → List (ℕ × ℕ) → List RelayConnectionRestore → List (ℕ × ℕ)
restore_recent by_device recent [] = recent
restore_recent by_device recent ((connection, state) ∷ entries) =
    restore_recent by_device
      (restored_recent recent connection (peer_of_recent by_device state.most_recent_device))
      entries

unfoldable pub restore_connections : RelayHub → List RelayConnectionRestore → RelayHub
restore_connections hub entries =
    let by_device : List (Text × ℕ) = fronted_devices (own_devices [] entries) entries in
    let registered : RelayHub = restore_registrations hub entries in
    record registered {
      pairings = restore_pairings by_device hub.pairings entries;
      most_recent_pairing = restore_recent by_device hub.most_recent_pairing entries;
    }

unfoldable pub adverts : List (Text × Registration) → List PeerAdvert
adverts [] = []
adverts ((key, r) ∷ devices) = r.advert ∷ adverts devices

abbrev pub announcement : ℕ → List PeerAdvert → List (ℕ × Frame)
announcement connection [] = []
announcement connection (advert ∷ local) = (connection, gossip (advert ∷ local)) ∷ []

abbrev pub attach : RelayHub → ℕ → Option ℕ → Option (RelayHub × List (ℕ × Frame))
attach hub connection none =
    let registered : RelayHub = register_connection hub connection in
    some (
      record registered { uplink = some connection },
      announcement connection (adverts hub.devices),
    )
attach hub connection (some uplink) = none

-- `handleUplink` before the first frame; `none` where it throws.
unfoldable pub attach_uplink : RelayHub → ℕ → Option (RelayHub × List (ℕ × Frame))
attach_uplink hub connection = attach hub connection hub.uplink
