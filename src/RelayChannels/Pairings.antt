-- ===== src/RelayChannels/Pairings.antt =====
-- ts/packages/core/src/domain/relay-pairing.ts: the devices that a session is paired with through a relay.
use wire_mesh.Prelude.{
  ◌≡◌, Bool, true, false, ◌||◌, List, [], ◌∷◌, Option, none, some, Bytes, Text, text_eq,
  text_eq_iff, arith, if◌then◌else◌,
}
use wire_mesh.Prelude.Maps.{lookup, insert, erase, lookup-insert, lookup-erase}
use wire_mesh.DeviceId.{device_id_to_hex}

abbrev pub RelayPairings : Type 0
RelayPairings = List (Text × Bytes)

unfoldable pub create_relay_pairings : RelayPairings
create_relay_pairings = []

abbrev is_there : Option Bytes → Bool
is_there none = false
is_there (some device) = true

unfoldable pub has : RelayPairings → Bytes → Bool
has established device = is_there (lookup text_eq (device_id_to_hex device) established)

unfoldable pub add : RelayPairings → Bytes → RelayPairings
add established device = insert text_eq (device_id_to_hex device) device established

unfoldable pub remove : RelayPairings → Bytes → RelayPairings
remove established device = erase text_eq (device_id_to_hex device) established

unfoldable pub clear : RelayPairings → RelayPairings
clear established = []

unfoldable pub list : RelayPairings → List Bytes
list [] = []
list ((key, device) ∷ established) = device ∷ list established

-- Whether two ids are of one device.
abbrev is_same_device : Bytes → Bytes → Bool
is_same_device a b = text_eq (device_id_to_hex a) (device_id_to_hex b)

-- Pairing with a device, or forgetting one, is seen in that device alone.
has-add :
    (established : RelayPairings) (a b : Bytes)
    → has (add established a) b ≡ is_same_device a b || has established b
unfolding has add
has-add established a b = ground (
  arith,
  lookup-insert text_eq text_eq_iff (device_id_to_hex b) (device_id_to_hex a) a established,
)

has-remove :
    (established : RelayPairings) (a b : Bytes)
    → has (remove established a) b ≡ (if is_same_device a b then false else has established b)
unfolding has remove
has-remove established a b =
    ground (
      arith,
      lookup-erase text_eq text_eq_iff (device_id_to_hex b) (device_id_to_hex a) established,
    )
