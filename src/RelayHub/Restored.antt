-- ===== src/RelayHub/Restored.antt =====
-- A hub that restores what another exported (relay-hub.ts) routes as the other did.
use wire_mesh.Prelude.{ℕ, ◌≡◌, true, List, [], some, Bytes, Text, ◌==◌, All}
use wire_mesh.Prelude.Maps.{lookup}
use wire_mesh.RelayHub.{RelayHub, create_relay_hub, pairings_of, key_of_peer}
use wire_mesh.RelayHub.Restore.{own_devices, fronted_devices, restore_connections}
use wire_mesh.RelayHub.Exported.{exports, survives}
use wire_mesh.RelayHub.Fronted.{HasDevice, AreApart}

module _ (hub : RelayHub) (cs : List ℕ) where
  abbrev pub IsPairedAmong : Text × ℕ → Type 0
  IsPairedAmong (key, peer) = HasDevice hub peer key × (survives cs peer ≡ true)

  -- No two connections own or front the same device, and each that survives owns one; it is paired with
  -- surviving ones, under the devices that they own or front, and its most recent peer is one of them.
  pub record IsClosed : Type 0 where
    pub apart : AreApart hub
    pub known :
        (c : ℕ)
        → survives cs c ≡ true
        → (device : Bytes) × (lookup ◌==◌ c hub.connection_device ≡ some device)
    pub paired : (c : ℕ) → survives cs c ≡ true → All IsPairedAmong (pairings_of hub c)
    pub recent :
        (c peer : ℕ)
        → survives cs c ≡ true
        → lookup ◌==◌ c hub.most_recent_pairing ≡ some peer
        → (key : Text) × (key_of_peer (pairings_of hub c) peer ≡ some key)

  abbrev by_device : List (Text × ℕ)
  by_device = fronted_devices (own_devices [] (exports hub cs)) (exports hub cs)

  abbrev after : RelayHub
  after = restore_connections create_relay_hub (exports hub cs)
