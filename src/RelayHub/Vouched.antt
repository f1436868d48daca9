-- ===== src/RelayHub/Vouched.antt =====
-- In whose name relay-hub.ts relays: over any run, only of devices whose adverts the sender brought.
use wire_mesh.Prelude.{ℕ, ◌≡◌, true, List, Bytes, Text, All}
use wire_mesh.PeerAdvert.{PeerAdvert}
use wire_mesh.RelayHub.{Registration, RelayHub, device_key}
use wire_mesh.RelayHub.Runs.{HubEvent, brings}
use wire_mesh.RelayHub.Rules.{RelayHubOptions}

module _ {S : Type 0} (options : RelayHubOptions S) where
  -- What follows holds for any relation that adverts give rise to.
  module _ (V : ℕ → Text → Type 0) where
    abbrev IsVouched : Text × Registration → Type 0
    IsVouched (key, r) = V r.connection key × (device_key r.advert.content.device ≡ key)

    abbrev IsAttributed : ℕ × Bytes → Type 0
    IsAttributed (c, device) = V c (device_key device)

    abbrev AreVouched : List (Text × Registration) → List (ℕ × Bytes) → Type 0
    AreVouched devices attributions = All IsVouched devices × All IsAttributed attributions

    abbrev HubIsVouched : RelayHub → Type 0
    HubIsVouched hub = AreVouched hub.devices hub.connection_device

    abbrev Gives : HubEvent → Type 0
    Gives e = (c : ℕ) (key : Text) → brings options e c key ≡ true → V c key
