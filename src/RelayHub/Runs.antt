-- ===== src/RelayHub/Runs.antt =====
-- Runs of the hub of relay-hub.ts, from event to event, and the adverts that its connections bring.
use wire_mesh.Prelude.{ℕ, ◌≡◌, Bool, true, false, ◌&&◌, List, [], ◌∷◌, Text, text_eq, ◌==◌, any}
use wire_mesh.RelayHub.{RelayHub, device_key, register_connection, forget_connection}
use wire_mesh.RelayHub.Rules.{
  Frame, gossip, relay_connect, relay_inbound, relay_data, core_data, ping, pong, unrelated,
  RelayHubOptions, Outcome,
}
use wire_mesh.RelayHub.Handler.{is_acceptable, serve_frame}

-- A connection joins, sends a frame while sends to some connections fail, or leaves.
pub data HubEvent : Type 0 where
  joins : ℕ → HubEvent
  sends : (ℕ → Bool) → ℕ → Frame → HubEvent
  leaves : ℕ → HubEvent

module _ {S : Type 0} (options : RelayHubOptions S) where
  -- The frame is gossip with an advert of the device under the key that is authentic and within policy.
  abbrev pub advertises : Frame → Text → Bool
  advertises (gossip adverts) key =
      any (λ a. is_acceptable options a && text_eq (device_key a.content.device) key) adverts
  advertises (relay_connect target source) key = false
  advertises (relay_inbound source target) key = false
  advertises (relay_data payload from_device to) key = false
  advertises (core_data frame) key = false
  advertises ping key = false
  advertises pong key = false
  advertises unrelated key = false

  abbrev pub brings : HubEvent → ℕ → Text → Bool
  brings (joins connection) c key = false
  brings (sends fails connection frame) c key = connection == c && advertises frame key
  brings (leaves connection) c key = false

  -- At some time the connection brought an acceptable advert of the device.
  abbrev pub HasBrought : List HubEvent → ℕ → Text → Type 0
  HasBrought events c key = any (λ e. brings e c key) events ≡ true

  unfoldable pub hub_step : RelayHub × S → HubEvent → RelayHub × S
  hub_step (hub, store) (joins connection) = (register_connection hub connection, store)
  hub_step (hub, store) (sends fails connection frame) =
      let o : Outcome S = serve_frame options fails hub store connection frame in (o.hub, o.store)
  hub_step (hub, store) (leaves connection) = ((forget_connection hub connection).0, store)

  unfoldable pub hub_after : RelayHub × S → List HubEvent → RelayHub × S
  hub_after s [] = s
  hub_after s (e ∷ events) = hub_after (hub_step s e) events
