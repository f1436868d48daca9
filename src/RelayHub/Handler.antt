-- ===== src/RelayHub/Handler.antt =====
-- ts/packages/core/src/domain/relay-hub.ts: what a hub does with a frame, and how it serves a
-- connection. Whether a send to a connection fails is a parameter.
use wire_mesh.Prelude.{
  ℕ, Bool, true, false, not, ◌&&◌, ◌||◌, List, [], ◌∷◌, ◌++◌, Option, none, some, Bytes, text_eq,
  ◌==◌, if◌then◌else◌,
}
use wire_mesh.Prelude.Maps.{lookup}
use wire_mesh.PeerAdvert.{PeerAdvert, verify_peer_advert}
use wire_mesh.Mailbox.{DataFrame, Handled}
use wire_mesh.RelayHub.{Registration, RelayHub, device_key, add_pairing, forget_connection}
use wire_mesh.RelayHub.Rules.{
  Frame, RelayHubOptions, Outcome, is_carried, Gathered, register_advert, first_device, attributed,
  forward_to, catch_up, is_uplink, catch_up_frames, fronts, initiator_of, peer_for, is_paired_as,
  gossip, relay_connect, relay_inbound, relay_data, core_data, ping, pong, unrelated,
}

module _ {S : Type 0} (options : RelayHubOptions S) where
  unfoldable pub is_acceptable : PeerAdvert → Bool
  is_acceptable advert =
      verify_peer_advert options.identity advert && is_carried options.extension_policy advert

  unfoldable pub consider_advert : ℕ → Gathered → PeerAdvert → Gathered
  consider_advert connection g advert =
      if is_acceptable advert then register_advert connection g advert else g

  unfoldable pub register_adverts : ℕ → Gathered → List PeerAdvert → Gathered
  register_adverts connection g [] = g
  register_adverts connection g (advert ∷ adverts) =
      register_adverts connection (consider_advert connection g advert) adverts

  -- Nothing happens.
  abbrev pub ignored : RelayHub → S → Outcome S
  ignored hub store = record { hub = hub; store = store; sent = []; changed = []; thrown = false }

  abbrev pub gossiped : RelayHub → S → ℕ → Gathered → List PeerAdvert → Outcome S
  gossiped hub store connection g [] = ignored hub store
  gossiped hub store connection g (advert ∷ accepted) = record {
    hub = record hub {
      devices = g.devices;
      connection_device =
          attributed hub.connection_device connection (first_device g.devices connection);
    };
    store = store;
    sent =
        forward_to hub.connections connection (gossip (advert ∷ accepted))
        ++ catch_up_frames connection (is_uplink hub.uplink connection)
            (catch_up g.devices connection);
    changed = connection ∷ g.supplanted;
    thrown = false;
  }

  unfoldable pub handle_gossip : RelayHub → S → ℕ → List PeerAdvert → Outcome S
  handle_gossip hub store connection adverts =
      let start : Gathered = record { devices = hub.devices; supplanted = []; accepted = [] } in
      let g : Gathered = register_adverts connection start adverts in
      gossiped hub store connection g g.accepted

  module _ (fails : ℕ → Bool) where
    abbrev pub connected : RelayHub → S → ℕ → Registration → Bytes → Outcome S
    connected hub store connection r initiator = record {
      hub = add_pairing hub connection initiator r.connection r.advert.content.device;
      store = store;
      sent =
          (
            r.connection,
            (if is_uplink hub.uplink r.connection
                then relay_connect r.advert.content.device (some initiator)
                else relay_inbound initiator (some r.advert.content.device)),
          )
          ∷ [];
      changed = connection ∷ r.connection ∷ [];
      thrown = fails r.connection;
    }

    abbrev pub connect_from : RelayHub → S → ℕ → Registration → Option Bytes → Outcome S
    connect_from hub store connection r none = ignored hub store
    connect_from hub store connection r (some initiator) =
        if is_uplink hub.uplink connection
        then ignored hub store
        else connected hub store connection r initiator

    abbrev pub connect_to : RelayHub → S → ℕ → Option Bytes → Option Registration → Outcome S
    connect_to hub store connection source none = ignored hub store
    connect_to hub store connection source (some r) =
        if r.connection == connection
        then ignored hub store
        else connect_from hub store connection r (initiator_of hub connection source)

    abbrev pub inbound_for : RelayHub → S → ℕ → Bytes → Bytes → Option Registration → Outcome S
    inbound_for hub store connection source target none = ignored hub store
    inbound_for hub store connection source target (some local) =
        if local.connection == connection
          || not (fronts (lookup text_eq (device_key source) hub.devices) connection)
        then ignored hub store
        else record {
          hub = add_pairing hub local.connection target connection source;
          store = store;
          sent = (local.connection, relay_inbound source (some target)) ∷ [];
          changed = local.connection ∷ connection ∷ [];
          thrown = fails local.connection;
        }

    unfoldable pub handle_uplink_inbound : RelayHub → S → ℕ → Bytes → Option Bytes → Outcome S
    handle_uplink_inbound hub store connection source none = ignored hub store
    handle_uplink_inbound hub store connection source (some target) =
        if is_uplink hub.uplink connection
        then inbound_for hub store connection source target
            (lookup text_eq (device_key target) hub.devices)
        else ignored hub store

    abbrev pub relay_from :
        RelayHub → S → ℕ → Bytes → Option Bytes → Option Bytes → ℕ → Option Bytes → Outcome S
    relay_from hub store connection payload to claimed peer none = ignored hub store
    relay_from hub store connection payload to claimed peer (some sender) =
        if is_paired_as hub connection peer claimed
        then record {
          hub = hub;
          store = store;
          sent = (peer, relay_data payload (some sender) to) ∷ [];
          changed = [];
          thrown = fails peer;
        }
        else ignored hub store

    abbrev pub relay_to :
        RelayHub → S → ℕ → Bytes → Option Bytes → Option Bytes → Option ℕ → Outcome S
    relay_to hub store connection payload claimed to none = ignored hub store
    relay_to hub store connection payload claimed to (some peer) =
        relay_from hub store connection payload to claimed peer
          (initiator_of hub connection claimed)

    abbrev pub replied : RelayHub → ℕ → S → Option DataFrame → Outcome S
    replied hub connection store none = ignored hub store
    replied hub connection store (some reply) = record {
      hub = hub;
      store = store;
      sent = (connection, core_data reply) ∷ [];
      changed = [];
      thrown = false;
    }

    abbrev pub mailed : RelayHub → S → ℕ → Option (Handled S) → Outcome S
    mailed hub store connection none = record {
      hub = hub;
      store = store;
      sent = [];
      changed = [];
      thrown = true;
    }
    mailed hub store connection (some h) = replied hub connection h.store h.reply

    abbrev pub mail :
        RelayHub
        → S
        → ℕ
        → DataFrame
        → Option (S → Option Bytes → DataFrame → Option (Handled S))
        → Outcome S
    mail hub store connection frame none = ignored hub store
    mail hub store connection frame (some handle) =
        mailed hub store connection
          (handle store (lookup ◌==◌ connection hub.connection_device) frame)

    unfoldable pub handle_frame : RelayHub → S → ℕ → Frame → Outcome S
    handle_frame hub store connection (gossip adverts) = handle_gossip hub store connection adverts
    handle_frame hub store connection (relay_connect target source) =
        connect_to hub store connection source (lookup text_eq (device_key target) hub.devices)
    handle_frame hub store connection (relay_inbound source target) =
        handle_uplink_inbound hub store connection source target
    handle_frame hub store connection (relay_data payload from_device to) =
        relay_to hub store connection payload from_device to (peer_for hub connection to)
    handle_frame hub store connection (core_data frame) =
        mail hub store connection frame options.mailbox
    handle_frame hub store connection ping = record {
      hub = hub;
      store = store;
      sent = (connection, pong) ∷ [];
      changed = [];
      thrown = false;
    }
    handle_frame hub store connection pong = ignored hub store
    handle_frame hub store connection unrelated = ignored hub store

    abbrev pub after_frame : ℕ → Outcome S → Outcome S
    after_frame connection o =
        let (hub, changed) = forget_connection o.hub connection in
        if o.thrown then record o { hub = hub; changed = o.changed ++ changed } else o

    -- One round of `serve`: a frame whose handler throws ends its connection.
    unfoldable pub serve_frame : RelayHub → S → ℕ → Frame → Outcome S
    serve_frame hub store connection frame =
        after_frame connection (handle_frame hub store connection frame)
