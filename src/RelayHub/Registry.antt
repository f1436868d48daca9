-- ===== src/RelayHub/Registry.antt =====
-- The registry of relay-hub.ts: what stands in it, and what can take over a registration.
use wire_mesh.Prelude.{
  ℕ, ◌<◌, ◌≡◌, ◌≢◌, ◌⊎◌, inl, inr, refl, sym, ap, ◌∙◌, Bool, true, false, List, [], ◌∷◌, Option,
  none, some, Bytes, Text, text_eq, text_eq_iff, if◌then◌else◌, arith, Bool-cases, Option-cases,
  subst,
}
use wire_mesh.Prelude.Maps.{lookup, insert, lookup-insert}
use wire_mesh.Scope.Order.{bytes_equal_iff}
use wire_mesh.PeerAdvert.{
  PeerAdvert, PeerAdvertVerifier, verify_peer_advert, check_peer_advert, peer_advert_signing_input,
}
use wire_mesh.RelayHub.{Registration, RelayHub, device_key, add_pairing}
use wire_mesh.RelayHub.Notified.{relay_to-hub, mail-hub}
use wire_mesh.RelayHub.Handler.{
  is_acceptable, consider_advert, register_adverts, gossiped, handle_gossip, connect_from,
  connect_to, handle_uplink_inbound, handle_frame,
}
use wire_mesh.RelayHub.Rules.{
  Frame, gossip, relay_connect, relay_inbound, relay_data, core_data, ping, pong, unrelated,
  RelayHubOptions, Gathered, may_register, register_advert, is_carried, supersedes_registration,
  peer_for, initiator_of,
}

-- The advert's key hashes to the device it names, and its signature covers all of its content.
pub record IsSelfCertified (identity : PeerAdvertVerifier) (advert : PeerAdvert) : Type 0 where
  pub input : Bytes
  pub encodes : peer_advert_signing_input identity advert.content ≡ some input
  pub derives :
      identity.derive_device_id advert.content.identity_key.public_key ≡ some advert.content.device
  pub verifies : identity.verify advert.content.identity_key input advert.signature ≡ some true

check_peer_advert-true :
    (identity : PeerAdvertVerifier) (advert : PeerAdvert) (input : Bytes)
    → check_peer_advert identity advert input ≡ some true
    → (identity.derive_device_id advert.content.identity_key.public_key
        ≡ some advert.content.device)
      × (identity.verify advert.content.identity_key input advert.signature ≡ some true)
unfolding check_peer_advert
check_peer_advert-true identity advert input h =
    elim (Option-cases (identity.derive_device_id advert.content.identity_key.public_key)) [
      | inl threw ↦ absurd (ground (arith, threw))
      | inr (device, e) ↦ ground (arith, e, bytes_equal_iff device advert.content.device)
    ]

IsSelfCertified-of_verify :
    (identity : PeerAdvertVerifier) (advert : PeerAdvert)
    → verify_peer_advert identity advert ≡ true
    → IsSelfCertified identity advert
unfolding verify_peer_advert
IsSelfCertified-of_verify identity advert h =
    elim (Option-cases (peer_advert_signing_input identity advert.content)) [
      | inl threw ↦ absurd (ground (arith, threw))
      | inr (input, e) ↦ elim (Option-cases (check_peer_advert identity advert input)) [
        | inl none_found ↦ absurd (ground (arith, e, none_found))
        | inr (verdict, v) ↦
            let passed : verdict ≡ true = ground (arith, e, v) in
            let (derived, valid) =
              check_peer_advert-true identity advert input (v ∙ ap some passed) in
            record { input = input; encodes = e; derives = derived; verifies = valid }
      ]
    ]

module _ {S : Type 0} (options : RelayHubOptions S) where
  -- What a registration of a key must be.
  pub record IsRegistrable (key : Text) (r : Registration) : Type 0 where
    pub named : device_key r.advert.content.device ≡ key
    pub certified : IsSelfCertified options.identity r.advert
    pub carried : is_carried options.extension_policy r.advert ≡ true

  -- A registration stays as it is, or the given connection takes it over by a newer advert.
  abbrev pub IsKeptOrRenewed : Text → Registration → ℕ → Option Registration → Type 0
  IsKeptOrRenewed key r connection found =
      (found ≡ some r)
      ⊎ ((r' : Registration) × (found ≡ some r')
          × (r'.connection ≡ connection)
          × (r.advert.content.snapshot_seconds < r'.advert.content.snapshot_seconds)
          × IsRegistrable key r')

  IsRegistrable-acceptable :
      (advert : PeerAdvert) (connection : ℕ)
      → is_acceptable options advert ≡ true
      → IsRegistrable
          (device_key advert.content.device)
          (record { connection = connection; advert = advert })
  unfolding is_acceptable
  IsRegistrable-acceptable advert connection h = record {
    named = refl;
    certified = IsSelfCertified-of_verify options.identity advert (ground arith);
    carried = ground arith;
  }

  module _ (key : Text) (r : Registration) (connection : ℕ)
      (apart : r.connection ≢ connection) where
    abbrev Stands : List (Text × Registration) → Type 0
    Stands devices = IsKeptOrRenewed key r connection (lookup text_eq key devices)

    -- The advert may be registered over what stands under its key, and is newer than the first.
    newer :
        (devices : List (Text × Registration)) (advert : PeerAdvert)
        → Stands devices
        → may_register (lookup text_eq key devices) advert connection ≡ true
        → r.advert.content.snapshot_seconds < advert.content.snapshot_seconds
    unfolding supersedes_registration
    newer devices advert (inl same) m =
        let s : supersedes_registration r advert connection ≡ true = rw same at m in ground arith
    newer devices advert (inr (r', found, mine, later, h)) m =
        let s : supersedes_registration r' advert connection ≡ true = rw found at m in ground arith

    register_advert-Stands :
        (g : Gathered) (advert : PeerAdvert)
        → is_acceptable options advert ≡ true
        → Stands g.devices
        → Stands (register_advert connection g advert).devices
    unfolding register_advert
    register_advert-Stands g advert good h =
        let name : Text = device_key advert.content.device in
        let new : Registration = record { connection = connection; advert = advert } in
        elim (Bool-cases (may_register (lookup text_eq name g.devices) advert connection)) [
          | inr barred ↦ rw barred h
          | inl may ↦ elim (Bool-cases (text_eq name key)) [
            | inr miss ↦ rw may (
                let e : lookup text_eq key (insert text_eq name new g.devices)
                    ≡ lookup text_eq key g.devices =
                  lookup-insert text_eq text_eq_iff key name new g.devices ∙ rw miss refl in
                subst (IsKeptOrRenewed key r connection) (sym e) h)
            | inl hit ↦ rw may (
                let same : name ≡ key = (text_eq_iff name key).0 hit in
                let e : lookup text_eq key (insert text_eq name new g.devices) ≡ some new =
                  lookup-insert text_eq text_eq_iff key name new g.devices ∙ rw hit refl in
                inr (
                  new,
                  e,
                  refl,
                  newer g.devices advert h (
                      subst
                        (λ k. may_register (lookup text_eq k g.devices) advert connection ≡ true)
                        same may),
                  subst (λ k. IsRegistrable k new) same
                      (IsRegistrable-acceptable advert connection good),
                ))
          ]
        ]

    register_adverts-Stands :
        (g : Gathered) (adverts : List PeerAdvert)
        → Stands g.devices
        → Stands (register_adverts options connection g adverts).devices
    unfolding register_adverts consider_advert
    register_adverts-Stands g [] h = h
    register_adverts-Stands g (advert ∷ adverts) h =
        register_adverts-Stands (consider_advert options connection g advert) adverts
          (considered (is_acceptable options advert) refl)
      where
        considered :
            (b : Bool)
            → is_acceptable options advert ≡ b
            → Stands (if b then register_advert connection g advert else g).devices
        considered true e = register_advert-Stands g advert e h
        considered false e = h

  module _ (fails : ℕ → Bool) (hub : RelayHub) (store : S) (connection : ℕ) where
    connect_from-devices :
        (r : Registration) (o : Option Bytes)
        → (connect_from options fails hub store connection r o).hub.devices ≡ hub.devices
    unfolding add_pairing
    connect_from-devices r none = refl
    connect_from-devices r (some initiator) = ground arith

    connect_to-devices :
        (source : Option Bytes) (o : Option Registration)
        → (connect_to options fails hub store connection source o).hub.devices ≡ hub.devices
    connect_to-devices source none = refl
    connect_to-devices source (some r) =
        ground (arith, connect_from-devices r (initiator_of hub connection source))

    uplink_inbound-devices :
        (source : Bytes) (target : Option Bytes)
        → (handle_uplink_inbound options fails hub store connection source target).hub.devices
          ≡ hub.devices
    unfolding handle_uplink_inbound add_pairing
    uplink_inbound-devices source none = refl
    uplink_inbound-devices source (some target) =
        elim (Option-cases (lookup text_eq (device_key target) hub.devices)) [
          | inl unknown ↦ ground (arith, unknown)
          | inr (r, e) ↦ ground (arith, e)
        ]

    module _ (P : List (Text × Registration) → Type 0) (h : P hub.devices)
        (gossips : (adverts : List PeerAdvert)
          → P
              (register_adverts options connection
                (record { devices = hub.devices; supplanted = []; accepted = [] })
                adverts).devices) where
      gossiped-devices :
          (g : Gathered) (accepted : List PeerAdvert)
          → P g.devices
          → P (gossiped options hub store connection g accepted).hub.devices
      gossiped-devices g [] k = h
      gossiped-devices g (advert ∷ accepted) k = k

      -- Only gossip touches the registry.
      handle_frame-devices :
          (frame : Frame) → P (handle_frame options fails hub store connection frame).hub.devices
      unfolding handle_frame handle_gossip
      handle_frame-devices (gossip adverts) =
          let start : Gathered = record { devices = hub.devices; supplanted = []; accepted = [] } in
          gossiped-devices (register_adverts options connection start adverts)
            (register_adverts options connection start adverts).accepted (gossips adverts)
      handle_frame-devices (relay_connect target source) =
          subst P (sym (connect_to-devices source (lookup text_eq (device_key target) hub.devices)))
            h
      handle_frame-devices (relay_inbound source target) =
          subst P (sym (uplink_inbound-devices source target)) h
      handle_frame-devices (relay_data payload from_device to) =
          subst (λ (x : RelayHub). P x.devices)
            (sym (
              relay_to-hub options fails hub store connection connection payload to from_device
                (peer_for hub connection to)))
            h
      handle_frame-devices (core_data frame) =
          subst (λ (x : RelayHub). P x.devices)
            (sym (mail-hub options fails hub store connection connection frame options.mailbox)) h
      handle_frame-devices ping = h
      handle_frame-devices pong = h
      handle_frame-devices unrelated = h

    -- Whatever a connection sends, a device that another connection registered stays registered to
    -- it by the same advert, unless the frame brings a strictly newer one: of the same device, signed
    -- by its own key, and within the hub's policy. So a replay never moves a route.
    pub handle_frame-IsKeptOrRenewed :
        (key : Text) (r : Registration) (frame : Frame)
        → lookup text_eq key hub.devices ≡ some r
        → r.connection ≢ connection
        → IsKeptOrRenewed key r connection
            (lookup text_eq key (handle_frame options fails hub store connection frame).hub.devices)
    handle_frame-IsKeptOrRenewed key r frame found apart =
        handle_frame-devices
          (λ devices. IsKeptOrRenewed key r connection (lookup text_eq key devices)) (inl found)
          (λ adverts. register_adverts-Stands key r connection apart _ adverts (inl found)) frame
