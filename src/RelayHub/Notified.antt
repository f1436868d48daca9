-- ===== src/RelayHub/Notified.antt =====
-- What relay-hub.ts tells its host: each change of what it would export for a connection.
use wire_mesh.Prelude.{
  ℕ, ◌≡◌, ◌≢◌, inl, inr, refl, sym, ◌∙◌, Bool, false, not, ◌||◌, List, [], ◌∷◌, Option, none, some,
  Bytes, text_eq, ◌==◌, ==_iff, arith, Bool-cases, subst,
}
use wire_mesh.Prelude.Maps.{lookup, lookup-insert}
use wire_mesh.PeerAdvert.{PeerAdvert}
use wire_mesh.RelayHub.{Registration, RelayHub, device_key, pairings_of, adverts_of}
use wire_mesh.RelayHub.Handler.{
  is_acceptable, consider_advert, register_adverts, gossiped, handle_gossip, connect_from,
  connect_to, inbound_for, handle_uplink_inbound, relay_from, relay_to, mail, mailed, replied,
  handle_frame,
}
use wire_mesh.RelayHub.Rules.{
  Frame, gossip, relay_connect, relay_inbound, relay_data, core_data, ping, pong, unrelated,
  RelayHubOptions, Gathered, attributed, first_device, is_uplink, peer_for, initiator_of, fronts,
}
use wire_mesh.Mailbox.{Handled, DataFrame}
use wire_mesh.RelayHub.Held.{
  HoldSame, add_pairing-HoldSame, is_told, KeepsAdverts, register_advert-KeepsAdverts,
}

module _ {S : Type 0} (options : RelayHubOptions S) where
  consider_advert-KeepsAdverts :
      (connection : ℕ) (g : Gathered) (advert : PeerAdvert) (c : ℕ)
      → connection ≢ c
      → KeepsAdverts g (consider_advert options connection g advert) c
  unfolding consider_advert
  consider_advert-KeepsAdverts connection g advert c n =
      elim (Bool-cases (is_acceptable options advert)) [
        | inl good ↦ rw good (register_advert-KeepsAdverts connection g advert c n)
        | inr bad ↦ rw bad (λ h. (h, refl))
      ]

  register_adverts-KeepsAdverts :
      (connection : ℕ) (g : Gathered) (adverts : List PeerAdvert) (c : ℕ)
      → connection ≢ c
      → KeepsAdverts g (register_adverts options connection g adverts) c
  unfolding register_adverts
  register_adverts-KeepsAdverts connection g [] c n h = (h, refl)
  register_adverts-KeepsAdverts connection g (advert ∷ adverts) c n h =
      let (t, e) =
        register_adverts-KeepsAdverts connection (consider_advert options connection g advert)
          adverts c n h in
      let (t', e') = consider_advert-KeepsAdverts connection g advert c n t in (t', e ∙ e')

  HoldSame-refl : (hub : RelayHub) (c : ℕ) → HoldSame hub hub c
  HoldSame-refl hub c = record { device = refl; adverts = refl; paired = refl; recent = refl }

  gossiped-HoldSame :
      (hub : RelayHub) (store : S) (connection : ℕ) (g : Gathered) (accepted : List PeerAdvert)
      (c : ℕ)
      → (is_told g.supplanted c ≡ false
          → connection ≢ c
          → adverts_of g.devices c ≡ adverts_of hub.devices c)
      → is_told (gossiped options hub store connection g accepted).changed c ≡ false
      → HoldSame hub (gossiped options hub store connection g accepted).hub c
  unfolding pairings_of
  gossiped-HoldSame hub store connection g [] c k h = HoldSame-refl hub c
  gossiped-HoldSame hub store connection g (advert ∷ accepted) c k h =
      let n : (connection == c) ≡ false = ground arith in
      let t : is_told g.supplanted c ≡ false = ground arith in
      record {
        device = attributed_other (first_device g.devices connection) n;
        adverts = k t (ground arith);
        paired = refl;
        recent = refl;
      }
    where
      attributed_other :
          (o : Option Bytes)
          → (connection == c) ≡ false
          → lookup ◌==◌ c (attributed hub.connection_device connection o)
            ≡ lookup ◌==◌ c hub.connection_device
      attributed_other none n = refl
      attributed_other (some d) n =
          lookup-insert ◌==◌ ==_iff c connection d hub.connection_device ∙ rw n refl

  gossip-HoldSame :
      (hub : RelayHub) (store : S) (connection : ℕ) (adverts : List PeerAdvert) (c : ℕ)
      → is_told (handle_gossip options hub store connection adverts).changed c ≡ false
      → HoldSame hub (handle_gossip options hub store connection adverts).hub c
  unfolding handle_gossip
  gossip-HoldSame hub store connection adverts c h =
      let start : Gathered = record { devices = hub.devices; supplanted = []; accepted = [] } in
      gossiped-HoldSame hub store connection (register_adverts options connection start adverts)
        (register_adverts options connection start adverts).accepted c
        (λ t n. (register_adverts-KeepsAdverts connection start adverts c n t).1) h

  module _ (fails : ℕ → Bool) (hub : RelayHub) (store : S) (connection c : ℕ) where
    connect_from-HoldSame :
        (r : Registration) (o : Option Bytes)
        → is_told (connect_from options fails hub store connection r o).changed c ≡ false
        → HoldSame hub (connect_from options fails hub store connection r o).hub c
    connect_from-HoldSame r none h = HoldSame-refl hub c
    connect_from-HoldSame r (some initiator) h =
        elim (Bool-cases (is_uplink hub.uplink connection)) [
          | inl up ↦ rw up (HoldSame-refl hub c)
          | inr down ↦
              let t : is_told (connection ∷ r.connection ∷ []) c ≡ false = rw down at h in
              rw down (
                add_pairing-HoldSame hub connection r.connection c initiator r.advert.content.device
                  (ground arith) (ground arith))
        ]

    connect_to-HoldSame :
        (source : Option Bytes) (o : Option Registration)
        → is_told (connect_to options fails hub store connection source o).changed c ≡ false
        → HoldSame hub (connect_to options fails hub store connection source o).hub c
    connect_to-HoldSame source none h = HoldSame-refl hub c
    connect_to-HoldSame source (some r) h = elim (Bool-cases (r.connection == connection)) [
      | inl self ↦ rw self (HoldSame-refl hub c)
      | inr apart ↦
          rw apart (connect_from-HoldSame r (initiator_of hub connection source) (rw apart at h))
    ]

    inbound_for-HoldSame :
        (source target : Bytes) (o : Option Registration)
        → is_told (inbound_for options fails hub store connection source target o).changed c ≡ false
        → HoldSame hub (inbound_for options fails hub store connection source target o).hub c
    inbound_for-HoldSame source target none h = HoldSame-refl hub c
    inbound_for-HoldSame source target (some r) h =
        elim (Bool-cases (
          r.connection == connection
          || not (fronts (lookup text_eq (device_key source) hub.devices) connection))) [
            | inl barred ↦ rw barred (HoldSame-refl hub c)
            | inr open_way ↦
                let t : is_told (r.connection ∷ connection ∷ []) c ≡ false = rw open_way at h in
                rw open_way (
                  add_pairing-HoldSame hub r.connection connection c target source (ground arith)
                    (ground arith))
          ]

    uplink_inbound-HoldSame :
        (source : Bytes) (target : Option Bytes)
        → is_told (handle_uplink_inbound options fails hub store connection source target).changed c
          ≡ false
        → HoldSame hub
            (handle_uplink_inbound options fails hub store connection source target).hub
            c
    unfolding handle_uplink_inbound
    uplink_inbound-HoldSame source none h = HoldSame-refl hub c
    uplink_inbound-HoldSame source (some target) h =
        elim (Bool-cases (is_uplink hub.uplink connection)) [
          | inl up ↦ rw up (
              inbound_for-HoldSame source target (lookup text_eq (device_key target) hub.devices)
                (rw up at h))
          | inr down ↦ rw down (HoldSame-refl hub c)
        ]

    relay_from-hub :
        (payload : Bytes) (to claimed : Option Bytes) (peer : ℕ) (o : Option Bytes)
        → (relay_from options fails hub store connection payload to claimed peer o).hub ≡ hub
    relay_from-hub payload to claimed peer none = refl
    relay_from-hub payload to claimed peer (some sender) = ground arith

    pub relay_to-hub :
        (payload : Bytes) (to claimed : Option Bytes) (o : Option ℕ)
        → (relay_to options fails hub store connection payload claimed to o).hub ≡ hub
    relay_to-hub payload to claimed none = refl
    relay_to-hub payload to claimed (some peer) =
        relay_from-hub payload to claimed peer (initiator_of hub connection claimed)

    pub mail-hub :
        (frame : DataFrame) (o : Option (S → Option Bytes → DataFrame → Option (Handled S)))
        → (mail options fails hub store connection frame o).hub ≡ hub
    mail-hub frame none = refl
    mail-hub frame (some handle) =
        mailed-hub (handle store (lookup ◌==◌ connection hub.connection_device) frame)
      where
        replied-hub :
            (st : S) (reply : Option DataFrame)
            → (replied options fails hub connection st reply).hub ≡ hub
        replied-hub st none = refl
        replied-hub st (some reply) = refl

        mailed-hub :
            (o : Option (Handled S)) → (mailed options fails hub store connection o).hub ≡ hub
        mailed-hub none = refl
        mailed-hub (some h) = replied-hub h.store h.reply

    pub handle_frame-HoldSame :
        (frame : Frame)
        → is_told (handle_frame options fails hub store connection frame).changed c ≡ false
        → HoldSame hub (handle_frame options fails hub store connection frame).hub c
    unfolding handle_frame
    handle_frame-HoldSame (gossip adverts) h = gossip-HoldSame hub store connection adverts c h
    handle_frame-HoldSame (relay_connect target source) h =
        connect_to-HoldSame source (lookup text_eq (device_key target) hub.devices) h
    handle_frame-HoldSame (relay_inbound source target) h = uplink_inbound-HoldSame source target h
    handle_frame-HoldSame (relay_data payload from_device to) h =
        subst (λ x. HoldSame hub x c)
          (sym (relay_to-hub payload to from_device (peer_for hub connection to)))
          (HoldSame-refl hub c)
    handle_frame-HoldSame (core_data frame) h =
        subst (λ x. HoldSame hub x c) (sym (mail-hub frame options.mailbox)) (HoldSame-refl hub c)
    handle_frame-HoldSame ping h = HoldSame-refl hub c
    handle_frame-HoldSame pong h = HoldSame-refl hub c
    handle_frame-HoldSame unrelated h = HoldSame-refl hub c
