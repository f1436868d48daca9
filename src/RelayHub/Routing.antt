-- ===== src/RelayHub/Routing.antt =====
-- What relay-hub.ts relays: along a pairing only, and in whose name.
use wire_mesh.Prelude.{
  ℕ, ◌≡◌, ◌↔◌, ◌⊎◌, inl, inr, refl, sym, ap, ◌∙◌, Bool, true, List, [], ◌∷◌, Option, none, some,
  Bytes, text_eq, ◌==◌, arith, Bool-cases, Option-cases, subst,
}
use wire_mesh.Prelude.Maps.{lookup}
use wire_mesh.RelayHub.{Registration, RelayHub, device_key, pairings_of}
use wire_mesh.RelayHub.Handler.{relay_to, relay_from, handle_frame, ignored}
use wire_mesh.RelayHub.Rules.{
  Frame, relay_data, RelayHubOptions, Outcome, peer_for, initiator_of, is_paired_as,
}

-- The device that a frame is from: the one it claims, which the connection registered, or the one
-- attributed to the connection.
abbrev pub IsSender : RelayHub → ℕ → Option Bytes → Bytes → Type 0
IsSender hub connection none sender = lookup ◌==◌ connection hub.connection_device ≡ some sender
IsSender hub connection (some claimed) sender =
    (sender ≡ claimed)
    × (r : Registration) × (lookup text_eq (device_key claimed) hub.devices ≡ some r)
    × (r.connection ≡ connection)

-- The peer is paired with the connection under the device addressed, or by the latest pairing.
abbrev pub IsRoute : RelayHub → ℕ → Option Bytes → ℕ → Type 0
IsRoute hub connection none peer = lookup ◌==◌ connection hub.most_recent_pairing ≡ some peer
IsRoute hub connection (some to) peer =
    lookup text_eq (device_key to) (pairings_of hub connection) ≡ some peer

-- A claimed device has a pairing with the peer, over this connection.
abbrev pub IsPairedAs : RelayHub → ℕ → ℕ → Option Bytes → Type 0
IsPairedAs hub connection peer none = Unit
IsPairedAs hub connection peer (some claimed) =
    lookup text_eq (device_key claimed) (pairings_of hub peer) ≡ some connection

initiator_of-IsSender :
    (hub : RelayHub) (connection : ℕ) (claimed : Option Bytes) (sender : Bytes)
    → (initiator_of hub connection claimed ≡ some sender) ↔ IsSender hub connection claimed sender
unfolding initiator_of
initiator_of-IsSender hub connection none sender = (λ h. h, λ h. h)
initiator_of-IsSender hub connection (some claimed) sender = (
  (λ h. elim (Option-cases (lookup text_eq (device_key claimed) hub.devices)) [
    | inl unknown ↦ absurd (ground (arith, unknown))
    | inr (r, e) ↦ (ground (arith, e), r, e, ground (arith, e))
  ]),
  λ (same, r, e, mine). ground arith,
)

IsPairedAs-iff :
    (hub : RelayHub) (connection peer : ℕ) (claimed : Option Bytes)
    → (is_paired_as hub connection peer claimed ≡ true) ↔ IsPairedAs hub connection peer claimed
IsPairedAs-iff hub connection peer none = ground arith
IsPairedAs-iff hub connection peer (some claimed) =
    elim (Option-cases (lookup text_eq (device_key claimed) (pairings_of hub peer))) [
      | inl unpaired ↦ ground (arith, unpaired)
      | inr (c, e) ↦ ground (arith, e)
    ]

peer_for-IsRoute :
    (hub : RelayHub) (connection : ℕ) (to : Option Bytes) (peer : ℕ)
    → (peer_for hub connection to ≡ some peer) ↔ IsRoute hub connection to peer
unfolding peer_for
peer_for-IsRoute hub connection none peer = (λ h. h, λ h. h)
peer_for-IsRoute hub connection (some to) peer = (λ h. h, λ h. h)

module _ {S : Type 0} (options : RelayHubOptions S) (fails : ℕ → Bool) (hub : RelayHub) (store : S)
    (connection : ℕ) (payload : Bytes) (claimed to : Option Bytes) where
  -- The frame's one delivery, when there is one.
  pub record Delivery (o : Outcome S) : Type 0 where
    pub peer : ℕ
    pub sender : Bytes
    pub routed : IsRoute hub connection to peer
    pub sent_by : IsSender hub connection claimed sender
    pub paired : IsPairedAs hub connection peer claimed
    pub sends : o.sent ≡ (peer, relay_data payload (some sender) to) ∷ []
    pub keeps : o.hub ≡ hub

  relay_from-cases :
      (peer : ℕ) (sender : Option Bytes)
      → peer_for hub connection to ≡ some peer
      → initiator_of hub connection claimed ≡ sender
      → Delivery (relay_from options fails hub store connection payload to claimed peer sender)
        ⊎ (relay_from options fails hub store connection payload to claimed peer sender
            ≡ ignored options hub store)
  relay_from-cases peer none p s = inr refl
  relay_from-cases peer (some sender) p s =
      elim (Bool-cases (is_paired_as hub connection peer claimed)) [
        | inl paired ↦ rw paired (
            inl (record {
              peer = peer;
              sender = sender;
              routed = (peer_for-IsRoute hub connection to peer).0 p;
              sent_by = (initiator_of-IsSender hub connection claimed sender).0 s;
              paired = (IsPairedAs-iff hub connection peer claimed).0 paired;
              sends = refl;
              keeps = refl;
            }))
        | inr unpaired ↦ rw unpaired (inr refl)
      ]

  relay_to-cases :
      (o : Option ℕ)
      → peer_for hub connection to ≡ o
      → Delivery (relay_to options fails hub store connection payload claimed to o)
        ⊎ (relay_to options fails hub store connection payload claimed to o
            ≡ ignored options hub store)
  relay_to-cases none p = inr refl
  relay_to-cases (some peer) p = relay_from-cases peer (initiator_of hub connection claimed) p refl

  relay_data-Delivery :
      Delivery (handle_frame options fails hub store connection (relay_data payload claimed to))
      ⊎ (handle_frame options fails hub store connection (relay_data payload claimed to)
          ≡ ignored options hub store)
  unfolding handle_frame
  relay_data-Delivery = relay_to-cases (peer_for hub connection to) refl

  relay_data-sent :
      (peer : ℕ) (sender : Bytes)
      → IsRoute hub connection to peer
        × IsSender hub connection claimed sender
        × IsPairedAs hub connection peer claimed
      → (handle_frame options fails hub store connection (relay_data payload claimed to)).sent
        ≡ (peer, relay_data payload (some sender) to) ∷ []
  unfolding handle_frame
  relay_data-sent peer sender (r, s, p) =
      let route : peer_for hub connection to ≡ some peer =
        (peer_for-IsRoute hub connection to peer).1 r in
      let from : initiator_of hub connection claimed ≡ some sender =
        (initiator_of-IsSender hub connection claimed sender).1 s in
      let paired : is_paired_as hub connection peer claimed ≡ true =
        (IsPairedAs-iff hub connection peer claimed).1 p in
      rw (route, from, paired) refl

  Delivery-sent :
      (o : Outcome S) (peer : ℕ) (sender : Bytes)
      → Delivery o ⊎ (o ≡ ignored options hub store)
      → o.sent ≡ (peer, relay_data payload (some sender) to) ∷ []
      → IsRoute hub connection to peer
        × IsSender hub connection claimed sender
        × IsPairedAs hub connection peer claimed
  Delivery-sent o peer sender (inl d) h =
      let e : ◌≡◌ {A = List (ℕ × Frame)} ((d.peer, relay_data payload (some d.sender) to) ∷ [])
          ((peer, relay_data payload (some sender) to) ∷ []) =
        sym d.sends ∙ h in
      let same_peer : d.peer ≡ peer = cc in
      let same_sender : d.sender ≡ sender = cc in
      (
        subst (IsRoute hub connection to) same_peer d.routed,
        subst (IsSender hub connection claimed) same_sender d.sent_by,
        subst (λ p. IsPairedAs hub connection p claimed) same_peer d.paired,
      )
  Delivery-sent o peer sender (inr dropped) h =
      let e : ◌≡◌ {A = List (ℕ × Frame)} [] ((peer, relay_data payload (some sender) to) ∷ []) =
        sym (ap (λ (x : Outcome S). x.sent) dropped) ∙ h in
      cc

  -- Relayed data either are dropped without a trace or go out once, as they came; and they go out to
  -- a peer in the name of a device exactly when the peer is the one that the connection is paired with
  -- under the addressee, or paired with last; the device is the one the frame claims, where that is
  -- registered to the connection and holds a pairing with the peer over it, or, where it claims none,
  -- the one attributed to the connection.
  pub relay_data-sent_iff :
      (peer : ℕ) (sender : Bytes)
      → (Delivery (handle_frame options fails hub store connection (relay_data payload claimed to))
          ⊎ (handle_frame options fails hub store connection (relay_data payload claimed to)
              ≡ ignored options hub store))
        × (((handle_frame options fails hub store connection (relay_data payload claimed to)).sent
              ≡ (peer, relay_data payload (some sender) to) ∷ [])
            ↔ (IsRoute hub connection to peer
                × IsSender hub connection claimed sender
                × IsPairedAs hub connection peer claimed))
  relay_data-sent_iff peer sender = (
    relay_data-Delivery,
    (Delivery-sent _ peer sender relay_data-Delivery, relay_data-sent peer sender),
  )
