-- ===== src/RelayHub/Dangling.antt =====
-- A pairing of relay-hub.ts that outlives the connection it is with.
use wire_mesh.Prelude.{
  ℕ, ◌≡◌, ◌≢◌, inl, inr, refl, sym, ap, ◌∙◌, Bool, true, false, List, [], ◌∷◌, none, some, Bytes,
  Text, text_eq, text_eq_refl, ◌==◌, ==_iff, arith, Bool-cases, any, subst,
}
use wire_mesh.Prelude.Maps.{lookup, insert, lookup-insert}
use wire_mesh.RelayHub.{
  Registration, RelayHub, device_key, add_pairing, set_pairing, pairings_of, or_empty,
  forget_connection, without_item, forget_at, forget_at_peers, forget_registrations,
}
use wire_mesh.RelayHub.Handler.{handle_frame}
use wire_mesh.RelayHub.Rules.{relay_connect, RelayHubOptions, initiator_of, is_uplink}
use wire_mesh.RelayHub.Held.{HoldSame, is_told, set_pairing_other, add_pairing-HoldSame}
use wire_mesh.RelayHub.Forgetting.{HoldSame-trans, forget_connection-HoldSame}

-- Connection `a`, of device `own`, is paired with `old` under the device `remote`, which `new` has
-- registered since.
pub record IsTakenOver (hub : RelayHub) (a old : ℕ) (own remote : Bytes) (r : Registration)
    : Type 0 where
  pub ours : pairings_of hub a ≡ (device_key remote, old) ∷ []
  pub theirs : lookup text_eq (device_key own) (pairings_of hub old) ≡ some a
  pub moved : lookup text_eq (device_key remote) hub.devices ≡ some r
  pub names : r.advert.content.device ≡ remote
  pub attributed : initiator_of hub a none ≡ some own
  pub client : is_uplink hub.uplink a ≡ false
  pub apart : a ≢ old
  pub elsewhere : r.connection ≢ old
  pub other : r.connection ≢ a

pairings_of-add_pairing :
    (hub : RelayHub) (a b : ℕ) (a_device b_device : Bytes)
    → b ≢ a
    → pairings_of (add_pairing hub a a_device b b_device) a
      ≡ insert text_eq (device_key b_device) b (pairings_of hub a)
unfolding add_pairing pairings_of set_pairing
pairings_of-add_pairing hub a b a_device b_device n =
    let same : (a == a) ≡ true = ground arith in
    let own : List (Text × ℕ) = insert text_eq (device_key b_device) b (pairings_of hub a) in
    let found : lookup ◌==◌ a (set_pairing hub.pairings a (device_key b_device) b) ≡ some own =
      lookup-insert ◌==◌ ==_iff a a own hub.pairings ∙ rw same refl in
    ap or_empty (
      set_pairing_other (set_pairing hub.pairings a (device_key b_device) b) b a
        (device_key a_device) a n
      ∙ found)

any-without_item : (l : List ℕ) (a : ℕ) → any (λ c. c == a) (without_item l a) ≡ false
unfolding without_item
any-without_item [] a = refl
any-without_item (c ∷ l) a = elim (Bool-cases (c == a)) [
  | inl hit ↦ rw hit (any-without_item l a)
  | inr miss ↦ rw miss (ground (arith, miss, any-without_item l a))
]

forget_at_peers-connections :
    (hub : RelayHub) (a : ℕ) (own : List (Text × ℕ))
    → (forget_at_peers hub a own).connections ≡ hub.connections
unfolding forget_at_peers forget_at
forget_at_peers-connections hub a [] = refl
forget_at_peers-connections hub a ((key, peer) ∷ own) =
    forget_at_peers-connections (forget_at hub a peer) a own

-- A connection that left is no longer known.
forget_connection-gone :
    (hub : RelayHub) (a : ℕ) → any (λ c. c == a) (forget_connection hub a).0.connections ≡ false
unfolding forget_connection forget_registrations
forget_connection-gone hub a =
    rw (forget_at_peers-connections (forget_registrations hub a) a (pairings_of hub a))
      (any-without_item hub.connections a)

module _ {S : Type 0} (options : RelayHubOptions S) (fails : ℕ → Bool) (hub : RelayHub) (store : S)
    (a old : ℕ) (own remote : Bytes) (r : Registration) where
  connect-hub :
      IsTakenOver hub a old own remote r
      → (handle_frame options fails hub store a (relay_connect remote none)).hub
        ≡ add_pairing hub a own r.connection remote
  unfolding handle_frame
  connect-hub t =
      let apart : (r.connection == a) ≡ false = ground (arith, t.other) in
      rw (t.moved, apart, t.attributed, t.client) (ap (add_pairing hub a own r.connection) t.names)

  abbrev pub left : RelayHub
  left =
      (forget_connection (handle_frame options fails hub store a (relay_connect remote none)).hub
        a).0

  told_only :
      IsTakenOver hub a old own remote r
      → is_told (forget_connection (add_pairing hub a own r.connection remote) a).1 old ≡ false
  unfolding forget_connection insert
  told_only t =
      let mine : pairings_of (add_pairing hub a own r.connection remote) a
          ≡ (device_key remote, r.connection) ∷ [] =
        pairings_of-add_pairing hub a r.connection own remote t.other
        ∙ rw (t.ours, text_eq_refl (device_key remote)) refl in
      let other : (r.connection == old) ≡ false = ground (arith, t.elsewhere) in
      rw (mine, other) refl

  pairings_of-left : IsTakenOver hub a old own remote r → pairings_of left old ≡ pairings_of hub old
  pairings_of-left t =
      let joined : RelayHub = add_pairing hub a own r.connection remote in
      let kept : HoldSame hub (forget_connection joined a).0 old =
        HoldSame-trans hub joined (forget_connection joined a).0 old
          (add_pairing-HoldSame hub a r.connection old own remote t.apart t.elsewhere)
          (forget_connection-HoldSame joined a old t.apart (told_only t)) in
      subst (λ x. pairings_of (forget_connection x a).0 old ≡ pairings_of hub old)
        (sym (connect-hub t)) kept.paired

  -- Then, once that connection has paired with the new one and left, the old one is still paired
  -- with it, though the hub no longer knows it.
  pub forget_connection_dangling :
      IsTakenOver hub a old own remote r
      → (lookup text_eq (device_key own) (pairings_of left old) ≡ some a)
        × (any (λ c. c == a) left.connections ≡ false)
  forget_connection_dangling t = (
    rw (pairings_of-left t) t.theirs,
    forget_connection-gone (handle_frame options fails hub store a (relay_connect remote none)).hub
        a,
  )
