-- ===== src/RelayHub/Forgetting.antt =====
-- What relay-hub.ts tells its host when a connection leaves, and after each frame that it serves.
use wire_mesh.Prelude.{
  ℕ, ◌≡◌, ◌≢◌, inl, inr, refl, sym, ap, ◌∙◌, Bool, false, ◌||◌, List, [], ◌∷◌, Option, none, some,
  Text, ◌==◌, ==_iff, arith, Bool-cases,
}
use wire_mesh.Prelude.Maps.{lookup, erase, lookup-insert, lookup-erase}
use wire_mesh.RelayHub.{
  Registration, RelayHub, pairings_of, or_empty, adverts_of, state_with, export_connection,
  forget_connection, forget_at, forget_at_peers, forget_registrations, forget_pairings_with,
  forget_most_recent, without_registrations, peers,
}
use wire_mesh.RelayHub.Handler.{handle_frame, serve_frame}
use wire_mesh.RelayHub.Rules.{Frame, RelayHubOptions, Outcome}
use wire_mesh.RelayHub.Notified.{handle_frame-HoldSame}
use wire_mesh.RelayHub.Held.{HoldSame, is_told, is_told-append}

pub HoldSame-trans : (h k l : RelayHub) (c : ℕ) → HoldSame h k c → HoldSame k l c → HoldSame h l c
HoldSame-trans h k l c p q = record {
  device = q.device ∙ p.device;
  adverts = q.adverts ∙ p.adverts;
  paired = q.paired ∙ p.paired;
  recent = q.recent ∙ p.recent;
}

lookup-erase_other :
    {V : Type 0} (c a : ℕ) (m : List (ℕ × V))
    → a ≢ c
    → lookup ◌==◌ c (erase ◌==◌ a m) ≡ lookup ◌==◌ c m
lookup-erase_other c a m n =
    let e : (a == c) ≡ false = ground arith in lookup-erase ◌==◌ ==_iff c a m ∙ rw e refl

adverts_of-without_registrations :
    (devices : List (Text × Registration)) (a c : ℕ)
    → a ≢ c
    → adverts_of (without_registrations devices a) c ≡ adverts_of devices c
unfolding adverts_of without_registrations
adverts_of-without_registrations [] a c n = refl
adverts_of-without_registrations ((k, r) ∷ devices) a c n =
    ground (arith, adverts_of-without_registrations devices a c n)

forget_registrations-HoldSame :
    (hub : RelayHub) (a c : ℕ) → a ≢ c → HoldSame hub (forget_registrations hub a) c
unfolding forget_registrations pairings_of
forget_registrations-HoldSame hub a c n = record {
  device = lookup-erase_other c a hub.connection_device n;
  adverts = adverts_of-without_registrations hub.devices a c n;
  paired = refl;
  recent = lookup-erase_other c a hub.most_recent_pairing n;
}

forget_pairings_with-other :
    (pairings : List (ℕ × List (Text × ℕ))) (a peer c : ℕ) (o : Option (List (Text × ℕ)))
    → peer ≢ c
    → lookup ◌==◌ c (forget_pairings_with pairings a peer o) ≡ lookup ◌==◌ c pairings
forget_pairings_with-other pairings a peer c none n = refl
forget_pairings_with-other pairings a peer c (some own) n =
    let e : (peer == c) ≡ false = ground arith in
    lookup-insert ◌==◌ ==_iff c peer _ pairings ∙ rw e refl

forget_most_recent-other :
    (recent : List (ℕ × ℕ)) (a peer c : ℕ) (o : Option ℕ)
    → peer ≢ c
    → lookup ◌==◌ c (forget_most_recent recent a peer o) ≡ lookup ◌==◌ c recent
forget_most_recent-other recent a peer c none n = refl
forget_most_recent-other recent a peer c (some x) n = elim (Bool-cases (x == a)) [
  | inl hit ↦ rw hit (lookup-erase_other c peer recent n)
  | inr miss ↦ rw miss refl
]

forget_at-HoldSame :
    (hub : RelayHub) (a peer c : ℕ) → peer ≢ c → HoldSame hub (forget_at hub a peer) c
unfolding forget_at pairings_of
forget_at-HoldSame hub a peer c n = record {
  device = refl;
  adverts = refl;
  paired =
      ap or_empty
        (forget_pairings_with-other hub.pairings a peer c (lookup ◌==◌ peer hub.pairings) n);
  recent =
      forget_most_recent-other hub.most_recent_pairing a peer c
        (lookup ◌==◌ peer hub.most_recent_pairing) n;
}

forget_at_peers-HoldSame :
    (hub : RelayHub) (a : ℕ) (own : List (Text × ℕ)) (c : ℕ)
    → is_told (peers own) c ≡ false
    → HoldSame hub (forget_at_peers hub a own) c
unfolding forget_at_peers
forget_at_peers-HoldSame hub a [] c h = record {
  device = refl;
  adverts = refl;
  paired = refl;
  recent = refl;
}
forget_at_peers-HoldSame hub a ((key, peer) ∷ own) c h =
    HoldSame-trans hub (forget_at hub a peer) _ c (forget_at-HoldSame hub a peer c (ground arith))
      (forget_at_peers-HoldSame (forget_at hub a peer) a own c (ground arith))

pub forget_connection-HoldSame :
    (hub : RelayHub) (a c : ℕ)
    → a ≢ c
    → is_told (forget_connection hub a).1 c ≡ false
    → HoldSame hub (forget_connection hub a).0 c
unfolding forget_connection pairings_of
forget_connection-HoldSame hub a c n h =
    let start : RelayHub = forget_registrations hub a in
    let left : RelayHub = forget_at_peers start a (pairings_of hub a) in
    let k : HoldSame hub left c =
      HoldSame-trans hub start left c (forget_registrations-HoldSame hub a c n)
        (forget_at_peers-HoldSame start a (pairings_of hub a) c h) in
    record {
      device = k.device;
      adverts = k.adverts;
      paired = ap or_empty (lookup-erase_other c a left.pairings n) ∙ k.paired;
      recent = k.recent;
    }

export_same :
    (hub hub' : RelayHub) (c : ℕ)
    → HoldSame hub hub' c
    → export_connection hub' c ≡ export_connection hub c
unfolding export_connection
export_same hub hub' c h = λ i. state_with (h.device i) (h.adverts i) (h.paired i) (h.recent i)

module _ {S : Type 0} (options : RelayHubOptions S) (fails : ℕ → Bool) where
  -- Whatever frame a connection sends, and also where its handler throws and the connection is
  -- dropped: what the hub would export for any other connection changes only if the host is told.
  pub serve_frame_told :
      (hub : RelayHub) (store : S) (connection : ℕ) (frame : Frame) (c : ℕ)
      → connection ≢ c
      → is_told (serve_frame options fails hub store connection frame).changed c ≡ false
      → export_connection (serve_frame options fails hub store connection frame).hub c
        ≡ export_connection hub c
  unfolding serve_frame
  serve_frame_told hub store connection frame c n h =
      let o : Outcome S = handle_frame options fails hub store connection frame in
      elim (Bool-cases o.thrown) [
        | inl threw ↦
            let both : (is_told o.changed c || is_told (forget_connection o.hub connection).1 c)
                ≡ false =
              sym (is_told-append o.changed _ c) ∙ rw threw at h in
            rw threw (
              export_same hub _ c (
                HoldSame-trans hub o.hub _ c
                  (handle_frame-HoldSame options fails hub store connection c frame (ground arith))
                  (forget_connection-HoldSame o.hub connection c n (ground arith))))
        | inr went ↦ rw went (
            export_same hub _ c
              (handle_frame-HoldSame options fails hub store connection c frame (rw went at h)))
      ]
