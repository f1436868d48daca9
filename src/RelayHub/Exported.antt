-- ===== src/RelayHub/Exported.antt =====
-- What each pass of `restoreConnections` of relay-hub.ts makes of the states that a hub exported.
use wire_mesh.Prelude.{
  ℕ, ◌≡◌, refl, ◌∙◌, Bool, true, false, ◌&&◌, List, [], ◌∷◌, Option, none, some, Text, text_eq,
  text_eq_iff, ◌==◌, ==_iff, arith, any, if◌then◌else◌, Bool-cases, Option-cases, inl, inr,
}
use wire_mesh.Prelude.Maps.{lookup, insert, lookup-insert}
use wire_mesh.RelayHub.{
  RelayHub, RelayConnectionState, set_pairing, or_empty, register_connection, export_connection,
  adverts_of, keys,
}
use wire_mesh.RelayHub.Restore.{
  RelayConnectionRestore, restore_registrations, restore_adverts, restore_own, restore_pairings,
  peer_of_recent, restored_recent, restore_recent,
}

abbrev pub first_of {ℓ} : {A : Type ℓ} → Option A → Option A → Option A
first_of none o = o
first_of (some a) o = some a

abbrev is_found : Option ℕ → Bool
is_found none = false
is_found (some c) = true

-- The peer of a connection under a key.
abbrev paired_at : List (ℕ × List (Text × ℕ)) → ℕ → Text → Option ℕ
paired_at pairings c k = lookup text_eq k (or_empty (lookup ◌==◌ c pairings))

paired_at-set_pairing :
    (pairings : List (ℕ × List (Text × ℕ))) (a c peer : ℕ) (j k : Text)
    → paired_at (set_pairing pairings a j peer) c k
      ≡ (if (a == c) && text_eq j k then some peer else paired_at pairings c k)
unfolding set_pairing
paired_at-set_pairing pairings a c peer j k =
    let own : List (Text × ℕ) = or_empty (lookup ◌==◌ a pairings) in
    elim (Bool-cases (a == c)) [
      | inl same ↦
          let e : a ≡ c = (==_iff a c).0 same in
          rw (lookup-insert ◌==◌ ==_iff c a (insert text_eq j peer own) pairings, same)
            (lookup-insert text_eq text_eq_iff k j peer own ∙ (rw e refl))
      | inr other ↦
          rw (lookup-insert ◌==◌ ==_iff c a (insert text_eq j peer own) pairings, other) refl
    ]

-- The keys of one entry resolve, or leave what there was.
paired_at-restore_own :
    (by_device : List (Text × ℕ)) (pairings : List (ℕ × List (Text × ℕ))) (a c : ℕ) (js : List Text)
    (k : Text)
    → paired_at (restore_own by_device pairings a js) c k ≡ (
        if (a == c) && any (λ j. text_eq j k) js
        then first_of (lookup text_eq k by_device) (paired_at pairings c k)
        else paired_at pairings c k)
unfolding restore_own
paired_at-restore_own by_device pairings a c [] k = ground arith
paired_at-restore_own by_device pairings a c (j ∷ js) k =
    elim (Option-cases (lookup text_eq j by_device)) [
      | inl gone ↦
          rw gone (
            ground
              (arith, paired_at-restore_own by_device pairings a c js k, text_eq_iff j k, gone))
      | inr (peer, found) ↦ rw found (
          ground (
            arith,
            paired_at-restore_own by_device (set_pairing pairings a j peer) a c js k,
            paired_at-set_pairing pairings a c peer j k,
            text_eq_iff j k,
            found,
          ))
    ]

abbrev with_state :
    ℕ → Option RelayConnectionState → List RelayConnectionRestore → List RelayConnectionRestore
with_state c none entries = entries
with_state c (some state) entries = (c, state) ∷ entries

-- What a host keeps of a hub, and hands to the next: the states of the connections that survive.
abbrev pub exports : RelayHub → List ℕ → List RelayConnectionRestore
exports hub [] = []
exports hub (c ∷ cs) = with_state c (export_connection hub c) (exports hub cs)

abbrev pub paired_in : Option RelayConnectionState → List Text
paired_in none = []
paired_in (some state) = state.paired_devices

abbrev pub recent_in : Option RelayConnectionState → Option Text
recent_in none = none
recent_in (some state) = state.most_recent_device

abbrev pub survives : List ℕ → ℕ → Bool
survives cs c = any (λ x. x == c) cs

pub any-keys :
    (own : List (Text × ℕ)) (k : Text)
    → any (λ j. text_eq j k) (keys own) ≡ is_found (lookup text_eq k own)
unfolding lookup
any-keys [] k = refl
any-keys ((j, p) ∷ own) k = ground (arith, any-keys own k)

lookup-restored_recent :
    (recent : List (ℕ × ℕ)) (a c : ℕ) (o : Option ℕ)
    → lookup ◌==◌ c (restored_recent recent a o)
      ≡ (if a == c then first_of o (lookup ◌==◌ c recent) else lookup ◌==◌ c recent)
lookup-restored_recent recent a c none = ground arith
lookup-restored_recent recent a c (some peer) =
    ground (arith, lookup-insert ◌==◌ ==_iff c a peer recent)

module _ (hub : RelayHub) where
  pub paired_at-restore_pairings :
      (by_device : List (Text × ℕ)) (pairings : List (ℕ × List (Text × ℕ))) (cs : List ℕ) (c : ℕ)
      (k : Text)
      → paired_at (restore_pairings by_device pairings (exports hub cs)) c k ≡ (
          if survives cs c && any (λ j. text_eq j k) (paired_in (export_connection hub c))
          then first_of (lookup text_eq k by_device) (paired_at pairings c k)
          else paired_at pairings c k)
  unfolding restore_pairings
  paired_at-restore_pairings by_device pairings [] c k = refl
  paired_at-restore_pairings by_device pairings (a ∷ cs) c k =
      elim (Option-cases (export_connection hub a)) [
        | inl gone ↦
            rw gone (ground (arith, paired_at-restore_pairings by_device pairings cs c k, gone))
        | inr (state, exported) ↦ rw exported (
            ground (
              arith,
              paired_at-restore_pairings by_device
                  (restore_own by_device pairings a state.paired_devices) cs c k,
              paired_at-restore_own by_device pairings a c state.paired_devices k,
              exported,
            ))
      ]

  pub lookup-restore_recent :
      (by_device : List (Text × ℕ)) (recent : List (ℕ × ℕ)) (cs : List ℕ) (c : ℕ)
      → lookup ◌==◌ c (restore_recent by_device recent (exports hub cs)) ≡ (
          if survives cs c
          then first_of
              (peer_of_recent by_device (recent_in (export_connection hub c)))
              (lookup ◌==◌ c recent)
          else lookup ◌==◌ c recent)
  unfolding restore_recent
  lookup-restore_recent by_device recent [] c = refl
  lookup-restore_recent by_device recent (a ∷ cs) c =
      elim (Option-cases (export_connection hub a)) [
        | inl gone ↦ rw gone (ground (arith, lookup-restore_recent by_device recent cs c, gone))
        | inr (state, exported) ↦ rw exported (
            ground (
              arith,
              lookup-restore_recent by_device
                  (restored_recent recent a (peer_of_recent by_device state.most_recent_device)) cs
                  c,
              lookup-restored_recent recent a c (peer_of_recent by_device state.most_recent_device),
              exported,
            ))
      ]

  pub lookup-restore_registrations :
      (made : RelayHub) (cs : List ℕ) (c : ℕ)
      → lookup ◌==◌ c (restore_registrations made (exports hub cs)).connection_device ≡ (
          if survives cs c
          then first_of (lookup ◌==◌ c hub.connection_device) (lookup ◌==◌ c made.connection_device)
          else lookup ◌==◌ c made.connection_device)
  unfolding restore_registrations export_connection
  lookup-restore_registrations made [] c = refl
  lookup-restore_registrations made (a ∷ cs) c =
      elim (Option-cases (lookup ◌==◌ a hub.connection_device)) [
        | inl unknown ↦ rw unknown (ground (arith, lookup-restore_registrations made cs c, unknown))
        | inr (device, known) ↦
            let registered : RelayHub = register_connection made a in
            let next : RelayHub = record registered {
              connection_device = insert ◌==◌ a device made.connection_device;
              devices = restore_adverts made.devices a (adverts_of hub.devices a);
            } in
            rw known (
              ground (
                arith,
                lookup-restore_registrations next cs c,
                lookup-insert ◌==◌ ==_iff c a device made.connection_device,
                known,
              ))
      ]
