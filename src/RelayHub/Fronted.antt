-- ===== src/RelayHub/Fronted.antt =====
-- What `restoreConnections` of relay-hub.ts finds devices by, where a connection fronts others' devices.
use wire_mesh.Prelude.{
  ℕ, ◌≡◌, ◌⊎◌, inl, inr, refl, sym, ap, ◌∙◌, subst, Bool, true, List, [], ◌∷◌, some, Bytes, Text,
  text_eq, text_eq_iff, ◌==◌, ==_iff, any, arith, Bool-cases, Option-cases,
}
use wire_mesh.Prelude.Maps.{lookup, insert, lookup-insert}
use wire_mesh.PeerAdvert.{PeerAdvert}
use wire_mesh.RelayHub.{RelayHub, RelayConnectionState, device_key, export_connection, adverts_of}
use wire_mesh.RelayHub.Restore.{own_devices, fronted_by, fronted_devices, if_absent}
use wire_mesh.RelayHub.Exported.{exports, survives}
use wire_mesh.RelayHub.OwnDevices.{
  HasOwn, own_devices-found, fronted_by-found, fronted_devices-found, export-HasOwn,
}

abbrev pub names : List PeerAdvert → Text → Bool
names adverts key =
    any (λ (advert : PeerAdvert). text_eq (device_key advert.content.device) key) adverts

-- Under the key there is nobody but the connection.
abbrev Leads : List (Text × ℕ) → Text → ℕ → Type 0
Leads by_device key c = (a : ℕ) → lookup text_eq key by_device ≡ some a → a ≡ c

Leads-insert :
    (by_device : List (Text × ℕ)) (j key : Text) (a c : ℕ)
    → (text_eq j key ≡ true → a ≡ c)
    → Leads by_device key c
    → Leads (insert text_eq j a by_device) key c
Leads-insert by_device j key a c own h b e =
    let found = sym (lookup-insert text_eq text_eq_iff key j a by_device) ∙ e in
    elim (Bool-cases (text_eq j key)) [
      | inl hit ↦ let same : a ≡ b = ground (arith, hit, found) in sym same ∙ own hit
      | inr miss ↦ h b (ground (arith, miss, found))
    ]

Leads-if_absent :
    (by_device : List (Text × ℕ)) (j key : Text) (a c : ℕ)
    → (text_eq j key ≡ true → a ≡ c)
    → Leads by_device key c
    → Leads (if_absent (lookup text_eq j by_device) by_device j a) key c
Leads-if_absent by_device j key a c own h = elim (Option-cases (lookup text_eq j by_device)) [
  | inl absent ↦ rw absent (Leads-insert by_device j key a c own h)
  | inr (b, there) ↦ rw there h
]

fronted_by-Leads :
    (by_device : List (Text × ℕ)) (a c : ℕ) (adverts : List PeerAdvert) (key : Text)
    → (names adverts key ≡ true → a ≡ c)
    → Leads by_device key c
    → Leads (fronted_by by_device a adverts) key c
unfolding fronted_by
fronted_by-Leads by_device a c [] key own h = h
fronted_by-Leads by_device a c (advert ∷ adverts) key own h =
    let j : Text = device_key advert.content.device in
    fronted_by-Leads (if_absent (lookup text_eq j by_device) by_device j a) a c adverts key
      (λ n. own (ground (arith, n)))
      (Leads-if_absent by_device j key a c (λ n. own (ground (arith, n))) h)

if_absent-own :
    (by_device : List (Text × ℕ)) (j key : Text) (c : ℕ)
    → text_eq j key ≡ true
    → Leads by_device key c
    → lookup text_eq key (if_absent (lookup text_eq j by_device) by_device j c) ≡ some c
if_absent-own by_device j key c hit h =
    let same : j ≡ key = (text_eq_iff j key).0 hit in
    elim (Option-cases (lookup text_eq j by_device)) [
      | inl absent ↦ rw absent (lookup-insert text_eq text_eq_iff key j c by_device ∙ (rw hit refl))
      | inr (b, there) ↦
          let found : lookup text_eq key by_device ≡ some b =
            subst (λ k. lookup text_eq k by_device ≡ some b) same there in
          rw there (found ∙ ap some (h b found))
    ]

-- The devices that the connection fronts lead to it.
fronted_by-own :
    (by_device : List (Text × ℕ)) (c : ℕ) (adverts : List PeerAdvert) (key : Text)
    → names adverts key ≡ true
    → Leads by_device key c
    → lookup text_eq key (fronted_by by_device c adverts) ≡ some c
unfolding fronted_by
fronted_by-own by_device c [] key n h = absurd (ground (arith, n))
fronted_by-own by_device c (advert ∷ adverts) key n h =
    let j : Text = device_key advert.content.device in
    let next : List (Text × ℕ) = if_absent (lookup text_eq j by_device) by_device j c in
    elim (Bool-cases (text_eq j key)) [
      | inl hit ↦ fronted_by-found next c c adverts key (if_absent-own by_device j key c hit h)
      | inr miss ↦
          fronted_by-own next c adverts key (ground (arith, n, miss))
            (Leads-if_absent by_device j key c c (λ _. refl) h)
    ]

module _ (hub : RelayHub) where
  -- A connection that has a device attributed to it, and registered another's advert.
  pub record Fronts (c : ℕ) (key : Text) : Type 0 where
    pub device : Bytes
    pub attributed : lookup ◌==◌ c hub.connection_device ≡ some device
    pub advertised : names (adverts_of hub.devices c) key ≡ true

  -- Its own device, or one that it fronts.
  abbrev pub HasDevice : ℕ → Text → Type 0
  HasDevice c key = HasOwn hub c key ⊎ Fronts c key

  abbrev pub AreApart : Type 0
  AreApart = (a b : ℕ) (key : Text) → HasDevice a key → HasDevice b key → a ≡ b

  export-Fronts :
      (c : ℕ) (state : RelayConnectionState) (key : Text)
      → export_connection hub c ≡ some state
      → names state.adverts key ≡ true
      → Fronts c key
  unfolding export_connection
  export-Fronts c state key e n = elim (Option-cases (lookup ◌==◌ c hub.connection_device)) [
    | inl unknown ↦ absurd (ground (arith, unknown, e))
    | inr (device, known) ↦ record {
      device = device;
      attributed = known;
      advertised = ground (arith, known, e, n);
    }
  ]

  adverts-export :
      (c : ℕ) (key : Text)
      → Fronts c key
      → (state : RelayConnectionState) × (export_connection hub c ≡ some state)
        × (names state.adverts key ≡ true)
  unfolding export_connection
  adverts-export c key f = rw f.attributed (_, refl, f.advertised)

  module _ (c : ℕ) (key : Text) (apart : AreApart) (has : HasDevice c key) where
    own_devices-Leads :
        (by_device : List (Text × ℕ)) (cs : List ℕ)
        → Leads by_device key c
        → Leads (own_devices by_device (exports hub cs)) key c
    unfolding own_devices
    own_devices-Leads by_device [] h = h
    own_devices-Leads by_device (a ∷ cs) h = elim (Option-cases (export_connection hub a)) [
      | inl gone ↦ rw gone (own_devices-Leads by_device cs h)
      | inr (state, exported) ↦ rw exported (
          own_devices-Leads (insert text_eq (device_key state.device) a by_device) cs (
            Leads-insert by_device (device_key state.device) key a c
              (λ hit.
                apart a c key
                  (inl (
                    subst (HasOwn hub a) ((text_eq_iff (device_key state.device) key).0 hit)
                      (export-HasOwn hub a state exported)))
                  has)
              h))
    ]

    fronted_devices-own :
        (by_device : List (Text × ℕ)) (cs : List ℕ)
        → Fronts c key
        → survives cs c ≡ true
        → Leads by_device key c
        → lookup text_eq key (fronted_devices by_device (exports hub cs)) ≡ some c
    unfolding fronted_devices
    fronted_devices-own by_device [] f there h = absurd (ground (arith, there))
    fronted_devices-own by_device (a ∷ cs) f there h = elim (Bool-cases (a == c)) [
      | inl here ↦
          let e : a ≡ c = (==_iff a c).0 here in
          let (state, exported, named) = adverts-export c key f in
          rw (e, exported)
            (fronted_devices-found (fronted_by by_device c state.adverts) (exports hub cs) c key
              (fronted_by-own by_device c state.adverts key named h))
      | inr later ↦
          let rest : survives cs c ≡ true = ground (arith, later, there) in
          elim (Option-cases (export_connection hub a)) [
            | inl gone ↦ rw gone (fronted_devices-own by_device cs f rest h)
            | inr (state, exported) ↦ rw exported (
                fronted_devices-own (fronted_by by_device a state.adverts) cs f rest (
                  fronted_by-Leads by_device a c state.adverts key
                    (λ n. apart a c key (inr (export-Fronts a state key exported n)) has) h))
          ]
    ]

  -- The restoring hub finds a surviving connection by its own device and by those that it fronts.
  pub by_device-found :
      (cs : List ℕ) (c : ℕ) (key : Text)
      → AreApart
      → HasDevice c key
      → survives cs c ≡ true
      → lookup text_eq key (fronted_devices (own_devices [] (exports hub cs)) (exports hub cs))
        ≡ some c
  unfolding lookup
  by_device-found cs c key apart (inl own) there =
      fronted_devices-found (own_devices [] (exports hub cs)) (exports hub cs) c key
        (own_devices-found hub [] cs c key (λ a b k p q. apart a b k (inl p) (inl q)) own there)
  by_device-found cs c key apart (inr fronts) there =
      fronted_devices-own c key apart (inr fronts) (own_devices [] (exports hub cs)) cs fronts there
        (own_devices-Leads c key apart (inr fronts) [] cs (λ a e. absurd (ground (arith, e))))
