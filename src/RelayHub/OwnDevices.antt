-- ===== src/RelayHub/OwnDevices.antt =====
-- What `restoreConnections` of relay-hub.ts finds devices by, where each connection holds a device of
-- its own.
use wire_mesh.Prelude.{
  ℕ, ◌≡◌, refl, ap, ◌∙◌, subst, true, List, [], ◌∷◌, some, Bytes, Text, text_eq, text_eq_refl,
  text_eq_iff, ◌==◌, ==_iff, arith, Bool-cases, Option-cases, inl, inr,
}
use wire_mesh.Prelude.Maps.{lookup, insert, lookup-insert}
use wire_mesh.PeerAdvert.{PeerAdvert}
use wire_mesh.RelayHub.{RelayHub, RelayConnectionState, device_key, export_connection}
use wire_mesh.RelayHub.Restore.{
  RelayConnectionRestore, own_devices, if_absent, fronted_by, fronted_devices,
}
use wire_mesh.RelayHub.Exported.{exports, survives}

module _ (hub : RelayHub) where
  -- A connection that holds its device keeps it, whatever comes behind it in the exports.
  pub record HasOwn (c : ℕ) (key : Text) : Type 0 where
    pub device : Bytes
    pub attributed : lookup ◌==◌ c hub.connection_device ≡ some device
    pub named : device_key device ≡ key

  abbrev pub AreOwn : Type 0
  AreOwn = (a b : ℕ) (key : Text) → HasOwn a key → HasOwn b key → a ≡ b

  pub export-HasOwn :
      (c : ℕ) (state : RelayConnectionState)
      → export_connection hub c ≡ some state
      → HasOwn c (device_key state.device)
  unfolding export_connection
  export-HasOwn c state e = elim (Option-cases (lookup ◌==◌ c hub.connection_device)) [
    | inl unknown ↦ absurd (ground (arith, unknown, e))
    | inr (device, known) ↦ record {
      device = device;
      attributed = known;
      named = ground (arith, known, e);
    }
  ]

  own_devices-kept :
      (by_device : List (Text × ℕ)) (cs : List ℕ) (c : ℕ) (key : Text)
      → AreOwn
      → HasOwn c key
      → lookup text_eq key by_device ≡ some c
      → lookup text_eq key (own_devices by_device (exports hub cs)) ≡ some c
  unfolding own_devices
  own_devices-kept by_device [] c key unique own h = h
  own_devices-kept by_device (a ∷ cs) c key unique own h =
      elim (Option-cases (export_connection hub a)) [
        | inl gone ↦ rw gone (own_devices-kept by_device cs c key unique own h)
        | inr (state, exported) ↦ rw exported (
            own_devices-kept (insert text_eq (device_key state.device) a by_device) cs c key unique
              own
              (lookup-insert text_eq text_eq_iff key (device_key state.device) a by_device
                ∙ elim (Bool-cases (text_eq (device_key state.device) key)) [
                  | inl same ↦
                      let e : device_key state.device ≡ key =
                        (text_eq_iff (device_key state.device) key).0 same in
                      rw same (
                        ap some (
                          unique a c key (subst (HasOwn a) e (export-HasOwn a state exported)) own))
                  | inr other ↦ rw other h
                ]))
      ]

  pub own_devices-found :
      (by_device : List (Text × ℕ)) (cs : List ℕ) (c : ℕ) (key : Text)
      → AreOwn
      → HasOwn c key
      → survives cs c ≡ true
      → lookup text_eq key (own_devices by_device (exports hub cs)) ≡ some c
  unfolding own_devices export_connection
  own_devices-found by_device [] c key unique own h = absurd (ground (arith, h))
  own_devices-found by_device (a ∷ cs) c key unique own h = elim (Bool-cases (a == c)) [
    | inl here ↦
        let e : a ≡ c = (==_iff a c).0 here in
        rw (e, own.attributed)
          (own_devices-kept _ cs c key unique own (
            lookup-insert text_eq text_eq_iff key (device_key own.device) c by_device
            ∙ (rw (own.named, text_eq_refl key) refl)))
    | inr later ↦
        let rest : survives cs c ≡ true = ground (arith, later, h) in
        elim (Option-cases (export_connection hub a)) [
          | inl gone ↦ rw gone (own_devices-found by_device cs c key unique own rest)
          | inr (state, exported) ↦ rw exported (
              own_devices-found (insert text_eq (device_key state.device) a by_device) cs c key
                unique own rest)
        ]
  ]

if_absent-found :
    (by_device : List (Text × ℕ)) (a c : ℕ) (j key : Text)
    → lookup text_eq key by_device ≡ some c
    → lookup text_eq key (if_absent (lookup text_eq j by_device) by_device j a) ≡ some c
if_absent-found by_device a c j key h = elim (Option-cases (lookup text_eq j by_device)) [
  | inl absent ↦ rw absent (
      lookup-insert text_eq text_eq_iff key j a by_device
      ∙ (ground (arith, text_eq_iff j key, absent, h)))
  | inr (b, there) ↦ rw there h
]

pub fronted_by-found :
    (by_device : List (Text × ℕ)) (a c : ℕ) (adverts : List PeerAdvert) (key : Text)
    → lookup text_eq key by_device ≡ some c
    → lookup text_eq key (fronted_by by_device a adverts) ≡ some c
unfolding fronted_by
fronted_by-found by_device a c [] key h = h
fronted_by-found by_device a c (advert ∷ adverts) key h =
    fronted_by-found
      (if_absent (lookup text_eq (device_key advert.content.device) by_device) by_device
        (device_key advert.content.device) a)
      a c adverts key (if_absent-found by_device a c (device_key advert.content.device) key h)

pub fronted_devices-found :
    (by_device : List (Text × ℕ)) (entries : List RelayConnectionRestore) (c : ℕ) (key : Text)
    → lookup text_eq key by_device ≡ some c
    → lookup text_eq key (fronted_devices by_device entries) ≡ some c
unfolding fronted_devices
fronted_devices-found by_device [] c key h = h
fronted_devices-found by_device ((a, state) ∷ entries) c key h =
    fronted_devices-found (fronted_by by_device a state.adverts) entries c key
      (fronted_by-found by_device a c state.adverts key h)
