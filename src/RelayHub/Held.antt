-- ===== src/RelayHub/Held.antt =====
-- What two states of the hub of relay-hub.ts hold alike for a connection, and the connections that
-- gathering adverts names.
use wire_mesh.Prelude.{
  ℕ, ◌≡◌, ◌≢◌, inl, inr, refl, sym, ap, ◌∙◌, Bool, false, ◌||◌, List, [], ◌∷◌, ◌++◌, Option, none,
  some, Bytes, Text, text_eq, ◌==◌, ==_iff, if◌then◌else◌, arith, Bool-cases,
}
use wire_mesh.Prelude.Maps.{lookup, insert, lookup-insert}
use wire_mesh.PeerAdvert.{PeerAdvert}
use wire_mesh.RelayHub.{
  Registration, RelayHub, device_key, set_pairing, pairings_of, add_pairing, or_empty, adverts_of,
}
use wire_mesh.RelayHub.Rules.{Gathered, may_register, supplanted_by, register_advert, fronts}

-- Two hubs hold the same for a connection.
pub record HoldSame (hub hub' : RelayHub) (c : ℕ) : Type 0 where
  pub device : lookup ◌==◌ c hub'.connection_device ≡ lookup ◌==◌ c hub.connection_device
  pub adverts : adverts_of hub'.devices c ≡ adverts_of hub.devices c
  pub paired : pairings_of hub' c ≡ pairings_of hub c
  pub recent : lookup ◌==◌ c hub'.most_recent_pairing ≡ lookup ◌==◌ c hub.most_recent_pairing

pub set_pairing_other :
    (pairings : List (ℕ × List (Text × ℕ))) (a c : ℕ) (key : Text) (peer : ℕ)
    → a ≢ c
    → lookup ◌==◌ c (set_pairing pairings a key peer) ≡ lookup ◌==◌ c pairings
unfolding set_pairing
set_pairing_other pairings a c key peer n =
    let other : (a == c) ≡ false = ground arith in
    lookup-insert ◌==◌ ==_iff c a _ pairings ∙ rw other refl

pub add_pairing-HoldSame :
    (hub : RelayHub) (a b c : ℕ) (a_device b_device : Bytes)
    → a ≢ c
    → b ≢ c
    → HoldSame hub (add_pairing hub a a_device b b_device) c
unfolding add_pairing pairings_of
add_pairing-HoldSame hub a b c a_device b_device na nb =
    let not_a : (a == c) ≡ false = ground arith in
    let not_b : (b == c) ≡ false = ground arith in
    record {
      device = refl;
      adverts = refl;
      paired = ap or_empty (
          set_pairing_other (set_pairing hub.pairings a (device_key b_device) b) b c
            (device_key a_device) a nb
          ∙ set_pairing_other hub.pairings a c (device_key b_device) b na);
      recent =
          lookup-insert ◌==◌ ==_iff c b a _
          ∙ rw not_b (lookup-insert ◌==◌ ==_iff c a b _ ∙ rw not_a refl);
    }

adverts_of-insert :
    (devices : List (Text × Registration)) (key : Text) (r : Registration) (c : ℕ)
    → r.connection ≢ c
    → fronts (lookup text_eq key devices) c ≡ false
    → adverts_of (insert text_eq key r devices) c ≡ adverts_of devices c
unfolding adverts_of insert lookup
adverts_of-insert [] key r c n h = ground arith
adverts_of-insert ((k, q) ∷ devices) key r c n h = elim (Bool-cases (text_eq k key)) [
  | inl hit ↦
      let gone : (q.connection == c) ≡ false = rw hit at h in
      let new : (r.connection == c) ≡ false = ground arith in rw (hit, gone, new) refl
  | inr miss ↦
      let rest : fronts (lookup text_eq key devices) c ≡ false = rw miss at h in
      rw miss (
        ap (λ (l : List PeerAdvert). if q.connection == c then q.advert ∷ l else l)
          (adverts_of-insert devices key r c n rest))
]

abbrev pub is_told : List ℕ → ℕ → Bool
is_told [] c = false
is_told (x ∷ told) c = x == c || is_told told c

pub is_told-append : (l m : List ℕ) (c : ℕ) → is_told (l ++ m) c ≡ (is_told l c || is_told m c)
is_told-append [] m c = refl
is_told-append (x ∷ l) m c = ground (arith, is_told-append l m c)

-- What the gathering leaves alone: the adverts of connections that it does not name.
abbrev pub KeepsAdverts : Gathered → Gathered → ℕ → Type 0
KeepsAdverts g g' c =
    is_told g'.supplanted c ≡ false
    → (is_told g.supplanted c ≡ false) × (adverts_of g'.devices c ≡ adverts_of g.devices c)

pub register_advert-KeepsAdverts :
    (connection : ℕ) (g : Gathered) (advert : PeerAdvert) (c : ℕ)
    → connection ≢ c
    → KeepsAdverts g (register_advert connection g advert) c
unfolding register_advert
register_advert-KeepsAdverts connection g advert c n =
    let key : Text = device_key advert.content.device in
    let r : Registration = record { connection = connection; advert = advert } in
    elim (Bool-cases (may_register (lookup text_eq key g.devices) advert connection)) [
      | inl may ↦ rw may (λ h.
          let both : (is_told g.supplanted c
                || is_told (supplanted_by (lookup text_eq key g.devices) connection) c)
              ≡ false =
            sym (is_told-append g.supplanted _ c) ∙ h in
          (
            ground arith,
            adverts_of-insert g.devices key r c n
                (not_fronted (lookup text_eq key g.devices) (ground arith)),
          ))
      | inr refused ↦ rw refused (λ h. (h, refl))
    ]
  where
    not_fronted :
        (o : Option Registration)
        → is_told (supplanted_by o connection) c ≡ false
        → fronts o c ≡ false
    not_fronted none h = refl
    not_fronted (some q) h = ground arith
