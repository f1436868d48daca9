-- ===== src/RoomToken/Rooted.antt =====
-- What an accepted room token proves, by room-token-verification.ts, and what it does not.
use wire_mesh.Prelude.{
  ℕ, ◌≡◌, ◌≢◌, ◌↔◌, ◌⊎◌, inl, inr, refl, ap, ◌∙◌, true, Option, none, some, Bytes, Text, text,
  text_eq, text_eq_iff, text_eq_refl, arith, Bool-cases, Option-cases, ok, err, M, >>=-eq-ok,
}
use wire_mesh.DeviceId.{device_id_to_hex}
use wire_mesh.Claims.{CapabilityToken}
use wire_mesh.Trilean.{IsKleene, Trilean}
use wire_mesh.Token.{TokenVerdictReason, Accepted, Verifier}
use wire_mesh.Token.Verify.{verify_capability_token}
use wire_mesh.Token.Chain.{Chain}
use wire_mesh.Token.Acceptance.{verify_capability_token_sound}
use wire_mesh.RoomPath.{ParsedRoomPath, owner_named, dm, parse_room_path}
use wire_mesh.RoomToken.{
  RoomAccepted, DmRootPolicy, self, either_participant, of_verdict, is_path, is_rooted, check_room,
  verify_room_token, room_member_capability,
}

-- Where the chain of a token for the room has to end: at the owner that the path names, or, for a
-- direct message, at the verifying device, or at one of the two participants where that is enough.
abbrev pub EndsAt : DmRootPolicy → Bytes → Bytes → ParsedRoomPath → Type 0
EndsAt policy own root (owner_named owner name) = device_id_to_hex root ≡ owner
EndsAt either_participant own root (dm a b) =
    (device_id_to_hex root ≡ a) ⊎ (device_id_to_hex root ≡ b)
EndsAt self own root (dm a b) = device_id_to_hex root ≡ device_id_to_hex own

is_rooted_iff :
    (policy : DmRootPolicy) (own root : Bytes) (parsed : ParsedRoomPath)
    → (is_rooted policy own root parsed ≡ true) ↔ EndsAt policy own root parsed
unfolding is_rooted
is_rooted_iff policy own root (owner_named owner name) = text_eq_iff (device_id_to_hex root) owner
is_rooted_iff either_participant own root (dm a b) =
    ground (arith, text_eq_iff (device_id_to_hex root) a, text_eq_iff (device_id_to_hex root) b)
is_rooted_iff self own root (dm a b) = text_eq_iff (device_id_to_hex root) (device_id_to_hex own)

-- The room's own obligations on an accepted token.
pub record IsForRoom (policy : DmRootPolicy) (own : Bytes) (room_path : Text) (a : Accepted)
    : Type 0 where
  pub kind : a.claims.scope.kind ≡ text "room"
  pub path : a.claims.scope.path ≡ some room_path
  pub parsed : ParsedRoomPath
  pub parses : parse_room_path room_path ≡ some parsed
  pub rooted : EndsAt policy own a.root_issuer parsed

is_path-true : (o : Option Text) (p : Text) → is_path o p ≡ true → o ≡ some p
is_path-true none p h = cc
is_path-true (some q) p h = ap some ((text_eq_iff q p).0 h)

check_room-eq-ok :
    (policy : DmRootPolicy) (own : Bytes) (room_path : Text) (a : Accepted) (r : RoomAccepted)
    → check_room policy own room_path a ≡ some (ok r)
    → IsForRoom policy own room_path a
      × (r ≡ record { claims = a.claims; root_issuer_key = a.root_issuer_key })
unfolding check_room
check_room-eq-ok policy own room_path a r h =
    elim (Bool-cases (text_eq a.claims.scope.kind (text "room"))) [
      | inr other ↦ ground arith
      | inl kind ↦ elim (Bool-cases (is_path a.claims.scope.path room_path)) [
        | inr other ↦ ground arith
        | inl path ↦ elim (Option-cases (parse_room_path room_path)) [
          | inl unparsed ↦ ground arith
          | inr (parsed, parses) ↦ elim (Bool-cases (is_rooted policy own a.root_issuer parsed)) [
            | inr other ↦ ground arith
            | inl rooted ↦ (
              record {
                kind = (text_eq_iff _ _).0 kind;
                path = is_path-true a.claims.scope.path room_path path;
                parsed = parsed;
                parses = parses;
                rooted = (is_rooted_iff policy own a.root_issuer parsed).0 rooted;
              },
              ground arith,
            )
          ]
        ]
      ]
    ]

check_room-ok :
    (policy : DmRootPolicy) (own : Bytes) (room_path : Text) (a : Accepted)
    → IsForRoom policy own room_path a
    → check_room policy own room_path a
      ≡ some (ok (record { claims = a.claims; root_issuer_key = a.root_issuer_key }))
unfolding check_room
check_room-ok policy own room_path a h =
    let kind : text_eq a.claims.scope.kind (text "room") ≡ true = (text_eq_iff _ _).1 h.kind in
    let path : is_path a.claims.scope.path room_path ≡ true =
      ap (λ o. is_path o room_path) h.path ∙ text_eq_refl room_path in
    simp (kind, path, h.parses, (is_rooted_iff policy own a.root_issuer h.parsed).1 h.rooted) refl

of_verdict-eq-ok :
    (m : M TokenVerdictReason Accepted) (a : Accepted)
    → of_verdict m ≡ some (ok a)
    → m ≡ some (ok a)
of_verdict-eq-ok none a h = cc
of_verdict-eq-ok (some (ok b)) a h = cc
of_verdict-eq-ok (some (err e)) a h = cc

module _ {t : Trilean} (v : Verifier t) where
  -- A token that is accepted for a room has a vouched chain behind it that names the expected bearer
  -- and ends where the path of the room says; its scope is that room, as the path parses.
  pub verify_room_token_sound :
      (kleene : IsKleene t) (fuel : ℕ) (policy : DmRootPolicy) (own : Bytes) (room_path : Text)
      (token : CapabilityToken) (bearer : Bytes) (r : RoomAccepted)
      → verify_room_token v fuel policy own room_path token bearer ≡ some (ok r)
      → (a : Accepted) × Chain v token none a
        × (a.claims.bearer ≡ bearer)
        × (r.claims ≡ a.claims)
        × (r.root_issuer_key ≡ a.root_issuer_key)
        × IsForRoom policy own room_path a
  unfolding verify_room_token
  verify_room_token_sound kleene fuel policy own room_path token bearer r h =
      let (a, e, c) =
        >>=-eq-ok (of_verdict (verify_capability_token v fuel token (some bearer)))
          (check_room policy own room_path) h in
      let accepted = of_verdict-eq-ok (verify_capability_token v fuel token (some bearer)) a e in
      let (chain, _, names) = verify_capability_token_sound v kleene fuel token bearer a accepted in
      let (room, same) = check_room-eq-ok policy own room_path a r c in
      (
        a,
        chain,
        names,
        ap (λ (x : RoomAccepted). x.claims) same,
        ap (λ (x : RoomAccepted). x.root_issuer_key) same,
        room,
      )

  -- The capability that a token names is not asked: one of another capability than `room:member` is
  -- accepted as well, if it verifies and its scope and root fit the room.
  pub verify_room_token_any_capability :
      (fuel : ℕ) (policy : DmRootPolicy) (own : Bytes) (room_path : Text) (token : CapabilityToken)
      (bearer : Bytes) (a : Accepted)
      → verify_capability_token v fuel token (some bearer) ≡ some (ok a)
      → IsForRoom policy own room_path a
      → a.claims.capability ≢ room_member_capability
      → (r : RoomAccepted) × (verify_room_token v fuel policy own room_path token bearer
          ≡ some (ok r))
        × (r.claims.capability ≢ room_member_capability)
  unfolding verify_room_token
  verify_room_token_any_capability fuel policy own room_path token bearer a h room other = (
    record { claims = a.claims; root_issuer_key = a.root_issuer_key },
    rw h (check_room-ok policy own room_path a room),
    other,
  )
