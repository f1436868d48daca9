-- ===== src/RoomPath/Parse.antt =====
-- The paths of room-path.ts, made and parsed.
use wire_mesh.Prelude.{
  &&_iff, ℕ, ◌≡◌, ◌↔◌, inl, inr, refl, sym, ap, ◌∙◌, true, false, [], ◌∷◌, ◌++◌, Option, none, some,
  Text, ◌==◌, ==_iff, All, arith, Bool-cases, length,
}
use wire_mesh.DeviceId.{is_hex_digit}
use wire_mesh.RoomPath.{
  parse_dm, or_else, parse_room_path, ParsedRoomPath, all_of, is_device_id_hex, is_local_name,
  owner_named_room_path, owner_named, after_char, split_at, parse_owner_named,
}

-- The character stands nowhere in the text.
abbrev pub Avoids : ℕ → Text → Type 0
Avoids c s = All (λ d. (d == c) ≡ false) s

pub split_at_lem : (c : ℕ) (s t : Text) → Avoids c s → split_at c (s ++ c ∷ t) ≡ some (s, t)
unfolding split_at
split_at_lem c [] t h = ground (arith, ==_iff c c)
split_at_lem c (d ∷ s) t (other, h) = rw (other, split_at_lem c s t h) refl

pub split_at-Avoids : (c : ℕ) (s : Text) → Avoids c s → split_at c s ≡ none
unfolding split_at
split_at-Avoids c [] h = refl
split_at-Avoids c (d ∷ s) (other, h) = rw (other, split_at-Avoids c s h) refl

after_char-eq-some :
    (d : ℕ) (o : Option (Text × Text)) (s t : Text)
    → after_char d o ≡ some (s, t)
    → (s' : Text) × (o ≡ some (s', t)) × (s ≡ d ∷ s')
after_char-eq-some d none s t h = cc
after_char-eq-some d (some (s', t')) s t h = (s', ground arith, ground arith)

split_at-eq-some : (c : ℕ) (p s t : Text) → split_at c p ≡ some (s, t) → p ≡ s ++ c ∷ t
unfolding split_at
split_at-eq-some c [] s t h = cc
split_at-eq-some c (d ∷ p) s t h = elim (Bool-cases (d == c)) [
  | inl here ↦ ground (arith, ==_iff d c)
  | inr other ↦
      let (s', at, e) = after_char-eq-some d (split_at c p) s t (rw other at h) in
      ap (◌∷◌ d) (split_at-eq-some c p s' t at) ∙ ap (λ x. x ++ c ∷ t) (sym e)
]

hex-Avoids : (c : ℕ) (s : Text) → is_hex_digit c ≡ false → all_of is_hex_digit s ≡ true → Avoids c s
hex-Avoids c [] not_hex h = tt
hex-Avoids c (d ∷ s) not_hex h =
    let both = (&&_iff (is_hex_digit d) (all_of is_hex_digit s)).0 h in
    (ground (arith, ==_iff d c), hex-Avoids c s not_hex both.1)

pub is_device_id_hex-all :
    (s : Text) → is_device_id_hex s ≡ true → (length s ≡ 64) × (all_of is_hex_digit s ≡ true)
unfolding is_device_id_hex
is_device_id_hex-all s h = ground (arith, ==_iff (length s) 64)

slash_not_hex : (is_hex_digit b'/' ≡ false) × (is_hex_digit b'+' ≡ false)
unfolding is_hex_digit
slash_not_hex = (refl, refl)

-- A text of hexadecimal digits, with neither mark in it.
pub device-Avoids : (s : Text) → is_device_id_hex s ≡ true → Avoids b'/' s × Avoids b'+' s
device-Avoids s h =
    let digits = (is_device_id_hex-all s h).1 in
    (hex-Avoids b'/' s slash_not_hex.0 digits, hex-Avoids b'+' s slash_not_hex.1 digits)

taken_owner :
    (o : Option (Text × Text)) (owner name : Text)
    → parse_owner_named o ≡ some (owner_named owner name)
    → (o ≡ some (owner, name)) × (is_device_id_hex owner ≡ true) × (is_local_name name ≡ true)
taken_owner none owner name h = cc
taken_owner (some (owner', name')) owner name h = ground arith

parse_owner_named_iff :
    (path owner name : Text)
    → (parse_owner_named (split_at b'/' path) ≡ some (owner_named owner name))
      ↔ (owner_named_room_path owner name ≡ some path)
unfolding owner_named_room_path
parse_owner_named_iff path owner name = (
  λ h.
      let (at, hex, local) = taken_owner (split_at b'/' path) owner name h in
      rw (hex, local) (ap some (sym (split_at-eq-some b'/' path owner name at))),
  λ h. elim (Bool-cases (is_device_id_hex owner)) [
    | inl hex ↦ elim (Bool-cases (is_local_name name)) [
      | inl local ↦
          let e : owner ++ b'/' ∷ name ≡ path = ground arith in
          ap (λ p. parse_owner_named (split_at b'/' p)) (sym e)
          ∙ ap parse_owner_named (split_at_lem b'/' owner name (device-Avoids owner hex).0)
          ∙ (rw (hex, local) refl)
      | inr bad ↦ ground arith
    ]
    | inr bad ↦ ground arith
  ],
)

or_else-owner_named :
    (x : Option ParsedRoomPath) (o : Option (Text × Text)) (owner name : Text)
    → or_else x (parse_dm o) ≡ some (owner_named owner name)
    → x ≡ some (owner_named owner name)
or_else-owner_named (some parsed) o owner name h = h
or_else-owner_named none none owner name h = cc
or_else-owner_named none (some (a, b)) owner name h = ground arith

-- A path parses as the room of an owner exactly when it is the path made for that owner and name.
pub parse_room_path-owner_named_iff :
    (path owner name : Text)
    → (parse_room_path path ≡ some (owner_named owner name))
      ↔ (owner_named_room_path owner name ≡ some path)
unfolding parse_room_path
parse_room_path-owner_named_iff path owner name =
    let parsed = parse_owner_named_iff path owner name in
    (
      λ h. parsed.0 (
          or_else-owner_named (parse_owner_named (split_at b'/' path)) (split_at b'+' path) owner
            name h),
      λ h. rw (parsed.1 h) refl,
    )
