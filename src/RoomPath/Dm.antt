-- ===== src/RoomPath/Dm.antt =====
-- The paths of direct messages in room-path.ts: one is made for each pair, and two are parsed.
use wire_mesh.Prelude.{
  ◌≡◌, ◌≢◌, ◌⊎◌, inl, inr, refl, sym, ap, ◌∙◌, true, false, not, [], ◌∷◌, ◌++◌, some, Text, text_eq,
  text_eq_iff, ◌==◌, ==_iff, if◌then◌else◌, arith, Bool-cases, append-eq-append, All-append,
}
use wire_mesh.RoomPath.{is_device_id_hex, text_lt, dm_room_path, dm, parse_room_path}
use wire_mesh.RoomPath.Parse.{
  Avoids, split_at_lem, split_at-Avoids, device-Avoids, is_device_id_hex-all,
}

text_lt_total : (s t : Text) → s ≢ t → text_lt s t ≡ not (text_lt t s)
unfolding text_lt
text_lt_total [] [] h = absurd (h refl)
text_lt_total [] (d ∷ t) h = refl
text_lt_total (c ∷ s) [] h = refl
text_lt_total (c ∷ s) (d ∷ t) h = elim (Bool-cases (c == d)) [
  | inl same ↦
      let e : c ≡ d = (==_iff c d).0 same in
      let back : (d == c) ≡ true = ground arith in
      rw (same, back) (text_lt_total s t (λ eq. h (λ i. e i ∷ eq i)))
  | inr other ↦ let back : (d == c) ≡ false = ground arith in rw (other, back) (ground arith)
]

-- Two distinct device ids with a plus between them parse as they stand, in either order.
parse_room_path-pair :
    (a b : Text)
    → is_device_id_hex a ≡ true
    → is_device_id_hex b ≡ true
    → text_eq a b ≡ false
    → parse_room_path (a ++ b'+' ∷ b) ≡ some (dm a b)
unfolding parse_room_path
parse_room_path-pair a b ha hb ne =
    let plain : Avoids b'/' (a ++ b'+' ∷ b) =
      All-append _ a (b'+' ∷ b) (device-Avoids a ha).0 (refl, (device-Avoids b hb).0) in
    rw
      (
        split_at-Avoids b'/' (a ++ b'+' ∷ b) plain,
        split_at_lem b'+' a b (device-Avoids a ha).1,
        ha,
        hb,
        ne,
      )
      refl

text_eq_comm : (a b : Text) → text_eq a b ≡ text_eq b a
text_eq_comm a b = ground (arith, text_eq_iff a b, text_eq_iff b a)

-- What a path of a direct message is made from.
record Made (a b p : Text) : Type 0 where
  pub first : is_device_id_hex a ≡ true
  pub second : is_device_id_hex b ≡ true
  pub distinct : text_eq a b ≡ false
  pub path : p ≡ (if text_lt a b then a ++ b'+' ∷ b else b ++ b'+' ∷ a)

dm_room_path-eq-some : (a b p : Text) → dm_room_path a b ≡ some p → Made a b p
unfolding dm_room_path
dm_room_path-eq-some a b p h = record {
  first = ground arith;
  second = ground arith;
  distinct = ground arith;
  path = ground arith;
}

-- A direct message has one path, whichever of the two asks for it, and it parses as the pair of them
-- with the lower one first.
pub parse_room_path-dm_room_path :
    (a b p : Text)
    → dm_room_path a b ≡ some p
    → (x : Text) × (y : Text) × (parse_room_path p ≡ some (dm x y))
      × (text_lt x y ≡ true)
      × (((x ≡ a) × (y ≡ b)) ⊎ ((x ≡ b) × (y ≡ a)))
      × (dm_room_path b a ≡ some p)
unfolding dm_room_path
parse_room_path-dm_room_path a b p h =
    let m = dm_room_path-eq-some a b p h in
    let back : text_eq b a ≡ false = sym (text_eq_comm a b) ∙ m.distinct in
    let total = text_lt_total a b (λ e. ground (arith, text_eq_iff a b, m.distinct)) in
    elim (Bool-cases (text_lt a b)) [
      | inl low ↦
          let other : text_lt b a ≡ false = ground arith in
          (
            a,
            b,
            ap parse_room_path (m.path ∙ (rw low))
                ∙ parse_room_path-pair a b m.first m.second m.distinct,
            low,
            inl (refl, refl),
            rw (m.first, m.second, back, other) (ap some (sym (m.path ∙ (rw low)))),
          )
      | inr high ↦
          let other : text_lt b a ≡ true = ground arith in
          (
            b,
            a,
            ap parse_room_path (m.path ∙ (rw high))
                ∙ parse_room_path-pair b a m.second m.first back,
            other,
            inr (refl, refl),
            rw (m.first, m.second, back, other) (ap some (sym (m.path ∙ (rw high)))),
          )
    ]

swapped_ne :
    (x y : Text)
    → is_device_id_hex x ≡ true
    → is_device_id_hex y ≡ true
    → text_eq x y ≡ false
    → y ++ b'+' ∷ x ≢ x ++ b'+' ∷ y
swapped_ne x y hx hy ne e =
    let same =
      append-eq-append y x (b'+' ∷ x) (b'+' ∷ y)
        ((is_device_id_hex-all y hy).0 ∙ sym (is_device_id_hex-all x hx).0) e in
    ground (arith, same.0, text_eq_iff x y)

-- Beside the one path that is made for a pair, another text parses as a direct message of the same
-- two: the pair in the wrong order.
parse_room_path_reversed :
    (a b p : Text)
    → dm_room_path a b ≡ some p
    → (q : Text) × (q ≢ p)
      × (x : Text) × (y : Text) × (parse_room_path p ≡ some (dm x y))
      × (parse_room_path q ≡ some (dm y x))
parse_room_path_reversed a b p h =
    let m = dm_room_path-eq-some a b p h in
    let back : text_eq b a ≡ false = sym (text_eq_comm a b) ∙ m.distinct in
    let ab = parse_room_path-pair a b m.first m.second m.distinct in
    let ba = parse_room_path-pair b a m.second m.first back in
    elim (Bool-cases (text_lt a b)) [
      | inl low ↦
          let made : p ≡ a ++ b'+' ∷ b = m.path ∙ (rw low) in
          (
            b ++ b'+' ∷ a,
            (λ e. swapped_ne a b m.first m.second m.distinct (e ∙ made)),
            a,
            b,
            ap parse_room_path made ∙ ab,
            ba,
          )
      | inr high ↦
          let made : p ≡ b ++ b'+' ∷ a = m.path ∙ (rw high) in
          (
            a ++ b'+' ∷ b,
            (λ e. swapped_ne b a m.second m.first back (e ∙ made)),
            b,
            a,
            ap parse_room_path made ∙ ba,
            ab,
          )
    ]
