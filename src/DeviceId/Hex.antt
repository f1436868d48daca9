-- ===== src/DeviceId/Hex.antt =====
-- The hex codec of device-id.ts: the two directions undo one another.
use wire_mesh.Prelude.{
  ℕ, ◌+◌, ◌*◌, ◌/◌, ◌%◌, ◌<◌, ◌≡◌, refl, sym, ap, ◌∙◌, true, [], ◌∷◌, some, Bytes, length, All,
  arith, ◌↔◌, subst,
}
use wire_mesh.DeviceId.{
  hex_digit, bytes_to_hex, is_hex_digit, is_hex, digit_value, parse_pairs, bytes_from_hex,
  device_id_from_hex, device_id_to_hex,
}

-- Every item is a byte.
abbrev pub IsBytes : Bytes → Type 0
IsBytes = All (λ b. b < 256)

hex_digit_lem :
    (d : ℕ) → d < 16 → (is_hex_digit (hex_digit d) ≡ true) × (digit_value (hex_digit d) ≡ d)
unfolding hex_digit is_hex_digit digit_value
hex_digit_lem d h = (ground arith, ground arith)

is_hex-bytes_to_hex : (bytes : Bytes) → IsBytes bytes → is_hex (bytes_to_hex bytes) ≡ true
unfolding is_hex bytes_to_hex
is_hex-bytes_to_hex [] h = refl
is_hex-bytes_to_hex (b ∷ bytes) (small, h) =
    rw ((hex_digit_lem (b / 16) (omega arith)).0, (hex_digit_lem (b % 16) (omega arith)).0)
      (is_hex-bytes_to_hex bytes h)

parse_pairs-bytes_to_hex :
    (bytes : Bytes) → IsBytes bytes → parse_pairs (bytes_to_hex bytes) ≡ bytes
unfolding parse_pairs bytes_to_hex
parse_pairs-bytes_to_hex [] h = refl
parse_pairs-bytes_to_hex (b ∷ bytes) (small, h) =
    rw
      (
        (hex_digit_lem (b / 16) (omega arith)).1,
        (hex_digit_lem (b % 16) (omega arith)).1,
        parse_pairs-bytes_to_hex bytes h,
      )
      (ground arith)

-- Parsing the text of some bytes gives the bytes back.
pub bytes_from_hex-bytes_to_hex :
    (bytes : Bytes) → IsBytes bytes → bytes_from_hex (bytes_to_hex bytes) ≡ some bytes
unfolding bytes_from_hex
bytes_from_hex-bytes_to_hex bytes h =
    rw (is_hex-bytes_to_hex bytes h, parse_pairs-bytes_to_hex bytes h)

-- So two byte strings with one text are the same.
pub bytes_to_hex-injective :
    (a b : Bytes) → IsBytes a → IsBytes b → bytes_to_hex a ≡ bytes_to_hex b → a ≡ b
bytes_to_hex-injective a b ha hb e =
    sym (parse_pairs-bytes_to_hex a ha) ∙ ap parse_pairs e ∙ parse_pairs-bytes_to_hex b hb

digit_value_lem :
    (c : ℕ) → is_hex_digit c ≡ true → (digit_value c < 16) × (hex_digit (digit_value c) ≡ c)
unfolding hex_digit is_hex_digit digit_value
digit_value_lem c h = (ground arith, ground arith)

is_hex_cons :
    (c d : ℕ) (hex : Bytes)
    → is_hex (c ∷ d ∷ hex) ≡ true
    → (is_hex_digit c ≡ true) × (is_hex_digit d ≡ true) × (is_hex hex ≡ true)
unfolding is_hex
is_hex_cons c d hex h = ground arith

bytes_to_hex-parse_pairs : (hex : Bytes) → is_hex hex ≡ true → bytes_to_hex (parse_pairs hex) ≡ hex
unfolding bytes_to_hex parse_pairs
bytes_to_hex-parse_pairs [] h = refl
bytes_to_hex-parse_pairs (c ∷ []) h = absurd (odd h)
  where
    odd : is_hex (c ∷ []) ≡ true → ⊥
    odd e = unfold is_hex in cc
bytes_to_hex-parse_pairs (c ∷ d ∷ hex) h =
    let (hc, hd, rest) = is_hex_cons c d hex h in
    let (small_c, back_c) = digit_value_lem c hc in
    let (small_d, back_d) = digit_value_lem d hd in
    let high : (digit_value c * 16 + digit_value d) / 16 ≡ digit_value c = omega arith in
    let low : (digit_value c * 16 + digit_value d) % 16 ≡ digit_value d = omega arith in
    rw (high, low, back_c, back_d, bytes_to_hex-parse_pairs hex rest)

bytes_from_hex-eq-some :
    (hex : Bytes) {bytes : Bytes}
    → bytes_from_hex hex ≡ some bytes
    → (is_hex hex ≡ true) × (parse_pairs hex ≡ bytes)
unfolding bytes_from_hex
bytes_from_hex-eq-some hex h = ground arith

-- A text that parses is the one text of its bytes: no second spelling is accepted.
pub bytes_to_hex_of_bytes_from_hex :
    (hex bytes : Bytes) → bytes_from_hex hex ≡ some bytes → bytes_to_hex bytes ≡ hex
bytes_to_hex_of_bytes_from_hex hex bytes h =
    let (valid, parsed) = bytes_from_hex-eq-some hex h in
    ap bytes_to_hex (sym parsed) ∙ bytes_to_hex-parse_pairs hex valid

IsBytes-parse_pairs : (hex : Bytes) → is_hex hex ≡ true → IsBytes (parse_pairs hex)
unfolding parse_pairs
IsBytes-parse_pairs [] h = tt
IsBytes-parse_pairs (c ∷ []) h = tt
IsBytes-parse_pairs (c ∷ d ∷ hex) h =
    let (hc, hd, rest) = is_hex_cons c d hex h in
    let (small_c, _) = digit_value_lem c hc in
    let (small_d, _) = digit_value_lem d hd in (omega arith, IsBytes-parse_pairs hex rest)

-- A text parses to some bytes exactly when it is the text made for them: every byte string has one
-- text, which parses back to it, and no second spelling is accepted.
bytes_from_hex-eq-some_iff :
    (hex bytes : Bytes)
    → (bytes_from_hex hex ≡ some bytes) ↔ (IsBytes bytes × (bytes_to_hex bytes ≡ hex))
bytes_from_hex-eq-some_iff hex bytes = (
  (λ h.
      let (valid, parsed) = bytes_from_hex-eq-some hex h in
      (
        subst IsBytes parsed (IsBytes-parse_pairs hex valid),
        bytes_to_hex_of_bytes_from_hex hex bytes h,
      )),
  (λ (small, e). ap bytes_from_hex (sym e) ∙ bytes_from_hex-bytes_to_hex bytes small),
)

pub length-bytes_to_hex : (bytes : Bytes) → length (bytes_to_hex bytes) ≡ 2 * length bytes
unfolding bytes_to_hex
length-bytes_to_hex [] = omega arith
length-bytes_to_hex (b ∷ bytes) = omega (arith, length-bytes_to_hex bytes)

-- A device id of 32 bytes survives the trip through its text.
pub device_id_from_hex-device_id_to_hex :
    (device : Bytes)
    → IsBytes device
    → length device ≡ 32
    → device_id_from_hex (device_id_to_hex device) ≡ some device
unfolding device_id_from_hex device_id_to_hex
device_id_from_hex-device_id_to_hex device h n =
    rw (bytes_from_hex-bytes_to_hex device h) (ground (arith, length-bytes_to_hex device))
