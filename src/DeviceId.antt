-- ===== src/DeviceId.antt =====
-- ts/packages/core/src/domain/device-id.ts: the text form of device ids and token ids.
-- A string is the list of its code units, a throw is `none`; a byte is a number below 256.
pub mod Hex
use wire_mesh.Prelude.{
  ℕ, ◌+◌, ◌-◌, ◌*◌, ◌/◌, ◌%◌, Bool, true, false, ◌&&◌, ◌||◌, [], ◌∷◌, Option, none, some, Bytes,
  length, ◌==◌, leb, ltb, if◌then◌else◌,
}

abbrev pub hex_radix : ℕ
hex_radix = 16

abbrev pub device_id_hex_length : ℕ
device_id_hex_length = 64

abbrev pub device_id_length : ℕ
device_id_length = 32

-- One digit of `toString(16)`.
unfoldable pub hex_digit : ℕ → ℕ
hex_digit d = if ltb d 10 then b'0' + d else b'a' + (d - 10)

unfoldable pub bytes_to_hex : Bytes → Bytes
bytes_to_hex [] = []
bytes_to_hex (b ∷ bytes) =
    hex_digit (b / hex_radix) ∷ hex_digit (b % hex_radix) ∷ bytes_to_hex bytes

unfoldable pub device_id_to_hex : Bytes → Bytes
device_id_to_hex device = bytes_to_hex device

-- The character class `[0-9a-f]`.
unfoldable pub is_hex_digit : ℕ → Bool
is_hex_digit c = (leb b'0' c && leb c b'9') || (leb b'a' c && leb c b'f')

-- The test by `^([0-9a-f]{2})*$`.
unfoldable pub is_hex : Bytes → Bool
is_hex [] = true
is_hex (c ∷ []) = false
is_hex (c ∷ d ∷ hex) = is_hex_digit c && is_hex_digit d && is_hex hex

-- What `parseInt` makes of a digit.
unfoldable pub digit_value : ℕ → ℕ
digit_value c = if leb c b'9' then c - b'0' else c - b'a' + 10

-- The loop over pairs of digits.
unfoldable pub parse_pairs : Bytes → Bytes
parse_pairs [] = []
parse_pairs (c ∷ []) = []
parse_pairs (c ∷ d ∷ hex) = (digit_value c * hex_radix + digit_value d) ∷ parse_pairs hex

unfoldable pub bytes_from_hex : Bytes → Option Bytes
bytes_from_hex hex = if is_hex hex then some (parse_pairs hex) else none

-- `deviceIdSchema.parse` throws unless there are 32 bytes.
abbrev pub parse_device_id : Option Bytes → Option Bytes
parse_device_id none = none
parse_device_id (some bytes) = if length bytes == device_id_length then some bytes else none

unfoldable pub device_id_from_hex : Bytes → Option Bytes
device_id_from_hex hex =
    if length hex == device_id_hex_length then parse_device_id (bytes_from_hex hex) else none
