-- ===== src/RoomPath.antt =====
-- ts/packages/core/src/domain/room-path.ts: the paths that name rooms. A string is the list of its
-- code units; a throw is `none`.
pub mod Parse
pub mod Slug
pub mod Dm
use wire_mesh.Prelude.{
  ℕ, ◌+◌, ◌-◌, Bool, true, false, not, ◌&&◌, ◌||◌, [], ◌∷◌, ◌++◌, Option, none, some, Text, text_eq,
  leb, ltb, ◌==◌, if◌then◌else◌, length,
}
use wire_mesh.DeviceId.{is_hex_digit, device_id_hex_length}

abbrev pub all_of : (ℕ → Bool) → Text → Bool
all_of p [] = true
all_of p (c ∷ s) = p c && all_of p s

-- The test by `^[0-9a-f]{64}$`.
unfoldable pub is_device_id_hex : Text → Bool
is_device_id_hex value = length value == device_id_hex_length && all_of is_hex_digit value

-- The character class `[A-Za-z0-9_-]`.
unfoldable pub is_name_char : ℕ → Bool
is_name_char c =
    (leb b'A' c && leb c b'Z')
    || (leb b'a' c && leb c b'z')
    || (leb b'0' c && leb c b'9')
    || c == b'_'
    || c == b'-'

-- The test by `^[A-Za-z0-9_-]+$`.
unfoldable pub is_local_name : Text → Bool
is_local_name [] = false
is_local_name (c ∷ s) = all_of is_name_char (c ∷ s)

unfoldable pub owner_named_room_path : Text → Text → Option Text
owner_named_room_path owner local_name =
    if not (is_device_id_hex owner)
    then none
    else if not (is_local_name local_name)
    then none
    else some (owner ++ b'/' ∷ local_name)

-- `a < b` on strings.
unfoldable pub text_lt : Text → Text → Bool
text_lt [] [] = false
text_lt [] (d ∷ t) = true
text_lt (c ∷ s) [] = false
text_lt (c ∷ s) (d ∷ t) = if c == d then text_lt s t else ltb c d

unfoldable pub dm_room_path : Text → Text → Option Text
dm_room_path a b =
    if not (is_device_id_hex a)
    then none
    else if not (is_device_id_hex b)
    then none
    else if text_eq a b
    then none
    else some (if text_lt a b then a ++ b'+' ∷ b else b ++ b'+' ∷ a)

pub data ParsedRoomPath : Type 0 where
  owner_named dm : Text → Text → ParsedRoomPath

abbrev pub after_char : ℕ → Option (Text × Text) → Option (Text × Text)
after_char d none = none
after_char d (some (s, t)) = some (d ∷ s, t)

-- `indexOf`, and the two slices at the index.
unfoldable pub split_at : ℕ → Text → Option (Text × Text)
split_at c [] = none
split_at c (d ∷ s) = let rest = after_char d (split_at c s) in if d == c then some ([], s) else rest

abbrev pub parse_owner_named : Option (Text × Text) → Option ParsedRoomPath
parse_owner_named none = none
parse_owner_named (some (owner, local_name)) =
    if is_device_id_hex owner && is_local_name local_name
    then some (owner_named owner local_name)
    else none

abbrev pub parse_dm : Option (Text × Text) → Option ParsedRoomPath
parse_dm none = none
parse_dm (some (first, second)) =
    if is_device_id_hex first && is_device_id_hex second && not (text_eq first second)
    then some (dm first second)
    else none

abbrev pub or_else : Option ParsedRoomPath → Option ParsedRoomPath → Option ParsedRoomPath
or_else none other = other
or_else (some parsed) other = some parsed

unfoldable pub parse_room_path : Text → Option ParsedRoomPath
parse_room_path path =
    or_else (parse_owner_named (split_at b'/' path)) (parse_dm (split_at b'+' path))

-- `replace(/[^A-Za-z0-9_-]+/g, "-")`; the flag says that a run has begun.
unfoldable pub replace_runs : Bool → Text → Text
replace_runs in_run [] = []
replace_runs in_run (c ∷ s) =
    let kept = c ∷ replace_runs false s in
    let replaced = replace_runs true s in
    if is_name_char c then kept else if in_run then replaced else b'-' ∷ replaced

unfoldable pub strip_start : Text → Text
strip_start [] = []
strip_start (c ∷ s) = let rest = strip_start s in if c == b'-' then rest else c ∷ s

abbrev pub unless_last_hyphen : ℕ → Text → Text
unless_last_hyphen c [] = if c == b'-' then [] else c ∷ []
unless_last_hyphen c (d ∷ s) = c ∷ d ∷ s

unfoldable pub strip_end : Text → Text
strip_end [] = []
strip_end (c ∷ s) = unless_last_hyphen c (strip_end s)

abbrev pub nonempty : Text → Option Text
nonempty [] = none
nonempty (c ∷ s) = some (c ∷ s)

unfoldable pub slug_room_name : Text → Option Text
slug_room_name name = nonempty (strip_end (strip_start (replace_runs false name)))
