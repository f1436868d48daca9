-- ===== src/RoomPath/Slug.antt =====
-- A slug of room-path.ts is a local name.
use wire_mesh.Prelude.{&&_iff, ℕ, ◌≡◌, refl, Bool, true, false, [], ◌∷◌, some, Text, arith}
use wire_mesh.RoomPath.{
  all_of, is_name_char, is_local_name, replace_runs, strip_start, strip_end, unless_last_hyphen,
  nonempty, slug_room_name,
}

hyphen : is_name_char b'-' ≡ true
unfolding is_name_char
hyphen = refl

replace_runs-names : (in_run : Bool) (s : Text) → all_of is_name_char (replace_runs in_run s) ≡ true
unfolding replace_runs
replace_runs-names in_run [] = refl
replace_runs-names in_run (c ∷ s) =
    ground (arith, replace_runs-names false s, replace_runs-names true s, hyphen)

strip_start-names :
    (s : Text) → all_of is_name_char s ≡ true → all_of is_name_char (strip_start s) ≡ true
unfolding strip_start
strip_start-names [] h = refl
strip_start-names (c ∷ s) h = ground (arith, strip_start-names s)

unless_last_hyphen-names :
    (c : ℕ) (s : Text)
    → is_name_char c ≡ true
    → all_of is_name_char s ≡ true
    → all_of is_name_char (unless_last_hyphen c s) ≡ true
unless_last_hyphen-names c [] hc hs = ground arith
unless_last_hyphen-names c (d ∷ s) hc hs = ground arith

strip_end-names :
    (s : Text) → all_of is_name_char s ≡ true → all_of is_name_char (strip_end s) ≡ true
unfolding strip_end
strip_end-names [] h = refl
strip_end-names (c ∷ s) h =
    let both = (&&_iff (is_name_char c) (all_of is_name_char s)).0 h in
    unless_last_hyphen-names c (strip_end s) both.0 (strip_end-names s both.1)

nonempty-is_local_name :
    (t s : Text) → all_of is_name_char t ≡ true → nonempty t ≡ some s → is_local_name s ≡ true
unfolding is_local_name
nonempty-is_local_name [] s h e = cc
nonempty-is_local_name (c ∷ t) s h e = ground arith

-- Whatever the name, its slug can name a room.
pub slug_room_name-is_local_name :
    (name s : Text) → slug_room_name name ≡ some s → is_local_name s ≡ true
unfolding slug_room_name
slug_room_name-is_local_name name s e =
    nonempty-is_local_name _ s
      (strip_end-names _ (strip_start-names _ (replace_runs-names false name))) e
