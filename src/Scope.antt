-- ===== src/Scope.antt =====
-- ts/packages/core/src/domain/token-scope.ts: byte equality and the narrowing of capability scopes.
-- A path is the list of the string's code units.
pub mod Equality
pub mod Segments
pub mod Order
use wire_mesh.Prelude.{
  ℕ, Bool, true, false, not, ◌||◌, List, [], ◌∷◌, Option, none, some, Text, text_eq, Bytes, length,
  get_elem?, any, ◌==◌, if◌then◌else◌,
}

-- The loop of `bytesEqual` over two arrays.
unfoldable pub same_items : Bytes → Bytes → Bool
same_items [] b = true
same_items (x ∷ a) [] = false
same_items (x ∷ a) (y ∷ b) = if x == y then same_items a b else false

unfoldable pub bytes_equal : Bytes → Bytes → Bool
bytes_equal a b = if length a == length b then same_items a b else false

-- The wire shape of `capability-scope`.
pub record CapabilityScope : Type 0 where
  pub kind : Text
  pub path : Option Bytes

abbrev pub slash : ℕ
slash = b'/'

abbrev pub dot : ℕ
dot = b'.'

abbrev pub to_head : ℕ → List Bytes → List Bytes
to_head c [] = (c ∷ []) ∷ []
to_head c (s ∷ ss) = (c ∷ s) ∷ ss

-- `path.split("/")`.
unfoldable pub split_slash : Bytes → List Bytes
split_slash [] = [] ∷ []
split_slash (c ∷ s) = let rest = split_slash s in if c == slash then [] ∷ rest else to_head c rest

abbrev pub is_relative : Bytes → Bool
is_relative s = bytes_equal s (dot ∷ []) || bytes_equal s (dot ∷ dot ∷ [])

unfoldable pub has_relative_segment : Bytes → Bool
has_relative_segment path = any is_relative (split_slash path)

unfoldable pub starts_with : Bytes → Bytes → Bool
starts_with s [] = true
starts_with [] (p ∷ ps) = false
starts_with (c ∷ s) (p ∷ ps) = if c == p then starts_with s ps else false

unfoldable pub ends_with_slash : Bytes → Bool
ends_with_slash [] = false
ends_with_slash (c ∷ []) = c == slash
ends_with_slash (c ∷ d ∷ s) = ends_with_slash (d ∷ s)

-- `s.charAt(i) === "/"`.
abbrev pub is_slash_at : Bytes → ℕ → Bool
is_slash_at s i = elim (get_elem? s i) [ none ↦ false | some c ↦ c == slash ]

unfoldable pub path_narrows : Bytes → Bytes → Bool
path_narrows child parent =
    if has_relative_segment child || has_relative_segment parent
    then false
    else if bytes_equal child parent
    then true
    else if not (starts_with child parent)
    then false
    else if ends_with_slash parent
    then true
    else is_slash_at child (length parent)

abbrev pub path_option_narrows : Option Bytes → Option Bytes → Bool
path_option_narrows none child = true
path_option_narrows (some p) none = false
path_option_narrows (some p) (some c) = path_narrows c p

unfoldable pub scope_narrows : CapabilityScope → CapabilityScope → Bool
scope_narrows parent child =
    if not (text_eq parent.kind child.kind)
    then false
    else path_option_narrows parent.path child.path
