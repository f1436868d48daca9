-- ===== src/Tests/Texts.antt =====
-- Paths, scopes and hex texts (token-scope.ts, device-id.ts).
use wire_mesh.Scope.{
  same_items, bytes_equal, ends_with_slash, starts_with, split_slash, has_relative_segment,
  path_narrows, CapabilityScope, scope_narrows,
}
use wire_mesh.Prelude.{String, ◌≡◌, ◌↔◌, refl, true, false, some, text, text_eq}
use wire_mesh.Scope.Segments.{IsClean}
use wire_mesh.Scope.Order.{Extends, path_narrows_iff}

path_runs : Unit {0}
unfolding scope_narrows path_narrows has_relative_segment split_slash starts_with ends_with_slash
    bytes_equal same_items text_eq
path_runs = tt

boundary_run : path_narrows (text "/workbook") (text "/work") ≡ false
unfolding path_runs
boundary_run = refl

escape_run : path_narrows (text "/work/../org") (text "/work") ≡ false
unfolding path_runs
escape_run = refl

abbrev folder : String → CapabilityScope
folder p = record { kind = text "folder"; path = some (text p) }

path_narrows_iff_example :
    (path_narrows (text "/work/a") (text "/work") ≡ true)
    ↔ (IsClean (text "/work/a") × IsClean (text "/work") × Extends (text "/work/a") (text "/work"))
path_narrows_iff_example = path_narrows_iff (text "/work/a") (text "/work")
