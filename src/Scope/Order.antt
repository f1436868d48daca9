-- ===== src/Scope/Order.antt =====
-- What it means for a scope to narrow another (token-scope.ts), and that narrowing is a preorder.
use wire_mesh.Prelude.{
  ◌≡◌, refl, ap, ◌∙◌, ◌↔◌, ◌⊎◌, inl, inr, true, false, [], ◌∷◌, ◌++◌, Option, none, some,
  text_eq_iff, arith, Bytes, length, Bool-cases, append_assoc, ==_iff, ◌==◌,
}
pub use wire_mesh.Scope.Equality.{bytes_equal_iff, bytes_equal_refl}
use wire_mesh.Scope.Segments.{IsClean, EndsWithSlash, has_relative_segment_iff, ends_with_slash_iff}
use wire_mesh.Scope.{
  path_option_narrows, bytes_equal, CapabilityScope, slash, has_relative_segment, starts_with,
  ends_with_slash, is_slash_at, path_narrows, scope_narrows,
}

starts_with-append : (p r : Bytes) → starts_with (p ++ r) p ≡ true
unfolding starts_with
starts_with-append [] r = ground arith
starts_with-append (c ∷ p) r = ground (arith, starts_with-append p r)

append_of_starts_with : (s p : Bytes) → starts_with s p ≡ true → (r : Bytes) × (s ≡ p ++ r)
unfolding starts_with
append_of_starts_with s [] h = (s, refl)
append_of_starts_with [] (c ∷ p) h = cc
append_of_starts_with (d ∷ s) (c ∷ p) h = elim (Bool-cases (d == c)) [
  | inl same ↦
      let (r, e) = append_of_starts_with s p (ground arith) in (r, ground (arith, ==_iff d c))
  | inr other ↦ ground arith
]

abbrev pub HeadIsSlash : Bytes → Type 0
HeadIsSlash [] = ⊥
HeadIsSlash (c ∷ r) = c ≡ slash

is_slash_at-append : (p r : Bytes) → (is_slash_at (p ++ r) (length p) ≡ true) ↔ HeadIsSlash r
is_slash_at-append [] [] = ground arith
is_slash_at-append [] (c ∷ r) = ==_iff c slash
is_slash_at-append (x ∷ p) r = is_slash_at-append p r

HeadIsSlash-append : (r s : Bytes) → HeadIsSlash r → HeadIsSlash (r ++ s)
HeadIsSlash-append [] s h = absurd h
HeadIsSlash-append (c ∷ r) s h = h

-- `child` is `parent` with whole segments added.
abbrev pub Extends : Bytes → Bytes → Type 0
Extends child parent =
    (child ≡ parent)
    ⊎ ((r : Bytes) × (child ≡ parent ++ r) × (EndsWithSlash parent ⊎ HeadIsSlash r))

path_narrows_tests :
    (child parent : Bytes)
    → path_narrows child parent ≡ true
    → (has_relative_segment child ≡ false)
      × (has_relative_segment parent ≡ false)
      × ((bytes_equal child parent ≡ true)
          ⊎ ((starts_with child parent ≡ true)
              × ((ends_with_slash parent ≡ true) ⊎ (is_slash_at child (length parent) ≡ true))))
unfolding path_narrows
path_narrows_tests child parent h = ground arith

Extends-of_path_narrows :
    (child parent : Bytes)
    → path_narrows child parent ≡ true
    → IsClean child × IsClean parent × Extends child parent
Extends-of_path_narrows child parent h =
    let (c, p, t) = path_narrows_tests child parent h in
    ((has_relative_segment_iff child).0 c, (has_relative_segment_iff parent).0 p, extends t)
  where
    boundary :
        (r : Bytes)
        → child ≡ parent ++ r
        → (ends_with_slash parent ≡ true) ⊎ (is_slash_at child (length parent) ≡ true)
        → EndsWithSlash parent ⊎ HeadIsSlash r
    boundary r e (inl ends) = inl ((ends_with_slash_iff parent).0 ends)
    boundary r e (inr at) = inr ((is_slash_at-append parent r).0 (rw e at at))

    extends :
        (bytes_equal child parent ≡ true)
          ⊎ ((starts_with child parent ≡ true)
              × ((ends_with_slash parent ≡ true) ⊎ (is_slash_at child (length parent) ≡ true)))
        → Extends child parent
    extends (inl same) = inl ((bytes_equal_iff child parent).0 same)
    extends (inr (starts, at)) =
        let (r, e) = append_of_starts_with child parent starts in inr (r, e, boundary r e at)

path_narrows_of_Extends :
    (child parent : Bytes)
    → IsClean child
    → IsClean parent
    → Extends child parent
    → path_narrows child parent ≡ true
unfolding path_narrows
path_narrows_of_Extends child parent c p (inl e) = ground (
  arith,
  bytes_equal_iff child parent,
  (has_relative_segment_iff child).1 c,
  (has_relative_segment_iff parent).1 p,
)
path_narrows_of_Extends child parent c p (inr (r, e, inl ends)) = ground (
  arith,
  starts_with-append parent r,
  ap (λ s. starts_with s parent) e,
  (ends_with_slash_iff parent).1 ends,
  (has_relative_segment_iff child).1 c,
  (has_relative_segment_iff parent).1 p,
)
path_narrows_of_Extends child parent c p (inr (r, e, inr at)) = ground (
  arith,
  starts_with-append parent r,
  ap (λ s. starts_with s parent) e,
  (is_slash_at-append parent r).1 at,
  ap (λ s. is_slash_at s (length parent)) e,
  (has_relative_segment_iff child).1 c,
  (has_relative_segment_iff parent).1 p,
)

-- The test passes exactly when both paths are segments joined by slashes, none of them "." or "..",
-- and the child is the parent or goes on from it at a segment boundary.
pub path_narrows_iff :
    (child parent : Bytes)
    → (path_narrows child parent ≡ true) ↔ (IsClean child × IsClean parent × Extends child parent)
path_narrows_iff child parent =
    (Extends-of_path_narrows child parent, λ (c, p, e). path_narrows_of_Extends child parent c p e)

Extends-trans : (a b c : Bytes) → Extends b a → Extends c b → Extends c a
Extends-trans a b c (inl e) f = rw e at f
Extends-trans a b c (inr x) (inl f) = rw f (inr x)
Extends-trans a b c (inr (r, e, at)) (inr (s, f, _)) =
    inr (r ++ s, f ∙ ap (λ p. p ++ s) e ∙ append_assoc a r s, further at)
  where
    further : EndsWithSlash a ⊎ HeadIsSlash r → EndsWithSlash a ⊎ HeadIsSlash (r ++ s)
    further (inl ends) = inl ends
    further (inr h) = inr (HeadIsSlash-append r s h)

pub path_narrows_trans :
    (a b c : Bytes) → path_narrows b a ≡ true → path_narrows c b ≡ true → path_narrows c a ≡ true
path_narrows_trans a b c h k =
    let (clean_b, clean_a, e) = Extends-of_path_narrows b a h in
    let (clean_c, _, f) = Extends-of_path_narrows c b k in
    path_narrows_of_Extends c a clean_c clean_a (Extends-trans a b c e f)

path_option_narrows_trans :
    (a b c : Option Bytes)
    → path_option_narrows a b ≡ true
    → path_option_narrows b c ≡ true
    → path_option_narrows a c ≡ true
path_option_narrows_trans none b c h k = refl
path_option_narrows_trans (some a) none c h k = cc
path_option_narrows_trans (some a) (some b) none h k = cc
path_option_narrows_trans (some a) (some b) (some c) h k = path_narrows_trans a b c h k

-- Same kind, and a path that narrows.
pub scope_narrows_iff :
    (a b : CapabilityScope)
    → (scope_narrows a b ≡ true) ↔ ((a.kind ≡ b.kind) × (path_option_narrows a.path b.path ≡ true))
unfolding scope_narrows
scope_narrows_iff a b = ground (arith, text_eq_iff a.kind b.kind)

-- A child of a child narrows the parent: a chain of delegations never widens the scope.
pub scope_narrows_trans :
    (a b c : CapabilityScope)
    → scope_narrows a b ≡ true
    → scope_narrows b c ≡ true
    → scope_narrows a c ≡ true
scope_narrows_trans a b c h k =
    let (p, q) = (scope_narrows_iff a b).0 h in
    let (p', q') = (scope_narrows_iff b c).0 k in
    (scope_narrows_iff a c).1 (p ∙ p', path_option_narrows_trans a.path b.path c.path q q')
