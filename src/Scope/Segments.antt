-- ===== src/Scope/Segments.antt =====
-- The segments of a path (token-scope.ts), said without the program's splitting.
use wire_mesh.Prelude.{
  ℕ, ◌≡◌, ◌≢◌, ◌↔◌, refl, ap, ◌∙◌, sym, true, false, List, [], ◌∷◌, ◌++◌, All, Bytes, any, ◌==◌,
  ==_iff, arith, Bool-cases, inl, inr,
}
use wire_mesh.Scope.{
  to_head, bytes_equal, slash, dot, is_relative, split_slash, has_relative_segment, ends_with_slash,
}
use wire_mesh.Scope.Equality.{bytes_equal_iff}

-- Segments with a slash between each two.
abbrev pub joined : List Bytes → Bytes
joined [] = []
joined (s ∷ []) = s
joined (s ∷ t ∷ ss) = s ++ slash ∷ joined (t ∷ ss)

-- Neither "." nor "..", and without a slash of its own.
pub record IsPlain (s : Bytes) : Type 0 where
  pub whole : All (λ c. c ≢ slash) s
  pub not_dot : s ≢ dot ∷ []
  pub not_dots : s ≢ dot ∷ dot ∷ []

-- A path of plain segments.
abbrev pub IsClean : Bytes → Type 0
IsClean p = (segments : List Bytes) × (joined segments ≡ p) × All IsPlain segments

abbrev pub EndsWithSlash : Bytes → Type 0
EndsWithSlash p = (q : Bytes) × (p ≡ q ++ slash ∷ [])

abbrev HasNoSlash : Bytes → Type 0
HasNoSlash s = All (λ c. c ≢ slash) s

joined-to_head : (c : ℕ) (ss : List Bytes) → joined (to_head c ss) ≡ c ∷ joined ss
joined-to_head c [] = refl
joined-to_head c (s ∷ []) = refl
joined-to_head c (s ∷ t ∷ ss) = refl

split_slash-nonempty : (p : Bytes) → (s : Bytes) × (ss : List Bytes) × (split_slash p ≡ s ∷ ss)
unfolding split_slash
split_slash-nonempty [] = ([], [], refl)
split_slash-nonempty (c ∷ p) = elim (Bool-cases (c == slash)) [
  | inl cut ↦ ([], split_slash p, rw cut refl)
  | inr on ↦ let (s, ss, e) = split_slash-nonempty p in (c ∷ s, ss, rw (on, e) refl)
]

joined-split_slash : (p : Bytes) → joined (split_slash p) ≡ p
unfolding split_slash
joined-split_slash [] = refl
joined-split_slash (c ∷ p) = elim (Bool-cases (c == slash)) [
  | inl cut ↦
      let (s, ss, e) = split_slash-nonempty p in
      let rest : joined (s ∷ ss) ≡ p = ap joined (sym e) ∙ joined-split_slash p in
      let same : c ≡ slash = (==_iff c slash).0 cut in
      rw (cut, e) (ap (◌∷◌ slash) rest ∙ ap (λ x. x ∷ p) (sym same))
  | inr on ↦ rw on (joined-to_head c (split_slash p) ∙ ap (◌∷◌ c) (joined-split_slash p))
]

HasNoSlash-to_head :
    (c : ℕ) (ss : List Bytes) → c ≢ slash → All HasNoSlash ss → All HasNoSlash (to_head c ss)
HasNoSlash-to_head c [] n h = ((n, tt), tt)
HasNoSlash-to_head c (s ∷ ss) n h = ((n, h.0), h.1)

split_slash-HasNoSlash : (p : Bytes) → All HasNoSlash (split_slash p)
unfolding split_slash
split_slash-HasNoSlash [] = (tt, tt)
split_slash-HasNoSlash (c ∷ p) = elim (Bool-cases (c == slash)) [
  | inl cut ↦ rw cut (tt, split_slash-HasNoSlash p)
  | inr on ↦ rw on (
      HasNoSlash-to_head c (split_slash p) (ground (arith, ==_iff c slash))
        (split_slash-HasNoSlash p))
]

split_slash-segment : (s : Bytes) → HasNoSlash s → split_slash s ≡ s ∷ []
unfolding split_slash
split_slash-segment [] h = refl
split_slash-segment (c ∷ s) h =
    let on : (c == slash) ≡ false = ground (arith, ==_iff c slash, h.0) in
    rw (on, split_slash-segment s h.1) refl

split_slash-append : (s p : Bytes) → HasNoSlash s → split_slash (s ++ slash ∷ p) ≡ s ∷ split_slash p
unfolding split_slash
split_slash-append [] p h = refl
split_slash-append (c ∷ s) p h =
    let on : (c == slash) ≡ false = ground (arith, ==_iff c slash, h.0) in
    rw (on, split_slash-append s p h.1) refl

is_relative-IsPlain : (s : Bytes) → IsPlain s → is_relative s ≡ false
is_relative-IsPlain s h =
    ground (
      arith,
      bytes_equal_iff s (dot ∷ []),
      bytes_equal_iff s (dot ∷ dot ∷ []),
      h.not_dot,
      h.not_dots,
    )

IsPlain-of_test : (s : Bytes) → HasNoSlash s → is_relative s ≡ false → IsPlain s
IsPlain-of_test s w h = record {
  whole = w;
  not_dot = λ e. ground (arith, bytes_equal_iff s (dot ∷ []), h, e);
  not_dots = λ e. ground (arith, bytes_equal_iff s (dot ∷ dot ∷ []), h, e);
}

All-IsPlain : (ss : List Bytes) → All HasNoSlash ss → any is_relative ss ≡ false → All IsPlain ss
All-IsPlain [] w h = tt
All-IsPlain (s ∷ ss) w h =
    (IsPlain-of_test s w.0 (ground (arith, h)), All-IsPlain ss w.1 (ground (arith, h)))

any-is_relative-joined :
    (ss : List Bytes) → All IsPlain ss → any is_relative (split_slash (joined ss)) ≡ false
unfolding split_slash bytes_equal
any-is_relative-joined [] h = refl
any-is_relative-joined (s ∷ []) h =
    rw (split_slash-segment s h.0.whole, is_relative-IsPlain s h.0) refl
any-is_relative-joined (s ∷ t ∷ ss) h =
    rw
      (
        split_slash-append s (joined (t ∷ ss)) h.0.whole,
        is_relative-IsPlain s h.0,
        any-is_relative-joined (t ∷ ss) h.1,
      )
      refl

-- The test finds no relative segment exactly in clean paths.
pub has_relative_segment_iff : (p : Bytes) → (has_relative_segment p ≡ false) ↔ IsClean p
unfolding has_relative_segment
has_relative_segment_iff p = (
  λ h. (
    split_slash p,
    joined-split_slash p,
    All-IsPlain (split_slash p) (split_slash-HasNoSlash p) h,
  ),
  λ (ss, e, h). ap (λ x. any is_relative (split_slash x)) (sym e) ∙ any-is_relative-joined ss h,
)

pub ends_with_slash_iff : (p : Bytes) → (ends_with_slash p ≡ true) ↔ EndsWithSlash p
unfolding ends_with_slash
ends_with_slash_iff p = (found p, λ (q, e). ap ends_with_slash e ∙ ends q)
  where
    found : (p : Bytes) → ends_with_slash p ≡ true → EndsWithSlash p
    found [] h = absurd (ground (arith, h))
    found (c ∷ []) h = ([], ap (λ x. x ∷ []) ((==_iff c slash).0 h))
    found (c ∷ d ∷ p) h = let (q, e) = found (d ∷ p) h in (c ∷ q, ap (◌∷◌ c) e)

    ends : (q : Bytes) → ends_with_slash (q ++ slash ∷ []) ≡ true
    ends [] = refl
    ends (c ∷ []) = refl
    ends (c ∷ d ∷ q) = ends (d ∷ q)
