-- ===== src/Streams/Loop.antt =====
-- The reading loop for any round that is not misled by bytes that have yet to arrive.
use wire_mesh.Prelude.{
  ℕ, zero, suc, ◌<◌, ◌≤◌, ◌≡◌, ◌⊎◌, inl, inr, refl, sym, ap, ◌∙◌, true, false, List, [], ◌∷◌, ◌++◌,
  Option, none, some, Bytes, if◌then◌else◌, arith, Bool-cases, length, drop, length-drop,
}
use wire_mesh.Streams.{Round, wait, broken, taken, Drained, hand_over, prepend, drain, drain_all}

-- What a round does with some bytes, it does with more of them; and it takes at least one.
pub record IsStable {F : Type 0} (step : Bytes → Round F) : Type 0 where
  pub idle : step [] ≡ wait
  pub some_taken :
      (a : Bytes) (n : ℕ) (f : Option F) → step a ≡ taken n f → (0 < n) × (n ≤ length a)
  pub taken_more :
      (a b : Bytes) (n : ℕ) (f : Option F) → step a ≡ taken n f → step (a ++ b) ≡ taken n f
  pub broken_more : (a b : Bytes) → step a ≡ broken → step (a ++ b) ≡ broken

pub Round-cases :
    {F : Type 0} (r : Round F)
    → (r ≡ wait) ⊎ ((r ≡ broken) ⊎ ((n : ℕ) × (f : Option F) × (r ≡ taken n f)))
Round-cases wait = inl refl
Round-cases broken = inr (inl refl)
Round-cases (taken n f) = inr (inr (n, f, refl))

pub drop-append {ℓ} :
    {A : Type ℓ} (n : ℕ) (xs ys : List A) → n ≤ length xs → drop n (xs ++ ys) ≡ drop n xs ++ ys
drop-append zero xs ys h = refl
drop-append (suc n) [] ys h = absurd (omega arith)
drop-append (suc n) (x ∷ xs) ys h = drop-append n xs ys (omega arith)

length-eq-zero : (a : Bytes) → length a ≡ 0 → a ≡ []
length-eq-zero [] h = refl
length-eq-zero (x ∷ a) h = absurd (omega arith)

module _ {F : Type 0} (step : Bytes → Round F) (stable : IsStable step) where
  idle_of_length : (a : Bytes) → length a ≡ 0 → step a ≡ wait
  idle_of_length a h = ap step (length-eq-zero a h) ∙ stable.idle

  abbrev pub kept : Bytes → Drained F
  kept a = record { frames = []; rest = a; is_broken = false }

  abbrev pub given_up : Drained F
  given_up = record { frames = []; rest = []; is_broken = true }

  drain_wait : (rounds : ℕ) (a : Bytes) → step a ≡ wait → drain step rounds a ≡ kept a
  unfolding drain
  drain_wait zero a h = refl
  drain_wait (suc rounds) a h = rw (h, drain) refl

  drain_broken :
      (rounds : ℕ) (a : Bytes)
      → step a ≡ broken
      → length a ≤ rounds
      → drain step rounds a ≡ given_up
  unfolding drain
  drain_broken zero a h le = let idle = idle_of_length a (omega arith) in cc
  drain_broken (suc rounds) a h le = rw (h, drain) refl

  drain_next :
      (rounds : ℕ) (a : Bytes) (n : ℕ) (f : Option F)
      → step a ≡ taken n f
      → drain step (suc rounds) a ≡ hand_over f (drain step rounds (drop n a))
  unfolding drain
  drain_next rounds a n f h = rw (h, drain) refl

  -- Rounds beyond the number of bytes change nothing.
  drain_enough :
      (r s : ℕ) (a : Bytes) → length a ≤ r → length a ≤ s → drain step r a ≡ drain step s a
  drain_enough zero s a hr hs =
      let idle = idle_of_length a (omega arith) in
      drain_wait zero a idle ∙ sym (drain_wait s a idle)
  drain_enough (suc r) zero a hr hs =
      let idle = idle_of_length a (omega arith) in
      drain_wait (suc r) a idle ∙ sym (drain_wait zero a idle)
  drain_enough (suc r) (suc s) a hr hs = elim (Round-cases (step a)) [
    | inl h ↦ drain_wait (suc r) a h ∙ sym (drain_wait (suc s) a h)
    | inr (inl h) ↦ drain_broken (suc r) a h hr ∙ sym (drain_broken (suc s) a h hs)
    | inr (inr (n, f, h)) ↦
        let (some_byte, within) = stable.some_taken a n f h in
        drain_next r a n f h
        ∙ ap (hand_over f) (
            drain_enough r s (drop n a) (omega (arith, length-drop n a))
              (omega (arith, length-drop n a)))
        ∙ sym (drain_next s a n f h)
  ]

  pub drain_all_wait : (a : Bytes) → step a ≡ wait → drain_all step a ≡ kept a
  unfolding drain_all
  drain_all_wait a h = drain_wait (length a) a h

  pub drain_all_broken : (a : Bytes) → step a ≡ broken → drain_all step a ≡ given_up
  unfolding drain_all
  drain_all_broken a h = drain_broken (length a) a h (omega arith)

  pub drain_all-taken :
      (a : Bytes) (n : ℕ) (f : Option F)
      → step a ≡ taken n f
      → drain_all step a ≡ hand_over f (drain_all step (drop n a))
  unfolding drain_all
  drain_all-taken a n f h =
      let (some_byte, within) = stable.some_taken a n f h in
      drain_enough (length a) (suc (length a)) a (omega arith) (omega arith)
      ∙ drain_next (length a) a n f h
      ∙ ap (hand_over f) (
          drain_enough (length a) (length (drop n a)) (drop n a) (omega (arith, length-drop n a))
            (omega arith))

  -- The loop over some bytes and then over more of them.
  abbrev pub extend : Drained F → Bytes → Drained F
  extend d b = if d.is_broken then d else prepend d.frames (drain_all step (d.rest ++ b))

  extend-hand_over :
      (f : Option F) (d : Drained F) (b : Bytes)
      → extend (hand_over f d) b ≡ hand_over f (extend d b)
  extend-hand_over none d b = refl
  extend-hand_over (some f) d b = elim (Bool-cases d.is_broken) [
    | inl h ↦ rw h refl
    | inr h ↦ rw h refl
  ]

  -- Bytes that arrive later are read as if they had been there.
  pub drain_all-append :
      (rounds : ℕ) (a b : Bytes)
      → length a ≤ rounds
      → drain_all step (a ++ b) ≡ extend (drain_all step a) b
  drain_all-append zero a b le =
      let idle = idle_of_length a (omega arith) in rw (drain_all_wait a idle) refl
  drain_all-append (suc rounds) a b le = elim (Round-cases (step a)) [
    | inl h ↦ rw (drain_all_wait a h) refl
    | inr (inl h) ↦ rw (drain_all_broken a h) (drain_all_broken (a ++ b) (stable.broken_more a b h))
    | inr (inr (n, f, h)) ↦
        let (some_byte, within) = stable.some_taken a n f h in
        drain_all-taken (a ++ b) n f (stable.taken_more a b n f h)
        ∙ ap (λ x. hand_over f (drain_all step x)) (drop-append n a b within)
        ∙ ap (hand_over f) (drain_all-append rounds (drop n a) b (omega (arith, length-drop n a)))
        ∙ sym (extend-hand_over f (drain_all step (drop n a)) b)
        ∙ ap (λ (d : Drained F). extend d b) (sym (drain_all-taken a n f h))
  ]

  hand_over_rest :
      (f : Option F) (d : Drained F)
      → ((hand_over f d).rest ≡ d.rest) × ((hand_over f d).is_broken ≡ d.is_broken)
  hand_over_rest none d = (refl, refl)
  hand_over_rest (some f) d = (refl, refl)

  -- What is left waits for more.
  pub drain_all-waits :
      (rounds : ℕ) (a : Bytes)
      → length a ≤ rounds
      → (drain_all step a).is_broken ≡ false
      → step (drain_all step a).rest ≡ wait
  drain_all-waits zero a le h =
      let idle = idle_of_length a (omega arith) in
      ap (λ (d : Drained F). step d.rest) (drain_all_wait a idle) ∙ idle
  drain_all-waits (suc rounds) a le h = elim (Round-cases (step a)) [
    | inl w ↦ ap (λ (d : Drained F). step d.rest) (drain_all_wait a w) ∙ w
    | inr (inl b) ↦ let same = ap (λ (d : Drained F). d.is_broken) (drain_all_broken a b) in cc
    | inr (inr (n, f, t)) ↦
        let (some_byte, within) = stable.some_taken a n f t in
        let e = drain_all-taken a n f t in
        ap (λ (d : Drained F). step d.rest) e
        ∙ ap step (hand_over_rest f (drain_all step (drop n a))).0
        ∙ drain_all-waits rounds (drop n a) (omega (arith, length-drop n a)) (
            sym (hand_over_rest f (drain_all step (drop n a))).1
            ∙ sym (ap (λ (d : Drained F). d.is_broken) e)
            ∙ h)
  ]
