-- ===== src/PingRoundTrips/Times.antt =====
-- Calls of ping-round-trips.ts whose times of sending tell them apart: predicates and their lemmas.
use wire_mesh.Prelude.{
  ℕ, suc, ◌<◌, ◌≡◌, ◌≢◌, ◌↔◌, inl, inr, refl, sym, false, List, [], ◌∷◌, ◌++◌, none, some, Text,
  ◌==◌, arith, Option-cases, All, All-append, Bool-cases, subst,
}
use wire_mesh.PingRoundTrips.{
  PendingPingRoundTrip, Settlement, PingRoundTrips, settlement_of, cancel, rejections, timer_of,
  without_timer, Event, send, pong, lose, fire, step,
}
use wire_mesh.PingRoundTrips.Forgotten.{awaits, settlement_of-append}

-- No call that is registered or has a timer was sent at that time.
abbrev pub IsNewTime : PingRoundTrips → ℕ → Type 0
IsNewTime s at = All (λ e. e.sent_at ≢ at) s.pending × All (λ e. e.sent_at ≢ at) s.timers

abbrev pub IsTimely : PingRoundTrips → Event → Type 0
IsTimely s (send at sent timed) = IsNewTime s at
IsTimely s (pong now) = Unit
IsTimely s (lose reason) = Unit
IsTimely s (fire c) = Unit

-- Along the run, every call is sent at a new time.
unfoldable pub AreTimely : PingRoundTrips → List Event → Type 0
AreTimely s [] = Unit
AreTimely s (e ∷ events) = IsTimely s e × AreTimely (step s e) events

abbrev pub IsSame : PendingPingRoundTrip → PendingPingRoundTrip → Type 0
IsSame t e = (e.sent_at ≡ t.sent_at) ↔ (e.call ≡ t.call)

abbrev pub AreSame : List PendingPingRoundTrip → PendingPingRoundTrip → Type 0
AreSame l t = All (IsSame t) l

-- Every call is registered or settled, and a time of sending belongs to one call.
pub record IsKept (s : PingRoundTrips) : Type 0 where
  pub kept :
      (c : ℕ) → c < s.next_call → awaits s.pending c ≡ false → settlement_of s.settled c ≢ none
  pub pending_below : All (λ e. e.call < s.next_call) s.pending
  pub timers_below : All (λ e. e.call < s.next_call) s.timers
  pub apart : All (AreSame s.pending) s.timers

pub settled-append_left :
    (l m : List (ℕ × Settlement)) (c : ℕ)
    → settlement_of l c ≢ none
    → settlement_of (l ++ m) c ≢ none
settled-append_left l m c h = elim (Option-cases (settlement_of l c)) [
  | inl e ↦ absurd (h e)
  | inr (o, e) ↦ rw (settlement_of-append l m c, e) (λ k. ground arith)
]

pub settled-append_right :
    (l m : List (ℕ × Settlement)) (c : ℕ)
    → settlement_of m c ≢ none
    → settlement_of (l ++ m) c ≢ none
settled-append_right l m c h = elim (Option-cases (settlement_of l c)) [
  | inl e ↦ rw (settlement_of-append l m c, e) h
  | inr (o, e) ↦ rw (settlement_of-append l m c, e) (λ k. ground arith)
]

settlement_of-singleton : (c : ℕ) (o : Settlement) → settlement_of ((c, o) ∷ []) c ≢ none
unfolding settlement_of
settlement_of-singleton c o = ground arith

pub settlement_of-rejections :
    (reason : Text) (l : List PendingPingRoundTrip) (c : ℕ)
    → awaits l c ≢ false
    → settlement_of (rejections reason l) c ≢ none
unfolding awaits rejections settlement_of
settlement_of-rejections reason [] c h = absurd (h refl)
settlement_of-rejections reason (x ∷ l) c h = ground (arith, settlement_of-rejections reason l c)

pub settled-now :
    (l : List (ℕ × Settlement)) (c d : ℕ) (o : Settlement)
    → c ≡ d
    → settlement_of (l ++ (c, o) ∷ []) d ≢ none
settled-now l c d o e =
    subst (λ x. settlement_of (l ++ (c, o) ∷ []) x ≢ none) e
      (settled-append_right l _ c (settlement_of-singleton c o))

module _ (P : PendingPingRoundTrip → Type 0) where
  pub cancel-All :
      (l r : List PendingPingRoundTrip) (at : ℕ) → All P l → cancel l at ≡ some r → All P r
  unfolding cancel
  cancel-All [] r at h e = ground arith
  cancel-All (x ∷ l) r at h e = elim (Bool-cases (x.sent_at == at)) [
    | inl hit ↦ let same : l ≡ r = ground (arith, hit) in subst (All P) same h.1
    | inr miss ↦ elim (Option-cases (cancel l at)) [
      | inl gone ↦ absurd (ground (arith, miss, gone))
      | inr (m, left) ↦
          let same : x ∷ m ≡ r = ground (arith, miss, left) in
          subst (All P) same (h.0, cancel-All l m at h.1 left)
    ]
  ]

  pub without_timer-All :
      (l : List PendingPingRoundTrip) (c : ℕ) → All P l → All P (without_timer l c)
  unfolding without_timer
  without_timer-All [] c h = h
  without_timer-All (x ∷ l) c h = elim (Bool-cases (x.call == c)) [
    | inl e ↦ rw e (without_timer-All l c h.1)
    | inr e ↦ rw e (h.0, without_timer-All l c h.1)
  ]

  pub timer_of-All :
      (l : List PendingPingRoundTrip) (c : ℕ) (t : PendingPingRoundTrip)
      → timer_of l c ≡ some t
      → All P l
      → P t × (t.call ≡ c)
  unfolding timer_of
  timer_of-All [] c t e h = ground arith
  timer_of-All (x ∷ l) c t e h = elim (Bool-cases (x.call == c)) [
    | inl hit ↦
        let same : x ≡ t = ground (arith, hit) in
        subst (λ u. P u × (u.call ≡ c)) same (h.0, ground (arith, hit))
    | inr miss ↦ timer_of-All l c t (rw miss at e) h.1
  ]

pub awaits-cancel :
    (l r : List PendingPingRoundTrip) (t : PendingPingRoundTrip) (c : ℕ)
    → AreSame l t
    → t.call ≢ c
    → cancel l t.sent_at ≡ some r
    → awaits r c ≡ false
    → awaits l c ≡ false
unfolding awaits cancel
awaits-cancel [] r t c h n e w = ground arith
awaits-cancel (x ∷ l) r t c h n e w = elim (Option-cases (cancel l t.sent_at)) [
  | inl gone ↦ ground (arith, gone)
  | inr (m, left) ↦ ground (arith, left, awaits-cancel l m t c h.1 n left)
]

pub awaits-gone :
    (l : List PendingPingRoundTrip) (t : PendingPingRoundTrip)
    → AreSame l t
    → cancel l t.sent_at ≡ none
    → awaits l t.call ≡ false
unfolding awaits cancel
awaits-gone [] t h e = refl
awaits-gone (x ∷ l) t h e = elim (Option-cases (cancel l t.sent_at)) [
  | inl gone ↦ ground (arith, gone, awaits-gone l t h.1 gone)
  | inr (m, left) ↦ ground (arith, left)
]

pub All-below :
    (l : List PendingPingRoundTrip) (n : ℕ) → All (λ e. e.call < n) l → All (λ e. e.call < suc n) l
All-below [] n h = tt
All-below (x ∷ l) n h = (omega (arith, h.0), All-below l n h.1)

-- A call that is sent at a new time is none of those known, nor was sent when they were.
module _ (e : PendingPingRoundTrip) where
  pub AreSame-new :
      (l : List PendingPingRoundTrip)
      → All (λ x. x.sent_at ≢ e.sent_at) l
      → All (λ x. x.call < e.call) l
      → AreSame l e
  AreSame-new [] h b = tt
  AreSame-new (x ∷ l) h b =
      (((λ p. absurd (h.0 p)), (λ p. omega (arith, p, b.0))), AreSame-new l h.1 b.1)

  pub AreSame-added :
      (l ts : List PendingPingRoundTrip)
      → All (λ x. x.sent_at ≢ e.sent_at) ts
      → All (λ x. x.call < e.call) ts
      → All (AreSame l) ts
      → All (AreSame (l ++ e ∷ [])) ts
  AreSame-added l [] h b k = tt
  AreSame-added l (t ∷ ts) h b k = (
    All-append (IsSame t) l (e ∷ []) k.0
        (((λ p. absurd (h.0 (sym p))), (λ p. omega (arith, p, b.0))), tt),
    AreSame-added l ts h.1 b.1 k.1,
  )

pub AreSame-cancel :
    (l r ts : List PendingPingRoundTrip) (at : ℕ)
    → All (AreSame l) ts
    → cancel l at ≡ some r
    → All (AreSame r) ts
AreSame-cancel l r [] at h e = tt
AreSame-cancel l r (t ∷ ts) at h e =
    (cancel-All (IsSame t) l r at h.0 e, AreSame-cancel l r ts at h.1 e)

pub AreSame-tail :
    (x : PendingPingRoundTrip) (l ts : List PendingPingRoundTrip)
    → All (AreSame (x ∷ l)) ts
    → All (AreSame l) ts
AreSame-tail x l [] h = tt
AreSame-tail x l (t ∷ ts) h = (h.0.1, AreSame-tail x l ts h.1)

pub AreSame-nil : (ts : List PendingPingRoundTrip) → All (AreSame []) ts
AreSame-nil [] = tt
AreSame-nil (t ∷ ts) = (tt, AreSame-nil ts)
