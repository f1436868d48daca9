-- ===== src/PingRoundTrips/Forgotten.antt =====
-- Calls of ping-round-trips.ts that no operation knows of any more.
use wire_mesh.Prelude.{
  ℕ, ◌<◌, ◌≡◌, ◌≢◌, inl, inr, refl, Bool, true, false, List, [], ◌∷◌, ◌++◌, Option, none, some,
  Text, ◌==◌, if◌then◌else◌, arith, Option-cases,
}
use wire_mesh.PingRoundTrips.{
  PendingPingRoundTrip, Settlement, PingRoundTrips, settlement_of, resolved, timed_out, unsent,
  cancel, resolve_first, resolve_oldest, rejections, reject_all, send_and_await, timer_of,
  without_timer, expire, fire_timer, Event, send, pong, lose, fire, step, run,
}

unfoldable pub awaits : List PendingPingRoundTrip → ℕ → Bool
awaits [] c = false
awaits (e ∷ es) c = if e.call == c then true else awaits es c

abbrev pub or_else_settlement : Option Settlement → Option Settlement → Option Settlement
or_else_settlement none o = o
or_else_settlement (some x) o = some x

pub settlement_of-append :
    (l m : List (ℕ × Settlement)) (c : ℕ)
    → settlement_of (l ++ m) c ≡ or_else_settlement (settlement_of l c) (settlement_of m c)
unfolding settlement_of
settlement_of-append [] m c = refl
settlement_of-append ((d, o) ∷ l) m c = ground (arith, settlement_of-append l m c)

-- No operation still knows of the call, and its promise has not settled.
pub record IsLost (s : PingRoundTrips) (c : ℕ) : Type 0 where
  pub begun : c < s.next_call
  pub forgotten : awaits s.pending c ≡ false
  pub unarmed : timer_of s.timers c ≡ none
  pub unsettled : settlement_of s.settled c ≡ none

pub awaits-append :
    (l : List PendingPingRoundTrip) (e : PendingPingRoundTrip) (c : ℕ)
    → awaits (l ++ e ∷ []) c ≡ (if awaits l c then true else (if e.call == c then true else false))
unfolding awaits
awaits-append [] e c = refl
awaits-append (x ∷ l) e c = ground (arith, awaits-append l e c)

timer_of-append :
    (l : List PendingPingRoundTrip) (e : PendingPingRoundTrip) (c : ℕ)
    → timer_of l c ≡ none
    → e.call ≢ c
    → timer_of (l ++ e ∷ []) c ≡ none
unfolding timer_of
timer_of-append [] e c h n = ground arith
timer_of-append (x ∷ l) e c h n = ground (arith, timer_of-append l e c)

timer_of-without_timer :
    (l : List PendingPingRoundTrip) (c d : ℕ)
    → timer_of l c ≡ none
    → timer_of (without_timer l d) c ≡ none
unfolding timer_of without_timer
timer_of-without_timer [] c d h = refl
timer_of-without_timer (x ∷ l) c d h = ground (arith, timer_of-without_timer l c d)

timer_of-call :
    (l : List PendingPingRoundTrip) (c : ℕ) (t : PendingPingRoundTrip)
    → timer_of l c ≡ some t
    → t.call ≡ c
unfolding timer_of
timer_of-call [] c t h = ground arith
timer_of-call (x ∷ l) c t h = ground (arith, timer_of-call l c t)

awaits-cancel :
    (l r : List PendingPingRoundTrip) (at c : ℕ)
    → awaits l c ≡ false
    → cancel l at ≡ some r
    → awaits r c ≡ false
unfolding awaits cancel
awaits-cancel [] r at c h e = ground arith
awaits-cancel (x ∷ l) r at c h e = elim (Option-cases (cancel l at)) [
  | inl none_left ↦ ground (arith, none_left)
  | inr (m, left) ↦ ground (arith, left, awaits-cancel l m at c)
]

settlement_of-rejections :
    (reason : Text) (l : List PendingPingRoundTrip) (c : ℕ)
    → awaits l c ≡ false
    → settlement_of (rejections reason l) c ≡ none
unfolding awaits rejections settlement_of
settlement_of-rejections reason [] c h = refl
settlement_of-rejections reason (x ∷ l) c h = ground (arith, settlement_of-rejections reason l c)

cons-singleton : (c d : ℕ) (o : Settlement) → d ≢ c → settlement_of ((d, o) ∷ []) c ≡ none
unfolding settlement_of
cons-singleton c d o n = ground arith

settlement_of-added :
    (l m : List (ℕ × Settlement)) (c : ℕ)
    → settlement_of l c ≡ none
    → settlement_of m c ≡ none
    → settlement_of (l ++ m) c ≡ none
settlement_of-added l m c h k = rw (settlement_of-append l m c, h, k) refl

awaits-added :
    (l : List PendingPingRoundTrip) (e : PendingPingRoundTrip) (c : ℕ)
    → awaits l c ≡ false
    → e.call ≢ c
    → awaits (l ++ e ∷ []) c ≡ false
awaits-added l e c h n = ground (arith, awaits-append l e c)

send-IsLost :
    (s : PingRoundTrips) (c t : ℕ) (sent timed : Bool)
    → IsLost s c
    → IsLost (send_and_await s t sent timed) c
unfolding send_and_await
send-IsLost s c t true true h = record {
  begun = omega (arith, h.begun);
  forgotten = awaits-added s.pending _ c h.forgotten (omega (arith, h.begun));
  unarmed = timer_of-append s.timers _ c h.unarmed (omega (arith, h.begun));
  unsettled = h.unsettled;
}
send-IsLost s c t true false h = record {
  begun = omega (arith, h.begun);
  forgotten = awaits-added s.pending _ c h.forgotten (omega (arith, h.begun));
  unarmed = h.unarmed;
  unsettled = h.unsettled;
}
send-IsLost s c t false timed h = record {
  begun = omega (arith, h.begun);
  forgotten = awaits-added s.pending _ c h.forgotten (omega (arith, h.begun));
  unarmed = h.unarmed;
  unsettled =
      settlement_of-added s.settled _ c h.unsettled
        (cons-singleton c s.next_call unsent (omega (arith, h.begun)));
}

resolve_first-IsLost :
    (s : PingRoundTrips) (l : List PendingPingRoundTrip) (c now : ℕ)
    → s.pending ≡ l
    → IsLost s c
    → IsLost (resolve_first s l now) c
unfolding awaits
resolve_first-IsLost s [] c now e h = h
resolve_first-IsLost s (x ∷ l) c now e h =
    let waits : awaits (x ∷ l) c ≡ false = rw e at h.forgotten in
    record {
      begun = h.begun;
      forgotten = ground (arith, waits);
      unarmed = h.unarmed;
      unsettled =
          settlement_of-added s.settled _ c h.unsettled
            (cons-singleton c x.call (resolved now x.sent_at) (ground (arith, waits)));
    }

pong-IsLost : (s : PingRoundTrips) (c now : ℕ) → IsLost s c → IsLost (resolve_oldest s now) c
unfolding resolve_oldest
pong-IsLost s c now h = resolve_first-IsLost s s.pending c now refl h

lose-IsLost :
    (s : PingRoundTrips) (c : ℕ) (reason : Text) → IsLost s c → IsLost (reject_all s reason) c
unfolding reject_all awaits
lose-IsLost s c reason h = record {
  begun = h.begun;
  forgotten = refl;
  unarmed = h.unarmed;
  unsettled =
      settlement_of-added s.settled (rejections reason s.pending) c h.unsettled
        (settlement_of-rejections reason s.pending c h.forgotten);
}

expire-IsLost :
    (s : PingRoundTrips) (l : List PendingPingRoundTrip) (c d at : ℕ)
    → awaits l c ≡ false
    → IsLost s c
    → d ≢ c
    → s.pending ≡ l
    → IsLost (expire s d (cancel l at)) c
expire-IsLost s l c d at waits h n same = elim (Option-cases (cancel l at)) [
  | inl gone ↦ rw gone h
  | inr (m, left) ↦ rw left record {
    begun = h.begun;
    forgotten = awaits-cancel l m at c waits left;
    unarmed = h.unarmed;
    unsettled = settlement_of-added s.settled _ c h.unsettled (cons-singleton c d timed_out n);
  }
]

fire-IsLost : (s : PingRoundTrips) (c d : ℕ) → IsLost s c → IsLost (fire_timer s d) c
unfolding fire_timer
fire-IsLost s c d h = elim (Option-cases (timer_of s.timers d)) [
  | inl gone ↦ rw gone h
  | inr (t, armed) ↦ rw armed (
      expire-IsLost _ s.pending c t.call t.sent_at h.forgotten
        (record {
          begun = h.begun;
          forgotten = h.forgotten;
          unarmed = timer_of-without_timer s.timers c d h.unarmed;
          unsettled = h.unsettled;
        })
        (ground (arith, timer_of-call s.timers d t armed, h.unarmed, armed)) refl)
]

step-IsLost : (s : PingRoundTrips) (c : ℕ) (e : Event) → IsLost s c → IsLost (step s e) c
unfolding step
step-IsLost s c (send t sent timed) h = send-IsLost s c t sent timed h
step-IsLost s c (pong now) h = pong-IsLost s c now h
step-IsLost s c (lose reason) h = lose-IsLost s c reason h
step-IsLost s c (fire d) h = fire-IsLost s c d h

pub run-IsLost :
    (s : PingRoundTrips) (c : ℕ) (events : List Event) → IsLost s c → IsLost (run s events) c
unfolding run
run-IsLost s c [] h = h
run-IsLost s c (e ∷ events) h = run-IsLost (step s e) c events (step-IsLost s c e h)
