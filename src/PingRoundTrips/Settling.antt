-- ===== src/PingRoundTrips/Settling.antt =====
-- Calls of ping-round-trips.ts that settle.
use wire_mesh.Prelude.{
  ℕ, suc, ◌<◌, ◌≡◌, ◌≢◌, inl, inr, refl, Bool, true, false, List, [], ◌∷◌, ◌++◌, none, some, Text,
  ◌==◌, arith, Option-cases, All, All-append, Bool-cases, subst,
}
use wire_mesh.PingRoundTrips.{
  PendingPingRoundTrip, PingRoundTrips, settlement_of, resolved, timed_out, create_ping_round_trips,
  cancel, resolve_first, resolve_oldest, reject_all, send_and_await, timer_of, fire_armed,
  fire_timer, Event, send, pong, lose, fire, step, run,
}
use wire_mesh.PingRoundTrips.Forgotten.{awaits, awaits-append}
use wire_mesh.PingRoundTrips.Times.{
  IsNewTime, IsTimely, AreTimely, IsSame, AreSame, settled-append_left, settled-append_right,
  settlement_of-rejections, settled-now, cancel-All, without_timer-All, timer_of-All, awaits-cancel,
  awaits-gone, All-below, AreSame-new, AreSame-added, AreSame-cancel, AreSame-tail, AreSame-nil,
  IsKept,
}

awaits-before :
    (l : List PendingPingRoundTrip) (e : PendingPingRoundTrip) (c : ℕ)
    → awaits (l ++ e ∷ []) c ≡ false
    → (awaits l c ≡ false) × (e.call ≢ c)
awaits-before l e c h = ground (arith, awaits-append l e c)

-- What every way of sending adds to the calls registered.
module _ (s : PingRoundTrips) (at : ℕ) (k : IsKept s) (new : IsNewTime s at) where
  abbrev sending : PendingPingRoundTrip
  sending = record { call = s.next_call; sent_at = at }

  kept_after :
      (c : ℕ)
      → c < suc s.next_call
      → awaits (s.pending ++ sending ∷ []) c ≡ false
      → settlement_of s.settled c ≢ none
  kept_after c b w =
      let (before, other) = awaits-before s.pending sending c w in
      k.kept c (omega (arith, b, other)) before

  below_after :
      (l : List PendingPingRoundTrip)
      → All (λ e. e.call < s.next_call) l
      → All (λ e. e.call < suc s.next_call) (l ++ sending ∷ [])
  below_after l b =
      All-append (λ e. e.call < suc s.next_call) l (sending ∷ []) (All-below l s.next_call b)
        (omega arith, tt)

  apart_after : All (AreSame (s.pending ++ sending ∷ [])) s.timers
  apart_after = AreSame-added sending s.pending s.timers new.1 k.timers_below k.apart

  same_after : AreSame (s.pending ++ sending ∷ []) sending
  same_after =
      All-append (IsSame sending) s.pending (sending ∷ [])
        (AreSame-new sending s.pending new.0 k.pending_below) (((λ p. refl), (λ p. refl)), tt)

  send-IsKept : (sent timed : Bool) → IsKept (send_and_await s at sent timed)
  unfolding send_and_await
  send-IsKept true true = record {
    kept = kept_after;
    pending_below = below_after s.pending k.pending_below;
    timers_below = below_after s.timers k.timers_below;
    apart =
        All-append (AreSame (s.pending ++ sending ∷ [])) s.timers (sending ∷ []) apart_after
          (same_after, tt);
  }
  send-IsKept true false = record {
    kept = kept_after;
    pending_below = below_after s.pending k.pending_below;
    timers_below = All-below s.timers s.next_call k.timers_below;
    apart = apart_after;
  }
  send-IsKept false timed = record {
    kept = λ c b w. settled-append_left s.settled _ c (kept_after c b w);
    pending_below = below_after s.pending k.pending_below;
    timers_below = All-below s.timers s.next_call k.timers_below;
    apart = apart_after;
  }

pong-IsKept :
    (s : PingRoundTrips) (l : List PendingPingRoundTrip) (now : ℕ)
    → s.pending ≡ l
    → IsKept s
    → IsKept (resolve_first s l now)
unfolding awaits
pong-IsKept s [] now e k = k
pong-IsKept s (x ∷ l) now e k = record {
  kept = λ c b w. elim (Bool-cases (x.call == c)) [
    | inl hit ↦ settled-now s.settled x.call c (resolved now x.sent_at) (ground (arith, hit))
    | inr miss ↦
        let gone : awaits s.pending c ≡ false = rw (e, miss) w in
        settled-append_left s.settled _ c (k.kept c b gone)
  ];
  pending_below = (rw e at k.pending_below).1;
  timers_below = k.timers_below;
  apart = AreSame-tail x l s.timers (rw e at k.apart);
}

lose-IsKept : (s : PingRoundTrips) (reason : Text) → IsKept s → IsKept (reject_all s reason)
unfolding reject_all
lose-IsKept s reason k = record {
  kept = λ c b w. elim (Bool-cases (awaits s.pending c)) [
    | inl held ↦
        settled-append_right s.settled _ c
          (settlement_of-rejections reason s.pending c (ground (arith, held)))
    | inr gone ↦ settled-append_left s.settled _ c (k.kept c b gone)
  ];
  pending_below = tt;
  timers_below = k.timers_below;
  apart = AreSame-nil s.timers;
}

-- After its timer, a call is settled, and every other call is as it was.
fire_armed-IsKept :
    (s : PingRoundTrips) (c : ℕ) (t : PendingPingRoundTrip)
    → timer_of s.timers c ≡ some t
    → IsKept s
    → IsKept (fire_armed s c (some t)) × (settlement_of (fire_armed s c (some t)).settled c ≢ none)
fire_armed-IsKept s c t armed k =
    let (same, named) = timer_of-All (AreSame s.pending) s.timers c t armed k.apart in
    let (below, _) = timer_of-All (λ e. e.call < s.next_call) s.timers c t armed k.timers_below in
    elim (Option-cases (cancel s.pending t.sent_at)) [
      | inl gone ↦ rw gone (
        record {
          kept = k.kept;
          pending_below = k.pending_below;
          timers_below = without_timer-All (λ e. e.call < s.next_call) s.timers c k.timers_below;
          apart = without_timer-All (AreSame s.pending) s.timers c k.apart;
        },
        subst (λ d. settlement_of s.settled d ≢ none) named
            (k.kept t.call below (awaits-gone s.pending t same gone)),
      )
      | inr (m, left) ↦ rw left (
        record {
          kept = λ d b w. elim (Bool-cases (t.call == d)) [
            | inl hit ↦ settled-now s.settled t.call d timed_out (ground (arith, hit))
            | inr miss ↦
                settled-append_left s.settled _ d
                  (k.kept d b (awaits-cancel s.pending m t d same (ground (arith, miss)) left w))
          ];
          pending_below =
              cancel-All (λ e. e.call < s.next_call) s.pending m t.sent_at k.pending_below left;
          timers_below = without_timer-All (λ e. e.call < s.next_call) s.timers c k.timers_below;
          apart =
              without_timer-All (AreSame m) s.timers c
                (AreSame-cancel s.pending m s.timers t.sent_at k.apart left);
        },
        settled-now s.settled t.call c timed_out named,
      )
    ]

fire-IsKept : (s : PingRoundTrips) (c : ℕ) → IsKept s → IsKept (fire_timer s c)
unfolding fire_timer
fire-IsKept s c k = elim (Option-cases (timer_of s.timers c)) [
  | inl gone ↦ rw gone k
  | inr (t, armed) ↦ rw armed (fire_armed-IsKept s c t armed k).0
]

step-IsKept : (s : PingRoundTrips) (e : Event) → IsTimely s e → IsKept s → IsKept (step s e)
unfolding step resolve_oldest
step-IsKept s (send at sent timed) h k = send-IsKept s at k h sent timed
step-IsKept s (pong now) h k = pong-IsKept s s.pending now refl k
step-IsKept s (lose reason) h k = lose-IsKept s reason k
step-IsKept s (fire c) h k = fire-IsKept s c k

run-IsKept :
    (s : PingRoundTrips) (events : List Event)
    → AreTimely s events
    → IsKept s
    → IsKept (run s events)
unfolding run AreTimely
run-IsKept s [] h k = k
run-IsKept s (e ∷ events) h k = run-IsKept (step s e) events h.1 (step-IsKept s e h.0 k)

create-IsKept : IsKept create_ping_round_trips
unfolding create_ping_round_trips
create-IsKept = record {
  kept = λ c b. absurd (omega arith);
  pending_below = tt;
  timers_below = tt;
  apart = tt;
}

-- Where every call is sent at a time other than that of each call in flight and of each call whose
-- timer is still armed, answered or not, a call with a timeout is settled once its timer has run out, whatever pongs, losses, calls and timers came before.
pub run-settles :
    (events : List Event) (c : ℕ) (t : PendingPingRoundTrip)
    → AreTimely create_ping_round_trips events
    → timer_of (run create_ping_round_trips events).timers c ≡ some t
    → settlement_of (fire_timer (run create_ping_round_trips events) c).settled c ≢ none
unfolding fire_timer
run-settles events c t h armed =
    rw armed
      (fire_armed-IsKept (run create_ping_round_trips events) c t armed
        (run-IsKept create_ping_round_trips events h create-IsKept)).1
