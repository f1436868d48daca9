-- ===== src/PingRoundTrips/Lost.antt =====
-- The timer of an answered call in ping-round-trips.ts, which is never cleared.
use wire_mesh.Prelude.{ℕ, ◌≡◌, refl, true, false, List, [], ◌∷◌, none, ◌==◌, arith}
use wire_mesh.PingRoundTrips.{
  PingRoundTrips, settlement_of, resolved, timed_out, create_ping_round_trips, cancel,
  resolve_oldest, send_and_await, timer_of, without_timer, fire_timer, Event, send, pong, fire,
  step, run,
}
use wire_mesh.PingRoundTrips.Forgotten.{awaits, IsLost, run-IsLost}

-- The first of two calls has been answered.
abbrev answered : ℕ → ℕ → PingRoundTrips
answered sent_at now = record {
  pending = record { call = 1; sent_at = sent_at } ∷ [];
  timers = record { call = 0; sent_at = sent_at } ∷ [];
  settled = (0, resolved now sent_at) ∷ [];
  next_call = 2;
}

fire_timer-answered :
    (sent_at now : ℕ)
    → fire_timer (answered sent_at now) 0 ≡ record {
      pending = [];
      timers = [];
      settled = (0, resolved now sent_at) ∷ (0, timed_out) ∷ [];
      next_call = 2;
    }
unfolding fire_timer timer_of without_timer cancel
fire_timer-answered sent_at now =
    let same : (sent_at == sent_at) ≡ true = ground arith in rw same refl

fire_timer-IsLost : (sent_at now : ℕ) → IsLost (fire_timer (answered sent_at now) 0) 1
unfolding awaits timer_of settlement_of
fire_timer-IsLost sent_at now =
    rw (fire_timer-answered sent_at now)
      (record { begun = omega arith; forgotten = refl; unarmed = refl; unsettled = refl })

-- Two calls that were sent at the same reading of the clock, the first with a timeout: once a pong
-- has answered the first and its timer runs out, the second never settles, whatever happens next.
pub run-lost :
    (sent_at now : ℕ) (events : List Event)
    → settlement_of
        (run create_ping_round_trips
          (send sent_at true true ∷ send sent_at true false ∷ pong now ∷ fire 0 ∷ events)).settled
        1
      ≡ none
unfolding run step create_ping_round_trips send_and_await resolve_oldest
run-lost sent_at now events =
    let left : PingRoundTrips = fire_timer (answered sent_at now) 0 in
    (run-IsLost left 1 events (fire_timer-IsLost sent_at now)).unsettled
