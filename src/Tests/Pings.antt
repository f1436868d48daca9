-- ===== src/Tests/Pings.antt =====
-- Pings and pongs (ping-round-trips.ts).
use wire_mesh.Prelude.{◌≡◌, ◌≢◌, refl, true, false, List, [], ◌∷◌, ◌++◌, some, none, arith, text}
use wire_mesh.PingRoundTrips.{
  PendingPingRoundTrip, Event, send, pong, lose, fire, run, step, create_ping_round_trips,
  settlement_of, resolved, rejected, timed_out, timer_of, fire_timer, send_and_await,
  resolve_oldest, without_timer, cancel, reject_all, rejections,
}
use wire_mesh.PingRoundTrips.Times.{AreTimely}
use wire_mesh.PingRoundTrips.Settling.{run-settles}
use wire_mesh.PingRoundTrips.Lost.{run-lost}

-- Three calls; one pong answers the first, and the timer of the second runs out.
abbrev exchange : List Event
exchange = send 10 true true ∷ send 20 true true ∷ send 30 true false ∷ pong 35 ∷ []

abbrev second : PendingPingRoundTrip
second = record { call = 1; sent_at = 20 }

AreTimely-exchange : AreTimely create_ping_round_trips exchange
unfolding AreTimely step send_and_await create_ping_round_trips
AreTimely-exchange = (
  (tt, tt),
  (
    (((λ e. omega (arith, e)), tt), ((λ e. omega (arith, e)), tt)),
    (
      (
        ((λ e. omega (arith, e)), ((λ e. omega (arith, e)), tt)),
        ((λ e. omega (arith, e)), ((λ e. omega (arith, e)), tt)),
      ),
      (tt, tt),
    ),
  ),
)

exchange-timer : timer_of (run create_ping_round_trips exchange).timers 1 ≡ some second
unfolding timer_of run step send_and_await resolve_oldest create_ping_round_trips
exchange-timer = refl

run-settles_example :
    settlement_of (fire_timer (run create_ping_round_trips exchange) 1).settled 1 ≢ none
run-settles_example = run-settles exchange 1 second AreTimely-exchange exchange-timer

answered_first :
    settlement_of (run create_ping_round_trips exchange).settled 0 ≡ some (resolved 35 10)
unfolding settlement_of run step send_and_await resolve_oldest create_ping_round_trips
answered_first = refl

expired_second :
    settlement_of (fire_timer (run create_ping_round_trips exchange) 1).settled 1 ≡ some timed_out
unfolding settlement_of run step send_and_await resolve_oldest create_ping_round_trips fire_timer
    timer_of without_timer cancel
expired_second = refl

rejected_third :
    settlement_of
      (run create_ping_round_trips (exchange ++ lose (text "disconnected") ∷ [])).settled
      2
    ≡ some (rejected (text "disconnected"))
unfolding settlement_of run step send_and_await resolve_oldest create_ping_round_trips reject_all
    rejections
rejected_third = refl

-- The second call's pong arrives, and the connection is closed.
run-lost_example :
    settlement_of
      (run create_ping_round_trips (
        send 10 true true ∷ send 10 true false ∷ pong 15 ∷ fire 0 ∷ pong 16 ∷ lose [] ∷ [])).settled
      1
    ≡ none
run-lost_example = run-lost 10 15 (pong 16 ∷ lose [] ∷ [])
