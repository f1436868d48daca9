-- ===== src/PingRoundTrips.antt =====
-- ts/packages/core/src/domain/ping-round-trips.ts: pings without ids of their own, paired with pongs
-- first in, first out. A call's promise is named by a number; its ping is put on the wire, or fails
-- to be, before anything else happens. Pongs, losses of the connection and the timers that
-- `setTimeout` arms arrive as events, in any order.
pub mod Forgotten
pub mod Lost
pub mod Times
pub mod Settling
use wire_mesh.Prelude.{
  ℕ, suc, ◌+◌, Bool, List, [], ◌∷◌, ◌++◌, Option, none, some, Text, ◌==◌, if◌then◌else◌,
}

-- A registered call; also what a timer's callback closes over.
pub record PendingPingRoundTrip : Type 0 where
  pub call : ℕ
  pub sent_at : ℕ

-- A round trip is the difference of two readings of the clock, `resolved now_ms sent_at`.
pub data Settlement : Type 0 where
  resolved : ℕ → ℕ → Settlement
  rejected : Text → Settlement
  timed_out : Settlement
  unsent : Settlement

-- `settled` holds every settlement in order: the first of a call is its promise's.
pub record PingRoundTrips : Type 0 where
  pub pending : List PendingPingRoundTrip
  pub timers : List PendingPingRoundTrip
  pub settled : List (ℕ × Settlement)
  pub next_call : ℕ

unfoldable pub settlement_of : List (ℕ × Settlement) → ℕ → Option Settlement
settlement_of [] c = none
settlement_of ((d, o) ∷ settled) c = if d == c then some o else settlement_of settled c

unfoldable pub create_ping_round_trips : PingRoundTrips
create_ping_round_trips = record { pending = []; timers = []; settled = []; next_call = 0 }

abbrev with_first :
    PendingPingRoundTrip → Option (List PendingPingRoundTrip) → Option (List PendingPingRoundTrip)
with_first e none = none
with_first e (some es) = some (e ∷ es)

-- The calls left, when one was registered at that time.
unfoldable pub cancel : List PendingPingRoundTrip → ℕ → Option (List PendingPingRoundTrip)
cancel [] sent_at = none
cancel (e ∷ es) sent_at =
    let rest = cancel es sent_at in if e.sent_at == sent_at then some es else with_first e rest

abbrev pub resolve_first : PingRoundTrips → List PendingPingRoundTrip → ℕ → PingRoundTrips
resolve_first s [] now_ms = s
resolve_first s (e ∷ es) now_ms = record s {
  pending = es;
  settled = s.settled ++ (e.call, resolved now_ms e.sent_at) ∷ [];
}

unfoldable pub resolve_oldest : PingRoundTrips → ℕ → PingRoundTrips
resolve_oldest s now_ms = resolve_first s s.pending now_ms

unfoldable pub rejections : Text → List PendingPingRoundTrip → List (ℕ × Settlement)
rejections reason [] = []
rejections reason (e ∷ es) = (e.call, rejected reason) ∷ rejections reason es

unfoldable pub reject_all : PingRoundTrips → Text → PingRoundTrips
reject_all s reason = record s { pending = []; settled = s.settled ++ rejections reason s.pending }

-- Whether the ping could be sent, and whether there is a `timeoutMs`.
unfoldable pub send_and_await : PingRoundTrips → ℕ → Bool → Bool → PingRoundTrips
send_and_await s sent_at sent timed =
    let e : PendingPingRoundTrip = record { call = s.next_call; sent_at = sent_at } in
    let registered : PingRoundTrips = record s {
      pending = s.pending ++ e ∷ [];
      next_call = suc s.next_call;
    } in
    if sent
    then if timed then record registered { timers = s.timers ++ e ∷ [] } else registered
    else record registered { settled = s.settled ++ (s.next_call, unsent) ∷ [] }

unfoldable pub timer_of : List PendingPingRoundTrip → ℕ → Option PendingPingRoundTrip
timer_of [] c = none
timer_of (t ∷ timers) c = if t.call == c then some t else timer_of timers c

unfoldable pub without_timer : List PendingPingRoundTrip → ℕ → List PendingPingRoundTrip
without_timer [] c = []
without_timer (t ∷ timers) c =
    let rest = without_timer timers c in if t.call == c then rest else t ∷ rest

abbrev pub expire : PingRoundTrips → ℕ → Option (List PendingPingRoundTrip) → PingRoundTrips
expire s c none = s
expire s c (some es) = record s { pending = es; settled = s.settled ++ (c, timed_out) ∷ [] }

abbrev pub fire_armed : PingRoundTrips → ℕ → Option PendingPingRoundTrip → PingRoundTrips
fire_armed s c none = s
fire_armed s c (some t) =
    expire (record s { timers = without_timer s.timers c }) t.call (cancel s.pending t.sent_at)

-- The callback of a call's timer.
unfoldable pub fire_timer : PingRoundTrips → ℕ → PingRoundTrips
fire_timer s c = fire_armed s c (timer_of s.timers c)

pub data Event : Type 0 where
  send : ℕ → Bool → Bool → Event
  pong : ℕ → Event
  lose : Text → Event
  fire : ℕ → Event

unfoldable pub step : PingRoundTrips → Event → PingRoundTrips
step s (send sent_at sent timed) = send_and_await s sent_at sent timed
step s (pong now_ms) = resolve_oldest s now_ms
step s (lose reason) = reject_all s reason
step s (fire c) = fire_timer s c

unfoldable pub run : PingRoundTrips → List Event → PingRoundTrips
run s [] = s
run s (e ∷ events) = run (step s e) events
