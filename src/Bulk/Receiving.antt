-- ===== src/Bulk/Receiving.antt =====
-- Runs of the receiver of bulk.ts: the specification is implemented, and what was received reads back.
use wire_mesh.Prelude.{◌≡◌, refl, List, [], ◌∷◌, ◌++◌, Option, some, Bytes, All}
use wire_mesh.Storage.{KeyValueStorage, ◌>>=◌}
use wire_mesh.Bulk.{BulkEffect, BulkReceiver}
use wire_mesh.Bulk.Transfers.{Transfer, Event, step, follow, answers, IsAdmitted, Shows}
use wire_mesh.Bulk.Handling.{step-Implements}

module _ {S : Type 0} (kv : KeyValueStorage S) (digest_of : Bytes → Bytes) where
  unfoldable pub run :
      BulkReceiver kv digest_of
      → List (Event kv digest_of)
      → Option (BulkReceiver kv digest_of × List BulkEffect)
  run s [] = some (s, [])
  run s (e ∷ events) = do
    (after, effects) ← step kv digest_of s e
    (final, later) ← run after events
    some (final, effects ++ later)

  abbrev pub follow_all : (Bytes → Transfer) → List (Event kv digest_of) → Bytes → Transfer
  follow_all view [] = view
  follow_all view (e ∷ events) = follow_all (follow kv digest_of view e) events

  abbrev pub all_answers : (Bytes → Transfer) → List (Event kv digest_of) → List BulkEffect
  all_answers view [] = []
  all_answers view (e ∷ events) =
      answers kv digest_of view e ++ all_answers (follow kv digest_of view e) events

  -- Whatever frames, decisions, resumptions and cancellations come, of transfers named by 16 bytes, a
  -- receiver whose storage and registrations are those of some transfers handles them all. What
  -- it then holds of every transfer, and what it sends and calls on the way, is what the specification
  -- says, which knows a transfer by its chunks alone.
  pub run-Implements :
      (s : BulkReceiver kv digest_of) (view : Bytes → Transfer) (events : List (Event kv digest_of))
      → All (IsAdmitted kv digest_of) events
      → Shows kv digest_of s view
      → (final : BulkReceiver kv digest_of) × (run s events ≡ some (final, all_answers view events))
        × Shows kv digest_of final (follow_all view events)
  unfolding run
  run-Implements s view [] is h = (s, refl, h)
  run-Implements s view (e ∷ events) is h =
      let (after, one, shown) = step-Implements kv digest_of s view e is.0 h in
      let (final, rest, last) =
        run-Implements after (follow kv digest_of view e) events is.1 shown in
      (final, rw (one, rest) refl, last)
