-- ===== src/Tests/Mailboxes.antt =====
-- The hub's mailbox (hub-mailbox.ts).
use wire_mesh.Prelude.{◌≡◌, inr, refl, List, [], ◌∷◌, none, some, arith}
use wire_mesh.Storage.Memory.{memory_storage, MemoryStore, memory_get}
use wire_mesh.DataSync.{DataEntriesFrame}
use wire_mesh.Mailbox.{MailboxLimits, entries, request, Handled, handle_entries, read_count}
use wire_mesh.Mailbox.Logs.{Logs, Mirrors, log_of}
use wire_mesh.Mailbox.Entries.{Accepts}
use wire_mesh.Mailbox.Outcomes.{Settles, handle_entries-Settles}
use wire_mesh.Mailbox.Bounds.{Event, IsBounded, serve, serve-IsBounded}
use wire_mesh.Tests.Logs.{device, device-IsDeviceId, Holds-nothing, two_entries}

abbrev limits : MailboxLimits
limits = record { max_logs = 1; max_log_bytes = 5; max_entry_bytes = 2; read_batch = 1 }

Mirrors-nothing : Mirrors memory_storage [] []
unfolding log_of read_count memory_get
Mirrors-nothing = record {
  held = λ p hp. Holds-nothing p;
  sizes = λ p hp. refl;
  count = refl;
  filled = tt;
}

two_entries-Accepts : Accepts limits [] (device 1) two_entries
unfolding log_of
two_entries-Accepts = record {
  owner = refl;
  small = omega arith;
  fits = omega arith;
  room = inr (omega arith);
  next = refl;
}

-- Another device's log finds no room beside the first one's.
abbrev too_many : DataEntriesFrame
too_many = record { peer = device 2; from_seq = 0; entries = (4 ∷ []) ∷ [] }

abbrev events : List Event
events =
    (some (device 1), entries two_entries)
    ∷ (some (device 2), entries too_many)
    ∷ (none, entries two_entries)
    ∷ (some (device 2), entries two_entries)
    ∷ (some (device 3), request (record { peer = device 1; from_seq = 0 }))
    ∷ []

handle_entries-Settles_example :
    (out : Handled MemoryStore) × (handle_entries memory_storage limits [] (device 2) two_entries
      ≡ some out)
    × Settles memory_storage limits [] [] (device 2) two_entries out
handle_entries-Settles_example =
    handle_entries-Settles memory_storage limits [] [] (device 2) two_entries
      (device-IsDeviceId 2 (omega arith)) (device-IsDeviceId 1 (omega arith)) Mirrors-nothing

serve-IsBounded_example :
    (s' : MemoryStore) × (logs' : Logs) × (serve memory_storage limits [] events ≡ some s')
    × Mirrors memory_storage s' logs'
    × IsBounded limits logs'
serve-IsBounded_example =
    serve-IsBounded memory_storage limits events [] []
      (
        (device-IsDeviceId 1 (omega arith), device-IsDeviceId 1 (omega arith)),
        (
          (device-IsDeviceId 2 (omega arith), device-IsDeviceId 2 (omega arith)),
          (
            (tt, device-IsDeviceId 1 (omega arith)),
            (
              (device-IsDeviceId 2 (omega arith), device-IsDeviceId 1 (omega arith)),
              ((device-IsDeviceId 3 (omega arith), device-IsDeviceId 1 (omega arith)), tt),
            ),
          ),
        ),
      )
      Mirrors-nothing (record { logs_held = omega arith; logs_fit = tt; entries_fit = tt })
