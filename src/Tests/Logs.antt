-- ===== src/Tests/Logs.antt =====
-- Logs and their synchronisation (data-sync.ts, memory-storage.ts).
use wire_mesh.Prelude.{
  length, false, digits_value, digits, ℕ, ◌<◌, ◌≡◌, ◌≢◌, refl, true, [], ◌∷◌, ◌++◌, some, Bytes,
  text_eq, arith, decimal, number,
}
use wire_mesh.Storage.Memory.{memory_storage, MemoryStore, memory_get, memory_set}
use wire_mesh.DeviceId.{device_id_to_hex, bytes_to_hex, hex_digit}
use wire_mesh.DataSync.{
  head_key, entry_key, read_head_seq, write_head_seq, DataEntriesFrame, handle_data_entries,
  read_run, read_entries, store_entries,
}
use wire_mesh.DataSync.Keys.{IsDeviceId}
use wire_mesh.DataSync.Log.{Holds}
use wire_mesh.DataSync.Handlers.{taken, Holds-taken, handle_data_entries_lem}
use wire_mesh.DataSync.Interrupted.{writes_of, interrupted, handle_data_entries_retry}
use wire_mesh.DataSync.Sync.{sync_rounds, sync_rounds_lem}

-- A device id: the byte, and 31 zeros.
abbrev pub device : ℕ → Bytes
device b =
    b ∷ 0 ∷ 0 ∷ 0 ∷ 0 ∷ 0 ∷ 0 ∷ 0 ∷ 0 ∷ 0 ∷ 0 ∷ 0 ∷ 0 ∷ 0 ∷ 0 ∷ 0 ∷ 0 ∷ 0 ∷ 0 ∷ 0 ∷ 0 ∷ 0 ∷ 0 ∷ 0
    ∷ 0 ∷ 0 ∷ 0 ∷ 0 ∷ 0 ∷ 0 ∷ 0 ∷ 0 ∷ []

pub device-IsDeviceId : (b : ℕ) → b < 256 → IsDeviceId (device b)
device-IsDeviceId b h = record { bytes = omega arith; size = refl }

pub Holds-nothing : (p : Bytes) → Holds memory_storage [] p []
unfolding read_head_seq memory_get
Holds-nothing p = record { head = refl; entry = λ i lt. absurd (omega arith) }

abbrev ada : Bytes
ada = device 1

abbrev bob : Bytes
bob = device 2

abbrev pub two_entries : DataEntriesFrame
two_entries = record { peer = device 1; from_seq = 0; entries = (7 ∷ []) ∷ (8 ∷ 9 ∷ []) ∷ [] }

ada-ne-bob : ada ≢ bob
ada-ne-bob h = cc

-- The holder of both entries.
abbrev holder : MemoryStore
holder = taken memory_storage [] two_entries

Holds-holder : Holds memory_storage holder ada ([] ++ two_entries.entries)
Holds-holder =
    Holds-taken memory_storage [] two_entries [] (device-IsDeviceId 1 (omega arith)) refl
      (Holds-nothing ada)

read_holder : read_entries memory_storage holder ada 1 ≡ some ((8 ∷ 9 ∷ []) ∷ [])
unfolding taken store_entries read_entries read_run read_head_seq write_head_seq head_key entry_key
    memory_get memory_set device_id_to_hex bytes_to_hex hex_digit decimal digits number digits_value
    text_eq
read_holder = refl

handle_data_entries_lem_example :
    (s' : MemoryStore) × (handle_data_entries memory_storage [] two_entries ≡ some (s', true))
    × Holds memory_storage s' ada two_entries.entries
    × (true ≡ false → s' ≡ [])
    × Holds memory_storage s' bob []
handle_data_entries_lem_example =
    handle_data_entries_lem memory_storage [] two_entries [] bob []
      (device-IsDeviceId 1 (omega arith)) (device-IsDeviceId 2 (omega arith)) ada-ne-bob
      (Holds-nothing ada) (Holds-nothing bob)

-- The first of three writes was made.
stops_early : 1 < length (writes_of memory_storage [] two_entries)
unfolding writes_of handle_data_entries read_head_seq store_entries write_head_seq memory_get
stops_early = omega arith

handle_data_entries_retry_example :
    Holds memory_storage (interrupted memory_storage [] two_entries 1) ada []
    × (s' : MemoryStore) × (handle_data_entries memory_storage
          (interrupted memory_storage [] two_entries 1)
          two_entries
        ≡ some (s', true))
    × Holds memory_storage s' ada two_entries.entries
handle_data_entries_retry_example =
    handle_data_entries_retry memory_storage [] two_entries [] 1 (device-IsDeviceId 1 (omega arith))
      refl (Holds-nothing ada) stops_early

-- Two rounds of one entry each bring an empty reader level with the holder of two.
sync_rounds_lem_example :
    (reader' : MemoryStore) × (sync_rounds memory_storage memory_storage 1 2 ada holder []
      ≡ some reader')
    × Holds memory_storage reader' ada two_entries.entries
sync_rounds_lem_example =
    sync_rounds_lem memory_storage memory_storage 1 2 ada holder [] [] two_entries.entries
      (device-IsDeviceId 1 (omega arith)) (omega arith) Holds-holder (Holds-nothing ada)
