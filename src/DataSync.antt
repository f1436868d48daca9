-- ===== src/DataSync.antt =====
-- ts/packages/core/src/domain/data-sync.ts: logs of entries kept in a key-value storage, one for
-- each device, and the frames have, request and entries that copy them. A count that is read back
-- is `none` where the stored text is no number.
pub mod Keys
pub mod Log
pub mod Handlers
pub mod Interrupted
pub mod Sync
use wire_mesh.Prelude.{
  min, decimal, ℕ, zero, suc, ◌+◌, ◌-◌, Bool, true, false, not, List, [], ◌∷◌, ◌++◌, Option, none,
  some, Bytes, Text, text, leb, ◌==◌, if◌then◌else◌, length,
}
use wire_mesh.DeviceId.{device_id_to_hex}
use wire_mesh.Storage.{KeyValueStorage, count_of, ◌>>=◌}

unfoldable pub head_key : Bytes → Text
head_key peer = text "data/" ++ (device_id_to_hex peer ++ text "/head")

unfoldable pub entry_key : Bytes → ℕ → Text
entry_key peer seq = text "data/" ++ (device_id_to_hex peer ++ (text "/entry/" ++ decimal seq))

pub record DataHaveFrame : Type 0 where
  pub peer : Bytes
  pub head_seq : ℕ

pub record DataRequestFrame : Type 0 where
  pub peer : Bytes
  pub from_seq : ℕ

pub record DataEntriesFrame : Type 0 where
  pub peer : Bytes
  pub from_seq : ℕ
  pub entries : List Bytes

module _ {S : Type 0} (kv : KeyValueStorage S) where
  unfoldable pub read_head_seq : S → Bytes → Option ℕ
  read_head_seq s peer = count_of (kv.get s (head_key peer))

  unfoldable pub write_head_seq : S → Bytes → ℕ → S
  write_head_seq s peer seq = kv.set s (head_key peer) (decimal seq)

  unfoldable pub head_seq_for : S → Bytes → Option ℕ
  head_seq_for s peer = read_head_seq s peer

  -- The new storage, the sequence number, and the frame that announces it.
  unfoldable pub append_own_entry : S → Bytes → Bytes → Option (S × ℕ × DataHaveFrame)
  append_own_entry s own entry = do
    current_head ← read_head_seq s own
    let seq = current_head + 1
    some (
      write_head_seq (kv.set s (entry_key own seq) entry) own seq,
      seq,
      record { peer = own; head_seq = seq },
    )

  unfoldable pub handle_data_have : S → DataHaveFrame → Option (Option DataRequestFrame)
  handle_data_have s frame = do
    our_head ← read_head_seq s frame.peer
    if leb frame.head_seq our_head
        then some none
        else some (some (record { peer = frame.peer; from_seq = our_head }))

  -- The entries from `first` on, at most `count` of them, cut at the first hole.
  unfoldable pub read_run : S → Bytes → ℕ → ℕ → List Bytes
  read_run s peer first zero = []
  read_run s peer first (suc count) =
      let rest = read_run s peer (first + 1) count in
      elim (kv.get s (entry_key peer first)) [ none ↦ [] | some entry ↦ entry ∷ rest ]

  -- The frame of a run, and none for an empty run.
  abbrev pub entries_frame : Bytes → ℕ → List Bytes → Option DataEntriesFrame
  entries_frame peer from [] = none
  entries_frame peer from (e ∷ es) =
      some (record { peer = peer; from_seq = from; entries = e ∷ es })

  unfoldable pub handle_data_request : S → DataRequestFrame → ℕ → Option (Option DataEntriesFrame)
  handle_data_request s frame limit = do
    our_head ← read_head_seq s frame.peer
    let last = min our_head (frame.from_seq + limit)
    let run = read_run s frame.peer (frame.from_seq + 1) (last - frame.from_seq)
    if leb our_head frame.from_seq
        then some none
        else some (entries_frame frame.peer frame.from_seq run)

  -- The writes of `eachInOrder`, the first at `seq`.
  unfoldable pub store_entries : S → Bytes → ℕ → List Bytes → S
  store_entries s peer seq [] = s
  store_entries s peer seq (e ∷ es) =
      store_entries (kv.set s (entry_key peer seq) e) peer (seq + 1) es

  -- The new storage, and whether the frame was taken; if not, it left a gap.
  unfoldable pub handle_data_entries : S → DataEntriesFrame → Option (S × Bool)
  handle_data_entries s frame = do
    our_head ← read_head_seq s frame.peer
    if not (frame.from_seq == our_head)
        then some (s, false)
        else some (
          write_head_seq (store_entries s frame.peer (frame.from_seq + 1) frame.entries) frame.peer
              (frame.from_seq + length frame.entries),
          true,
        )

  unfoldable pub read_entries : S → Bytes → ℕ → Option (List Bytes)
  read_entries s peer from = do
    head ← read_head_seq s peer
    some (read_run s peer (from + 1) (head - from))
