-- ===== src/Mailbox.antt =====
-- ts/packages/core/src/domain/hub-mailbox.ts: the logs that a relay hub holds for other devices, and
-- who may write to them, and how much. Frames are handled one after another; the callback
-- `onRefused` is a field of the outcome.
pub mod Logs
pub mod Cells
pub mod Entries
pub mod Outcomes
pub mod Bounds
use wire_mesh.Prelude.{
  ℕ, ◌+◌, ◌-◌, Bool, true, false, not, ◌&&◌, List, [], ◌∷◌, ◌++◌, Option, none, some, Bytes, Text,
  text, text_eq, leb, ltb, ◌==◌, if◌then◌else◌, length, any, map, decimal,
}
use mathlib.Core.Option
use wire_mesh.DeviceId.{device_id_to_hex}
use wire_mesh.Storage.{KeyValueStorage, count_of, ◌>>=◌}
use wire_mesh.DataSync.{
  DataHaveFrame, DataRequestFrame, DataEntriesFrame, handle_data_have, handle_data_request,
  handle_data_entries, head_seq_for,
}

pub record MailboxLimits : Type 0 where
  pub max_logs : ℕ
  pub max_log_bytes : ℕ
  pub max_entry_bytes : ℕ
  pub read_batch : ℕ

pub data MailboxRefusalReason : Type 0 where
  not_the_owner unregistered_sender log_limit size_limit entry_limit gap : MailboxRefusalReason

-- The frames that a mailbox answers, and answers with.
pub data DataFrame : Type 0 where
  have : DataHaveFrame → DataFrame
  request : DataRequestFrame → DataFrame
  entries : DataEntriesFrame → DataFrame

pub record Handled (S : Type 0) : Type 0 where
  pub store : S
  pub reply : Option DataFrame
  pub refused : Option MailboxRefusalReason

abbrev pub refuse : {S : Type 0} → S → MailboxRefusalReason → Option (Handled S)
refuse s reason = some (record { store = s; reply = none; refused = some reason })

abbrev pub answer : {S : Type 0} → S → Option DataFrame → Option (Handled S)
answer s reply = some (record { store = s; reply = reply; refused = none })

abbrev pub log_count_key : Text
log_count_key = text "mailbox/log-count"

unfoldable pub log_bytes_key : Bytes → Text
log_bytes_key peer = text "mailbox/" ++ (device_id_to_hex peer ++ text "/bytes")

abbrev pub encode_count : ℕ → Bytes
encode_count value = decimal value

unfoldable pub same_device : Bytes → Bytes → Bool
same_device a b = text_eq (device_id_to_hex a) (device_id_to_hex b)

abbrev pub is_oversized : MailboxLimits → Bytes → Bool
is_oversized limits entry = ltb limits.max_entry_bytes (length entry)

-- `entries.reduce((sum, entry) => sum + entry.length, sum)`.
unfoldable pub added_to : ℕ → List Bytes → ℕ
added_to sum [] = sum
added_to sum (e ∷ es) = added_to (sum + length e) es

module _ {S : Type 0} (kv : KeyValueStorage S) where
  unfoldable pub read_count : S → Text → Option ℕ
  read_count s key = count_of (kv.get s key)

  -- `isNewLog && count >= limits.maxLogs`; the count is read only for a new log.
  unfoldable pub is_full : MailboxLimits → S → Bool → Option Bool
  is_full limits s false = some false
  is_full limits s true = do count ← read_count s log_count_key; some (leb limits.max_logs count)

  unfoldable pub handle_have : MailboxLimits → S → Bytes → DataHaveFrame → Option (Handled S)
  handle_have limits s sender frame =
      if not (same_device sender frame.peer) then refuse s not_the_owner else do
        head ← head_seq_for kv s frame.peer
        full ← is_full limits s (head == 0)
        if full then refuse s log_limit else do
          asked ← handle_data_have kv s frame
          answer s (Option.map DataFrame.request asked)

  -- The cells that `handleEntries` writes after the entries.
  unfoldable pub record_entries : S → DataEntriesFrame → ℕ → Bool → Option S
  record_entries s frame size false = some (kv.set s (log_bytes_key frame.peer) (encode_count size))
  record_entries s frame size true = do
    let s' = kv.set s (log_bytes_key frame.peer) (encode_count size)
    count ← read_count s' log_count_key
    some (kv.set s' log_count_key (encode_count (count + 1)))

  -- `stored.ok`, or a gap.
  unfoldable pub finish_entries : DataEntriesFrame → ℕ → Bool → S × Bool → Option (Handled S)
  finish_entries frame size is_new (s, false) = refuse s gap
  finish_entries frame size is_new (s, true) = do
    s' ← record_entries s frame size (is_new && ltb 0 (length frame.entries))
    answer s' none

  unfoldable pub handle_entries : MailboxLimits → S → Bytes → DataEntriesFrame → Option (Handled S)
  handle_entries limits s sender frame =
      if not (same_device sender frame.peer)
      then refuse s not_the_owner
      else if any (is_oversized limits) frame.entries
      then refuse s size_limit
      else do
        held ← read_count s (log_bytes_key frame.peer)
        let added = added_to 0 frame.entries
        if ltb limits.max_log_bytes (held + added) then refuse s entry_limit else do
          head ← head_seq_for kv s frame.peer
          full ← is_full limits s (head == 0)
          if full then refuse s log_limit else do
            stored ← handle_data_entries kv s frame
            finish_entries frame (held + added) (head == 0) stored

  -- `sender` is the device that the connection is verified to be, if it is.
  unfoldable pub handle : MailboxLimits → S → Option Bytes → DataFrame → Option (Handled S)
  handle limits s none frame = refuse s unregistered_sender
  handle limits s (some sender) (have frame) = handle_have limits s sender frame
  handle limits s (some sender) (entries frame) = handle_entries limits s sender frame
  handle limits s (some sender) (request frame) = do
    reply ← handle_data_request kv s frame limits.read_batch
    answer s (Option.map DataFrame.entries reply)
