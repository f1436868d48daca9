-- ===== src/Mailbox/Entries.antt =====
-- `handleEntries` of hub-mailbox.ts against the abstract logs: which frames it takes, what a frame
-- that is taken leaves behind, and that a refused one leaves nothing.
use wire_mesh.Prelude.{
  ◌+◌, ◌<◌, ◌≤◌, ◌≡◌, ◌≢◌, ◌⊎◌, inl, inr, sym, ap, ◌∙◌, Bool, false, ◌&&◌, some, Bytes, text_eq,
  text_eq_iff, ltb, ◌==◌, All, arith, Bool-cases, length, subst,
}
use wire_mesh.Storage.{KeyValueStorage}
use wire_mesh.DataSync.{DataEntriesFrame}
use wire_mesh.DataSync.Keys.{IsDeviceId}
use wire_mesh.DataSync.Log.{Holds}
use wire_mesh.DataSync.Handlers.{taken, Holds-taken, Holds-taken_other}
use wire_mesh.Mailbox.{MailboxLimits, log_bytes_key, read_count}
use wire_mesh.Mailbox.Logs.{
  Logs, Mirrors, log_of, add_entries, size, size-append, log_of-add_entries_same,
  log_of-add_entries_other, length-add_entries, IsFilled-add_entries,
}
use wire_mesh.Mailbox.Cells.{
  recorded, Holds-recorded, read_count-recorded_same, read_count-recorded_other,
  read_count-recorded_count, read_count-taken, log_bytes_key-IsApart, log_count_key-IsApart,
}

-- What the mailbox asks of a frame of entries: its owner sends it, no entry is too large, the log
-- stays within its bytes, a new log finds room, and the entries start where the log ends.
pub record Accepts (limits : MailboxLimits) (logs : Logs) (sender : Bytes)
    (frame : DataEntriesFrame) : Type 0 where
  pub owner : sender ≡ frame.peer
  pub small : All (λ e. length e ≤ limits.max_entry_bytes) frame.entries
  pub fits : size (log_of logs frame.peer) + size frame.entries ≤ limits.max_log_bytes
  pub room : (length (log_of logs frame.peer) == 0) ≡ false ⊎ length logs < limits.max_logs
  pub next : frame.from_seq ≡ length (log_of logs frame.peer)

apart : (p q : Bytes) → text_eq p q ≡ false → p ≢ q
apart p q h e = ground (arith, text_eq_iff p q)

module _ {S : Type 0} (kv : KeyValueStorage S) where
  abbrev pub is_new : Logs → DataEntriesFrame → Bool
  is_new logs frame = length (log_of logs frame.peer) == 0

  -- The storage after a frame that is taken.
  abbrev pub after_entries : S → Logs → DataEntriesFrame → S
  after_entries s logs frame =
      recorded kv (taken kv s frame) frame (size (log_of logs frame.peer) + size frame.entries)
        (length logs) (is_new logs frame && ltb 0 (length frame.entries))

  pub Mirrors-after_entries :
      (s : S) (logs : Logs) (frame : DataEntriesFrame)
      → IsDeviceId frame.peer
      → frame.from_seq ≡ length (log_of logs frame.peer)
      → Mirrors kv s logs
      → Mirrors kv (after_entries s logs frame) (add_entries logs frame.peer frame.entries)
  Mirrors-after_entries s logs frame hp at h = record {
    held = λ q hq.
        Holds-recorded kv _ frame hp _ _ _ q _ (elim (Bool-cases (text_eq frame.peer q)) [
          | inl same ↦
              subst
                (λ q.
                  Holds kv (taken kv s frame) q
                    (log_of (add_entries logs frame.peer frame.entries) q))
                ((text_eq_iff frame.peer q).0 same)
                (rw (log_of-add_entries_same logs frame.peer frame.entries)
                  (Holds-taken kv s frame _ hp at (h.held frame.peer hp)))
          | inr other ↦
              rw
                (log_of-add_entries_other logs frame.peer q frame.entries
                  (apart frame.peer q other))
                (Holds-taken_other kv s frame q _ hp hq (apart frame.peer q other) (h.held q hq))
        ]);
    sizes = λ q hq. elim (Bool-cases (text_eq frame.peer q)) [
      | inl same ↦
          subst
            (λ q.
              read_count kv (after_entries s logs frame) (log_bytes_key q)
              ≡ some (size (log_of (add_entries logs frame.peer frame.entries) q)))
            ((text_eq_iff frame.peer q).0 same)
            (read_count-recorded_same kv _ frame hp _ _ _
              ∙ ap some (
                  sym (
                    ap size (log_of-add_entries_same logs frame.peer frame.entries)
                    ∙ size-append (log_of logs frame.peer) frame.entries)))
      | inr other ↦
          read_count-recorded_other kv _ frame hp _ _ _ q hq (apart frame.peer q other)
          ∙ read_count-taken kv s frame _ (log_bytes_key-IsApart q)
          ∙ h.sizes q hq
          ∙ ap some (
              sym (
                ap size (
                  log_of-add_entries_other logs frame.peer q frame.entries
                    (apart frame.peer q other))))
    ];
    count =
        read_count-recorded_count kv _ frame hp _ _ _
          (read_count-taken kv s frame _ log_count_key-IsApart ∙ h.count)
        ∙ ap some (sym (length-add_entries logs frame.peer frame.entries h.filled));
    filled = IsFilled-add_entries logs frame.peer frame.entries h.filled;
  }
