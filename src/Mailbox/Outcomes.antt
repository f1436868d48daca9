-- ===== src/Mailbox/Outcomes.antt =====
-- Which frames of entries hub-mailbox.ts takes, and that a refused one leaves nothing behind.
use wire_mesh.Prelude.{
  ℕ, ◌+◌, ◌≤◌, ◌≡◌, ◌↔◌, ◌⊎◌, inl, inr, refl, ap, ◌∙◌, Bool, true, false, ◌&&◌, List, [], ◌∷◌, none,
  some, Bytes, text_eq_iff, leb, ltb, ◌==◌, ==_iff, if◌then◌else◌, All, arith, Bool-cases, length,
  any,
}
use wire_mesh.Storage.{KeyValueStorage, ◌>>=◌}
use wire_mesh.DeviceId.{device_id_to_hex}
use wire_mesh.DataSync.{DataEntriesFrame, handle_data_entries, head_seq_for}
use wire_mesh.DataSync.Keys.{IsDeviceId, device_id_to_hex-injective}
use wire_mesh.DataSync.Handlers.{handle_data_entries_at, handle_data_entries_gap, taken}
use wire_mesh.Mailbox.{
  MailboxLimits, MailboxRefusalReason, not_the_owner, log_limit, size_limit, entry_limit, gap,
  Handled, refuse, answer, log_count_key, read_count, is_oversized, is_full, same_device,
  finish_entries, handle_entries,
}
use wire_mesh.Mailbox.Logs.{Logs, Mirrors, log_of, add_entries, size, added_to-zero}
use wire_mesh.Mailbox.Cells.{record_entries_lem, read_count-taken, log_count_key-IsApart}
use wire_mesh.Mailbox.Entries.{Accepts, Mirrors-after_entries, after_entries, is_new}

pub same_device_iff :
    (a b : Bytes) → IsDeviceId a → IsDeviceId b → (same_device a b ≡ true) ↔ (a ≡ b)
unfolding same_device
same_device_iff a b ha hb = (
  λ h. device_id_to_hex-injective a b ha hb ((text_eq_iff _ _).0 h),
  λ e. (text_eq_iff _ _).1 (ap device_id_to_hex e),
)

oversized_none :
    (limits : MailboxLimits) (es : List Bytes)
    → any (is_oversized limits) es ≡ false
    → All (λ e. length e ≤ limits.max_entry_bytes) es
oversized_none limits [] h = tt
oversized_none limits (e ∷ es) h = (ground arith, oversized_none limits es (ground arith))

oversized_some :
    (limits : MailboxLimits) (es : List Bytes)
    → All (λ e. length e ≤ limits.max_entry_bytes) es
    → any (is_oversized limits) es ≡ false
oversized_some limits [] h = refl
oversized_some limits (e ∷ es) (small, h) = ground (arith, oversized_some limits es h)

module _ {S : Type 0} (kv : KeyValueStorage S) where
  pub is_full_lem :
      (limits : MailboxLimits) (s : S) (n : ℕ) (new : Bool)
      → read_count kv s log_count_key ≡ some n
      → is_full kv limits s new ≡ some (new && leb limits.max_logs n)
  unfolding is_full
  is_full_lem limits s n false h = refl
  is_full_lem limits s n true h = rw h refl

  module _ (limits : MailboxLimits) (s : S) (logs : Logs) (sender : Bytes)
      (frame : DataEntriesFrame) where
    -- Taken, and the logs extended; or refused for a reason, with nothing changed.
    abbrev pub Settles : Handled S → Type 0
    Settles out =
        (Accepts limits logs sender frame
          × (out.refused ≡ none)
          × Mirrors kv out.store (add_entries logs frame.peer frame.entries))
        ⊎ ((¬ Accepts limits logs sender frame)
            × ((reason : MailboxRefusalReason) × (out.refused ≡ some reason))
            × (out.store ≡ s))

    refused :
        (reason : MailboxRefusalReason)
        → handle_entries kv limits s sender frame ≡ refuse s reason
        → ¬ Accepts limits logs sender frame
        → (out : Handled S) × (handle_entries kv limits s sender frame ≡ some out) × Settles out
    refused reason e not_taken = (
      record { store = s; reply = none; refused = some reason },
      e,
      inr (not_taken, (reason, refl), refl),
    )

    abbrev total : ℕ
    total = size (log_of logs frame.peer) + size frame.entries

    -- What is left to do once the frame has passed the tests of its owner and its sizes.
    reached :
        IsDeviceId frame.peer
        → Mirrors kv s logs
        → same_device sender frame.peer ≡ true
        → any (is_oversized limits) frame.entries ≡ false
        → ltb limits.max_log_bytes total ≡ false
        → handle_entries kv limits s sender frame ≡ (
            if is_new kv logs frame && leb limits.max_logs (length logs)
            then refuse s log_limit
            else (do
              stored ← handle_data_entries kv s frame
              finish_entries kv frame total (is_new kv logs frame) stored))
    unfolding handle_entries head_seq_for
    reached hp h own small within =
        rw
          (
            own,
            small,
            h.sizes frame.peer hp,
            added_to-zero frame.entries,
            within,
            (h.held frame.peer hp).head,
            is_full_lem limits s (length logs) (is_new kv logs frame) h.count,
          )
          refl

    finish_entries-taken :
        IsDeviceId frame.peer
        → Mirrors kv s logs
        → finish_entries kv frame total (is_new kv logs frame) (taken kv s frame, true)
          ≡ answer (after_entries kv s logs frame) none
    unfolding finish_entries
    finish_entries-taken hp h =
        rw
          (record_entries_lem kv _ frame hp total (length logs)
            (is_new kv logs frame && ltb 0 (length frame.entries))
            (read_count-taken kv s frame _ log_count_key-IsApart ∙ h.count))
          refl

    finish_entries-gap :
        finish_entries kv frame total (is_new kv logs frame) (s, false) ≡ refuse s gap
    unfolding finish_entries
    finish_entries-gap = refl

    settle_stored :
        IsDeviceId sender
        → IsDeviceId frame.peer
        → Mirrors kv s logs
        → same_device sender frame.peer ≡ true
        → any (is_oversized limits) frame.entries ≡ false
        → ltb limits.max_log_bytes total ≡ false
        → (is_new kv logs frame && leb limits.max_logs (length logs)) ≡ false
        → (out : Handled S) × (handle_entries kv limits s sender frame ≡ some out) × Settles out
    settle_stored hs hp h own small within room =
        elim (Bool-cases (frame.from_seq == length (log_of logs frame.peer))) [
          | inr ahead ↦
              refused gap
                (reached hp h own small within
                  ∙ (rw (room, handle_data_entries_gap kv s frame _ ahead (h.held frame.peer hp))
                      finish_entries-gap))
                (λ a. ground (arith, a.next))
          | inl next ↦
              let at = (==_iff _ _).0 next in
              (
                record { store = after_entries kv s logs frame; reply = none; refused = none },
                reached hp h own small within
                    ∙ (rw (room, handle_data_entries_at kv s frame _ at (h.held frame.peer hp))
                        (finish_entries-taken hp h)),
                inl (
                  record {
                    owner = (same_device_iff sender frame.peer hs hp).0 own;
                    small = oversized_none limits frame.entries small;
                    fits = ground arith;
                    room = elim (Bool-cases (is_new kv logs frame)) [
                      | inl new ↦ inr (ground arith)
                      | inr old ↦ inl old
                    ];
                    next = at;
                  },
                  refl,
                  Mirrors-after_entries kv s logs frame hp at h,
                ),
              )
        ]

    -- From a storage in step with the logs, a frame of entries is taken exactly when the mailbox's
    -- five conditions hold. Then the frame's log is extended and the storage stays in step; in every
    -- other case a reason is given and the storage is what it was.
    pub handle_entries-Settles :
        IsDeviceId sender
        → IsDeviceId frame.peer
        → Mirrors kv s logs
        → (out : Handled S) × (handle_entries kv limits s sender frame ≡ some out) × Settles out
    unfolding handle_entries
    handle_entries-Settles hs hp h = elim (Bool-cases (same_device sender frame.peer)) [
      | inr foreign ↦
          refused not_the_owner (rw foreign refl)
            (λ a. ground (arith, (same_device_iff sender frame.peer hs hp).1 a.owner))
      | inl own ↦ elim (Bool-cases (any (is_oversized limits) frame.entries)) [
        | inl large ↦
            refused size_limit (rw (own, large) refl)
              (λ a. ground (arith, oversized_some limits frame.entries a.small))
        | inr small ↦ elim (Bool-cases (ltb limits.max_log_bytes total)) [
          | inl over ↦
              refused entry_limit
                (rw (own, small, h.sizes frame.peer hp, added_to-zero frame.entries, over) refl)
                (λ a. ground (arith, a.fits))
          | inr within ↦
              elim (Bool-cases (is_new kv logs frame && leb limits.max_logs (length logs))) [
                | inl full ↦
                    refused log_limit (reached hp h own small within ∙ (rw full))
                      (λ a. ground (arith, a.room))
                | inr room ↦ settle_stored hs hp h own small within room
              ]
        ]
      ]
    ]
