-- ===== src/Mailbox/Bounds.antt =====
-- hub-mailbox.ts over any run of frames: its bounds hold throughout, and what was taken can be read.
use wire_mesh.Prelude.{
  All-append, ℕ, ◌<◌, ◌≤◌, ◌≡◌, inl, inr, refl, sym, ap, ◌∙◌, ◌&&◌, List, [], ◌∷◌, ◌++◌, Option,
  none, some, Bytes, leb, ◌==◌, if◌then◌else◌, All, arith, Bool-cases, length, subst, take, drop,
  drop-length-append,
}
use mathlib.Core.Option
use wire_mesh.Storage.{KeyValueStorage, ◌>>=◌}
use wire_mesh.DataSync.{DataEntriesFrame, DataHaveFrame, head_seq_for, entries_frame}
use wire_mesh.DataSync.Keys.{IsDeviceId}
use wire_mesh.DataSync.Handlers.{handle_data_have_lem, handle_data_request_lem}
use wire_mesh.Mailbox.{
  MailboxLimits, DataFrame, have, request, entries, Handled, answer, handle, handle_have,
  same_device, is_full, not_the_owner, log_limit,
}
use wire_mesh.Mailbox.Logs.{
  Logs, Mirrors, log_of, add_entries, size, size-append, All-add_entries, log_of-All,
  length-add_entries, log_of-add_entries_same,
}
use wire_mesh.Mailbox.Entries.{Accepts}
use wire_mesh.Mailbox.Outcomes.{handle_entries-Settles, is_full_lem}

-- The three bounds that the host sets.
pub record IsBounded (limits : MailboxLimits) (logs : Logs) : Type 0 where
  pub logs_held : length logs ≤ limits.max_logs
  pub logs_fit : All (λ (e : Bytes × List Bytes). size e.1 ≤ limits.max_log_bytes) logs
  pub entries_fit :
      All (λ (e : Bytes × List Bytes). All (λ x. length x ≤ limits.max_entry_bytes) e.1) logs

-- The ids of a frame, and of its sender, are device ids.
abbrev pub names : DataFrame → Bytes
names (have frame) = frame.peer
names (request frame) = frame.peer
names (entries frame) = frame.peer

abbrev pub IsSender : Option Bytes → Type 0
IsSender none = Unit
IsSender (some sender) = IsDeviceId sender

abbrev pub Event : Type 0
Event = Option Bytes × DataFrame

abbrev pub IsEvent : Event → Type 0
IsEvent e = IsSender e.0 × IsDeviceId (names e.1)

add_entries-IsBounded :
    (limits : MailboxLimits) (logs : Logs) (sender : Bytes) (frame : DataEntriesFrame)
    → Accepts limits logs sender frame
    → All (λ (e : Bytes × List Bytes). 0 < length e.1) logs
    → IsBounded limits logs
    → IsBounded limits (add_entries logs frame.peer frame.entries)
add_entries-IsBounded limits logs sender frame a filled b = record {
  logs_held = ground (arith, a.room, length-add_entries logs frame.peer frame.entries filled);
  logs_fit =
      All-add_entries (λ l. size l ≤ limits.max_log_bytes) logs frame.peer frame.entries b.logs_fit
        (omega (arith, size-append (log_of logs frame.peer) frame.entries, a.fits));
  entries_fit =
      All-add_entries (All (λ x. length x ≤ limits.max_entry_bytes)) logs frame.peer frame.entries
        b.entries_fit
        (All-append _ (log_of logs frame.peer) frame.entries
          (log_of-All (All (λ x. length x ≤ limits.max_entry_bytes)) logs frame.peer tt
            b.entries_fit)
          a.small);
}

module _ {S : Type 0} (kv : KeyValueStorage S) (limits : MailboxLimits) where
  -- An announcement changes nothing, whether it is answered or refused.
  handle_have_lem :
      (s : S) (logs : Logs) (sender : Bytes) (frame : DataHaveFrame)
      → IsDeviceId frame.peer
      → Mirrors kv s logs
      → (out : Handled S) × (handle_have kv limits s sender frame ≡ some out) × (out.store ≡ s)
  unfolding handle_have head_seq_for
  handle_have_lem s logs sender frame hp h = elim (Bool-cases (same_device sender frame.peer)) [
    | inr foreign ↦
        (record { store = s; reply = none; refused = some not_the_owner }, rw foreign refl, refl)
    | inl own ↦
        let held = h.held frame.peer hp in
        let full =
          is_full_lem kv limits s (length logs) (length (log_of logs frame.peer) == 0) h.count in
        elim (Bool-cases
          ((length (log_of logs frame.peer) == 0) && leb limits.max_logs (length logs))) [
            | inl is_full ↦ (
              record { store = s; reply = none; refused = some log_limit },
              rw (own, held.head, full, is_full) refl,
              refl,
            )
            | inr room ↦ (
              record {
                store = s;
                reply = Option.map DataFrame.request (
                    if leb frame.head_seq (length (log_of logs frame.peer))
                    then none
                    else some
                        (record { peer = frame.peer; from_seq = length (log_of logs frame.peer) }));
                refused = none;
              },
              rw
                  (
                    own,
                    held.head,
                    full,
                    room,
                    handle_data_have_lem kv s frame.peer _ frame.head_seq held,
                  )
                  refl,
              refl,
            )
          ]
  ]

  -- Any device that is registered may read any log: it is given the entries that follow, as many as a
  -- reply carries.
  pub handle_request_lem :
      (s : S) (logs : Logs) (reader p : Bytes) (from : ℕ)
      → IsDeviceId p
      → Mirrors kv s logs
      → handle kv limits s (some reader) (request (record { peer = p; from_seq = from }))
        ≡ answer s (
            Option.map DataFrame.entries
              (entries_frame kv p from (take limits.read_batch (drop from (log_of logs p)))))
  unfolding handle
  handle_request_lem s logs reader p from hp h =
      rw (handle_data_request_lem kv s p _ from limits.read_batch (h.held p hp)) refl

  handle-IsBounded :
      (s : S) (logs : Logs) (sender : Option Bytes) (frame : DataFrame)
      → IsSender sender
      → IsDeviceId (names frame)
      → Mirrors kv s logs
      → IsBounded limits logs
      → (out : Handled S) × (logs' : Logs) × (handle kv limits s sender frame ≡ some out)
        × Mirrors kv out.store logs'
        × IsBounded limits logs'
  unfolding handle
  handle-IsBounded s logs none frame hs hp h b = (_, logs, refl, h, b)
  handle-IsBounded s logs (some sender) (have frame) hs hp h b =
      let (out, e, same) = handle_have_lem s logs sender frame hp h in
      (out, logs, e, subst (λ s. Mirrors kv s logs) (sym same) h, b)
  handle-IsBounded s logs (some sender) (request frame) hs hp h b =
      (_, logs, handle_request_lem s logs sender frame.peer frame.from_seq hp h, h, b)
  handle-IsBounded s logs (some sender) (entries frame) hs hp h b =
      let (out, e, settled) = handle_entries-Settles kv limits s logs sender frame hs hp h in
      elim settled [
        | inl (a, _, h') ↦ (
          out,
          add_entries logs frame.peer frame.entries,
          e,
          h',
          add_entries-IsBounded limits logs sender frame a h.filled b,
        )
        | inr (_, _, same) ↦ (out, logs, e, subst (λ s. Mirrors kv s logs) (sym same) h, b)
      ]

  -- The frames of many connections, in the order in which the hub handles them.
  unfoldable pub serve : S → List Event → Option S
  serve s [] = some s
  serve s ((sender, frame) ∷ events) = do
    out ← handle kv limits s sender frame
    serve out.store events

  -- Whatever frames arrive, from whomever, the mailbox answers them all, and it never holds more
  -- logs, more bytes in one log or a larger entry than the host allows.
  pub serve-IsBounded :
      (events : List Event) (s : S) (logs : Logs)
      → All IsEvent events
      → Mirrors kv s logs
      → IsBounded limits logs
      → (s' : S) × (logs' : Logs) × (serve s events ≡ some s')
        × Mirrors kv s' logs'
        × IsBounded limits logs'
  unfolding serve
  serve-IsBounded [] s logs ok h b = (s, logs, refl, h, b)
  serve-IsBounded ((sender, frame) ∷ events) s logs (ok, oks) h b =
      let (out, logs', e, h', b') = handle-IsBounded s logs sender frame ok.0 ok.1 h b in
      let (last, logs'', e', h'', b'') = serve-IsBounded events out.store logs' oks h' b' in
      (last, logs'', (rw e e'), h'', b'')

  -- Store and forward: once the mailbox has taken a frame from the log's owner, any device that asks
  -- from where the frame began is sent its entries, as many as a reply carries.
  handle_request-handle_entries :
      (s : S) (logs : Logs) (sender reader : Bytes) (frame : DataEntriesFrame)
      → IsDeviceId sender
      → IsDeviceId frame.peer
      → Mirrors kv s logs
      → Accepts limits logs sender frame
      → (out : Handled S) × (handle kv limits s (some sender) (entries frame) ≡ some out)
        × (handle kv limits out.store
              (some reader)
              (request (record { peer = frame.peer; from_seq = frame.from_seq }))
            ≡ answer out.store (
                Option.map DataFrame.entries (
                  entries_frame kv frame.peer frame.from_seq
                    (take limits.read_batch frame.entries))))
  unfolding handle
  handle_request-handle_entries s logs sender reader frame hs hp h a =
      let (out, e, settled) = handle_entries-Settles kv limits s logs sender frame hs hp h in
      elim settled [
        | inl (_, _, h') ↦
            let l = log_of logs frame.peer in
            let left : drop frame.from_seq
                  (log_of (add_entries logs frame.peer frame.entries) frame.peer)
                ≡ frame.entries =
              ap (drop frame.from_seq) (log_of-add_entries_same logs frame.peer frame.entries)
              ∙ ap (λ n. drop n (l ++ frame.entries)) a.next
              ∙ drop-length-append l frame.entries in
            (
              out,
              e,
              handle_request_lem out.store _ reader frame.peer frame.from_seq hp h' ∙ (rw left),
            )
        | inr (not_taken, _, _) ↦ absurd (not_taken a)
      ]
