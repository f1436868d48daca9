-- ===== src/DataSync/Sync.antt =====
-- Two ends of data-sync.ts: the holder of a log announces it, the reader asks for what it lacks,
-- and the holder answers with at most `limit` entries a round.
use wire_mesh.Prelude.{
  ℕ, zero, suc, ◌*◌, ◌≤◌, ◌≡◌, refl, sym, ap, ◌∙◌, true, false, List, [], ◌∷◌, ◌++◌, Option, none,
  some, Bytes, leb, arith, length, append_assoc, append-nil, length-append, subst, take, drop,
  length-drop, drop-length-append, take_append-drop,
}
use native.Mathlib.Nat.{suc-mul}
use wire_mesh.Storage.{KeyValueStorage, ◌>>=◌}
use wire_mesh.DataSync.{
  DataRequestFrame, DataEntriesFrame, handle_data_have, handle_data_request, handle_data_entries,
  head_seq_for, entries_frame,
}
use wire_mesh.DataSync.Keys.{IsDeviceId}
use wire_mesh.DataSync.Log.{Holds}
use wire_mesh.DataSync.Handlers.{
  take-nil, handle_data_entries_at, Holds-taken, taken, handle_data_request_lem,
  handle_data_have_lem,
}

none_left : (r : List Bytes) → leb (length (r ++ [])) (length r) ≡ true
none_left r = ground (arith, length-append r [])

some_left :
    (r : List Bytes) (e : Bytes) (m : List Bytes) → leb (length (r ++ e ∷ m)) (length r) ≡ false
some_left r e m = ground (arith, length-append r (e ∷ m))

module _ {S T : Type 0} (reads : KeyValueStorage S) (holds : KeyValueStorage T) (limit : ℕ) where
  -- The reader takes the reply, if there is one.
  abbrev take_reply : S → Option DataEntriesFrame → Option S
  take_reply reader none = some reader
  take_reply reader (some frame) = do
    (reader', _) ← handle_data_entries reads reader frame
    some reader'

  -- The holder answers the request, if there is one.
  abbrev answer : S → T → Option DataRequestFrame → Option S
  answer reader holder none = some reader
  answer reader holder (some request) = do
    reply ← handle_data_request holds holder request limit
    take_reply reader reply

  unfoldable pub sync_round : Bytes → T → S → Option S
  sync_round p holder reader = do
    head ← head_seq_for holds holder p
    request ← handle_data_have reads reader (record { peer = p; head_seq = head })
    answer reader holder request

  unfoldable pub sync_rounds : ℕ → Bytes → T → S → Option S
  sync_rounds zero p holder reader = some reader
  sync_rounds (suc n) p holder reader = do
    reader' ← sync_round p holder reader
    sync_rounds n p holder reader'

  take_reply_lem :
      (reader : S) (p : Bytes) (r es : List Bytes)
      → IsDeviceId p
      → Holds reads reader p r
      → (reader' : S) × (take_reply reader (entries_frame holds p (length r) es) ≡ some reader')
        × Holds reads reader' p (r ++ es)
  take_reply_lem reader p r [] hp hr = (reader, refl, rw (append-nil r) hr)
  take_reply_lem reader p r (e ∷ es) hp hr =
      let frame : DataEntriesFrame = record { peer = p; from_seq = length r; entries = e ∷ es } in
      (
        taken reads reader frame,
        rw (handle_data_entries_at reads reader frame r refl hr) refl,
        Holds-taken reads reader frame r hp refl hr,
      )

  -- One round hands over the next entries, as many as the limit admits.
  sync_round_lem :
      (p : Bytes) (holder : T) (reader : S) (r m : List Bytes)
      → IsDeviceId p
      → Holds holds holder p (r ++ m)
      → Holds reads reader p r
      → (reader' : S) × (sync_round p holder reader ≡ some reader')
        × Holds reads reader' p (r ++ take limit m)
  unfolding sync_round head_seq_for
  sync_round_lem p holder reader r [] hp hh hr = (
    reader,
    rw (hh.head, handle_data_have_lem reads reader p r (length (r ++ [])) hr, none_left r) refl,
    rw (take-nil limit, append-nil r) hr,
  )
  sync_round_lem p holder reader r (e ∷ m) hp hh hr =
      let (reader', eq, h) = take_reply_lem reader p r (take limit (e ∷ m)) hp hr in
      (
        reader',
        rw
            (
              hh.head,
              handle_data_have_lem reads reader p r (length (r ++ e ∷ m)) hr,
              some_left r e m,
              handle_data_request_lem holds holder p (r ++ e ∷ m) (length r) limit hh,
              drop-length-append r (e ∷ m),
            )
            eq,
        h,
      )

  -- However many entries the holder is ahead, enough rounds bring the reader's log level with it.
  pub sync_rounds_lem :
      (n : ℕ) (p : Bytes) (holder : T) (reader : S) (r m : List Bytes)
      → IsDeviceId p
      → length m ≤ n * limit
      → Holds holds holder p (r ++ m)
      → Holds reads reader p r
      → (reader' : S) × (sync_rounds n p holder reader ≡ some reader')
        × Holds reads reader' p (r ++ m)
  unfolding sync_rounds
  sync_rounds_lem zero p holder reader r [] hp le hh hr = (reader, refl, rw (append-nil r) hr)
  sync_rounds_lem zero p holder reader r (e ∷ m) hp le hh hr = absurd (omega arith)
  sync_rounds_lem (suc n) p holder reader r m hp le hh hr =
      let (next, e, h) = sync_round_lem p holder reader r m hp hh hr in
      let whole : (r ++ take limit m) ++ drop limit m ≡ r ++ m =
        append_assoc r (take limit m) (drop limit m) ∙ ap (◌++◌ r) (take_append-drop limit m) in
      let (last, e', h') =
        sync_rounds_lem n p holder next (r ++ take limit m) (drop limit m) hp
          (omega (arith, length-drop limit m, suc-mul n limit))
          (subst (Holds holds holder p) (sym whole) hh) h in
      (last, (rw e e'), subst (Holds reads last p) whole h')
