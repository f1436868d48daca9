-- ===== src/DataSync/Handlers.antt =====
-- What the handlers of data-sync.ts do to the logs that a storage holds, on every branch.
use wire_mesh.Prelude.{
  drop_of_length-le, drop-eq-cons, false, ℕ, zero, suc, ◌+◌, ◌-◌, ◌≤◌, ◌≡◌, ◌≢◌, inl, inr, refl,
  sym, ap, ◌∙◌, true, List, [], ◌∷◌, ◌++◌, none, some, Bytes, leb, ◌==◌, ==_iff, if◌then◌else◌,
  arith, min, Bool-cases, length, subst, take, drop, take_of_length-le, length-drop,
}
use wire_mesh.Storage.{KeyValueStorage}
use wire_mesh.DataSync.{
  entry_key, write_head_seq, DataEntriesFrame, append_own_entry, handle_data_have,
  handle_data_request, handle_data_entries, read_run, read_entries, store_entries, entries_frame,
}
use wire_mesh.DataSync.Keys.{IsDeviceId}
use wire_mesh.DataSync.Log.{Holds, Holds-append, Holds-store_entries, Holds-write_head_seq}

-- The log after a frame: extended, if the frame starts where the log ends.
abbrev pub log_after : List Bytes → DataEntriesFrame → List Bytes
log_after l frame = if frame.from_seq == length l then l ++ frame.entries else l

pub take-nil : (n : ℕ) → take {A = Bytes} n [] ≡ []
take-nil zero = refl
take-nil (suc n) = refl

module _ {S : Type 0} (kv : KeyValueStorage S) where
  read_run_next :
      (s : S) (p : Bytes) (first n : ℕ) {e : Bytes}
      → kv.get s (entry_key p first) ≡ some e
      → read_run kv s p first (suc n) ≡ e ∷ read_run kv s p (first + 1) n
  unfolding read_run
  read_run_next s p first n h = ground arith

  read_run_lem :
      (s : S) (p : Bytes) (l : List Bytes) (n from : ℕ)
      → Holds kv s p l
      → from + n ≤ length l
      → read_run kv s p (from + 1) n ≡ take n (drop from l)
  unfolding read_run
  read_run_lem s p l zero from h le = refl
  read_run_lem s p l (suc n) from h le =
      let (x, at, rest) = drop-eq-cons from l (omega arith) in
      read_run_next s p (from + 1) n (h.entry from (omega arith) ∙ at)
      ∙ ap (λ k. x ∷ read_run kv s p (k + 1) n) (omega arith)
      ∙ ap (◌∷◌ x) (read_run_lem s p l n (suc from) h (omega arith))
      ∙ ap (take (suc n)) (sym rest)

  read_run_none : (s : S) (p : Bytes) (first : ℕ) → read_run kv s p first 0 ≡ []
  unfolding read_run
  read_run_none s p first = refl

  read_rest :
      (s : S) (p : Bytes) (l : List Bytes) (from : ℕ)
      → Holds kv s p l
      → read_run kv s p (from + 1) (length l - from) ≡ drop from l
  read_rest s p l from h = elim (Bool-cases (leb from (length l))) [
    | inl low ↦
        read_run_lem s p l (length l - from) from h (ground arith)
        ∙ take_of_length-le _ (drop from l) (omega (arith, length-drop from l))
    | inr high ↦
        rw (drop_of_length-le from l (ground arith))
          (ap (read_run kv s p (from + 1)) (ground arith) ∙ read_run_none s p (from + 1))
  ]

  -- A run that the log's end cuts off, with any limit.
  read_limited :
      (s : S) (p : Bytes) (l : List Bytes) (from limit : ℕ)
      → Holds kv s p l
      → read_run kv s p (from + 1) (min (length l) (from + limit) - from) ≡ take limit (drop from l)
  read_limited s p l from limit h = elim (Bool-cases (leb (from + limit) (length l))) [
    | inl within ↦
        ap (read_run kv s p (from + 1)) (ground arith)
        ∙ read_run_lem s p l limit from h (ground arith)
    | inr past ↦
        ap (read_run kv s p (from + 1)) (ground arith)
        ∙ read_rest s p l from h
        ∙ sym (take_of_length-le limit (drop from l) (ground (arith, length-drop from l)))
  ]

  -- The log from a sequence number on is read back whole.
  pub read_entries_lem :
      (s : S) (p : Bytes) (l : List Bytes) (from : ℕ)
      → Holds kv s p l
      → read_entries kv s p from ≡ some (drop from l)
  unfolding read_entries
  read_entries_lem s p l from h = rw h.head (ap some (read_rest s p l from h))

  -- The reply to a request carries the entries that follow, as many as the limit admits; without
  -- any there is no reply.
  pub handle_data_request_lem :
      (s : S) (p : Bytes) (l : List Bytes) (from limit : ℕ)
      → Holds kv s p l
      → handle_data_request kv s (record { peer = p; from_seq = from }) limit
        ≡ some (entries_frame kv p from (take limit (drop from l)))
  unfolding handle_data_request
  handle_data_request_lem s p l from limit h =
      rw (h.head, read_limited s p l from limit h)
        (elim (Bool-cases (leb (length l) from)) [
          | inl none_left ↦
              rw (none_left, drop_of_length-le from l (ground arith), take-nil limit) refl
          | inr more ↦ rw more refl
        ])

  pub handle_data_have_lem :
      (s : S) (p : Bytes) (l : List Bytes) (head : ℕ)
      → Holds kv s p l
      → handle_data_have kv s (record { peer = p; head_seq = head })
        ≡ some
            (if leb head (length l) then none else some (record { peer = p; from_seq = length l }))
  unfolding handle_data_have
  handle_data_have_lem s p l head h = rw h.head (ground arith)

  -- What a frame that is taken makes of the storage.
  unfoldable pub taken : S → DataEntriesFrame → S
  taken s frame =
      write_head_seq kv (store_entries kv s frame.peer (frame.from_seq + 1) frame.entries)
        frame.peer (frame.from_seq + length frame.entries)

  pub Holds-taken :
      (s : S) (frame : DataEntriesFrame) (l : List Bytes)
      → IsDeviceId frame.peer
      → frame.from_seq ≡ length l
      → Holds kv s frame.peer l
      → Holds kv (taken s frame) frame.peer (l ++ frame.entries)
  unfolding taken
  Holds-taken s frame l hp at h =
      subst
        (λ n.
          Holds kv
            (write_head_seq kv (store_entries kv s frame.peer (n + 1) frame.entries) frame.peer
              (n + length frame.entries))
            frame.peer (l ++ frame.entries))
        (sym at) (Holds-append kv frame.peer hp s l frame.entries _ refl h)

  pub Holds-taken_other :
      (s : S) (frame : DataEntriesFrame) (q : Bytes) (m : List Bytes)
      → IsDeviceId frame.peer
      → IsDeviceId q
      → frame.peer ≢ q
      → Holds kv s q m
      → Holds kv (taken s frame) q m
  unfolding taken
  Holds-taken_other s frame q m hp hq ne h =
      Holds-write_head_seq kv frame.peer q hp hq _ _ m ne
        (Holds-store_entries kv frame.peer q hp hq frame.entries s _ m (λ same. absurd (ne same)) h)

  pub handle_data_entries_at :
      (s : S) (frame : DataEntriesFrame) (l : List Bytes)
      → frame.from_seq ≡ length l
      → Holds kv s frame.peer l
      → handle_data_entries kv s frame ≡ some (taken s frame, true)
  unfolding handle_data_entries taken
  handle_data_entries_at s frame l at h = rw (h.head, (==_iff _ _).1 at) refl

  pub handle_data_entries_gap :
      (s : S) (frame : DataEntriesFrame) (l : List Bytes)
      → (frame.from_seq == length l) ≡ false
      → Holds kv s frame.peer l
      → handle_data_entries kv s frame ≡ some (s, false)
  unfolding handle_data_entries
  handle_data_entries_gap s frame l gap h = rw (h.head, gap) refl

  -- Exactly the frames that start at the end of their log are taken, and extend it; every other
  -- frame leaves the storage as it is. No other device's log changes.
  pub handle_data_entries_lem :
      (s : S) (frame : DataEntriesFrame) (l : List Bytes) (q : Bytes) (m : List Bytes)
      → IsDeviceId frame.peer
      → IsDeviceId q
      → frame.peer ≢ q
      → Holds kv s frame.peer l
      → Holds kv s q m
      → (s' : S) × (handle_data_entries kv s frame ≡ some (s', frame.from_seq == length l))
        × Holds kv s' frame.peer (log_after l frame)
        × ((frame.from_seq == length l) ≡ false → s' ≡ s)
        × Holds kv s' q m
  unfolding handle_data_entries taken
  handle_data_entries_lem s frame l q m hp hq ne h hm =
      elim (Bool-cases (frame.from_seq == length l)) [
        | inl here ↦
            let at : frame.from_seq ≡ length l = (==_iff _ _).0 here in
            (
              taken s frame,
              handle_data_entries_at s frame l at h ∙ (rw here),
              rw here (Holds-taken s frame l hp at h),
              (λ gap. absurd (ground (arith, here, gap))),
              Holds-taken_other s frame q m hp hq ne hm,
            )
        | inr gap ↦ (s, handle_data_entries_gap s frame l gap h ∙ (rw gap), rw gap h, λ _. refl, hm)
      ]

  -- An append gives the next sequence number, announces it, and extends the own log by one entry.
  pub append_own_entry_lem :
      (s : S) (own entry : Bytes) (l : List Bytes) (q : Bytes) (m : List Bytes)
      → IsDeviceId own
      → IsDeviceId q
      → own ≢ q
      → Holds kv s own l
      → Holds kv s q m
      → (s' : S) × (append_own_entry kv s own entry
          ≡ some (s', length l + 1, record { peer = own; head_seq = length l + 1 }))
        × Holds kv s' own (l ++ entry ∷ [])
        × Holds kv s' q m
  unfolding append_own_entry store_entries
  append_own_entry_lem s own entry l q m hp hq ne h hm = (
    write_head_seq kv (kv.set s (entry_key own (length l + 1)) entry) own (length l + 1),
    rw h.head refl,
    Holds-append kv own hp s l (entry ∷ []) (length l + 1) refl h,
    Holds-write_head_seq kv own q hp hq _ _ m ne
        (Holds-store_entries kv own q hp hq (entry ∷ []) s _ m (λ same. absurd (ne same)) hm),
  )
