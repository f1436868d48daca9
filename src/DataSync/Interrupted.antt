-- ===== src/DataSync/Interrupted.antt =====
-- Frames of data-sync.ts whose handling stops between two of its writes.
use wire_mesh.Prelude.{
  append-nil, length-append, decimal, ℕ, zero, suc, ◌+◌, ◌<◌, ◌≤◌, ◌≡◌, refl, sym, ap, ◌∙◌, Bool,
  true, List, [], ◌∷◌, ◌++◌, Option, none, some, Bytes, Text, arith, length, take, subst,
  append_assoc,
}
use wire_mesh.Storage.{KeyValueStorage}
use wire_mesh.DataSync.{
  entry_key, head_key, write_head_seq, DataEntriesFrame, handle_data_entries, store_entries,
  read_head_seq,
}
use wire_mesh.DataSync.Keys.{IsDeviceId}
use wire_mesh.DataSync.Log.{Holds, Holds-store_entries}
use wire_mesh.DataSync.Handlers.{taken, Holds-taken, handle_data_entries_at}

-- A write: the key and the value.
abbrev pub Write : Type 0
Write = Text × Bytes

module _ {S : Type 0} (kv : KeyValueStorage S) where
  -- The storage with a journal of the writes to it, in order. A deletion is not one.
  abbrev pub journaled : KeyValueStorage (S × List Write)
  journaled = record {
    get = λ s. kv.get s.0;
    set = λ s k v. (kv.set s.0 k v, s.1 ++ (k, v) ∷ []);
    delete = λ s k. (kv.delete s.0 k, s.1);
    keys = λ s. kv.keys s.0;
    get-set = λ s. kv.get-set s.0;
    get-delete = λ s. kv.get-delete s.0;
    any-keys = λ s. kv.any-keys s.0;
  }

  abbrev journal_of : Option ((S × List Write) × Bool) → List Write
  journal_of none = []
  journal_of (some (s, taken)) = s.1

  -- The writes that handling a frame makes, in order.
  unfoldable pub writes_of : S → DataEntriesFrame → List Write
  writes_of s frame = journal_of (handle_data_entries journaled (s, []) frame)

  unfoldable pub written : S → List Write → S
  written s [] = s
  written s ((k, v) ∷ writes) = written (kv.set s k v) writes

  -- The storage that is left where handling the frame stops after so many writes.
  abbrev pub interrupted : S → DataEntriesFrame → ℕ → S
  interrupted s frame n = written s (take n (writes_of s frame))

  abbrev entry_writes : Bytes → ℕ → List Bytes → List Write
  entry_writes p seq [] = []
  entry_writes p seq (e ∷ es) = (entry_key p seq, e) ∷ entry_writes p (seq + 1) es

  journal-store_entries :
      (s : S) (journal : List Write) (p : Bytes) (seq : ℕ) (es : List Bytes)
      → store_entries journaled (s, journal) p seq es
        ≡ (store_entries kv s p seq es, journal ++ entry_writes p seq es)
  unfolding store_entries
  journal-store_entries s journal p seq [] = ap (λ j. (s, j)) (sym (append-nil journal))
  journal-store_entries s journal p seq (e ∷ es) =
      journal-store_entries (kv.set s (entry_key p seq) e) (journal ++ (entry_key p seq, e) ∷ []) p
        (seq + 1) es
      ∙ ap (λ j. (store_entries kv (kv.set s (entry_key p seq) e) p (seq + 1) es, j))
          (append_assoc journal ((entry_key p seq, e) ∷ []) (entry_writes p (seq + 1) es))

  -- The entries are written first, and the head last.
  writes_of-at :
      (s : S) (frame : DataEntriesFrame) (l : List Bytes)
      → frame.from_seq ≡ length l
      → Holds kv s frame.peer l
      → (head : Write) × (writes_of s frame
          ≡ entry_writes frame.peer (length l + 1) frame.entries ++ head ∷ [])
  unfolding writes_of taken write_head_seq read_head_seq
  writes_of-at s frame l at h = (
    (head_key frame.peer, decimal (frame.from_seq + length frame.entries)),
    ap journal_of (
          handle_data_entries_at journaled (s, []) frame l at
            (record { head = h.head; entry = h.entry }))
        ∙ ap
            (λ (x : S × List Write).
              x.1 ++ (head_key frame.peer, decimal (frame.from_seq + length frame.entries)) ∷ [])
            (journal-store_entries s [] frame.peer (frame.from_seq + 1) frame.entries)
        ∙ ap
            (λ n.
              entry_writes frame.peer (n + 1) frame.entries
              ++ (head_key frame.peer, decimal (frame.from_seq + length frame.entries)) ∷ [])
            at,
  )

  length-entry_writes :
      (p : Bytes) (seq : ℕ) (es : List Bytes) → length (entry_writes p seq es) ≡ length es
  length-entry_writes p seq [] = refl
  length-entry_writes p seq (e ∷ es) = ap suc (length-entry_writes p (seq + 1) es)

  -- Short of the head, what is written are the first entries.
  written-entry_writes :
      (s : S) (p : Bytes) (seq n : ℕ) (es : List Bytes) (head : Write)
      → n ≤ length es
      → written s (take n (entry_writes p seq es ++ head ∷ []))
        ≡ store_entries kv s p seq (take n es)
  unfolding written store_entries
  written-entry_writes s p seq zero es head h = refl
  written-entry_writes s p seq (suc n) [] head h = absurd (omega (arith, h))
  written-entry_writes s p seq (suc n) (e ∷ es) head h =
      written-entry_writes (kv.set s (entry_key p seq) e) p (seq + 1) n es head (omega (arith, h))

  -- Where handling a frame that starts at the end of its log stops before the last of its writes, the
  -- log is what it was, and the frame delivered again extends it as if for the first time.
  pub handle_data_entries_retry :
      (s : S) (frame : DataEntriesFrame) (l : List Bytes) (n : ℕ)
      → IsDeviceId frame.peer
      → frame.from_seq ≡ length l
      → Holds kv s frame.peer l
      → n < length (writes_of s frame)
      → Holds kv (interrupted s frame n) frame.peer l
        × (s' : S) × (handle_data_entries kv (interrupted s frame n) frame ≡ some (s', true))
        × Holds kv s' frame.peer (l ++ frame.entries)
  handle_data_entries_retry s frame l n hp at h early =
      let (head, writes) = writes_of-at s frame l at h in
      let count : length (writes_of s frame) ≡ length frame.entries + 1 =
        ap (λ (w : List Write). length w) writes
        ∙ length-append (entry_writes frame.peer (length l + 1) frame.entries) (head ∷ [])
        ∙ ap (λ k. k + 1) (length-entry_writes frame.peer (length l + 1) frame.entries) in
      let same : interrupted s frame n
          ≡ store_entries kv s frame.peer (length l + 1) (take n frame.entries) =
        ap (λ w. written s (take n w)) writes
        ∙ written-entry_writes s frame.peer (length l + 1) n frame.entries head
            (omega (arith, early, count)) in
      let held : Holds kv (interrupted s frame n) frame.peer l =
        subst (λ x. Holds kv x frame.peer l) (sym same)
          (Holds-store_entries kv frame.peer frame.peer hp hp (take n frame.entries) s _ l
            (λ _. omega arith) h) in
      (
        held,
        taken kv (interrupted s frame n) frame,
        handle_data_entries_at kv (interrupted s frame n) frame l at held,
        Holds-taken kv (interrupted s frame n) frame l hp at held,
      )
