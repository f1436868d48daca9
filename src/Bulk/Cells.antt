-- ===== src/Bulk/Cells.antt =====
-- What the cells that bulk.ts keeps of a transfer show: the list of chunks received.
use wire_mesh.Prelude.{
  subst, leb, true, drop_of_length-le, drop-eq-cons, decimal, number-decimal, ℕ, zero, suc, ◌+◌,
  ◌<◌, ◌≤◌, ◌≡◌, ◌≢◌, refl, sym, ap, ◌∙◌, false, List, [], ◌∷◌, ◌++◌, some, Bytes, Text, text,
  text_eq, arith, length, length-append, get_elem?, get_elem?-append_left, if◌then◌else◌, drop, inl,
  inr, Bool-cases, ==_iff, ◌==◌,
}
use native.Mathlib.Nat.{add-zero}
use wire_mesh.DataSync.Log.{get-set_other, get-set_same}
use wire_mesh.Storage.{KeyValueStorage, count_of}
use wire_mesh.Bulk.{
  transfer_id_hex, cell_key, opener_key, ack_seq_key, window_key, chunk_key, read_ack_seq,
  read_window, read_chunks, store_chunk, store_opening, next_chunk, stored_transfer, done,
  found_chunk,
}
use wire_mesh.Bulk.Keys.{
  IsTransferId, text_eq-cell_key, chunk-ne, ack_seq-chunk, window-chunk, ack_seq-window,
}

get_elem?-last : (l : List Bytes) (v : Bytes) → get_elem? (l ++ v ∷ []) (length l) ≡ some v
get_elem?-last [] v = refl
get_elem?-last (x ∷ l) v = get_elem?-last l v

module _ {S : Type 0} (kv : KeyValueStorage S) (digest_of : Bytes → Bytes) where
  -- The storage holds exactly these chunks of the transfer, and its window.
  pub record Holds (s : S) (id : Bytes) (window : ℕ) (chunks : List Bytes) : Type 0 where
    pub counted : read_ack_seq kv digest_of s (transfer_id_hex id) ≡ some (length chunks)
    pub credit : read_window kv digest_of s (transfer_id_hex id) ≡ some window
    pub chunk :
        (i : ℕ)
        → i < length chunks
        → kv.get s (chunk_key (transfer_id_hex id) i) ≡ get_elem? chunks i

  -- A write to none of these cells keeps them.
  Holds-set :
      (s : S) (k : Text) (v : Bytes) (id : Bytes) (window : ℕ) (l : List Bytes)
      → text_eq k (ack_seq_key (transfer_id_hex id)) ≡ false
      → text_eq k (window_key (transfer_id_hex id)) ≡ false
      → ((i : ℕ) → text_eq k (chunk_key (transfer_id_hex id) i) ≡ false)
      → Holds s id window l
      → Holds (kv.set s k v) id window l
  unfolding read_ack_seq read_window
  Holds-set s k v id window l na nw nc h = record {
    counted =
        ap count_of (get-set_other kv s k (ack_seq_key (transfer_id_hex id)) v na) ∙ h.counted;
    credit = ap count_of (get-set_other kv s k (window_key (transfer_id_hex id)) v nw) ∙ h.credit;
    chunk = λ i lt. get-set_other kv s k (chunk_key (transfer_id_hex id) i) v (nc i) ∙ h.chunk i lt;
  }

  -- Any cell of another transfer.
  Holds-set_other :
      (s : S) (p : Bytes) (cell : Text) (v : Bytes) (q : Bytes) (window : ℕ) (l : List Bytes)
      → IsTransferId p
      → IsTransferId q
      → p ≢ q
      → Holds s q window l
      → Holds (kv.set s (cell_key (transfer_id_hex p) cell) v) q window l
  Holds-set_other s p cell v q window l hp hq ne h =
      Holds-set s (cell_key (transfer_id_hex p) cell) v q window l
        (text_eq-cell_key p q cell _ hp hq (λ same. absurd (ne same)))
        (text_eq-cell_key p q cell _ hp hq (λ same. absurd (ne same)))
        (λ i. text_eq-cell_key p q cell _ hp hq (λ same. absurd (ne same))) h

  pub Holds-store_chunk_other :
      (s : S) (p : Bytes) (seq : ℕ) (v : Bytes) (q : Bytes) (window : ℕ) (l : List Bytes)
      → IsTransferId p
      → IsTransferId q
      → p ≢ q
      → Holds s q window l
      → Holds (store_chunk kv digest_of s (transfer_id_hex p) seq v) q window l
  unfolding store_chunk
  Holds-store_chunk_other s p seq v q window l hp hq ne h =
      Holds-set_other _ p (text "/ack-seq") _ q window l hp hq ne
        (Holds-set_other s p (text "/chunk/" ++ decimal seq) v q window l hp hq ne h)

  pub Holds-store_opening_other :
      (s : S) (p : Bytes) (opener : Bytes) (n : ℕ) (q : Bytes) (window : ℕ) (l : List Bytes)
      → IsTransferId p
      → IsTransferId q
      → p ≢ q
      → Holds s q window l
      → Holds (store_opening kv digest_of s (transfer_id_hex p) opener n) q window l
  Holds-store_opening_other s p opener n q window l hp hq ne h =
      Holds-set_other _ p (text "/window") _ q window l hp hq ne (
        Holds-set_other _ p (text "/ack-seq") _ q window l hp hq ne
          (Holds-set_other s p (text "/opener") opener q window l hp hq ne h))

  module _ (id : Bytes) (is : IsTransferId id) where
    -- The next chunk, stored, is held behind the others.
    pub Holds-store_chunk :
        (s : S) (v : Bytes) (window : ℕ) (l : List Bytes)
        → Holds s id window l
        → Holds
            (store_chunk kv digest_of s (transfer_id_hex id) (length l) v)
            id
            window
            (l ++ v ∷ [])
    unfolding store_chunk read_ack_seq read_window
    Holds-store_chunk s v window l h =
        let key : Text = transfer_id_hex id in
        let with_chunk : S = kv.set s (chunk_key key (length l)) v in
        record {
          counted =
              ap count_of (get-set_same kv with_chunk (ack_seq_key key) (decimal (length l + 1)))
              ∙ number-decimal (length l + 1)
              ∙ ap some (sym (length-append l (v ∷ [])));
          credit =
              ap count_of (
                get-set_other kv with_chunk (ack_seq_key key) (window_key key) _
                  (text_eq-cell_key id id _ _ is is (λ _. ack_seq-window))
                ∙ get-set_other kv s (chunk_key key (length l)) (window_key key) v
                    (text_eq-cell_key id id _ _ is is (λ _ e. window-chunk (length l) (sym e))))
              ∙ h.credit;
          chunk = λ i lt.
              get-set_other kv with_chunk (ack_seq_key key) (chunk_key key i) _
                (text_eq-cell_key id id _ _ is is (λ _. ack_seq-chunk i))
              ∙ elim (Bool-cases (i == length l)) [
                | inl last ↦
                    let e : i ≡ length l = (==_iff i (length l)).0 last in
                    rw e (get-set_same kv s (chunk_key key (length l)) v ∙ sym (get_elem?-last l v))
                | inr earlier ↦
                    get-set_other kv s (chunk_key key (length l)) (chunk_key key i) v (
                      text_eq-cell_key id id _ _ is is
                        (λ _. chunk-ne (length l) i (ground (arith, earlier))))
                    ∙ h.chunk i (ground (arith, earlier, lt, length-append l (v ∷ [])))
                    ∙ sym (
                        get_elem?-append_left l (v ∷ []) i
                          (ground (arith, earlier, lt, length-append l (v ∷ []))))
              ];
        }

    -- What an accepted offer writes: no chunks, and the window that it grants.
    pub Holds-store_opening :
        (s : S) (opener : Bytes) (window : ℕ)
        → Holds (store_opening kv digest_of s (transfer_id_hex id) opener window) id window []
    unfolding read_ack_seq read_window
    Holds-store_opening s opener window =
        let key : Text = transfer_id_hex id in
        let counted : S = kv.set (kv.set s (opener_key key) opener) (ack_seq_key key) (decimal 0) in
        record {
          counted =
              ap count_of (
                get-set_other kv counted (window_key key) (ack_seq_key key) (decimal window)
                  (text_eq-cell_key id id _ _ is is (λ _ e. ack_seq-window (sym e)))
                ∙ get-set_same kv _ (ack_seq_key key) (decimal 0))
              ∙ number-decimal 0;
          credit =
              ap count_of (get-set_same kv counted (window_key key) (decimal window))
              ∙ number-decimal window;
          chunk = λ i lt. absurd (omega (arith, lt));
        }

  read_chunks_run :
      (s : S) (key : Text) (l : List Bytes) (first : ℕ)
      → ((i : ℕ) → i < length l → kv.get s (chunk_key key (first + i)) ≡ get_elem? l i)
      → read_chunks kv digest_of s key first (length l) ≡ l
  unfolding read_chunks
  read_chunks_run s key [] first h = refl
  read_chunks_run s key (c ∷ l) first h =
      let here : kv.get s (chunk_key key first) ≡ some c = rw add-zero at (h 0 (omega arith)) in
      rw
        (
          here,
          read_chunks_run s key l (first + 1) (λ i lt.
              subst (λ n. kv.get s (chunk_key key n) ≡ get_elem? l i) (omega arith)
                (h (suc i) (omega (arith, lt)))),
        )
        refl

  pub read_chunks-Holds :
      (s : S) (id : Bytes) (window : ℕ) (l : List Bytes)
      → Holds s id window l
      → read_chunks kv digest_of s (transfer_id_hex id) 0 (length l) ≡ l
  read_chunks-Holds s id window l h = read_chunks_run s (transfer_id_hex id) l 0 (λ i lt.
      subst (λ n. kv.get s (chunk_key (transfer_id_hex id) n) ≡ get_elem? l i) (omega arith)
        (h.chunk i lt))

  next_chunk-Holds :
      (s : S) (id : Bytes) (window : ℕ) (l : List Bytes) (from : ℕ)
      → Holds s id window l
      → next_chunk kv digest_of s (transfer_id_hex id) from ≡ (
          if leb (length l) from
          then some done
          else some (found_chunk kv digest_of (kv.get s (chunk_key (transfer_id_hex id) from))))
  unfolding next_chunk
  next_chunk-Holds s id window l from h = rw h.counted refl

  -- Once a transfer is held, its source yields the chunks from any number on, in order, and ends: it
  -- never throws for a chunk that is missing.
  pub stored_transfer-Holds :
      (fuel : ℕ) (s : S) (id : Bytes) (window : ℕ) (l : List Bytes) (from : ℕ)
      → length l ≤ from + fuel
      → Holds s id window l
      → stored_transfer kv digest_of (suc fuel) s (transfer_id_hex id) from ≡ some (drop from l)
  unfolding stored_transfer
  stored_transfer-Holds zero s id window l from enough h =
      let past : leb (length l) from ≡ true = ground (arith, enough) in
      rw
        (
          next_chunk-Holds s id window l from h,
          past,
          drop_of_length-le from l (omega (arith, enough)),
        )
        refl
  stored_transfer-Holds (suc fuel) s id window l from enough h =
      elim (Bool-cases (leb (length l) from)) [
        | inl past ↦
            rw
              (
                next_chunk-Holds s id window l from h,
                past,
                drop_of_length-le from l (ground (arith, past)),
              )
              refl
        | inr within ↦
            let (c, here, e) = drop-eq-cons from l (ground (arith, within)) in
            let found : kv.get s (chunk_key (transfer_id_hex id) from) ≡ some c =
              h.chunk from (ground (arith, within)) ∙ here in
            let rest =
              stored_transfer-Holds fuel s id window l (from + 1) (omega (arith, enough)) h in
            let next : from + 1 ≡ suc from = omega arith in
            rw (next_chunk-Holds s id window l from h, within, found, rest, next, e) refl
      ]
