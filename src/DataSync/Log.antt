-- ===== src/DataSync/Log.antt =====
-- The logs of data-sync.ts against their abstract view, a list of entries for each device.
use wire_mesh.Prelude.{
  get_elem?-append_right, number-decimal, get_elem?-append_left, decimal, ℕ, zero, suc, ◌+◌, ◌-◌,
  ◌<◌, ◌≡◌, ◌≢◌, inl, inr, refl, sym, ap, ◌∙◌, false, List, [], ◌∷◌, ◌++◌, some, Bytes, Text,
  text_eq, text_eq_refl, ltb, arith, Bool-cases, length, length-append, get_elem?,
}
use native.Mathlib.Nat.{add-zero}
use wire_mesh.Storage.{KeyValueStorage, count_of}
use wire_mesh.DataSync.{head_key, entry_key, read_head_seq, write_head_seq, store_entries}
use wire_mesh.DataSync.Keys.{
  IsDeviceId, text_eq-head_key, text_eq-entry_key-head_key, text_eq-head_key-entry_key,
  text_eq-entry_key,
}

module _ {S : Type 0} (kv : KeyValueStorage S) where
  -- The storage holds exactly this log for the device: the head counts it, and no entry is missing.
  pub record Holds (s : S) (p : Bytes) (l : List Bytes) : Type 0 where
    pub head : read_head_seq kv s p ≡ some (length l)
    pub entry : (i : ℕ) → i < length l → kv.get s (entry_key p (i + 1)) ≡ get_elem? l i

  pub get-set_other :
      (s : S) (k j : Text) (v : Bytes) → text_eq k j ≡ false → kv.get (kv.set s k v) j ≡ kv.get s j
  get-set_other s k j v h = kv.get-set s k j v ∙ (rw h)

  pub get-set_same : (s : S) (k : Text) (v : Bytes) → kv.get (kv.set s k v) k ≡ some v
  get-set_same s k v = kv.get-set s k k v ∙ (rw (text_eq_refl k))

  -- A write to a key that is neither the head of a log nor one of its entries keeps the log.
  pub Holds-set :
      (s : S) (k : Text) (v : Bytes) (p : Bytes) (l : List Bytes)
      → text_eq k (head_key p) ≡ false
      → ((i : ℕ) → i < length l → text_eq k (entry_key p (i + 1)) ≡ false)
      → Holds s p l
      → Holds (kv.set s k v) p l
  unfolding read_head_seq
  Holds-set s k v p l nh ne h = record {
    head = ap count_of (get-set_other s k (head_key p) v nh) ∙ h.head;
    entry = λ i lt. get-set_other s k (entry_key p (i + 1)) v (ne i lt) ∙ h.entry i lt;
  }

  module _ (p q : Bytes) (hp : IsDeviceId p) (hq : IsDeviceId q) where
    -- Entries behind the head, or of another device's log, can be written without harm.
    pub Holds-store_entries :
        (es : List Bytes) (s : S) (seq : ℕ) (l : List Bytes)
        → (p ≡ q → length l < seq)
        → Holds s q l
        → Holds (store_entries kv s p seq es) q l
    unfolding store_entries
    Holds-store_entries [] s seq l far h = h
    Holds-store_entries (e ∷ es) s seq l far h =
        Holds-store_entries es _ (seq + 1) l (λ same. ground (arith, far same))
          (Holds-set s (entry_key p seq) e q l (text_eq-entry_key-head_key p q hp hq seq)
            (λ i lt. text_eq-entry_key p q hp hq seq (i + 1) (λ same eq. ground (arith, far same)))
            h)

    pub Holds-write_head_seq :
        (s : S) (n : ℕ) (l : List Bytes) → p ≢ q → Holds s q l → Holds (write_head_seq kv s p n) q l
    unfolding write_head_seq
    Holds-write_head_seq s n l ne h =
        Holds-set s (head_key p) _ q l (text_eq-head_key p q hp hq ne)
          (λ i lt. text_eq-head_key-entry_key p q hp hq (i + 1)) h

  module _ (p : Bytes) (hp : IsDeviceId p) where
    get-store_entries_before :
        (es : List Bytes) (s : S) (seq n : ℕ)
        → n < seq
        → kv.get (store_entries kv s p seq es) (entry_key p n) ≡ kv.get s (entry_key p n)
    unfolding store_entries
    get-store_entries_before [] s seq n lt = refl
    get-store_entries_before (e ∷ es) s seq n lt =
        get-store_entries_before es _ (seq + 1) n (omega arith)
        ∙ get-set_other s (entry_key p seq) (entry_key p n) e
            (text_eq-entry_key p p hp hp seq n (λ _ eq. omega arith))

    get-store_entries :
        (es : List Bytes) (s : S) (seq i : ℕ)
        → i < length es
        → kv.get (store_entries kv s p seq es) (entry_key p (seq + i)) ≡ get_elem? es i
    unfolding store_entries
    get-store_entries [] s seq i lt = absurd (omega arith)
    get-store_entries (e ∷ es) s seq zero lt = rw (add-zero seq) (
        get-store_entries_before es _ (seq + 1) seq (omega arith)
        ∙ get-set_same s (entry_key p seq) e)
    get-store_entries (e ∷ es) s seq (suc i) lt =
        ap
          (λ n.
            kv.get (store_entries kv (kv.set s (entry_key p seq) e) p (seq + 1) es) (entry_key p n))
          (omega arith)
        ∙ get-store_entries es (kv.set s (entry_key p seq) e) (seq + 1) i (omega arith)

    entry-append :
        (s : S) (l es : List Bytes)
        → Holds s p l
        → (i : ℕ) → i < length (l ++ es)
        → kv.get (store_entries kv s p (length l + 1) es) (entry_key p (i + 1))
          ≡ get_elem? (l ++ es) i
    entry-append s l es h i lt = elim (Bool-cases (ltb i (length l))) [
      | inl old ↦
          get-store_entries_before es s (length l + 1) (i + 1) (ground arith)
          ∙ h.entry i (ground arith)
          ∙ sym (get_elem?-append_left l es i (ground arith))
      | inr new ↦
          let past : i ≡ length l + (i - length l) = ground arith in
          ap (λ n. kv.get (store_entries kv s p (length l + 1) es) (entry_key p n)) (omega arith)
          ∙ get-store_entries es s (length l + 1) (i - length l) (omega (arith, length-append l es))
          ∙ sym (get_elem?-append_right l es (i - length l))
          ∙ ap (get_elem? (l ++ es)) (sym past)
    ]

    head-write_head_seq : (s : S) (n : ℕ) → read_head_seq kv (write_head_seq kv s p n) p ≡ some n
    unfolding read_head_seq write_head_seq
    head-write_head_seq s n =
        ap count_of (get-set_same s (head_key p) (decimal n)) ∙ number-decimal n

    get-write_head_seq :
        (s : S) (n i : ℕ)
        → kv.get (write_head_seq kv s p n) (entry_key p (i + 1)) ≡ kv.get s (entry_key p (i + 1))
    unfolding write_head_seq
    get-write_head_seq s n i =
        get-set_other s (head_key p) (entry_key p (i + 1)) _
          (text_eq-head_key-entry_key p p hp hp (i + 1))

    -- Storing entries behind a log and then moving its head appends them.
    pub Holds-append :
        (s : S) (l es : List Bytes) (n : ℕ)
        → n ≡ length l + length es
        → Holds s p l
        → Holds (write_head_seq kv (store_entries kv s p (length l + 1) es) p n) p (l ++ es)
    Holds-append s l es n e h = record {
      head = head-write_head_seq _ n ∙ ap some (e ∙ sym (length-append l es));
      entry = λ i lt. get-write_head_seq _ n i ∙ entry-append s l es h i lt;
    }
