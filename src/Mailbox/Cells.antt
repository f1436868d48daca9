-- ===== src/Mailbox/Cells.antt =====
-- The cells of hub-mailbox.ts stand apart from those of data-sync.ts and from one another, so a
-- frame that is taken keeps the storage in step with the logs.
use wire_mesh.Prelude.{
  ℕ, ◌+◌, ◌≡◌, ◌≢◌, refl, ap, ◌∙◌, Bool, true, false, List, [], ◌∷◌, some, Bytes, Text, text,
  text_eq, if◌then◌else◌, arith, length, length-append, decimal, number-decimal,
}
use wire_mesh.Storage.{KeyValueStorage, count_of}
use wire_mesh.DeviceId.{device_id_to_hex}
use wire_mesh.DataSync.{head_key, entry_key, DataEntriesFrame, store_entries, write_head_seq}
use wire_mesh.DataSync.Keys.{IsDeviceId, text_eq-ne, device_key-injective, length-device_id_to_hex}
use wire_mesh.DataSync.Log.{Holds, Holds-set, get-set_other, get-set_same}
use wire_mesh.DataSync.Handlers.{taken}
use wire_mesh.Mailbox.{log_bytes_key, log_count_key, read_count, record_entries}

-- A key outside of `data/`.
pub record IsApart (k : Text) : Type 0 where
  pub head : (q : Bytes) → text_eq k (head_key q) ≡ false
  pub entry : (q : Bytes) (n : ℕ) → text_eq k (entry_key q n) ≡ false
  pub head' : (q : Bytes) → text_eq (head_key q) k ≡ false
  pub entry' : (q : Bytes) (n : ℕ) → text_eq (entry_key q n) k ≡ false

pub log_bytes_key-IsApart : (p : Bytes) → IsApart (log_bytes_key p)
unfolding log_bytes_key head_key entry_key text_eq
log_bytes_key-IsApart p = record {
  head = λ q. refl;
  entry = λ q n. refl;
  head' = λ q. refl;
  entry' = λ q n. refl;
}

pub log_count_key-IsApart : IsApart log_count_key
unfolding head_key entry_key text_eq
log_count_key-IsApart = record {
  head = λ q. refl;
  entry = λ q n. refl;
  head' = λ q. refl;
  entry' = λ q n. refl;
}

length-log_bytes_key : (p : Bytes) → IsDeviceId p → length (log_bytes_key p) ≡ 78
unfolding log_bytes_key
length-log_bytes_key p hp =
    omega (arith, length-append (device_id_to_hex p) (text "/bytes"), length-device_id_to_hex p hp)

text_eq-log_bytes_key-log_count_key :
    (p : Bytes) → IsDeviceId p → text_eq (log_bytes_key p) log_count_key ≡ false
text_eq-log_bytes_key-log_count_key p hp =
    text_eq-ne _ _ (λ e. omega (arith, ap length e, length-log_bytes_key p hp))

text_eq-log_count_key-log_bytes_key :
    (p : Bytes) → IsDeviceId p → text_eq log_count_key (log_bytes_key p) ≡ false
text_eq-log_count_key-log_bytes_key p hp =
    text_eq-ne _ _ (λ e. omega (arith, ap length e, length-log_bytes_key p hp))

text_eq-log_bytes_key :
    (p q : Bytes)
    → IsDeviceId p
    → IsDeviceId q
    → p ≢ q
    → text_eq (log_bytes_key p) (log_bytes_key q) ≡ false
unfolding log_bytes_key
text_eq-log_bytes_key p q hp hq ne =
    text_eq-ne _ _ (λ e. ne (device_key-injective (text "mailbox/") p q _ _ hp hq e).0)

module _ {S : Type 0} (kv : KeyValueStorage S) where
  get-store_entries_apart :
      (es : List Bytes) (s : S) (p : Bytes) (seq : ℕ) (k : Text)
      → IsApart k
      → kv.get (store_entries kv s p seq es) k ≡ kv.get s k
  unfolding store_entries
  get-store_entries_apart [] s p seq k h = refl
  get-store_entries_apart (e ∷ es) s p seq k h =
      get-store_entries_apart es _ p (seq + 1) k h ∙ get-set_other kv s _ k e (h.entry' p seq)

  get-taken_apart :
      (s : S) (frame : DataEntriesFrame) (k : Text)
      → IsApart k
      → kv.get (taken kv s frame) k ≡ kv.get s k
  unfolding taken write_head_seq
  get-taken_apart s frame k h =
      get-set_other kv _ _ k _ (h.head' frame.peer)
      ∙ get-store_entries_apart frame.entries s frame.peer _ k h

  Holds-set_apart :
      (s : S) (k : Text) (v : Bytes) (p : Bytes) (l : List Bytes)
      → IsApart k
      → Holds kv s p l
      → Holds kv (kv.set s k v) p l
  Holds-set_apart s k v p l a h = Holds-set kv s k v p l (a.head p) (λ i _. a.entry p (i + 1)) h

  read_count-set_same :
      (s : S) (k : Text) (n : ℕ) → read_count kv (kv.set s k (decimal n)) k ≡ some n
  unfolding read_count
  read_count-set_same s k n = ap count_of (get-set_same kv s k (decimal n)) ∙ number-decimal n

  read_count-set_other :
      (s : S) (k j : Text) (v : Bytes)
      → text_eq k j ≡ false
      → read_count kv (kv.set s k v) j ≡ read_count kv s j
  unfolding read_count
  read_count-set_other s k j v h = ap count_of (get-set_other kv s k j v h)

  pub read_count-taken :
      (s : S) (frame : DataEntriesFrame) (k : Text)
      → IsApart k
      → read_count kv (taken kv s frame) k ≡ read_count kv s k
  unfolding read_count
  read_count-taken s frame k h = ap count_of (get-taken_apart s frame k h)

  -- What `record_entries` makes of a storage whose log count is `n`.
  pub recorded : S → DataEntriesFrame → ℕ → ℕ → Bool → S
  recorded s frame total n false = kv.set s (log_bytes_key frame.peer) (decimal total)
  recorded s frame total n true =
      kv.set (kv.set s (log_bytes_key frame.peer) (decimal total)) log_count_key (decimal (n + 1))

  module _ (s : S) (frame : DataEntriesFrame) (hp : IsDeviceId frame.peer) (total n : ℕ) where
    pub record_entries_lem :
        (new : Bool)
        → read_count kv s log_count_key ≡ some n
        → record_entries kv s frame total new ≡ some (recorded s frame total n new)
    unfolding record_entries recorded
    record_entries_lem false h = refl
    record_entries_lem true h =
        rw
          (read_count-set_other s _ log_count_key (decimal total)
              (text_eq-log_bytes_key-log_count_key frame.peer hp)
            ∙ h)
          refl

    pub Holds-recorded :
        (new : Bool) (q : Bytes) (l : List Bytes)
        → Holds kv s q l
        → Holds kv (recorded s frame total n new) q l
    unfolding recorded
    Holds-recorded false q l h = Holds-set_apart s _ _ q l (log_bytes_key-IsApart frame.peer) h
    Holds-recorded true q l h =
        Holds-set_apart _ _ _ q l log_count_key-IsApart
          (Holds-set_apart s _ _ q l (log_bytes_key-IsApart frame.peer) h)

    pub read_count-recorded_same :
        (new : Bool)
        → read_count kv (recorded s frame total n new) (log_bytes_key frame.peer) ≡ some total
    unfolding recorded
    read_count-recorded_same false = read_count-set_same s _ total
    read_count-recorded_same true =
        read_count-set_other _ _ _ _ (text_eq-log_count_key-log_bytes_key frame.peer hp)
        ∙ read_count-set_same s _ total

    pub read_count-recorded_other :
        (new : Bool) (q : Bytes)
        → IsDeviceId q
        → frame.peer ≢ q
        → read_count kv (recorded s frame total n new) (log_bytes_key q)
          ≡ read_count kv s (log_bytes_key q)
    unfolding recorded
    read_count-recorded_other false q hq ne =
        read_count-set_other s _ _ _ (text_eq-log_bytes_key frame.peer q hp hq ne)
    read_count-recorded_other true q hq ne =
        read_count-set_other _ _ _ _ (text_eq-log_count_key-log_bytes_key q hq)
        ∙ read_count-set_other s _ _ _ (text_eq-log_bytes_key frame.peer q hp hq ne)

    pub read_count-recorded_count :
        (new : Bool)
        → read_count kv s log_count_key ≡ some n
        → read_count kv (recorded s frame total n new) log_count_key
          ≡ some (if new then n + 1 else n)
    unfolding recorded
    read_count-recorded_count false h =
        read_count-set_other s _ _ _ (text_eq-log_bytes_key-log_count_key frame.peer hp) ∙ h
    read_count-recorded_count true h = read_count-set_same _ log_count_key (n + 1)
