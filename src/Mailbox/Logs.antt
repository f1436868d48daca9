-- ===== src/Mailbox/Logs.antt =====
-- The abstract view of a mailbox: the logs that are not empty, one for each device that has written.
use wire_mesh.Prelude.{
  ltb, ◌&&◌, length-append, ℕ, ◌+◌, ◌<◌, ◌≡◌, ◌≢◌, inl, inr, refl, sym, ◌∙◌, List, [], ◌∷◌, ◌++◌,
  some, Bytes, text_eq, text_eq_iff, text_eq_refl, ◌==◌, if◌then◌else◌, All, arith, Bool-cases,
  length, append-nil,
}
use wire_mesh.Storage.{KeyValueStorage}
use wire_mesh.DataSync.Keys.{IsDeviceId}
use wire_mesh.DataSync.Log.{Holds}
use wire_mesh.Mailbox.{log_bytes_key, log_count_key, read_count, added_to}

abbrev pub Logs : Type 0
Logs = List (Bytes × List Bytes)

-- A device that has not written has an empty log.
unfoldable pub log_of : Logs → Bytes → List Bytes
log_of [] p = []
log_of ((q, l) ∷ logs) p = if text_eq q p then l else log_of logs p

unfoldable pub extend_log : Logs → Bytes → List Bytes → Logs
extend_log [] p es = (p, es) ∷ []
extend_log ((q, l) ∷ logs) p es =
    let rest = (q, l) ∷ extend_log logs p es in if text_eq q p then (q, l ++ es) ∷ logs else rest

-- A frame without entries starts no log.
unfoldable pub add_entries : Logs → Bytes → List Bytes → Logs
add_entries logs p [] = logs
add_entries logs p (e ∷ es) = extend_log logs p (e ∷ es)

abbrev pub size : List Bytes → ℕ
size [] = 0
size (e ∷ es) = length e + size es

abbrev pub IsFilled : Bytes × List Bytes → Type 0
IsFilled e = 0 < length e.1

pub size-append : (l m : List Bytes) → size (l ++ m) ≡ size l + size m
size-append [] m = omega arith
size-append (e ∷ l) m = omega (arith, size-append l m)

added_to-eq : (n : ℕ) (es : List Bytes) → added_to n es ≡ n + size es
unfolding added_to
added_to-eq n [] = omega arith
added_to-eq n (e ∷ es) = omega (arith, added_to-eq (n + length e) es)

pub added_to-zero : (es : List Bytes) → added_to 0 es ≡ size es
added_to-zero es = added_to-eq 0 es ∙ omega arith

log_of-extend_log :
    (logs : Logs) (p q : Bytes) (es : List Bytes)
    → log_of (extend_log logs p es) q ≡ (if text_eq p q then log_of logs p ++ es else log_of logs q)
unfolding log_of extend_log
log_of-extend_log [] p q es = ground arith
log_of-extend_log ((r, l) ∷ logs) p q es =
    ground (arith, text_eq_iff p q, text_eq_iff r p, text_eq_iff r q, log_of-extend_log logs p q es)

pub log_of-add_entries_same :
    (logs : Logs) (p : Bytes) (es : List Bytes)
    → log_of (add_entries logs p es) p ≡ log_of logs p ++ es
unfolding add_entries
log_of-add_entries_same logs p [] = sym (append-nil (log_of logs p))
log_of-add_entries_same logs p (e ∷ es) =
    log_of-extend_log logs p p (e ∷ es) ∙ (rw (text_eq_refl p))

pub log_of-add_entries_other :
    (logs : Logs) (p q : Bytes) (es : List Bytes)
    → p ≢ q
    → log_of (add_entries logs p es) q ≡ log_of logs q
unfolding add_entries
log_of-add_entries_other logs p q [] ne = refl
log_of-add_entries_other logs p q (e ∷ es) ne =
    ground (arith, log_of-extend_log logs p q (e ∷ es), text_eq_iff p q)

-- A log is started exactly where there was none.
length-extend_log :
    (logs : Logs) (p : Bytes) (es : List Bytes)
    → All IsFilled logs
    → length (extend_log logs p es)
      ≡ (if length (log_of logs p) == 0 then length logs + 1 else length logs)
unfolding log_of extend_log
length-extend_log [] p es h = refl
length-extend_log ((q, l) ∷ logs) p es h = ground (arith, length-extend_log logs p es h.1)

pub length-add_entries :
    (logs : Logs) (p : Bytes) (es : List Bytes)
    → All IsFilled logs
    → length (add_entries logs p es)
      ≡ (if length (log_of logs p) == 0 && ltb 0 (length es) then length logs + 1 else length logs)
unfolding add_entries
length-add_entries logs p [] h = ground arith
length-add_entries logs p (e ∷ es) h = ground (arith, length-extend_log logs p (e ∷ es) h)

module _ {κ} (P : List Bytes → Type κ) where
  -- What holds of every log, and of the extended one, holds of every log afterwards.
  All-extend_log :
      (logs : Logs) (p : Bytes) (es : List Bytes)
      → All (λ (e : Bytes × List Bytes). P e.1) logs
      → P (log_of logs p ++ es)
      → All (λ (e : Bytes × List Bytes). P e.1) (extend_log logs p es)
  unfolding log_of extend_log
  All-extend_log [] p es h hp = (hp, tt)
  All-extend_log ((q, l) ∷ logs) p es h hp = elim (Bool-cases (text_eq q p)) [
    | inl same ↦ rw same ((rw same at hp), h.1)
    | inr other ↦ rw other (h.0, All-extend_log logs p es h.1 (rw other at hp))
  ]

  pub All-add_entries :
      (logs : Logs) (p : Bytes) (es : List Bytes)
      → All (λ (e : Bytes × List Bytes). P e.1) logs
      → P (log_of logs p ++ es)
      → All (λ (e : Bytes × List Bytes). P e.1) (add_entries logs p es)
  unfolding add_entries
  All-add_entries logs p [] h hp = h
  All-add_entries logs p (e ∷ es) h hp = All-extend_log logs p (e ∷ es) h hp

pub IsFilled-add_entries :
    (logs : Logs) (p : Bytes) (es : List Bytes)
    → All IsFilled logs
    → All IsFilled (add_entries logs p es)
unfolding add_entries
IsFilled-add_entries logs p [] h = h
IsFilled-add_entries logs p (e ∷ es) h =
    All-extend_log (λ l. 0 < length l) logs p (e ∷ es) h
      (omega (arith, length-append (log_of logs p) (e ∷ es)))

-- What holds of every log and of the empty one holds of each device's.
pub log_of-All :
    (P : List Bytes → Type 0) (logs : Logs) (p : Bytes)
    → P []
    → All (λ (e : Bytes × List Bytes). P e.1) logs
    → P (log_of logs p)
unfolding log_of
log_of-All P [] p nil h = nil
log_of-All P ((q, l) ∷ logs) p nil h = elim (Bool-cases (text_eq q p)) [
  | inl same ↦ rw same h.0
  | inr other ↦ rw other (log_of-All P logs p nil h.1)
]

module _ {S : Type 0} (kv : KeyValueStorage S) where
  -- The storage holds these logs, their sizes in bytes and their number.
  pub record Mirrors (s : S) (logs : Logs) : Type 0 where
    pub held : (p : Bytes) → IsDeviceId p → Holds kv s p (log_of logs p)
    pub sizes :
        (p : Bytes) → IsDeviceId p → read_count kv s (log_bytes_key p) ≡ some (size (log_of logs p))
    pub count : read_count kv s log_count_key ≡ some (length logs)
    pub filled : All IsFilled logs
