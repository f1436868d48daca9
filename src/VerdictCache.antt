-- ===== src/VerdictCache.antt =====
-- ts/packages/core/src/domain/verdict-cache.ts: a memo of verdicts within a budget of bytes. A
-- promise is named by the computation it belongs to; that computation's outcome arrives as a step
-- of its own, in any order. A `Map` is its list of entries in order of insertion.
pub mod Keys
pub mod Entries
pub mod Budget
pub mod Settling
pub mod Runs
pub mod Sharing
use wire_mesh.Prelude.{
  ℕ, zero, suc, ◌+◌, ◌-◌, Bool, false, List, [], ◌∷◌, ◌++◌, Option, none, some, Bytes, Text,
  text_eq, leb, ltb, if◌then◌else◌, length, map, take, drop, decimal,
}

abbrev pub entry_overhead_bytes : ℕ
entry_overhead_bytes = 16

unfoldable pub from_char_code_chunk : ℕ
from_char_code_chunk = 4096

unfoldable pub bytes_key_length_from : ℕ → List Bytes → ℕ
bytes_key_length_from total [] = total
bytes_key_length_from total (part ∷ parts) =
    bytes_key_length_from (total + (length (decimal (length part)) + 1 + length part)) parts

unfoldable pub bytes_key_length : List Bytes → ℕ
bytes_key_length parts = bytes_key_length_from 0 parts

-- The inner loop from `start` on; its rounds are fewer than the bytes of the part.
unfoldable pub append_chunks : ℕ → Bytes → ℕ → Text → Text
append_chunks zero part start key = key
append_chunks (suc rounds) part start key =
    let rest =
      append_chunks rounds part (start + from_char_code_chunk)
        (key ++ take from_char_code_chunk (drop start part)) in
    if ltb start (length part) then rest else key

unfoldable pub bytes_key_from : Text → List Bytes → Text
bytes_key_from key [] = key
bytes_key_from key (part ∷ parts) =
    bytes_key_from
      (append_chunks (length part) part 0 (key ++ (decimal (length part) ++ b':' ∷ []))) parts

unfoldable pub bytes_key : List Bytes → Text
bytes_key parts = bytes_key_from [] parts

-- The computation of a verdict, by its number, and the bytes it is about.
pub record Computation : Type 0 where
  pub id : ℕ
  pub parts : List Bytes

pub record Entry : Type 0 where
  pub settled : Computation
  pub cost : ℕ

pub record VerdictCache : Type 0 where
  pub budget : ℕ
  pub entries : List (Text × Entry)
  pub used : ℕ
  pub pending : ℕ

unfoldable pub create_verdict_cache : ℕ → VerdictCache
create_verdict_cache budget = record { budget = budget; entries = []; used = 0; pending = 0 }

unfoldable pub entry_at : List (Text × Entry) → Text → Option Entry
entry_at [] key = none
entry_at ((k, e) ∷ entries) key = if text_eq k key then some e else entry_at entries key

-- `entries.delete`.
unfoldable pub without : List (Text × Entry) → Text → List (Text × Entry)
without [] key = []
without ((k, e) ∷ entries) key =
    let rest = without entries key in if text_eq k key then rest else (k, e) ∷ rest

-- `entries.set`, which keeps the place of a key that is there.
unfoldable pub with_entry : List (Text × Entry) → Text → Entry → List (Text × Entry)
with_entry [] key entry = (key, entry) ∷ []
with_entry ((k, e) ∷ entries) key entry =
    let rest = (k, e) ∷ with_entry entries key entry in
    if text_eq k key then (k, entry) ∷ entries else rest

abbrev pub forget_entry : VerdictCache → Text → Option Entry → VerdictCache
forget_entry c key none = c
forget_entry c key (some e) = record c { entries = without c.entries key; used = c.used - e.cost }

unfoldable pub forget : VerdictCache → Text → VerdictCache
forget c key = forget_entry c key (entry_at c.entries key)

-- The loop over the keys, oldest first.
unfoldable pub evict : List Text → VerdictCache → VerdictCache
evict [] c = c
evict (oldest ∷ keys) c =
    let rest = evict keys (forget c oldest) in if leb c.used c.budget then c else rest

-- What a caller waits for: a computation of its own whose outcome is not kept, one that is held, or
-- one that is begun for it and held from now on.
pub data Answer : Type 0 where
  direct : Answer
  shared : Computation → Answer
  begun : Computation → Answer

unfoldable pub touch : VerdictCache → Text → Entry → VerdictCache
touch c key held = record c { entries = with_entry (without c.entries key) key held }

-- The entry of a computation that was begun, with the eviction that makes room for it.
unfoldable pub keep : VerdictCache → Text → Computation → ℕ → VerdictCache
keep c key settled cost =
    let c' : VerdictCache = record c {
      entries = with_entry c.entries key (record { settled = settled; cost = cost });
      used = c.used + cost;
      pending = c.pending + cost;
    } in
    evict (map (λ (e : Text × Entry). e.0) c'.entries) c'

unfoldable pub cost_of : List Bytes → ℕ
cost_of parts = bytes_key_length parts + entry_overhead_bytes

abbrev pub lookup_or_begin : VerdictCache → ℕ → List Bytes → Option Entry → VerdictCache × Answer
lookup_or_begin c id parts (some held) = (touch c (bytes_key parts) held, shared held.settled)
lookup_or_begin c id parts none = (
  keep c (bytes_key parts) (record { id = id; parts = parts }) (cost_of parts),
  begun (record { id = id; parts = parts }),
)

-- `verdict` up to its first wait; `id` is the number of the computation it may begin.
unfoldable pub verdict : VerdictCache → ℕ → List Bytes → VerdictCache × Answer
verdict c id parts =
    if ltb c.budget (cost_of parts)
    then (c, direct)
    else if ltb c.budget (c.pending + cost_of parts)
    then (c, direct)
    else lookup_or_begin c id parts (entry_at c.entries (bytes_key parts))

-- The handlers of a computation that was begun: an outcome that is undefined is forgotten, and the
-- pending bytes are given back. The second part is the verdict that the waiting callers are given.
unfoldable pub settle : VerdictCache → Computation → Option Bool → VerdictCache × Bool
settle c done none =
    let c' = forget c (bytes_key done.parts) in
    (record c' { pending = c'.pending - cost_of done.parts }, false)
settle c done (some outcome) = (record c { pending = c.pending - cost_of done.parts }, outcome)
