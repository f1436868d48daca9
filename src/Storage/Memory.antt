-- ===== src/Storage/Memory.antt =====
-- ts/packages/core/src/adapters/memory-storage.ts: the storage over a `Map`, whose keys stand in
-- order of insertion.
use wire_mesh.Prelude.{
  ◌≡◌, refl, ◌&&◌, List, [], ◌∷◌, Option, none, some, Bytes, Text, text_eq, text_eq_iff,
  if◌then◌else◌, arith, any,
}
use wire_mesh.Scope.{starts_with}
use wire_mesh.Storage.{KeyValueStorage, is_some}

abbrev pub MemoryStore : Type 0
MemoryStore = List (Text × Bytes)

unfoldable pub memory_get : MemoryStore → Text → Option Bytes
memory_get [] key = none
memory_get ((k, v) ∷ store) key = if text_eq k key then some v else memory_get store key

-- `Map.set` keeps the place of a key that is there.
unfoldable pub memory_set : MemoryStore → Text → Bytes → MemoryStore
memory_set [] key value = (key, value) ∷ []
memory_set ((k, v) ∷ store) key value =
    let rest = (k, v) ∷ memory_set store key value in
    if text_eq k key then (k, value) ∷ store else rest

unfoldable pub memory_delete : MemoryStore → Text → MemoryStore
memory_delete [] key = []
memory_delete ((k, v) ∷ store) key =
    let rest = memory_delete store key in if text_eq k key then rest else (k, v) ∷ rest

unfoldable pub memory_keys : MemoryStore → Text → List Text
memory_keys [] prefix = []
memory_keys ((k, v) ∷ store) prefix =
    let rest = memory_keys store prefix in if starts_with k prefix then k ∷ rest else rest

pub memory_get-memory_set :
    (s : MemoryStore) (k j : Text) (v : Bytes)
    → memory_get (memory_set s k v) j ≡ (if text_eq k j then some v else memory_get s j)
unfolding memory_get memory_set
memory_get-memory_set [] k j v = refl
memory_get-memory_set ((i, w) ∷ s) k j v =
    ground (arith, text_eq_iff k j, text_eq_iff i k, text_eq_iff i j, memory_get-memory_set s k j v)

pub memory_get-memory_delete :
    (s : MemoryStore) (k j : Text)
    → memory_get (memory_delete s k) j ≡ (if text_eq k j then none else memory_get s j)
unfolding memory_get memory_delete
memory_get-memory_delete [] k j = ground arith
memory_get-memory_delete ((i, w) ∷ s) k j =
    ground
      (arith, text_eq_iff k j, text_eq_iff i k, text_eq_iff i j, memory_get-memory_delete s k j)

pub any-memory_keys :
    (s : MemoryStore) (prefix k : Text)
    → any (text_eq k) (memory_keys s prefix) ≡ (starts_with k prefix && is_some (memory_get s k))
unfolding memory_get memory_keys
any-memory_keys [] prefix k = ground arith
any-memory_keys ((i, w) ∷ s) prefix k =
    ground (arith, text_eq_iff k i, text_eq_iff i k, any-memory_keys s prefix k)

-- `createMemoryStorage`, which keeps the port's promises.
abbrev pub memory_storage : KeyValueStorage MemoryStore
memory_storage = record {
  get = memory_get;
  set = memory_set;
  delete = memory_delete;
  keys = memory_keys;
  get-set = memory_get-memory_set;
  get-delete = memory_get-memory_delete;
  any-keys = any-memory_keys;
}
