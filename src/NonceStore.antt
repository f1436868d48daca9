-- ===== src/NonceStore.antt =====
-- ts/packages/core/src/adapters/memory-nonce-store.ts: nonce pairs of signing sessions, to be used
-- once. The map keeps its keys in order of insertion; a throw is `none`.
pub mod Once
use wire_mesh.Prelude.{ℕ, ◌+◌, List, [], ◌∷◌, ◌++◌, Option, none, some, Bytes, ◌==◌, if◌then◌else◌}

-- Session id and nonce pair.
abbrev pub NonceStore : Type 0
NonceStore = List (ℕ × Bytes)

unfoldable pub nonce_at : NonceStore → ℕ → Option Bytes
nonce_at [] session = none
nonce_at ((s, v) ∷ nonces) session = if s == session then some v else nonce_at nonces session

-- `nonces.set` of a new key.
unfoldable pub add_nonce : NonceStore → ℕ → Bytes → NonceStore
add_nonce nonces session value = nonces ++ (session, value) ∷ []

-- `nonces.delete`.
unfoldable pub discard : NonceStore → ℕ → NonceStore
discard [] session = []
discard ((s, v) ∷ nonces) session =
    let rest = discard nonces session in if s == session then rest else (s, v) ∷ rest

abbrev persist_new : Option Bytes → NonceStore → ℕ → Bytes → Option NonceStore
persist_new (some held) nonces session value = none
persist_new none nonces session value = some (add_nonce nonces session value)

unfoldable pub persist : NonceStore → ℕ → Bytes → Option NonceStore
persist nonces session value = persist_new (nonce_at nonces session) nonces session value

abbrev take_held : Option Bytes → NonceStore → ℕ → Option (Bytes × NonceStore)
take_held none nonces session = none
take_held (some value) nonces session = some (value, discard nonces session)

unfoldable pub take_nonce : NonceStore → ℕ → Option (Bytes × NonceStore)
take_nonce nonces session = take_held (nonce_at nonces session) nonces session
