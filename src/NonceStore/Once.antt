-- ===== src/NonceStore/Once.antt =====
-- A persisted nonce pair can be taken once (memory-nonce-store.ts).
use wire_mesh.Prelude.{ℕ, ◌≡◌, ◌≢◌, [], ◌∷◌, none, some, Bytes, ◌==◌, if◌then◌else◌, arith}
use wire_mesh.NonceStore.{NonceStore, nonce_at, add_nonce, discard, persist, take_nonce}

nonce_at-discard :
    (nonces : NonceStore) (session other : ℕ)
    → nonce_at (discard nonces session) other
      ≡ (if session == other then none else nonce_at nonces other)
unfolding nonce_at discard
nonce_at-discard [] session other = ground arith
nonce_at-discard ((s, v) ∷ nonces) session other =
    ground (arith, nonce_at-discard nonces session other)

nonce_at-add_nonce :
    (nonces : NonceStore) (session other : ℕ) (value : Bytes)
    → nonce_at nonces session ≡ none
    → nonce_at (add_nonce nonces session value) other
      ≡ (if session == other then some value else nonce_at nonces other)
unfolding nonce_at add_nonce
nonce_at-add_nonce [] session other value h = ground arith
nonce_at-add_nonce ((s, v) ∷ nonces) session other value h =
    ground (arith, nonce_at-add_nonce nonces session other value)

persist-eq-some :
    (nonces after : NonceStore) (session : ℕ) (value : Bytes)
    → persist nonces session value ≡ some after
    → (nonce_at nonces session ≡ none) × (after ≡ add_nonce nonces session value)
unfolding persist
persist-eq-some nonces after session value h = (ground arith, ground arith)

-- A pair that was persisted is what the next take of its session returns; the take after that
-- fails, and every other session keeps what it held before.
take_nonce-persist :
    (nonces after : NonceStore) (session : ℕ) (value : Bytes)
    → persist nonces session value ≡ some after
    → (left : NonceStore) × (take_nonce after session ≡ some (value, left))
      × (take_nonce left session ≡ none)
      × ((other : ℕ) → session ≢ other → nonce_at left other ≡ nonce_at nonces other)
unfolding take_nonce
take_nonce-persist nonces after session value h =
    let (fresh, e) = persist-eq-some nonces after session value h in
    let held : nonce_at after session ≡ some value =
      rw e (ground (arith, nonce_at-add_nonce nonces session session value)) in
    (
      discard after session,
      rw held,
      ground (arith, nonce_at-discard after session session),
      λ other ne. rw e (
          ground (
            arith,
            nonce_at-discard (add_nonce nonces session value) session other,
            nonce_at-add_nonce nonces session other value,
          )),
    )
