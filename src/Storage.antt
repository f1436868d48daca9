-- ===== src/Storage.antt =====
-- ts/packages/core/src/ports/storage.ts: what a key-value storage promises. Its operations are run
-- one after another, and none of them fails.
pub mod Memory
use wire_mesh.Prelude.{
  ℕ, ◌≡◌, Bool, true, false, ◌&&◌, List, Option, none, some, Bytes, Text, text_eq, any,
  if◌then◌else◌, number,
}
use wire_mesh.Scope.{starts_with}

abbrev pub is_some : Option Bytes → Bool
is_some none = false
is_some (some value) = true

pub record KeyValueStorage (S : Type 0) : Type 0 where
  pub get : S → Text → Option Bytes
  pub set : S → Text → Bytes → S
  pub delete : S → Text → S
  pub keys : S → Text → List Text
  pub get-set :
      (s : S) (k j : Text) (v : Bytes)
      → get (set s k v) j ≡ (if text_eq k j then some v else get s j)
  pub get-delete :
      (s : S) (k j : Text) → get (delete s k) j ≡ (if text_eq k j then none else get s j)
  pub any-keys :
      (s : S) (prefix k : Text)
      → any (text_eq k) (keys s prefix) ≡ (starts_with k prefix && is_some (get s k))

-- Chains of reads; `none` is met only where a stored count is no number, and the program would go
-- on with `NaN`.
infixl 5 ◌>>=◌
abbrev pub ◌>>=◌ {ℓ κ} : {A : Type ℓ} {B : Type κ} → Option A → (A → Option B) → Option B
none >>= f = none
some a >>= f = f a

-- `raw === undefined ? 0 : Number(new TextDecoder().decode(raw))`.
abbrev pub count_of : Option Bytes → Option ℕ
count_of none = some 0
count_of (some raw) = number raw
