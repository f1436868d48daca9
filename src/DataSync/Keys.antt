-- ===== src/DataSync/Keys.antt =====
-- The keys of data-sync.ts name one cell each: none of a device's entries shares a key with another
-- entry, or with a head.
use wire_mesh.Prelude.{
  decimal-injective, append-eq-append, decimal, ℕ, ◌≡◌, ◌≢◌, refl, sym, ◌∙◌, false, ◌++◌, Bytes,
  Text, text, text_eq, text_eq_iff, arith, length,
}
use wire_mesh.DeviceId.{device_id_to_hex}
use wire_mesh.DeviceId.Hex.{IsBytes, bytes_to_hex-injective, length-bytes_to_hex}
use wire_mesh.DataSync.{head_key, entry_key}

-- What the schema of a device id admits: 32 bytes.
pub record IsDeviceId (device : Bytes) : Type 0 where
  pub bytes : IsBytes device
  pub size : length device ≡ 32

pub length-device_id_to_hex : (p : Bytes) → IsDeviceId p → length (device_id_to_hex p) ≡ 64
unfolding device_id_to_hex
length-device_id_to_hex p h = omega (arith, length-bytes_to_hex p)

pub device_id_to_hex-injective :
    (p q : Bytes) → IsDeviceId p → IsDeviceId q → device_id_to_hex p ≡ device_id_to_hex q → p ≡ q
unfolding device_id_to_hex
device_id_to_hex-injective p q hp hq e = bytes_to_hex-injective p q hp.bytes hq.bytes e

-- Two keys under one prefix hold the same device and the same rest.
pub device_key-injective :
    (prefix : Text) (p q : Bytes) (s t : Text)
    → IsDeviceId p
    → IsDeviceId q
    → prefix ++ (device_id_to_hex p ++ s) ≡ prefix ++ (device_id_to_hex q ++ t)
    → (p ≡ q) × (s ≡ t)
device_key-injective prefix p q s t hp hq e =
    let rest = (append-eq-append prefix prefix _ _ refl e).1 in
    let same =
      append-eq-append (device_id_to_hex p) (device_id_to_hex q) s t
        (length-device_id_to_hex p hp ∙ sym (length-device_id_to_hex q hq)) rest in
    (device_id_to_hex-injective p q hp hq same.0, same.1)

pub text_eq-ne : (s t : Text) → s ≢ t → text_eq s t ≡ false
text_eq-ne s t h = ground (arith, text_eq_iff s t)

absurd_text : (n : ℕ) → text "/entry/" ++ decimal n ≡ text "/head" → ⊥
absurd_text n e = ground arith

module _ (p q : Bytes) (hp : IsDeviceId p) (hq : IsDeviceId q) where
  pub text_eq-head_key : p ≢ q → text_eq (head_key p) (head_key q) ≡ false
  unfolding head_key
  text_eq-head_key ne =
      text_eq-ne _ _ (λ e. ne (device_key-injective (text "data/") p q _ _ hp hq e).0)

  pub text_eq-entry_key-head_key : (n : ℕ) → text_eq (entry_key p n) (head_key q) ≡ false
  unfolding entry_key head_key
  text_eq-entry_key-head_key n =
      text_eq-ne _ _ (λ e. absurd_text n (device_key-injective (text "data/") p q _ _ hp hq e).1)

  pub text_eq-head_key-entry_key : (n : ℕ) → text_eq (head_key p) (entry_key q n) ≡ false
  unfolding entry_key head_key
  text_eq-head_key-entry_key n =
      text_eq-ne _ _
        (λ e. absurd_text n (sym (device_key-injective (text "data/") p q _ _ hp hq e).1))

  pub text_eq-entry_key :
      (n m : ℕ) → (p ≡ q → n ≢ m) → text_eq (entry_key p n) (entry_key q m) ≡ false
  unfolding entry_key
  text_eq-entry_key n m ne = text_eq-ne _ _ (λ e.
      let same = device_key-injective (text "data/") p q _ _ hp hq e in
      ne same.0
        (decimal-injective (append-eq-append (text "/entry/") (text "/entry/") _ _ refl same.1).1))
