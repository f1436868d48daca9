-- ===== src/Bulk/Keys.antt =====
-- The keys of the cells that bulk.ts keeps of a transfer: no two of them are the same.
use wire_mesh.Prelude.{
  decimal-injective, append-eq-append, decimal, ℕ, ◌≡◌, ◌≢◌, refl, sym, ◌∙◌, false, ◌++◌, Bytes,
  Text, text, text_eq, arith, length,
}
use wire_mesh.DeviceId.Hex.{IsBytes, bytes_to_hex-injective, length-bytes_to_hex}
use wire_mesh.DataSync.Keys.{text_eq-ne}
use wire_mesh.Bulk.{transfer_id_hex, cell_key}

-- What the schema of a transfer id admits: 16 bytes.
pub record IsTransferId (id : Bytes) : Type 0 where
  pub bytes : IsBytes id
  pub size : length id ≡ 16

pub transfer_id_hex-injective :
    (p q : Bytes) → IsTransferId p → IsTransferId q → transfer_id_hex p ≡ transfer_id_hex q → p ≡ q
unfolding transfer_id_hex
transfer_id_hex-injective p q hp hq e = bytes_to_hex-injective p q hp.bytes hq.bytes e

length-transfer_id_hex : (p : Bytes) → IsTransferId p → length (transfer_id_hex p) ≡ 32
unfolding transfer_id_hex
length-transfer_id_hex p h = omega (arith, length-bytes_to_hex p, h.size)

pub text_eq-transfer_id_hex :
    (p q : Bytes)
    → IsTransferId p
    → IsTransferId q
    → p ≢ q
    → text_eq (transfer_id_hex p) (transfer_id_hex q) ≡ false
text_eq-transfer_id_hex p q hp hq ne =
    text_eq-ne _ _ (λ e. ne (transfer_id_hex-injective p q hp hq e))

-- Cells of two transfers, or two cells of one, have different keys.
pub text_eq-cell_key :
    (p q : Bytes) (s t : Text)
    → IsTransferId p
    → IsTransferId q
    → (p ≡ q → s ≢ t)
    → text_eq (cell_key (transfer_id_hex p) s) (cell_key (transfer_id_hex q) t) ≡ false
unfolding cell_key
text_eq-cell_key p q s t hp hq ne = text_eq-ne _ _ (λ e.
    let rest = (append-eq-append (text "bulk/") (text "bulk/") _ _ refl e).1 in
    let same =
      append-eq-append (transfer_id_hex p) (transfer_id_hex q) s t
        (length-transfer_id_hex p hp ∙ sym (length-transfer_id_hex q hq)) rest in
    ne (transfer_id_hex-injective p q hp hq same.0) same.1)

pub chunk-ne : (n m : ℕ) → n ≢ m → text "/chunk/" ++ decimal n ≢ text "/chunk/" ++ decimal m
chunk-ne n m ne e =
    ne (decimal-injective (append-eq-append (text "/chunk/") (text "/chunk/") _ _ refl e).1)

pub ack_seq-chunk : (n : ℕ) → text "/ack-seq" ≢ text "/chunk/" ++ decimal n
ack_seq-chunk n e = ground arith

pub window-chunk : (n : ℕ) → text "/window" ≢ text "/chunk/" ++ decimal n
window-chunk n e = ground arith

pub ack_seq-window : text "/ack-seq" ≢ text "/window"
ack_seq-window e = ground arith
