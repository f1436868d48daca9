-- ===== src/Scope/Equality.antt =====
-- The byte comparison of token-scope.ts.
use wire_mesh.Prelude.{◌≡◌, ◌↔◌, refl, true, [], ◌∷◌, arith, Bytes, length}
use wire_mesh.Scope.{same_items, bytes_equal}

same_items_iff : (a b : Bytes) → length a ≡ length b → (same_items a b ≡ true) ↔ (a ≡ b)
unfolding same_items
same_items_iff [] [] h = ground arith
same_items_iff [] (y ∷ b) h = absurd (omega arith)
same_items_iff (x ∷ a) [] h = absurd (omega arith)
same_items_iff (x ∷ a) (y ∷ b) h = ground (arith, same_items_iff a b)

-- The byte comparison of the program decides equality.
pub bytes_equal_iff : (a b : Bytes) → (bytes_equal a b ≡ true) ↔ (a ≡ b)
unfolding bytes_equal
bytes_equal_iff a b = ground (arith, same_items_iff a b)

pub bytes_equal_refl : (a : Bytes) → bytes_equal a a ≡ true
bytes_equal_refl a = (bytes_equal_iff a a).1 refl
