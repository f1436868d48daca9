-- ===== src/VerdictCache/Keys.antt =====
-- The keys of verdict-cache.ts: as long as `bytesKeyLength` says, and equal for equal parts only.
use wire_mesh.Prelude.{
  ℕ, zero, suc, ◌+◌, ◌<◌, ◌≤◌, ◌≡◌, ◌≢◌, inl, inr, refl, sym, ap, ◌∙◌, List, [], ◌∷◌, ◌++◌, Bytes,
  Text, ltb, All, arith, Bool-cases, length, append_assoc, append-nil, length-append, take, drop,
  take_append-drop, append-eq-append, drop_of_length-le, drop-drop, decimal-below, decimal,
  decimal-injective,
}
use wire_mesh.VerdictCache.{
  bytes_key_length_from, bytes_key_length, append_chunks, bytes_key_from, bytes_key,
  from_char_code_chunk,
}

abbrev prefixed : Bytes → Text
prefixed part = decimal (length part) ++ b':' ∷ part

-- The key without its loops.
key_of : List Bytes → Text
key_of [] = []
key_of (part ∷ parts) = prefixed part ++ key_of parts

chunk_pos : 0 < from_char_code_chunk
unfolding from_char_code_chunk
chunk_pos = omega arith

append_chunks_lem :
    (rounds : ℕ) (part : Bytes) (start : ℕ) (key : Text)
    → length part ≤ start + rounds
    → append_chunks rounds part start key ≡ key ++ drop start part
unfolding append_chunks
append_chunks_lem zero part start key h =
    sym (append-nil key) ∙ ap (◌++◌ key) (sym (drop_of_length-le start part (omega arith)))
append_chunks_lem (suc rounds) part start key h = elim (Bool-cases (ltb start (length part))) [
  | inl more ↦ rw more (
      append_chunks_lem rounds part (start + from_char_code_chunk)
        (key ++ take from_char_code_chunk (drop start part)) (omega (arith, chunk_pos))
      ∙ append_assoc key _ _
      ∙ ap (◌++◌ key) (
          ap (◌++◌ (take from_char_code_chunk (drop start part)))
            (sym (drop-drop start from_char_code_chunk part))
          ∙ take_append-drop from_char_code_chunk (drop start part)))
  | inr over ↦
      rw over
        (sym (append-nil key) ∙ ap (◌++◌ key) (sym (drop_of_length-le start part (ground arith))))
]

bytes_key_from_lem :
    (parts : List Bytes) (key : Text) → bytes_key_from key parts ≡ key ++ key_of parts
unfolding bytes_key_from key_of
bytes_key_from_lem [] key = sym (append-nil key)
bytes_key_from_lem (part ∷ parts) key =
    bytes_key_from_lem parts _
    ∙ (rw
        (append_chunks_lem (length part) part 0 (key ++ (decimal (length part) ++ b':' ∷ []))
          (omega arith))
        (simp append_assoc))

bytes_key-eq : (parts : List Bytes) → bytes_key parts ≡ key_of parts
unfolding bytes_key
bytes_key-eq parts = bytes_key_from_lem parts []

key_length_from :
    (parts : List Bytes) (total : ℕ)
    → bytes_key_length_from total parts ≡ total + length (key_of parts)
unfolding bytes_key_length_from key_of
key_length_from [] total = omega arith
key_length_from (part ∷ parts) total = omega (
  arith,
  key_length_from parts (total + (length (decimal (length part)) + 1 + length part)),
  length-append (prefixed part) (key_of parts),
  length-append (decimal (length part)) (b':' ∷ part),
)

-- A key is as long as was computed from the lengths of its parts before it was built.
pub length-bytes_key : (parts : List Bytes) → length (bytes_key parts) ≡ bytes_key_length parts
unfolding bytes_key_length
length-bytes_key parts = omega (arith, ap length (bytes_key-eq parts), key_length_from parts 0)

-- A number's digits end where a colon stands.
nil-ne-prefixed : (p : Bytes) (rest : Text) → [] ≢ prefixed p ++ rest
nil-ne-prefixed p rest e = omega (
  arith,
  ap length e,
  length-append (prefixed p) rest,
  length-append (decimal (length p)) (b':' ∷ p),
)

digits-colon :
    (s t u v : Text)
    → All (λ c. c < b':') s
    → All (λ c. c < b':') t
    → s ++ b':' ∷ u ≡ t ++ b':' ∷ v
    → (s ≡ t) × (u ≡ v)
digits-colon [] [] u v hs ht e = (refl, cc)
digits-colon [] (d ∷ t) u v hs ht e = ground arith
digits-colon (c ∷ s) [] u v hs ht e = ground arith
digits-colon (c ∷ s) (d ∷ t) u v hs ht e = ground (arith, digits-colon s t u v)

key_of-injective : (a b : List Bytes) → key_of a ≡ key_of b → a ≡ b
unfolding key_of
key_of-injective [] [] e = refl
key_of-injective [] (q ∷ b) e = absurd (nil-ne-prefixed q (key_of b) e)
key_of-injective (p ∷ a) [] e = absurd (nil-ne-prefixed p (key_of a) (sym e))
key_of-injective (p ∷ a) (q ∷ b) e =
    let at =
      digits-colon (decimal (length p)) (decimal (length q)) (p ++ key_of a) (q ++ key_of b)
        (decimal-below (length p)) (decimal-below (length q))
        (sym (append_assoc (decimal (length p)) (b':' ∷ p) (key_of a))
          ∙ e
          ∙ append_assoc (decimal (length q)) (b':' ∷ q) (key_of b)) in
    let same = append-eq-append p q (key_of a) (key_of b) (decimal-injective at.0) at.1 in
    let rest = key_of-injective a b same.1 in λ i. same.0 i ∷ rest i

-- Two keys are equal only where all the parts are: no bytes shift from one part to the next.
pub bytes_key-injective : (a b : List Bytes) → bytes_key a ≡ bytes_key b → a ≡ b
bytes_key-injective a b e = key_of-injective a b (sym (bytes_key-eq a) ∙ e ∙ bytes_key-eq b)
