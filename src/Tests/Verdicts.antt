-- ===== src/Tests/Verdicts.antt =====
-- The cache of verdicts (verdict-cache.ts).
use wire_mesh.Prelude.{digits, ◌≡◌, refl, sym, List, [], ◌∷◌, none, Bytes, text_eq, decimal}
use wire_mesh.VerdictCache.{
  Computation, entry_at, with_entry, cost_of, bytes_key, bytes_key_from, bytes_key_length,
  bytes_key_length_from, append_chunks, from_char_code_chunk, evict, shared, begun, verdict, settle,
  keep, touch, create_verdict_cache,
}
use wire_mesh.VerdictCache.Budget.{IsSound, running_after}
use wire_mesh.VerdictCache.Runs.{
  World, ask, finish, Reach, here, next, created, Reach-IsSound, verdict-shared,
}

abbrev parts : List Bytes
parts = (7 ∷ 8 ∷ []) ∷ (9 ∷ []) ∷ []

abbrev first_computation : Computation
first_computation = record { id = 0; parts = parts }

-- After the first call: one computation runs, at 7 characters and the overhead.
abbrev asked : World
asked = ((verdict (create_verdict_cache 60) 0 parts).0, first_computation ∷ [])

key_example : bytes_key parts ≡ b'2' ∷ b':' ∷ 7 ∷ 8 ∷ b'1' ∷ b':' ∷ 9 ∷ []
unfolding bytes_key bytes_key_from append_chunks from_char_code_chunk decimal digits
key_example = refl

begun_first : (verdict (create_verdict_cache 60) 0 parts).1 ≡ begun first_computation
unfolding verdict create_verdict_cache cost_of bytes_key_length bytes_key_length_from decimal digits
    entry_at keep evict with_entry
begun_first = refl

asked_pending : (verdict (create_verdict_cache 60) 0 parts).0.pending ≡ 23
unfolding verdict create_verdict_cache cost_of bytes_key_length bytes_key_length_from decimal digits
    entry_at keep evict with_entry
asked_pending = refl

cost_example : cost_of parts ≡ 23
unfolding cost_of bytes_key_length bytes_key_length_from decimal digits
cost_example = refl

Reach-asked : Reach (created 60) asked
unfolding created
Reach-asked = next here (
    ask 0 parts
      (λ i. ((verdict (create_verdict_cache 60) 0 parts).0, running_after (sym begun_first i) [])))

-- One call, and the failure of its computation.
abbrev failed : World
failed = ((settle asked.0 first_computation none).0, [])

Reach-IsSound_example : IsSound failed.0 failed.1 × (failed.0.budget ≡ 60)
Reach-IsSound_example =
    Reach-IsSound 60 {w = failed} (next Reach-asked (finish [] [] first_computation none refl refl))

shared_next : (verdict asked.0 1 parts).1 ≡ shared first_computation
unfolding verdict create_verdict_cache cost_of bytes_key_length bytes_key_length_from decimal digits
    entry_at keep evict with_entry bytes_key bytes_key_from append_chunks from_char_code_chunk
    text_eq touch
shared_next = refl

verdict-shared_example : first_computation.parts ≡ parts
verdict-shared_example = verdict-shared 60 asked 1 parts first_computation Reach-asked shared_next
