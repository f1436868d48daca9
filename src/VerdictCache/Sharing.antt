-- ===== src/VerdictCache/Sharing.antt =====
-- Callers of verdict-cache.ts that ask about the same bytes share one computation.
use wire_mesh.Prelude.{
  ℕ, ◌+◌, ◌-◌, ◌≤◌, ◌≡◌, inl, inr, refl, sym, ap, ◌∙◌, true, false, List, [], ◌∷◌, ◌++◌, Option,
  none, some, Bytes, Text, text_eq_iff, text_eq_refl, leb, ltb, arith, Bool-cases,
}
use wire_mesh.VerdictCache.{
  Computation, Entry, VerdictCache, entry_at, cost_of, bytes_key, lookup_or_begin, evict, shared,
  begun, verdict, keep,
}
use wire_mesh.VerdictCache.Entries.{
  Entries, total_cost, keys_of, IsDistinct, with_entry_absent, append-IsDistinct, total_cost-append,
}
use wire_mesh.VerdictCache.Budget.{IsSound, verdict-IsSound, cache, forget_oldest}

-- The newest entry outlasts the eviction, if it fits by itself.
evict_last :
    (b p : ℕ) (front : Entries) (key : Text) (e : Entry)
    → e.cost ≤ b
    → IsDistinct (front ++ (key, e) ∷ [])
    → (kept : Entries) × ((evict
          (keys_of (front ++ (key, e) ∷ []))
          (cache b (front ++ (key, e) ∷ []) (total_cost (front ++ (key, e) ∷ [])) p)).entries
        ≡ kept ++ (key, e) ∷ [])
      × IsDistinct (kept ++ (key, e) ∷ [])
unfolding evict
evict_last b p [] key e fits d =
    ([], (let alone : leb (e.cost + 0) b ≡ true = ground arith in rw alone refl), d)
evict_last b p ((k, f) ∷ front) key e fits (fresh, d) =
    elim (Bool-cases (leb (f.cost + total_cost (front ++ (key, e) ∷ [])) b)) [
      | inl within ↦ ((k, f) ∷ front, rw within refl, (fresh, d))
      | inr over ↦
          let (kept, at, d') = evict_last b p front key e fits d in
          let left : f.cost + total_cost (front ++ (key, e) ∷ []) - f.cost
              ≡ total_cost (front ++ (key, e) ∷ []) =
            omega arith in
          (
            kept,
            rw
                (
                  over,
                  forget_oldest b p (f.cost + total_cost (front ++ (key, e) ∷ [])) k f
                      (front ++ (key, e) ∷ []) fresh,
                  left,
                )
                at,
            d',
          )
    ]

entry_at-last :
    (front : Entries) (key : Text) (e : Entry)
    → IsDistinct (front ++ (key, e) ∷ [])
    → entry_at (front ++ (key, e) ∷ []) key ≡ some e
unfolding entry_at
entry_at-last [] key e d = rw (text_eq_refl key) refl
entry_at-last ((k, f) ∷ front) key e (fresh, d) =
    ground (arith, entry_at-last front key e d, text_eq_iff k key)

entry_at-keep :
    (c : VerdictCache) (running : List Computation) (key : Text) (d : Computation) (cost : ℕ)
    → IsSound c running
    → entry_at c.entries key ≡ none
    → cost ≤ c.budget
    → entry_at (keep c key d cost).entries key ≡ some (record { settled = d; cost = cost })
unfolding keep
entry_at-keep c running key d cost h absent fits =
    let entry : Entry = record { settled = d; cost = cost } in
    let grown = c.entries ++ (key, entry) ∷ [] in
    let (kept, at, distinct) =
      evict_last c.budget (c.pending + cost) c.entries key entry fits
        (append-IsDistinct c.entries key entry absent h.distinct) in
    let spent : total_cost grown ≡ c.used + cost =
      omega (arith, h.used, total_cost-append c.entries key entry) in
    rw (with_entry_absent c.entries key entry absent) (
      ap (λ es. entry_at es key)
        (ap (λ u. (evict (keys_of grown) (cache c.budget grown u (c.pending + cost))).entries)
            (sym spent)
          ∙ at)
      ∙ entry_at-last kept key entry distinct)

-- What is known where a computation is begun.
record Begun (c : VerdictCache) (id : ℕ) (parts : List Bytes) (d : Computation) : Type 0 where
  pub names : d ≡ record { id = id; parts = parts }
  pub absent : entry_at c.entries (bytes_key parts) ≡ none
  pub fits : cost_of parts ≤ c.budget
  pub after : (verdict c id parts).0 ≡ keep c (bytes_key parts) d (cost_of parts)

lookup_begun :
    (c : VerdictCache) (id : ℕ) (parts : List Bytes) (d : Computation) (o : Option Entry)
    → (lookup_or_begin c id parts o).1 ≡ begun d
    → (d ≡ record { id = id; parts = parts })
      × (o ≡ none)
      × ((lookup_or_begin c id parts o).0 ≡ keep c (bytes_key parts) d (cost_of parts))
lookup_begun c id parts d none e =
    let same : record { id = id; parts = parts } ≡ d = cc in
    (sym same, refl, ap (λ (x : Computation). keep c (bytes_key parts) x (cost_of parts)) same)
lookup_begun c id parts d (some held) e = cc

verdict-begun :
    (c : VerdictCache) (id : ℕ) (parts : List Bytes) (d : Computation)
    → (verdict c id parts).1 ≡ begun d
    → Begun c id parts d
unfolding verdict
verdict-begun c id parts d e = elim (Bool-cases (ltb c.budget (cost_of parts))) [
  | inl large ↦ ground arith
  | inr small ↦ elim (Bool-cases (ltb c.budget (c.pending + cost_of parts))) [
    | inl busy ↦ ground arith
    | inr room ↦
        let (names, absent, after) =
          lookup_begun c id parts d (entry_at c.entries (bytes_key parts))
            (rw (small, room) at e) in
        record {
          names = names;
          absent = absent;
          fits = ground arith;
          after = rw (small, room) after;
        }
  ]
]

verdict-held :
    (c : VerdictCache) (id : ℕ) (parts : List Bytes) (held : Entry)
    → entry_at c.entries (bytes_key parts) ≡ some held
    → c.pending + cost_of parts ≤ c.budget
    → (verdict c id parts).1 ≡ shared held.settled
unfolding verdict
verdict-held c id parts held at room =
    let small : ltb c.budget (cost_of parts) ≡ false = ground arith in
    let free : ltb c.budget (c.pending + cost_of parts) ≡ false = ground arith in
    rw (small, free, at) refl

-- A caller that asks about bytes whose computation was just begun is given that computation, as
-- long as the computations that run leave room for its key.
pub verdict-verdict :
    (c : VerdictCache) (running : List Computation) (id id' : ℕ) (parts : List Bytes)
    (d : Computation)
    → IsSound c running
    → (verdict c id parts).1 ≡ begun d
    → (verdict c id parts).0.pending + cost_of parts ≤ c.budget
    → (verdict (verdict c id parts).0 id' parts).1 ≡ shared d
verdict-verdict c running id id' parts d h e room =
    let b = verdict-begun c id parts d e in
    verdict-held (verdict c id parts).0 id' parts (record { settled = d; cost = cost_of parts })
      (ap (λ (x : VerdictCache). entry_at x.entries (bytes_key parts)) b.after
        ∙ entry_at-keep c running (bytes_key parts) d (cost_of parts) h b.absent b.fits)
      (omega (arith, (verdict-IsSound c running id parts h).1))
