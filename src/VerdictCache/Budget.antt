-- ===== src/VerdictCache/Budget.antt =====
-- The budget of verdict-cache.ts: whatever is asked, neither the entries nor the computations still running
-- cost more than it.
use wire_mesh.Prelude.{
  ℕ, ◌+◌, ◌-◌, ◌≤◌, ◌≡◌, inl, inr, refl, ap, ◌∙◌, List, [], ◌∷◌, ◌++◌, Option, none, some, Bytes,
  Text, text_eq_refl, leb, ltb, All, arith, Bool-cases, subst, All-append,
}
use wire_mesh.VerdictCache.{
  Computation, Entry, VerdictCache, entry_at, without, cost_of, bytes_key, forget, lookup_or_begin,
  evict, Answer, begun, verdict, keep, touch,
}
use wire_mesh.VerdictCache.Entries.{
  Entries, total_cost, keys_of, IsDistinct, IsKeyed, entry_at-without, without_absent,
  with_entry_absent, without-IsDistinct, append-IsDistinct, total_cost-without, total_cost-append,
  All-without, entry_at-All, All-suffix, suffix-IsDistinct,
}

abbrev pub running_cost : List Computation → ℕ
running_cost [] = 0
running_cost (d ∷ running) = cost_of d.parts + running_cost running

pub record IsSound (c : VerdictCache) (running : List Computation) : Type 0 where
  pub used : c.used ≡ total_cost c.entries
  pub within : c.used ≤ c.budget
  pub pending : c.pending ≡ running_cost running
  pub pending_within : c.pending ≤ c.budget
  pub distinct : IsDistinct c.entries
  pub keyed : All IsKeyed c.entries

abbrev pub cache : ℕ → Entries → ℕ → ℕ → VerdictCache
cache b entries u p = record { budget = b; entries = entries; used = u; pending = p }

-- Entries go from the front until the rest fits.
record Evicted (b : ℕ) (entries : Entries) (p : ℕ) (c : VerdictCache) : Type 0 where
  pub budget : c.budget ≡ b
  pub pending : c.pending ≡ p
  pub used : c.used ≡ total_cost c.entries
  pub within : c.used ≤ b
  pub rest : (dropped : Entries) × (entries ≡ dropped ++ c.entries)

pub forget_oldest :
    (b p u : ℕ) (k : Text) (e : Entry) (entries : Entries)
    → entry_at entries k ≡ none
    → forget (cache b ((k, e) ∷ entries) u p) k ≡ cache b entries (u - e.cost) p
unfolding forget entry_at without
forget_oldest b p u k e entries fresh =
    ground (arith, text_eq_refl k, without_absent entries k fresh)

evict_lem :
    (b p : ℕ) (entries : Entries)
    → IsDistinct entries
    → Evicted b entries p (evict (keys_of entries) (cache b entries (total_cost entries) p))
unfolding evict
evict_lem b p [] d = record {
  budget = refl;
  pending = refl;
  used = refl;
  within = omega arith;
  rest = ([], refl);
}
evict_lem b p ((k, e) ∷ entries) (fresh, d) =
    elim (Bool-cases (leb (e.cost + total_cost entries) b)) [
      | inl fits ↦ rw fits (record {
        budget = refl;
        pending = refl;
        used = refl;
        within = ground arith;
        rest = ([], refl);
      })
      | inr over ↦
          let h = evict_lem b p entries d in
          let left : e.cost + total_cost entries - e.cost ≡ total_cost entries = omega arith in
          rw (over, forget_oldest b p (e.cost + total_cost entries) k e entries fresh, left)
            (record {
              budget = h.budget;
              pending = h.pending;
              used = h.used;
              within = h.within;
              rest = ((k, e) ∷ h.rest.0, ap (◌∷◌ (k, e)) h.rest.1);
            })
    ]

keep_lem :
    (c : VerdictCache) (running : List Computation) (key : Text) (d : Computation) (cost : ℕ)
    → IsSound c running
    → entry_at c.entries key ≡ none
    → Evicted c.budget
        (c.entries ++ (key, record { settled = d; cost = cost }) ∷ [])
        (c.pending + cost)
        (keep c key d cost)
unfolding keep
keep_lem c running key d cost h absent =
    let entry : Entry = record { settled = d; cost = cost } in
    let grown = c.entries ++ (key, entry) ∷ [] in
    rw (with_entry_absent c.entries key entry absent) (
      subst
        (λ u.
          Evicted c.budget grown (c.pending + cost)
            (evict (keys_of grown) (cache c.budget grown u (c.pending + cost))))
        (omega (arith, h.used, total_cost-append c.entries key entry))
        (evict_lem c.budget (c.pending + cost) grown
          (append-IsDistinct c.entries key entry absent h.distinct)))

-- The computations that run after a call.
abbrev pub running_after : Answer → List Computation → List Computation
running_after (begun d) running = d ∷ running
running_after _ running = running

touch-IsSound :
    (c : VerdictCache) (running : List Computation) (key : Text) (held : Entry)
    → entry_at c.entries key ≡ some held
    → IsSound c running
    → IsSound (touch c key held) running
unfolding touch
touch-IsSound c running key held at h =
    let gone : entry_at (without c.entries key) key ≡ none =
      entry_at-without c.entries key key ∙ (rw (text_eq_refl key)) in
    let e = with_entry_absent (without c.entries key) key held gone in
    record {
      used = omega (
        arith,
        h.used,
        ap total_cost e,
        total_cost-append (without c.entries key) key held,
        total_cost-without c.entries key held h.distinct at,
      );
      within = h.within;
      pending = h.pending;
      pending_within = h.pending_within;
      distinct = rw e (
          append-IsDistinct (without c.entries key) key held gone
            (without-IsDistinct c.entries key h.distinct));
      keyed = rw e (
          All-append IsKeyed (without c.entries key) _ (All-without IsKeyed c.entries key h.keyed)
            (entry_at-All IsKeyed c.entries key held at h.keyed, tt));
    }

keep-IsSound :
    (c : VerdictCache) (running : List Computation) (d : Computation)
    → entry_at c.entries (bytes_key d.parts) ≡ none
    → c.pending + cost_of d.parts ≤ c.budget
    → IsSound c running
    → IsSound (keep c (bytes_key d.parts) d (cost_of d.parts)) (d ∷ running)
keep-IsSound c running d absent room h =
    let k = keep_lem c running (bytes_key d.parts) d (cost_of d.parts) h absent in
    let entry : Entry = record { settled = d; cost = cost_of d.parts } in
    let key = bytes_key d.parts in
    let grown = c.entries ++ (key, entry) ∷ [] in
    let (dropped, e) = k.rest in
    record {
      used = k.used;
      within = omega (arith, k.within, k.budget);
      pending = omega (arith, k.pending, h.pending);
      pending_within = omega (arith, k.pending, k.budget);
      distinct =
          suffix-IsDistinct dropped _
            (subst IsDistinct e (append-IsDistinct c.entries key entry absent h.distinct));
      keyed =
          All-suffix IsKeyed dropped _
            (subst (All IsKeyed) e (All-append IsKeyed c.entries _ h.keyed ((refl, refl), tt)));
    }

lookup_or_begin-IsSound :
    (c : VerdictCache) (running : List Computation) (id : ℕ) (parts : List Bytes) (o : Option Entry)
    → entry_at c.entries (bytes_key parts) ≡ o
    → c.pending + cost_of parts ≤ c.budget
    → IsSound c running
    → IsSound
        (lookup_or_begin c id parts o).0
        (running_after (lookup_or_begin c id parts o).1 running)
      × ((lookup_or_begin c id parts o).0.budget ≡ c.budget)
unfolding touch
lookup_or_begin-IsSound c running id parts none at room h =
    let d : Computation = record { id = id; parts = parts } in
    (
      keep-IsSound c running d at room h,
      (keep_lem c running (bytes_key parts) d (cost_of parts) h at).budget,
    )
lookup_or_begin-IsSound c running id parts (some held) at room h =
    (touch-IsSound c running (bytes_key parts) held at h, refl)

pub verdict-IsSound :
    (c : VerdictCache) (running : List Computation) (id : ℕ) (parts : List Bytes)
    → IsSound c running
    → IsSound (verdict c id parts).0 (running_after (verdict c id parts).1 running)
      × ((verdict c id parts).0.budget ≡ c.budget)
unfolding verdict
verdict-IsSound c running id parts h = elim (Bool-cases (ltb c.budget (cost_of parts))) [
  | inl large ↦ rw large (h, refl)
  | inr small ↦ elim (Bool-cases (ltb c.budget (c.pending + cost_of parts))) [
    | inl busy ↦ rw (small, busy) (h, refl)
    | inr room ↦
        rw (small, room)
          (lookup_or_begin-IsSound c running id parts (entry_at c.entries (bytes_key parts)) refl
            (ground arith) h)
  ]
]
