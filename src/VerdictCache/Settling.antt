-- ===== src/VerdictCache/Settling.antt =====
-- The budget of verdict-cache.ts when a computation settles.
use wire_mesh.Prelude.{
  ◌+◌, ◌-◌, ◌≡◌, refl, Bool, List, [], ◌∷◌, ◌++◌, Option, none, some, Text, arith,
}
use wire_mesh.VerdictCache.{
  Computation, Entry, VerdictCache, entry_at, cost_of, bytes_key, forget, forget_entry, settle,
}
use wire_mesh.VerdictCache.Entries.{IsKeyed, without-IsDistinct, total_cost-without, All-without}
use wire_mesh.VerdictCache.Budget.{running_cost, IsSound}

forget_entry-IsSound :
    (c : VerdictCache) (running : List Computation) (key : Text) (o : Option Entry)
    → entry_at c.entries key ≡ o
    → IsSound c running
    → IsSound (forget_entry c key o) running × ((forget_entry c key o).budget ≡ c.budget)
forget_entry-IsSound c running key none at h = (h, refl)
forget_entry-IsSound c running key (some e) at h = (
  record {
    used = omega (arith, h.used, total_cost-without c.entries key e h.distinct at);
    within = omega (arith, h.within);
    pending = h.pending;
    pending_within = h.pending_within;
    distinct = without-IsDistinct c.entries key h.distinct;
    keyed = All-without IsKeyed c.entries key h.keyed;
  },
  refl,
)

running_cost-append :
    (xs ys : List Computation) → running_cost (xs ++ ys) ≡ running_cost xs + running_cost ys
running_cost-append [] ys = omega arith
running_cost-append (x ∷ xs) ys = omega (arith, running_cost-append xs ys)

retire-IsSound :
    (c : VerdictCache) (before after : List Computation) (d : Computation)
    → IsSound c (before ++ d ∷ after)
    → IsSound (record c { pending = c.pending - cost_of d.parts }) (before ++ after)
retire-IsSound c before after d h = record {
  used = h.used;
  within = h.within;
  pending =
      omega (
        arith,
        h.pending,
        running_cost-append before (d ∷ after),
        running_cost-append before after,
      );
  pending_within = omega (arith, h.pending_within);
  distinct = h.distinct;
  keyed = h.keyed;
}

pub settle-IsSound :
    (c : VerdictCache) (before after : List Computation) (d : Computation) (outcome : Option Bool)
    → IsSound c (before ++ d ∷ after)
    → IsSound (settle c d outcome).0 (before ++ after) × ((settle c d outcome).0.budget ≡ c.budget)
unfolding settle forget
settle-IsSound c before after d none h =
    let key = bytes_key d.parts in
    let (h', same) =
      forget_entry-IsSound c (before ++ d ∷ after) key (entry_at c.entries key) refl h in
    (retire-IsSound _ before after d h', same)
settle-IsSound c before after d (some b) h = (retire-IsSound c before after d h, refl)
