-- ===== src/VerdictCache/Runs.antt =====
-- Runs of verdict-cache.ts: callers ask and computations settle, in any order.
use wire_mesh.Prelude.{
  ℕ, ◌+◌, ◌≡◌, inl, inr, refl, sym, ap, ◌∙◌, Bool, List, [], ◌∷◌, ◌++◌, Option, none, some, Bytes,
  ltb, arith, Bool-cases, subst,
}
use wire_mesh.VerdictCache.{
  Computation, Entry, VerdictCache, entry_at, cost_of, bytes_key, lookup_or_begin, shared, verdict,
  settle, create_verdict_cache,
}
use wire_mesh.VerdictCache.Keys.{bytes_key-injective}
use wire_mesh.VerdictCache.Entries.{IsKeyed, entry_at-All}
use wire_mesh.VerdictCache.Budget.{IsSound, running_after, verdict-IsSound}
use wire_mesh.VerdictCache.Settling.{settle-IsSound}

-- A cache, and the computations that it began and that have not settled.
abbrev pub World : Type 0
World = VerdictCache × List Computation

-- A caller asks, or any of the running computations settles.
pub data Step (w w' : World) : Type 0 where
  ask :
      (id : ℕ) (parts : List Bytes)
      → w' ≡ ((verdict w.0 id parts).0, running_after (verdict w.0 id parts).1 w.1)
      → Step w w'
  finish :
      (before after : List Computation) (d : Computation) (outcome : Option Bool)
      → w.1 ≡ before ++ d ∷ after
      → w' ≡ ((settle w.0 d outcome).0, before ++ after)
      → Step w w'

pub data Reach (w : World) : World → Type 0 where
  here : Reach w w
  next : {v u : World} → Reach w v → Step v u → Reach w u

Step-IsSound :
    {w w' : World} → Step w w' → IsSound w.0 w.1 → IsSound w'.0 w'.1 × (w'.0.budget ≡ w.0.budget)
Step-IsSound {w} {w'} (ask id parts e) h =
    subst (λ (v : World). IsSound v.0 v.1 × (v.0.budget ≡ w.0.budget)) (sym e)
      (verdict-IsSound w.0 w.1 id parts h)
Step-IsSound {w} {w'} (finish before after d outcome at e) h =
    subst (λ (v : World). IsSound v.0 v.1 × (v.0.budget ≡ w.0.budget)) (sym e)
      (settle-IsSound w.0 before after d outcome (subst (IsSound w.0) at h))

unfoldable pub created : ℕ → World
created budget = (create_verdict_cache budget, [])

-- Whatever is asked and in whatever order computations settle: the entries cost what is recorded,
-- at most the budget; so do the computations still running; and every entry stands under the key of
-- the bytes that its computation is about.
pub Reach-IsSound :
    (budget : ℕ) {w : World} → Reach (created budget) w → IsSound w.0 w.1 × (w.0.budget ≡ budget)
unfolding create_verdict_cache created
Reach-IsSound budget here = (
  record {
    used = refl;
    within = omega arith;
    pending = refl;
    pending_within = omega arith;
    distinct = tt;
    keyed = tt;
  },
  refl,
)
Reach-IsSound budget (next r st) =
    let (h, e) = Reach-IsSound budget r in let (h', e') = Step-IsSound st h in (h', e' ∙ e)

lookup_shared :
    (c : VerdictCache) (running : List Computation) (id : ℕ) (parts : List Bytes) (d : Computation)
    (o : Option Entry)
    → entry_at c.entries (bytes_key parts) ≡ o
    → IsSound c running
    → (lookup_or_begin c id parts o).1 ≡ shared d
    → d.parts ≡ parts
lookup_shared c running id parts d none at h e = cc
lookup_shared c running id parts d (some held) at h e =
    let same : held.settled ≡ d = cc in
    sym (
      bytes_key-injective parts d.parts (
        (entry_at-All IsKeyed c.entries (bytes_key parts) held at h.keyed).0
        ∙ ap (λ (x : Computation). bytes_key x.parts) same))

-- In any run, a caller that is given another's computation is given one about the very bytes it
-- asked about: no verdict is ever taken for that of other bytes.
pub verdict-shared :
    (budget : ℕ) (w : World) (id : ℕ) (parts : List Bytes) (d : Computation)
    → Reach (created budget) w
    → (verdict w.0 id parts).1 ≡ shared d
    → d.parts ≡ parts
unfolding verdict
verdict-shared budget w id parts d r e = elim (Bool-cases (ltb w.0.budget (cost_of parts))) [
  | inl large ↦ ground arith
  | inr small ↦ elim (Bool-cases (ltb w.0.budget (w.0.pending + cost_of parts))) [
    | inl busy ↦ ground arith
    | inr room ↦
        lookup_shared w.0 w.1 id parts d (entry_at w.0.entries (bytes_key parts)) refl
          (Reach-IsSound budget r).0 (rw (small, room) at e)
  ]
]
