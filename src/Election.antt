-- ===== src/Election.antt =====
-- ts/packages/core/src/domain/coordinator-election.ts: the gossiped election of a coordinator.
-- A throw is `none`; terms are the non-negative integers that the frame's schema admits.
pub mod Agreement
use wire_mesh.Prelude.{
  ℕ, ◌+◌, Bool, true, false, not, ◌&&◌, ◌||◌, [], ◌∷◌, Option, none, some, Bytes, leb, ltb, ◌==◌,
  if◌then◌else◌,
}

-- The sign of the number that `compareDeviceIds` returns.
pub data Sign : Type 0 where
  negative same positive : Sign

-- The loop over the common length, then the difference of the lengths.
unfoldable pub compare_device_ids : Bytes → Bytes → Sign
compare_device_ids [] [] = same
compare_device_ids [] (y ∷ b) = negative
compare_device_ids (x ∷ a) [] = positive
compare_device_ids (x ∷ a) (y ∷ b) =
    if x == y then compare_device_ids a b else if ltb x y then negative else positive

-- `Number.MAX_SAFE_INTEGER`.
abbrev pub max_safe_integer : ℕ
max_safe_integer = 9007199254740991

-- For a non-negative integer: it is safe, and below the largest safe one.
unfoldable pub is_supersedable_term : ℕ → Bool
is_supersedable_term term = leb term max_safe_integer && ltb term max_safe_integer

-- `CoordinatorClaim`, and the frame that carries it.
pub record CoordinatorClaim : Type 0 where
  pub term : ℕ
  pub coordinator : Bytes
  pub capacity_hint : Option ℕ

pub record CoordinatorElection : Type 0 where
  pub own_device : Bytes
  pub incumbent : Option CoordinatorClaim

abbrev is_same : Sign → Bool
is_same same = true
is_same _ = false

abbrev pub is_negative : Sign → Bool
is_negative negative = true
is_negative _ = false

abbrev held_by : Option CoordinatorClaim → Bytes → Bool
held_by none device = false
held_by (some c) device = is_same (compare_device_ids c.coordinator device)

unfoldable pub is_self : CoordinatorElection → Bool
is_self e = held_by e.incumbent e.own_device

-- `(this.incumbent?.term ?? -1) + 1`.
abbrev pub next_term : Option CoordinatorClaim → ℕ
next_term none = 0
next_term (some c) = c.term + 1

unfoldable pub claim :
    CoordinatorElection → Option ℕ → Option (CoordinatorElection × CoordinatorClaim)
claim e hint =
    let frame : CoordinatorClaim = record {
      term = next_term e.incumbent;
      coordinator = e.own_device;
      capacity_hint = hint;
    } in
    if is_supersedable_term (next_term e.incumbent)
    then some (record e { incumbent = some frame }, frame)
    else none

unfoldable pub announce_current : CoordinatorElection → Option CoordinatorClaim
announce_current e = e.incumbent

pub data EvaluationOutcome : Type 0 where
  accepted retained : CoordinatorClaim → EvaluationOutcome
  rejected : EvaluationOutcome

-- The incoming claim takes the role from the one held.
unfoldable pub supersedes : CoordinatorClaim → Option CoordinatorClaim → Bool
supersedes frame none = true
supersedes frame (some p) =
    ltb p.term frame.term
    || (frame.term == p.term && is_negative (compare_device_ids frame.coordinator p.coordinator))

abbrev retain : CoordinatorElection → CoordinatorClaim → Option CoordinatorClaim → EvaluationOutcome
retain e frame none = accepted frame
retain e frame (some p) = retained p

unfoldable pub evaluate :
    CoordinatorElection → CoordinatorClaim → CoordinatorElection × EvaluationOutcome
evaluate e frame =
    if not (is_supersedable_term frame.term)
    then (e, rejected)
    else if supersedes frame e.incumbent
    then (record e { incumbent = some frame }, accepted frame)
    else (e, retain e frame e.incumbent)
