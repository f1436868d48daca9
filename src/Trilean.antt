-- ===== src/Trilean.antt =====
-- The predicate evaluator of the package trilean, as ts/packages/core/src/domain/token-predicates.ts
-- uses it. The evaluator is a parameter (`Trilean`); what the code relies on is `IsKleene`.
use wire_mesh.Prelude.{
  ◌≡◌, Bool, true, false, not, List, [], ◌∷◌, Option, none, some, Bytes, Text, if◌then◌else◌,
}

-- A JSON payload: null, a string, or any other value by its encoding.
pub data Json : Type 0 where
  null : Json
  string : Text → Json
  other_json : Bytes → Json

-- The value that a delegate resolves to: a boolean, or any other kind by its encoding.
pub data ComputedValue : Type 0 where
  boolean : Bool → ComputedValue
  other_value : Bytes → ComputedValue

pub data Resolution : Type 0 where
  not_found : Resolution
  found : ComputedValue → Resolution

pub data Evaluation : Type 0 where
  definite : Bool → Evaluation
  indeterminate : Evaluation

abbrev pub boolean_found : Bool → Resolution
boolean_found b = found (boolean b)

abbrev pub Resolver : Type 0
Resolver = Text → Json → Resolution

-- The package trilean: its node types, the nodes that this module builds, and the evaluator.
pub record Trilean : Type 1 where
  pub Node : Type 0
  pub Expression : Type 0
  pub compare_eq : Expression → Expression → Node
  pub not_node : Node → Node
  pub and_node : Node → Node → Node
  pub delegate : Text → Json → Expression
  pub boolean_literal : Bool → Expression
  pub evaluate : Node → Resolver → Evaluation

abbrev pub same_bool : Bool → Bool → Bool
same_bool true b = b
same_bool false b = not b

abbrev pub kleene_not : Evaluation → Evaluation
kleene_not (definite b) = definite (not b)
kleene_not indeterminate = indeterminate

abbrev pub kleene_and : Evaluation → Evaluation → Evaluation
kleene_and (definite false) b = definite false
kleene_and (definite true) b = b
kleene_and indeterminate (definite false) = definite false
kleene_and indeterminate (definite true) = indeterminate
kleene_and indeterminate indeterminate = indeterminate

-- What trilean documents of these nodes: a delegate is compared by its resolved value, a missing
-- one is indeterminate, and the connectives are the strong Kleene ones.
pub record IsKleene (t : Trilean) : Type 0 where
  pub compare_found :
      (system : Text) (payload : Json) (resolve : Resolver) (a b : Bool)
      → resolve system payload ≡ found (boolean a)
      → t.evaluate (t.compare_eq (t.delegate system payload) (t.boolean_literal b)) resolve
        ≡ definite (same_bool a b)
  pub compare_missing :
      (system : Text) (payload : Json) (resolve : Resolver) (b : Bool)
      → resolve system payload ≡ not_found
      → t.evaluate (t.compare_eq (t.delegate system payload) (t.boolean_literal b)) resolve
        ≡ indeterminate
  pub evaluate_not :
      (a : t.Node) (resolve : Resolver)
      → t.evaluate (t.not_node a) resolve ≡ kleene_not (t.evaluate a resolve)
  pub evaluate_and :
      (a b : t.Node) (resolve : Resolver)
      → t.evaluate (t.and_node a b) resolve
        ≡ kleene_and (t.evaluate a resolve) (t.evaluate b resolve)

-- `firstAsync` of sequential.ts, for a predicate that always settles.
unfoldable pub first {ℓ} : {A : Type ℓ} → (A → Bool) → List A → Option A
first p [] = none
first p (x ∷ xs) = if p x then some x else first p xs

abbrev pub is_unsatisfied : Evaluation → Bool
is_unsatisfied (definite b) = not b
is_unsatisfied indeterminate = true

module _ (t : Trilean) where
  unfoldable pub delegate_is_true : Text → Json → t.Node
  delegate_is_true system payload =
      t.compare_eq (t.delegate system payload) (t.boolean_literal true)
