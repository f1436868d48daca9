-- ===== src/Conditions/Laws.antt =====
-- What a satisfied list of conditions establishes (token-predicates.ts), and the no-self-grant bar.
use wire_mesh.Prelude.{
  ◌∙◌, sym, ℕ, ◌≡◌, refl, Bool, true, false, not, ◌&&◌, List, [], ◌∷◌, Option, none, some, Bytes,
  Text, ◌↔◌, arith, text_eq, text_eq_iff, All,
}
use wire_mesh.DeviceId.{device_id_to_hex}
use wire_mesh.Claims.{TokenClaims, GrantSubject}
use wire_mesh.Trilean.{
  string, not_found, boolean_found, Trilean, IsKleene, first, is_unsatisfied, delegate_is_true,
  Evaluation, definite, indeterminate, Resolver,
}
use wire_mesh.Conditions.{
  not_satisfied, Json, conditions_verdict, ConditionsContext, Handlers, SubjectSystem, grantee_is,
  granted_capability_is, subject_name, subject_system?, subject_handler, resolve_condition,
  satisfied, evaluate_conditions, no_self_grant_bar,
}

is_unsatisfied_iff : (e : Evaluation) → (is_unsatisfied e ≡ false) ↔ (e ≡ definite true)
is_unsatisfied_iff (definite true) = ground arith
is_unsatisfied_iff (definite false) = ground arith
is_unsatisfied_iff indeterminate = ground arith

first-none_iff {ℓ} :
    {A : Type ℓ} (f : A → Bool) (xs : List A) → (first f xs ≡ none) ↔ All (λ x. f x ≡ false) xs
unfolding first
first-none_iff f [] = ground arith
first-none_iff f (x ∷ xs) = ground (arith, first-none_iff f xs)

All-iff {ℓ κ μ} :
    {A : Type ℓ} (P : A → Type κ) (Q : A → Type μ)
    → ((x : A) → P x ↔ Q x)
    → (xs : List A) → All P xs ↔ All Q xs
All-iff P Q h [] = ((λ _. tt), (λ _. tt))
All-iff P Q h (x ∷ xs) = (
  (λ (p, ps). ((h x).0 p, (All-iff P Q h xs).0 ps)),
  (λ (q, qs). ((h x).1 q, (All-iff P Q h xs).1 qs)),
)

subject_system?-subject_name : (s : SubjectSystem) → subject_system? (subject_name s) ≡ some s
unfolding subject_system? subject_name text_eq
subject_system?-subject_name grantee_is = refl
subject_system?-subject_name granted_capability_is = refl

satisfied_iff {ℓ} : {A : Type ℓ} (o : Option A) → (conditions_verdict o ≡ satisfied) ↔ (o ≡ none)
satisfied_iff none = ground arith
satisfied_iff (some a) = ground arith

iff_trans {ℓ κ μ} : {A : Type ℓ} {B : Type κ} {C : Type μ} → A ↔ B → B ↔ C → A ↔ C
iff_trans f g = ((λ a. g.0 (f.0 a)), (λ c. f.1 (g.1 c)))

module _ (t : Trilean) where
  abbrev pub HoldsIn : ConditionsContext → Handlers → t.Node → Type 0
  HoldsIn context extra node = t.evaluate node (resolve_condition context extra) ≡ definite true

  -- The conditions are satisfied exactly when each of them evaluates to a definite true: an
  -- indeterminate one fails the token as a false one does.
  pub evaluate_conditions_iff :
      (nodes : List t.Node) (claims : TokenClaims) (now : ℕ) (extra : Handlers)
      (subject : Option GrantSubject)
      → (evaluate_conditions t nodes claims now extra subject ≡ satisfied)
        ↔ All (HoldsIn (record { now = now; claims = claims; subject = subject }) extra) nodes
  unfolding evaluate_conditions
  evaluate_conditions_iff nodes claims now extra subject =
      let context : ConditionsContext = record { now = now; claims = claims; subject = subject } in
      let p : t.Node → Bool =
        λ node. is_unsatisfied (t.evaluate node (resolve_condition context extra)) in
      iff_trans (satisfied_iff (first p nodes)) (
        iff_trans (first-none_iff p nodes) (
          All-iff (λ node. p node ≡ false) (HoldsIn context extra)
            (λ node. is_unsatisfied_iff (t.evaluate node (resolve_condition context extra))) nodes))

-- The bar of `noSelfGrantBar` for a capability and a bearer.
module _ (t : Trilean) (k : IsKleene t) (capability : Text) (bearer : Bytes) where
  delegate_of_found :
      (system : Text) (wanted : Text) (resolve : Resolver) (b : Bool)
      → resolve system (string wanted) ≡ boolean_found b
      → t.evaluate (delegate_is_true t system (string wanted)) resolve ≡ definite b
  unfolding delegate_is_true
  delegate_of_found system wanted resolve b e =
      rw (k.compare_found system (string wanted) resolve b true e) (ground arith)

  delegate_of_missing :
      (system : Text) (wanted : Text) (resolve : Resolver)
      → resolve system (string wanted) ≡ not_found
      → t.evaluate (delegate_is_true t system (string wanted)) resolve ≡ indeterminate
  unfolding delegate_is_true
  delegate_of_missing system wanted resolve e =
      k.compare_missing system (string wanted) resolve true e

  module _ (claims : TokenClaims) (now : ℕ) (extra : Handlers) (g : GrantSubject) where
    abbrev context : ConditionsContext
    context = record { now = now; claims = claims; subject = some g }

    resolves_subject :
        (s : SubjectSystem) (payload : Json)
        → resolve_condition context extra (subject_name s) payload ≡ subject_handler s payload g
    unfolding resolve_condition
    resolves_subject s payload = rw (subject_system?-subject_name s)

    abbrev is_barred : Bool
    is_barred =
        text_eq g.capability capability
        && text_eq (device_id_to_hex g.bearer) (device_id_to_hex bearer)

    abbrev IsBarred : Type 0
    IsBarred = (g.capability ≡ capability) × (device_id_to_hex g.bearer ≡ device_id_to_hex bearer)

    is_barred_iff : (is_barred ≡ true) ↔ IsBarred
    is_barred_iff = ground (
      arith,
      text_eq_iff g.capability capability,
      text_eq_iff (device_id_to_hex g.bearer) (device_id_to_hex bearer),
    )

    bar_evaluates :
        t.evaluate (no_self_grant_bar t capability bearer) (resolve_condition context extra)
        ≡ definite (not is_barred)
    unfolding no_self_grant_bar subject_handler
    bar_evaluates =
        rw
          (
            k.evaluate_not,
            k.evaluate_and,
            delegate_of_found (subject_name granted_capability_is) capability
                (resolve_condition context extra) (text_eq g.capability capability)
                (resolves_subject granted_capability_is (string capability)),
            delegate_of_found (subject_name grantee_is) (device_id_to_hex bearer)
                (resolve_condition context extra)
                (text_eq (device_id_to_hex g.bearer) (device_id_to_hex bearer))
                (resolves_subject grantee_is (string (device_id_to_hex bearer))),
          )
          (ground arith)

    -- In subject mode the bar refuses exactly the grants of its capability to its bearer, whatever
    -- handlers the domain registers.
    pub no_self_grant_bar_iff :
        (evaluate_conditions t
            (no_self_grant_bar t capability bearer ∷ [])
            claims
            now
            extra
            (some g)
          ≡ satisfied)
        ↔ ¬ ((g.capability ≡ capability) × (device_id_to_hex g.bearer ≡ device_id_to_hex bearer))
    no_self_grant_bar_iff =
        iff_trans
          (evaluate_conditions_iff t (no_self_grant_bar t capability bearer ∷ []) claims now extra
            (some g))
          ((λ (h, _). passes (sym bar_evaluates ∙ h)), (λ h. (rw bar_evaluates (allows h), tt)))
      where
        passes : ◌≡◌ {A = Evaluation} (definite (not is_barred)) (definite true) → ¬ IsBarred
        passes e b = ground (arith, is_barred_iff)

        allows : ¬ IsBarred → ◌≡◌ {A = Evaluation} (definite (not is_barred)) (definite true)
        allows h = ground (arith, is_barred_iff, h)

  module _ (claims : TokenClaims) (now : ℕ) (extra : Handlers)
      (no_capability : extra (subject_name granted_capability_is) ≡ none)
      (no_grantee : extra (subject_name grantee_is) ≡ none) where
    abbrev standalone : ConditionsContext
    standalone = record { now = now; claims = claims; subject = none }

    bar_indeterminate :
        t.evaluate (no_self_grant_bar t capability bearer) (resolve_condition standalone extra)
        ≡ indeterminate
    unfolding no_self_grant_bar resolve_condition
    bar_indeterminate = rw (
      k.evaluate_not,
      k.evaluate_and,
      delegate_of_missing (subject_name granted_capability_is) capability
          (resolve_condition standalone extra) (rw no_capability),
      delegate_of_missing (subject_name grantee_is) (device_id_to_hex bearer)
          (resolve_condition standalone extra) (rw no_grantee),
    )

    -- With no subject, and no handler of the domain under either name, the bar fails the token.
    pub no_self_grant_bar_standalone :
        evaluate_conditions t (no_self_grant_bar t capability bearer ∷ []) claims now extra none
        ≡ not_satisfied
    unfolding evaluate_conditions first
    no_self_grant_bar_standalone = rw bar_indeterminate
