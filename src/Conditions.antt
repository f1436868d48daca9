-- ===== src/Conditions.antt =====
-- ts/packages/core/src/domain/token-predicates.ts: the conditions that an issuer adds to a token,
-- evaluated for the token itself or, in subject mode, for a token that it authorises.
pub mod Laws
use wire_mesh.Prelude.{ℕ, List, Option, none, some, Bytes, Text, text, text_eq, if◌then◌else◌}
use wire_mesh.DeviceId.{device_id_to_hex}
use wire_mesh.Claims.{TokenClaims, GrantSubject}
use wire_mesh.Trilean.{
  Json, string, Resolution, not_found, found, boolean, boolean_found, Resolver, Trilean, first,
  is_unsatisfied, delegate_is_true,
}

pub record ConditionsContext : Type 0 where
  pub now : ℕ
  pub claims : TokenClaims
  pub subject : Option GrantSubject

-- A domain's own handler: it may throw (`none`).
abbrev pub Handler : Type 0
Handler = Json → ConditionsContext → Option Resolution

-- `extraHandlers`: `none` where the object has no own property of that name.
abbrev pub Handlers : Type 0
Handlers = Text → Option Handler

pub data SubjectSystem : Type 0 where
  grantee_is granted_capability_is : SubjectSystem

unfoldable pub subject_name : SubjectSystem → Text
subject_name grantee_is = text "grantee-is"
subject_name granted_capability_is = text "granted-capability-is"

-- `isSubjectSystem`, with the system that it recognises.
unfoldable pub subject_system? : Text → Option SubjectSystem
subject_system? s =
    if text_eq s (subject_name grantee_is)
    then some grantee_is
    else if text_eq s (subject_name granted_capability_is)
    then some granted_capability_is
    else none

-- `subjectHandlers[system]`, for a context that has a subject.
unfoldable pub subject_handler : SubjectSystem → Json → GrantSubject → Resolution
subject_handler grantee_is (string s) g = boolean_found (text_eq (device_id_to_hex g.bearer) s)
subject_handler granted_capability_is (string s) g = boolean_found (text_eq g.capability s)
subject_handler system payload g = not_found

abbrev or_not_found : Option Resolution → Resolution
or_not_found none = not_found
or_not_found (some r) = r

abbrev call_handler : Option Handler → Json → ConditionsContext → Resolution
call_handler none payload context = not_found
call_handler (some h) payload context = or_not_found (h payload context)

abbrev resolve_subject :
    Option GrantSubject
    → Option SubjectSystem
    → Handlers
    → Text
    → Json
    → ConditionsContext
    → Resolution
resolve_subject (some g) (some s) extra system payload context = subject_handler s payload g
resolve_subject (some g) none extra system payload context =
    call_handler (extra system) payload context
resolve_subject none s extra system payload context = call_handler (extra system) payload context

-- `resolveDelegate` of `evaluateConditions`.
unfoldable pub resolve_condition : ConditionsContext → Handlers → Resolver
resolve_condition context extra system payload =
    resolve_subject context.subject (subject_system? system) extra system payload context

pub data ConditionsVerdict : Type 0 where
  satisfied not_satisfied : ConditionsVerdict

abbrev pub conditions_verdict {ℓ} : {A : Type ℓ} → Option A → ConditionsVerdict
conditions_verdict none = satisfied
conditions_verdict (some a) = not_satisfied

module _ (t : Trilean) where
  unfoldable pub evaluate_conditions :
      List t.Node → TokenClaims → ℕ → Handlers → Option GrantSubject → ConditionsVerdict
  evaluate_conditions nodes claims now extra subject = conditions_verdict (
      first
        (λ node. is_unsatisfied (
          t.evaluate node
            (resolve_condition (record { now = now; claims = claims; subject = subject }) extra)))
        nodes)

  -- `noSelfGrantBar`.
  unfoldable pub no_self_grant_bar : Text → Bytes → t.Node
  no_self_grant_bar capability bearer = t.not_node (
      t.and_node (delegate_is_true t (subject_name granted_capability_is) (string capability))
        (delegate_is_true t (subject_name grantee_is) (string (device_id_to_hex bearer))))
