-- ===== src/Tests/Tokens.antt =====
-- Token verification (tokens.ts, token-predicates.ts) on a root grant, a delegation of it, and the
-- conditions of a grant-capability, with a small evaluator and codec.
use wire_mesh.DeviceId.{hex_digit, bytes_to_hex}
use wire_mesh.Narrowing.Laws.{evaluate_narrowing_iff, Narrows}
use wire_mesh.Token.Attenuation.{verify_capability_token_attenuates, IsRootOf, EndsIn, Carries}
use wire_mesh.Scope.{
  ends_with_slash, starts_with, split_slash, has_relative_segment, path_narrows, scope_narrows,
  same_items, bytes_equal,
}
use wire_mesh.Token.Acceptance.{verify_capability_token_sound}
use wire_mesh.Narrowing.{
  narrowing_check, narrowing_handler, system_name, narrowing_system?, resolve_narrowing,
  evaluate_narrowing,
}
use wire_mesh.Token.Chain.{Chain}
use wire_mesh.Token.Verify.{
  verify_authoriser, verify_parent, verify_links, first_async, check_revoked, verify_step,
  verify_token_chain, verify_capability_token,
}
use wire_mesh.Claims.{CapabilityToken, IdentityKey, TokenClaims}
use wire_mesh.Token.{
  sig1_to_be_signed, manage_grant_capability, has_text, check_conditions, check_times, authenticate,
  bearer_mismatch, candidate_of, Accepted, Verifier,
}
use wire_mesh.Trilean.{
  delegate_is_true, first, same_bool, kleene_and, indeterminate, definite, kleene_not, boolean,
  Resolver, Evaluation, not_found, found, Resolution, IsKleene, Trilean,
}
use wire_mesh.Prelude.{
  ℕ, ◌<◌, ◌≡◌, ◌↔◌, refl, Bool, [], ◌∷◌, none, some, text, text_eq, if◌then◌else◌, ok, err,
}

abbrev eval_compare : Resolution → Resolution → Evaluation
eval_compare (found (boolean a)) (found (boolean b)) = definite (same_bool a b)
eval_compare _ _ = indeterminate

-- An evaluator whose nodes are their own meaning.
abbrev pub direct : Trilean
direct = record {
  Node = Resolver → Evaluation;
  Expression = Resolver → Resolution;
  compare_eq = λ l r resolve. eval_compare (l resolve) (r resolve);
  not_node = λ a resolve. kleene_not (a resolve);
  and_node = λ a b resolve. kleene_and (a resolve) (b resolve);
  delegate = λ system payload resolve. resolve system payload;
  boolean_literal = λ b resolve. found (boolean b);
  evaluate = λ node resolve. node resolve;
}

direct_found :
    (r : Resolution) (a b : Bool)
    → r ≡ found (boolean a)
    → eval_compare r (found (boolean b)) ≡ definite (same_bool a b)
direct_found r a b h = rw h

direct_missing :
    (r : Resolution) (b : Bool) → r ≡ not_found → eval_compare r (found (boolean b)) ≡ indeterminate
direct_missing r b h = rw h

pub direct-IsKleene : IsKleene direct
direct-IsKleene = record {
  compare_found = λ system payload resolve a b h. direct_found (resolve system payload) a b h;
  compare_missing = λ system payload resolve b h. direct_missing (resolve system payload) b h;
  evaluate_not = λ a resolve. refl;
  evaluate_and = λ a b resolve. refl;
}

abbrev pub key : ℕ → IdentityKey
key n = record { alg = 7; public_key = n ∷ [] }

-- Device 1 owns "/work" and grants it to device 2, which may delegate once more.
abbrev pub root_claims : TokenClaims
root_claims = record {
  token_id = 100 ∷ [];
  issuer = 1 ∷ [];
  issuer_key = key 1;
  bearer = 2 ∷ [];
  capability = text "file:read";
  scope = record { kind = text "folder"; path = some (text "/work") };
  expires = 50;
  not_before = none;
  parent = none;
  authorised_by = none;
  delegations_remaining = some 1;
  valid_until = none;
  conditions = none;
  grants_capability = none;
  requests_capability = none;
}

-- Device 2 delegates "/work/a" to device 3.
abbrev pub child_claims : TokenClaims
child_claims = record root_claims {
  token_id = 101 ∷ [];
  issuer = 2 ∷ [];
  issuer_key = key 2;
  bearer = 3 ∷ [];
  scope = record { kind = text "folder"; path = some (text "/work/a") };
  expires = 40;
  parent = some (7 ∷ []);
  delegations_remaining = some 0;
}

abbrev pub root_token : CapabilityToken
root_token = record { protected_header = []; payload = some (1 ∷ []); signature = 1 ∷ [] }

abbrev pub child_token : CapabilityToken
child_token = record { protected_header = []; payload = some (2 ∷ []); signature = 2 ∷ [] }

-- A signature is the public key, a device id the key's bytes, and each payload stands for a token.
abbrev pub verifier : Verifier direct
verifier = record {
  verify = λ k message signature. bytes_equal signature k.public_key;
  derive_device_id = λ k. k;
  now = 10;
  entries_for = λ id. [];
  handlers = λ name. none;
  decode_claims = λ payload.
      if bytes_equal payload (1 ∷ [])
      then some root_claims
      else if bytes_equal payload (2 ∷ [])
      then some child_claims
      else none;
  decode_token = λ bytes. if bytes_equal bytes (7 ∷ []) then some root_token else none;
  decode_conditions = λ bytes. none;
  encode_signature_structure = λ label protected_header aad payload. payload;
}

abbrev pub child_accepted : Accepted
child_accepted = record {
  claims = child_claims;
  root_issuer = 1 ∷ [];
  root_issuer_key = key 1;
  depth = 1;
}

unfoldable pub runs : Unit {0}
unfolding verify_capability_token verify_token_chain verify_step authenticate check_times
    check_revoked first_async check_conditions verify_links verify_parent verify_authoriser
    evaluate_narrowing first delegate_is_true resolve_narrowing narrowing_system? system_name
    narrowing_handler narrowing_check text_eq bytes_equal same_items scope_narrows path_narrows
    has_relative_segment split_slash starts_with ends_with_slash candidate_of has_text bytes_to_hex
    hex_digit manage_grant_capability sig1_to_be_signed
runs = tt

child_run :
    verify_capability_token verifier 2 child_token (some (3 ∷ [])) ≡ some (ok child_accepted)
unfolding runs
child_run = refl

wrong_bearer_run :
    verify_capability_token verifier 2 child_token (some (4 ∷ [])) ≡ some (err bearer_mismatch)
unfolding runs
wrong_bearer_run = refl

verify_capability_token_sound_example :
    Chain verifier child_token none child_accepted × (1 < 64) × (child_claims.bearer ≡ 3 ∷ [])
verify_capability_token_sound_example =
    verify_capability_token_sound verifier direct-IsKleene 2 child_token (3 ∷ []) child_accepted
      child_run

verify_capability_token_attenuates_example :
    (r : TokenClaims) × EndsIn verifier child_token r
    × IsRootOf verifier r child_accepted
    × Carries verifier child_token child_claims
verify_capability_token_attenuates_example =
    verify_capability_token_attenuates verifier direct-IsKleene 2 child_token (3 ∷ [])
      child_accepted child_run

evaluate_narrowing_iff_example :
    (evaluate_narrowing direct root_claims (2 ∷ []) (candidate_of child_claims) ≡ none)
    ↔ Narrows root_claims (2 ∷ []) (candidate_of child_claims)
evaluate_narrowing_iff_example =
    evaluate_narrowing_iff direct direct-IsKleene root_claims (2 ∷ []) (candidate_of child_claims)
