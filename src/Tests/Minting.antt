-- ===== src/Tests/Minting.antt =====
-- Minting (tokens.ts) by device 2, under the root grant and under a grant-capability.
use wire_mesh.Mint.Queries.{IsDelegationOf, MayDelegate, can_grant_iff}
use wire_mesh.Scope.{bytes_equal}
use wire_mesh.Token.{manage_grant_capability}
use wire_mesh.Mint.{
  check_narrowing, check_authorisation, narrowing_candidate, mint_capability_token,
  decode_token_claims, grant_subject, can_grant, can_grant_via, Minter, MintOptions,
}
use wire_mesh.Claims.{TokenClaims, CapabilityToken}
use wire_mesh.Tests.Tokens.{direct-IsKleene, key, root_claims, direct, root_token, runs}
use wire_mesh.Prelude.{◌≡◌, ◌≢◌, ◌↔◌, refl, true, [], ◌∷◌, none, some, text, if◌then◌else◌, ok}

abbrev grant_claims : TokenClaims
grant_claims = record root_claims { capability = text "manage:grant" }

abbrev grant_token : CapabilityToken
grant_token = record { protected_header = []; payload = some (4 ∷ []); signature = 1 ∷ [] }

abbrev minter : Minter direct
minter = record {
  device_id = 2 ∷ [];
  identity_key = key 2;
  sign = λ message. 2 ∷ message;
  now = 10;
  decode_claims = λ payload.
      if bytes_equal payload (1 ∷ [])
      then some root_claims
      else if bytes_equal payload (4 ∷ [])
      then some grant_claims
      else none;
  decode_conditions = λ bytes. none;
  encode_claims = λ c. c.token_id;
  encode_token = λ token. token.signature;
  encode_conditions = λ nodes. [];
  encode_header = λ alg id. alg ∷ id;
  encode_signature_structure = λ label protected_header aad payload. payload;
}

abbrev delegation : MintOptions direct
delegation = record {
  token_id = 101 ∷ [];
  bearer = 3 ∷ [];
  capability = text "file:read";
  scope = record { kind = text "folder"; path = some (text "/work/a") };
  expires = 40;
  not_before = none;
  delegations_remaining = some 0;
  parent = some root_token;
  conditions = none;
  authorised_by = none;
  grants_capability = none;
  requests_capability = none;
}

abbrev issuance : MintOptions direct
issuance = record delegation { parent = none; authorised_by = some grant_token }

ordinary : text "file:read" ≢ manage_grant_capability
unfolding manage_grant_capability
ordinary e = cc

delegation_run : can_grant minter root_token (2 ∷ []) (narrowing_candidate delegation) 10 ≡ true
unfolding runs can_grant decode_token_claims check_narrowing narrowing_candidate
delegation_run = refl

can_grant_iff_example :
    ((can_grant minter root_token (2 ∷ []) (narrowing_candidate delegation) 10 ≡ true)
      ↔ MayDelegate minter root_token delegation)
    × ((can_grant minter root_token (2 ∷ []) (narrowing_candidate delegation) 10 ≡ true) ↔ (
        (token : CapabilityToken) × (mint_capability_token minter delegation ≡ ok token)
        × IsDelegationOf minter root_token delegation token))
can_grant_iff_example =
    can_grant_iff minter direct-IsKleene delegation root_token refl refl ordinary

issuance_run : can_grant_via minter grant_token (2 ∷ []) (grant_subject issuance) 10 ≡ true
unfolding runs can_grant_via decode_token_claims check_authorisation grant_subject
issuance_run = refl
