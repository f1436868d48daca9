-- ===== src/Tests/Termination.antt =====
-- A verdict within the fuel, and a token that gets none (tokens.ts).
use wire_mesh.Token.Termination.{verify_capability_token_terminates}
use wire_mesh.Token.Divergence.{verify_capability_token_diverges, IsSelfCited}
use wire_mesh.Tests.Tokens.{child_token, root_claims, verifier, direct, root_token, key, runs}
use wire_mesh.Claims.{RevocationClaims}
use wire_mesh.Token.Verify.{verify_capability_token}
use wire_mesh.Token.{Accepted, Verifier, TokenVerdictReason}
use wire_mesh.Prelude.{◌≡◌, refl, [], ◌∷◌, none, some, arith, Result}

verify_capability_token_terminates_example :
    (verdict : Result TokenVerdictReason Accepted) × (verify_capability_token verifier 65
        child_token
        (some (3 ∷ []))
      ≡ some verdict)
verify_capability_token_terminates_example =
    verify_capability_token_terminates verifier (λ id. tt) 65 child_token (some (3 ∷ []))
      (omega arith)

-- Device 9 revokes every token on the authority of the root token.
abbrev foreign_entry : RevocationClaims
foreign_entry = record {
  token_id = 100 ∷ [];
  issuer = 9 ∷ [];
  issuer_key = key 9;
  revoked_at = 5;
  authorization = some (7 ∷ []);
}

abbrev hostile : Verifier direct
hostile = record verifier { entries_for = λ id. foreign_entry ∷ [] }

root_token-IsSelfCited : IsSelfCited hostile root_token
unfolding runs
root_token-IsSelfCited = record {
  payload = 1 ∷ [];
  claims = root_claims;
  entry = foreign_entry;
  others = [];
  citation = 7 ∷ [];
  attached = refl;
  authentic = refl;
  recorded = refl;
  foreign = refl;
  cites = refl;
  cited = refl;
}

verify_capability_token_diverges_example :
    verify_capability_token hostile 1000 root_token none ≡ none
verify_capability_token_diverges_example =
    verify_capability_token_diverges hostile root_token root_token-IsSelfCited 1000 none
