-- ===== src/Claims.antt =====
-- The wire types of ts/packages/core/src/generated/protocol.ts that tokens are made of, and the
-- views of a token in ts/packages/core/src/domain/token-predicates.ts.
-- The numbers are those that the schemas admit: non-negative integers.
use wire_mesh.Prelude.{ℕ, Option, Bytes, Text}
use wire_mesh.Scope.{CapabilityScope}

-- `alg` is a COSE algorithm number, carried and never computed with.
pub record IdentityKey : Type 0 where
  pub alg : ℕ
  pub public_key : Bytes

-- A COSE_Sign1: protected header, payload (null when detached) and signature. The unprotected
-- header is not signed and nothing reads it.
pub record CapabilityToken : Type 0 where
  pub protected_header : Bytes
  pub payload : Option Bytes
  pub signature : Bytes

pub record TokenClaims : Type 0 where
  pub token_id : Bytes
  pub issuer : Bytes
  pub issuer_key : IdentityKey
  pub bearer : Bytes
  pub capability : Text
  pub scope : CapabilityScope
  pub expires : ℕ
  pub not_before : Option ℕ
  pub parent : Option Bytes
  pub authorised_by : Option Bytes
  pub delegations_remaining : Option ℕ
  pub valid_until : Option ℕ
  pub conditions : Option Bytes
  pub grants_capability : Option Text
  pub requests_capability : Option Text

pub record RevocationClaims : Type 0 where
  pub token_id : Bytes
  pub issuer : Bytes
  pub issuer_key : IdentityKey
  pub revoked_at : ℕ
  pub authorization : Option Bytes

pub record NarrowingCandidate : Type 0 where
  pub capability : Text
  pub scope : CapabilityScope
  pub expires : ℕ
  pub delegations_remaining : Option ℕ

pub record GrantSubject : Type 0 where
  pub capability : Text
  pub scope : CapabilityScope
  pub bearer : Bytes
  pub expires : ℕ
  pub delegations_remaining : Option ℕ
