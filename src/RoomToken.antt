-- ===== src/RoomToken.antt =====
-- ts/packages/core/src/domain/room-token-verification.ts: the verification of a token that is
-- presented for a room, on top of `verifyCapabilityToken`.
pub mod Rooted
use wire_mesh.Prelude.{
  ℕ, Bool, false, ◌||◌, Option, none, some, Bytes, Text, text, text_eq, ok, err, M, ret, require,
  or_fail, ◌>>=◌, ◌>>◌,
}
use wire_mesh.DeviceId.{device_id_to_hex}
use wire_mesh.Claims.{CapabilityToken, TokenClaims, IdentityKey}
use wire_mesh.Trilean.{Trilean}
use wire_mesh.Token.{TokenVerdictReason, Accepted, Verifier}
use wire_mesh.Token.Verify.{verify_capability_token}
use wire_mesh.RoomPath.{ParsedRoomPath, owner_named, dm, parse_room_path}

abbrev pub room_member_capability : Text
room_member_capability = text "room:member"

-- The reasons of a refusal, and `invalid_room_path` for the throw of `parseRoomPath`.
pub data RoomTokenVerdictReason : Type 0 where
  of_token : TokenVerdictReason → RoomTokenVerdictReason
  wrong_scope_kind wrong_scope_path wrong_chain_root invalid_room_path : RoomTokenVerdictReason

-- The `ok` half of `RoomTokenVerdict`.
pub record RoomAccepted : Type 0 where
  pub claims : TokenClaims
  pub root_issuer_key : IdentityKey

pub data DmRootPolicy : Type 0 where
  self either_participant : DmRootPolicy

-- A refused token is refused for the same reason.
abbrev pub of_verdict : M TokenVerdictReason Accepted → M RoomTokenVerdictReason Accepted
of_verdict none = none
of_verdict (some (ok a)) = some (ok a)
of_verdict (some (err e)) = some (err (of_token e))

abbrev pub is_path : Option Text → Text → Bool
is_path none room_path = false
is_path (some path) room_path = text_eq path room_path

-- Whether the root of the chain is one that the path admits; `own` is the verifying device.
unfoldable pub is_rooted : DmRootPolicy → Bytes → Bytes → ParsedRoomPath → Bool
is_rooted policy own root (owner_named owner name) = text_eq (device_id_to_hex root) owner
is_rooted either_participant own root (dm a b) =
    text_eq (device_id_to_hex root) a || text_eq (device_id_to_hex root) b
is_rooted self own root (dm a b) = text_eq (device_id_to_hex root) (device_id_to_hex own)

-- The obligations that are specific to rooms.
unfoldable pub check_room :
    DmRootPolicy → Bytes → Text → Accepted → M RoomTokenVerdictReason RoomAccepted
check_room policy own room_path a = do
  require (text_eq a.claims.scope.kind (text "room")) wrong_scope_kind
  require (is_path a.claims.scope.path room_path) wrong_scope_path
  parsed ← or_fail (parse_room_path room_path) invalid_room_path
  require (is_rooted policy own a.root_issuer parsed) wrong_chain_root
  ret (record { claims = a.claims; root_issuer_key = a.root_issuer_key })

module _ {t : Trilean} (v : Verifier t) where
  unfoldable pub verify_room_token :
      ℕ
      → DmRootPolicy
      → Bytes
      → Text
      → CapabilityToken
      → Bytes
      → M RoomTokenVerdictReason RoomAccepted
  verify_room_token fuel policy own room_path token expected_bearer =
      of_verdict (verify_capability_token v fuel token (some expected_bearer))
      >>= check_room policy own room_path
