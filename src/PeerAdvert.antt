-- ===== src/PeerAdvert.antt =====
-- ts/packages/core/src/domain/peer-advert.ts and advert-extension-policy.ts: the adverts that peers
-- gossip, their verification, and what of their extensions a hub will carry. An extension's value is
-- opaque; the memo of verdicts is VerdictCache, and recalls what the check says.
use wire_mesh.Prelude.{
  ℕ, Bool, true, false, ◌||◌, List, [], ◌∷◌, ◌++◌, Option, none, some, Bytes, Text, text, text_eq,
  if◌then◌else◌, any,
}
use wire_mesh.Claims.{IdentityKey}
use wire_mesh.Scope.{bytes_equal}

pub record UnsignedPeerAdvert : Type 0 where
  pub device : Bytes
  pub addresses : List Text
  pub snapshot_seconds : ℕ
  pub identity_key : IdentityKey
  pub extensions : List (Text × Bytes)

pub record PeerAdvert : Type 0 where
  pub content : UnsignedPeerAdvert
  pub signature : Bytes

-- `verify` and `deriveDeviceId` of an identity, where `none` is a throw, and the encoder.
pub record PeerAdvertVerifier : Type 0 where
  pub verify : IdentityKey → Bytes → Bytes → Option Bool
  pub derive_device_id : Bytes → Option Bytes
  pub encode : UnsignedPeerAdvert → Option Bytes

abbrev signing_context : Bytes
signing_context = text "wire-mesh/peer-advert/v1" ++ 0 ∷ []

abbrev with_context : Option Bytes → Option Bytes
with_context none = none
with_context (some encoded) = some (signing_context ++ encoded)

unfoldable pub peer_advert_signing_input : PeerAdvertVerifier → UnsignedPeerAdvert → Option Bytes
peer_advert_signing_input identity advert = with_context (identity.encode advert)

abbrev is_derived : Option Bytes → Bytes → Option Bool
is_derived none device = none
is_derived (some derived) device = some (bytes_equal derived device)

abbrev if_derived : Option Bool → Option Bool → Option Bool
if_derived none verdict = none
if_derived (some true) verdict = verdict
if_derived (some false) verdict = some false

unfoldable pub check_peer_advert : PeerAdvertVerifier → PeerAdvert → Bytes → Option Bool
check_peer_advert identity advert signed_bytes =
    if_derived
      (is_derived (identity.derive_device_id advert.content.identity_key.public_key)
        advert.content.device)
      (identity.verify advert.content.identity_key signed_bytes advert.signature)

abbrev holds : Option Bool → Bool
holds none = false
holds (some verdict) = verdict

abbrev verify_signed : PeerAdvertVerifier → PeerAdvert → Option Bytes → Bool
verify_signed identity advert none = false
verify_signed identity advert (some signed_bytes) =
    holds (check_peer_advert identity advert signed_bytes)

unfoldable pub verify_peer_advert : PeerAdvertVerifier → PeerAdvert → Bool
verify_peer_advert identity advert =
    verify_signed identity advert (peer_advert_signing_input identity advert.content)

abbrev pub AdvertExtensionPolicy : Type 0
AdvertExtensionPolicy = List (Text × (Bytes → Bool))

-- `RESERVED_PEER_ADVERT_KEYS` and `CORE_EXTENSION_KEYS`.
abbrev uncontrolled_keys : List Text
uncontrolled_keys =
    text "device"
    ∷ text "addresses"
    ∷ text "snapshot-seconds"
    ∷ text "identity-key"
    ∷ text "signature"
    ∷ text "topology/peers"
    ∷ text "wire-mesh/version"
    ∷ []

unfoldable pub validates : AdvertExtensionPolicy → Text → Bytes → Bool
validates [] key value = false
validates ((k, validator) ∷ allowed) key value =
    if text_eq k key then validator value else validates allowed key value

-- The first key that is refused.
unfoldable pub check_advert_extensions : AdvertExtensionPolicy → List (Text × Bytes) → Option Text
check_advert_extensions policy [] = none
check_advert_extensions policy ((key, value) ∷ extensions) =
    let rest = check_advert_extensions policy extensions in
    if any (text_eq key) uncontrolled_keys || validates policy key value then rest else some key
