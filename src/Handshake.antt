-- ===== src/Handshake.antt =====
-- ts/packages/core/src/domain/handshake.ts: negotiation of the protocol version and the domains.
pub mod Negotiation
use wire_mesh.Prelude.{
  ℕ, Bool, true, false, not, ◌&&◌, ◌||◌, List, [], ◌∷◌, Text, text, text_eq, leb, if◌then◌else◌,
}

-- The fields of a `HandshakeFrame` that are negotiated.
pub record HandshakeFrame : Type 0 where
  pub version : ℕ
  pub domains : List Text

pub record NegotiationResult : Type 0 where
  pub succeeds : Bool
  pub version : ℕ
  pub shared_domains : List Text

unfoldable pub retired_domains : List Text
retired_domains = text "core/federation" ∷ []

-- `includes`.
unfoldable pub includes : List Text → Text → Bool
includes [] d = false
includes (x ∷ xs) d = text_eq x d || includes xs d

-- The filter over the local domains.
unfoldable pub shared : List Text → List Text → List Text
shared [] remote = []
shared (d ∷ local) remote =
    let rest = shared local remote in
    if not (includes retired_domains d) && includes remote d then d ∷ rest else rest

abbrev is_empty : List Text → Bool
is_empty [] = true
is_empty (d ∷ ds) = false

abbrev pub lower : ℕ → ℕ → ℕ
lower a b = if leb a b then a else b

unfoldable pub negotiate : HandshakeFrame → HandshakeFrame → NegotiationResult
negotiate local remote = record {
  succeeds =
      leb 1 (lower local.version remote.version)
      && not (is_empty (shared local.domains remote.domains));
  version = lower local.version remote.version;
  shared_domains = shared local.domains remote.domains;
}
