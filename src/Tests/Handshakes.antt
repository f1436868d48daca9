-- ===== src/Tests/Handshakes.antt =====
-- A handshake (handshake.ts) of two versions with a retired domain on both sides.
use wire_mesh.Prelude.{◌≡◌, refl, [], ◌∷◌, text, text_eq}
use wire_mesh.Handshake.{HandshakeFrame, retired_domains, includes, shared, negotiate}

abbrev older : HandshakeFrame
older = record { version = 1; domains = text "core/room" ∷ text "core/federation" ∷ [] }

abbrev newer : HandshakeFrame
newer = record {
  version = 2;
  domains = text "core/federation" ∷ text "core/data" ∷ text "core/room" ∷ [];
}

negotiate_run : (negotiate older newer).shared_domains ≡ text "core/room" ∷ []
unfolding negotiate shared includes retired_domains text_eq
negotiate_run = refl
