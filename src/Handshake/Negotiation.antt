-- ===== src/Handshake/Negotiation.antt =====
-- Both ends of a handshake negotiate alike (handshake.ts).
use wire_mesh.Prelude.{
  ◌≡◌, inl, inr, refl, true, false, not, ◌&&◌, List, [], ◌∷◌, Text, text_eq, text_eq_iff,
  text_eq_refl, arith, Bool-cases,
}
use wire_mesh.Handshake.{HandshakeFrame, retired_domains, includes, shared, negotiate}

-- A domain is shared if both ends advertise it and it is not retired.
includes-shared :
    (local remote : List Text) (d : Text)
    → includes (shared local remote) d
      ≡ (includes local d && (not (includes retired_domains d) && includes remote d))
unfolding includes shared
includes-shared [] remote d = refl
includes-shared (x ∷ local) remote d = elim (Bool-cases (text_eq x d)) [
  | inl hit ↦ here (includes-shared local remote d) ((text_eq_iff x d).0 hit)
  | inr miss ↦ ground (arith, includes-shared local remote d)
]
  where
    here :
        includes (shared local remote) d
          ≡ (includes local d && (not (includes retired_domains d) && includes remote d))
        → x ≡ d
        → includes (shared (x ∷ local) remote) d
          ≡ (includes (x ∷ local) d && (not (includes retired_domains d) && includes remote d))
    here ih e = rw e (ground (arith, ih, text_eq_refl d))

-- The ends agree on the version and on which domains they share, and a retired domain is among
-- them for neither.
negotiate_agree :
    (local remote : HandshakeFrame) (d : Text)
    → ((negotiate local remote).version ≡ (negotiate remote local).version)
      × (includes (negotiate local remote).shared_domains d
          ≡ includes (negotiate remote local).shared_domains d)
      × (includes retired_domains d ≡ true
          → includes (negotiate local remote).shared_domains d ≡ false)
unfolding negotiate
negotiate_agree local remote d = (
  ground arith,
  ground (
    arith,
    includes-shared local.domains remote.domains d,
    includes-shared remote.domains local.domains d,
  ),
  λ h. ground (arith, includes-shared local.domains remote.domains d),
)
