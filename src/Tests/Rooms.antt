-- ===== src/Tests/Rooms.antt =====
-- Rooms (room-path.ts, room-token-verification.ts).
use wire_mesh.Prelude.{◌≡◌, ◌≢◌, ◌↔◌, ◌⊎◌, refl, true, [], ◌∷◌, none, some, Text, text, text_eq, ok}
use wire_mesh.DeviceId.{device_id_to_hex, bytes_to_hex, hex_digit, is_hex_digit}
use wire_mesh.Claims.{CapabilityToken, TokenClaims}
use wire_mesh.Token.{Accepted, Verifier}
use wire_mesh.Token.Verify.{verify_capability_token}
use wire_mesh.Token.Chain.{Chain}
use wire_mesh.RoomPath.{
  owner_named, dm, parse_room_path, split_at, is_device_id_hex, is_local_name, is_name_char,
  dm_room_path, owner_named_room_path, text_lt, slug_room_name, replace_runs, strip_start,
  strip_end,
}
use wire_mesh.RoomPath.Parse.{parse_room_path-owner_named_iff}
use wire_mesh.RoomPath.Dm.{parse_room_path-dm_room_path}
use wire_mesh.RoomToken.{
  RoomAccepted, self, verify_room_token, check_room, is_rooted, room_member_capability,
}
use wire_mesh.RoomToken.Rooted.{
  IsForRoom, verify_room_token_sound, verify_room_token_any_capability,
}
use wire_mesh.Tests.Logs.{device}
use wire_mesh.Tests.Tokens.{direct, direct-IsKleene, verifier, runs}

abbrev ada : Text
ada = text "0100000000000000000000000000000000000000000000000000000000000000"

abbrev bob : Text
bob = text "0200000000000000000000000000000000000000000000000000000000000000"

abbrev den : Text
den = text "0100000000000000000000000000000000000000000000000000000000000000/den"

abbrev chat : Text
chat =
    text
      "0100000000000000000000000000000000000000000000000000000000000000+0200000000000000000000000000000000000000000000000000000000000000"

room_runs : Unit {0}
unfolding parse_room_path split_at is_device_id_hex is_hex_digit is_local_name is_name_char
    dm_room_path owner_named_room_path text_lt text_eq slug_room_name replace_runs strip_start
    strip_end
room_runs = tt

slug_example : slug_room_name (text "--My room (2)!") ≡ some (text "My-room-2")
unfolding room_runs
slug_example = refl

parse_den : parse_room_path den ≡ some (owner_named ada (text "den"))
unfolding room_runs
parse_den = refl

chat_made : dm_room_path bob ada ≡ some chat
unfolding room_runs
chat_made = refl

parse_room_path-owner_named_iff_example :
    (parse_room_path den ≡ some (owner_named ada (text "den")))
    ↔ (owner_named_room_path ada (text "den") ≡ some den)
parse_room_path-owner_named_iff_example = parse_room_path-owner_named_iff den ada (text "den")

parse_room_path-dm_room_path_example :
    (x : Text) × (y : Text) × (parse_room_path chat ≡ some (dm x y))
    × (text_lt x y ≡ true)
    × (((x ≡ bob) × (y ≡ ada)) ⊎ ((x ≡ ada) × (y ≡ bob)))
    × (dm_room_path ada bob ≡ some chat)
parse_room_path-dm_room_path_example = parse_room_path-dm_room_path bob ada chat chat_made

-- Device 1 grants device 2 a capability other than membership, over its room.
abbrev observer_claims : TokenClaims
observer_claims = record {
  token_id = 100 ∷ [];
  issuer = device 1;
  issuer_key = record { alg = 7; public_key = device 1 };
  bearer = device 2;
  capability = text "room:observer";
  scope = record { kind = text "room"; path = some den };
  expires = 50;
  not_before = none;
  parent = none;
  authorised_by = none;
  delegations_remaining = none;
  valid_until = none;
  conditions = none;
  grants_capability = none;
  requests_capability = none;
}

abbrev observer_token : CapabilityToken
observer_token = record { protected_header = []; payload = some (1 ∷ []); signature = device 1 }

abbrev room_verifier : Verifier direct
room_verifier = record verifier { decode_claims = λ payload. some observer_claims }

abbrev accepted : Accepted
accepted = record {
  claims = observer_claims;
  root_issuer = device 1;
  root_issuer_key = record { alg = 7; public_key = device 1 };
  depth = 0;
}

observer_run :
    verify_capability_token room_verifier 1 observer_token (some (device 2)) ≡ some (ok accepted)
unfolding runs
observer_run = refl

accepted-IsForRoom : IsForRoom self (device 3) den accepted
unfolding device_id_to_hex bytes_to_hex hex_digit
accepted-IsForRoom = record {
  kind = refl;
  path = refl;
  parsed = owner_named ada (text "den");
  parses = parse_den;
  rooted = refl;
}

observer_room_run :
    verify_room_token room_verifier 1 self (device 3) den observer_token (device 2)
    ≡ some (
        ok (record {
          claims = observer_claims;
          root_issuer_key = record { alg = 7; public_key = device 1 };
        }))
unfolding runs room_runs verify_room_token check_room is_rooted device_id_to_hex
observer_room_run = refl

verify_room_token_sound_example :
    (a : Accepted) × Chain room_verifier observer_token none a
    × (a.claims.bearer ≡ device 2)
    × (observer_claims ≡ a.claims)
    × (record { alg = 7; public_key = device 1 } ≡ a.root_issuer_key)
    × IsForRoom self (device 3) den a
verify_room_token_sound_example =
    verify_room_token_sound room_verifier direct-IsKleene 1 self (device 3) den observer_token
      (device 2)
      (record {
        claims = observer_claims;
        root_issuer_key = record { alg = 7; public_key = device 1 };
      })
      observer_room_run

observer-ne-member : text "room:observer" ≢ room_member_capability
observer-ne-member h = cc

verify_room_token_any_capability_example :
    (r : RoomAccepted) × (verify_room_token room_verifier 1 self
        (device 3)
        den
        observer_token
        (device 2)
      ≡ some (ok r))
    × (r.claims.capability ≢ room_member_capability)
verify_room_token_any_capability_example =
    verify_room_token_any_capability room_verifier 1 self (device 3) den observer_token (device 2)
      accepted observer_run accepted-IsForRoom observer-ne-member
