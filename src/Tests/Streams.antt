-- ===== src/Tests/Streams.antt =====
-- Byte streams (byte-stream-connection.ts, tcp-transport.ts).
use wire_mesh.Prelude.{ℕ, ◌≡◌, refl, true, false, List, [], ◌∷◌, Bytes, arith}
use wire_mesh.Streams.{
  flatten, Codec, Parsed, undecodable, unrecognised, recognised, drain, drain_all, read, get_uint32,
  set_uint32, stream_round, socket_round, read_frames, frame_reader, connection_writes,
  encode_length_prefixed_frame,
}
use wire_mesh.Streams.Chunks.{read_frames-flatten}
use wire_mesh.Streams.RoundTrip.{IsFaithful, read_frames-connection_writes}

-- Frames are numbers, encoded in one byte; a body of another length is not understood.
abbrev parse_one : Bytes → Parsed ℕ
parse_one [] = undecodable
parse_one (n ∷ []) = recognised n
parse_one (n ∷ m ∷ _) = unrecognised

abbrev one_byte : Codec ℕ
one_byte = record { encode = λ n. n ∷ []; parse = parse_one }

one_byte-IsFaithful : IsFaithful one_byte
one_byte-IsFaithful = record { parse-encode = λ f. refl; some_body = λ f. omega arith }

abbrev chunks : List Bytes
chunks = (0 ∷ 0 ∷ []) ∷ (0 ∷ 0 ∷ 0 ∷ 0 ∷ 0 ∷ 1 ∷ 7 ∷ 0 ∷ []) ∷ (0 ∷ 0 ∷ 1 ∷ 9 ∷ []) ∷ []

-- An empty body is skipped on a stream, and ends a socket's connection.
empty_body :
    (read_frames one_byte chunks ≡ record { frames = 7 ∷ 9 ∷ []; rest = []; is_broken = false })
    × (frame_reader one_byte chunks ≡ record { frames = []; rest = []; is_broken = true })
unfolding read_frames frame_reader read drain_all drain stream_round socket_round get_uint32
empty_body = (refl, refl)

read_frames-flatten_example :
    read_frames one_byte chunks ≡ read_frames one_byte (flatten chunks ∷ [])
read_frames-flatten_example = read_frames-flatten one_byte chunks (flatten chunks ∷ []) refl

read_frames-connection_writes_example :
    read_frames one_byte chunks ≡ record { frames = 7 ∷ 9 ∷ []; rest = []; is_broken = false }
unfolding connection_writes encode_length_prefixed_frame set_uint32
read_frames-connection_writes_example =
    read_frames-connection_writes one_byte one_byte-IsFaithful true (7 ∷ 9 ∷ []) chunks
      (omega arith, (omega arith, tt)) refl
