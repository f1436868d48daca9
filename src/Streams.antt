-- ===== src/Streams.antt =====
-- Frames on a byte stream: ts/packages/core/src/adapters/byte-stream-connection.ts, and the readers
-- of ts/packages/core/src/adapters/tcp-transport.ts and tls-transport.ts, which share their framing.
-- CBOR with the frame schema is a parameter.
pub mod Loop
pub mod Chunks
pub mod RoundTrip
use wire_mesh.Prelude.{
  ◌%◌, ◌/◌, ℕ, zero, suc, ◌+◌, ◌*◌, Bool, true, false, List, [], ◌∷◌, ◌++◌, Option, none, some,
  Bytes, ltb, ◌==◌, if◌then◌else◌, length, map, take, drop,
}

-- What `decode` and then `frameSchema.safeParse` make of a body.
pub data Parsed (F : Type 0) : Type 0 where
  undecodable unrecognised : Parsed F
  recognised : F → Parsed F

pub record Codec (F : Type 0) : Type 0 where
  pub encode : F → Bytes
  pub parse : Bytes → Parsed F

abbrev pub length_prefix_bytes : ℕ
length_prefix_bytes = 4

-- 100 MiB.
abbrev pub max_frame_bytes : ℕ
max_frame_bytes = 104857600

abbrev pub stream_open_marker : Bytes
stream_open_marker = 0 ∷ 0 ∷ 0 ∷ 0 ∷ []

-- `DataView.setUint32`, big-endian.
unfoldable pub set_uint32 : ℕ → Bytes
set_uint32 n = n / 16777216 % 256 ∷ n / 65536 % 256 ∷ n / 256 % 256 ∷ n % 256 ∷ []

-- `DataView.getUint32` at 0; it is called only where there are four bytes.
unfoldable pub get_uint32 : Bytes → ℕ
get_uint32 (a ∷ b ∷ c ∷ d ∷ _) = a * 16777216 + b * 65536 + c * 256 + d
get_uint32 _ = 0

-- What a round of a reader's loop does with the bytes it has: wait for more, give the connection
-- up, or take a number of bytes, and hand over the frame if they hold one.
pub data Round (F : Type 0) : Type 0 where
  wait broken : Round F
  taken : ℕ → Option F → Round F

-- What a loop leaves: the frames it handed over, the bytes it kept, and whether it gave up.
pub record Drained (F : Type 0) : Type 0 where
  pub frames : List F
  pub rest : Bytes
  pub is_broken : Bool

module _ {F : Type 0} where
  abbrev pub after_parse : ℕ → Parsed F → Round F
  after_parse n undecodable = broken
  after_parse n unrecognised = taken n none
  after_parse n (recognised f) = taken n (some f)

  abbrev pub hand_over : Option F → Drained F → Drained F
  hand_over none d = d
  hand_over (some f) d = record d { frames = f ∷ d.frames }

  abbrev pub prepend : List F → Drained F → Drained F
  prepend frames d = record d { frames = frames ++ d.frames }

  -- The `while` loop over the buffered bytes. Every round that takes bytes takes at least one, so
  -- their number bounds the rounds.
  unfoldable pub drain : (Bytes → Round F) → ℕ → Bytes → Drained F
  drain step zero buffered = record { frames = []; rest = buffered; is_broken = false }
  drain step (suc rounds) buffered = elim (step buffered) [
    | wait ↦ record { frames = []; rest = buffered; is_broken = false }
    | broken ↦ record { frames = []; rest = []; is_broken = true }
    | taken n frame ↦ hand_over frame (drain step rounds (drop n buffered))
  ]

  unfoldable pub drain_all : (Bytes → Round F) → Bytes → Drained F
  drain_all step buffered = drain step (length buffered) buffered

  -- The loop over the chunks that arrive.
  unfoldable pub read : (Bytes → Round F) → Bytes → List Bytes → Drained F
  read step buffered [] = record { frames = []; rest = buffered; is_broken = false }
  read step buffered (chunk ∷ chunks) =
      let d = drain_all step (buffered ++ chunk) in
      let rest = prepend d.frames (read step d.rest chunks) in if d.is_broken then d else rest

-- All the bytes of the chunks.
abbrev pub flatten : List Bytes → Bytes
flatten [] = []
flatten (chunk ∷ chunks) = chunk ++ flatten chunks

module _ {F : Type 0} (codec : Codec F) where
  unfoldable pub encode_length_prefixed_frame : F → Bytes
  encode_length_prefixed_frame frame =
      set_uint32 (length (codec.encode frame)) ++ codec.encode frame

  -- What a connection writes, one chunk for each write; the side that opened the stream marks it first.
  unfoldable pub connection_writes : Bool → List F → List Bytes
  connection_writes true frames = stream_open_marker ∷ map encode_length_prefixed_frame frames
  connection_writes false frames = map encode_length_prefixed_frame frames

  -- `writeFrame` on a socket: the header, then the body.
  unfoldable pub write_frame : F → List Bytes
  write_frame frame = set_uint32 (length (codec.encode frame)) ∷ codec.encode frame ∷ []

  unfoldable pub socket_writes : List F → List Bytes
  socket_writes [] = []
  socket_writes (frame ∷ frames) = write_frame frame ++ socket_writes frames

  -- A round of `readFrames`.
  unfoldable pub stream_round : Bytes → Round F
  stream_round buffered =
      let body_length = get_uint32 buffered in
      if ltb (length buffered) length_prefix_bytes
      then wait
      else if ltb max_frame_bytes body_length
      then broken
      else if ltb (length buffered) (length_prefix_bytes + body_length)
      then wait
      else if body_length == 0
      then taken length_prefix_bytes none
      else after_parse (length_prefix_bytes + body_length)
          (codec.parse (take body_length (drop length_prefix_bytes buffered)))

  -- A round of `tryDrain`, over TCP and TLS.
  unfoldable pub socket_round : Bytes → Round F
  socket_round buffer =
      let body_length = get_uint32 buffer in
      if ltb (length buffer) length_prefix_bytes
      then wait
      else if ltb (length buffer) (length_prefix_bytes + body_length)
      then wait
      else after_parse (length_prefix_bytes + body_length)
          (codec.parse (take body_length (drop length_prefix_bytes buffer)))

  unfoldable pub read_frames : List Bytes → Drained F
  read_frames chunks = read stream_round [] chunks

  unfoldable pub frame_reader : List Bytes → Drained F
  frame_reader chunks = read socket_round [] chunks
