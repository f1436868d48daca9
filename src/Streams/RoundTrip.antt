-- ===== src/Streams/RoundTrip.antt =====
-- Frames that one end of a byte stream writes are the frames that the other end yields.
use wire_mesh.Prelude.{
  ℕ, ◌+◌, ◌<◌, ◌≤◌, ◌≡◌, refl, sym, ap, ◌∙◌, Bool, true, false, List, [], ◌∷◌, ◌++◌, none, some,
  Bytes, All, arith, length, map, append_assoc, length-append, take, drop, drop-length-append,
}
use wire_mesh.Streams.{
  flatten, Codec, recognised, taken, Drained, drain_all, get_uint32, set_uint32, stream_round,
  socket_round, read_frames, frame_reader, max_frame_bytes, encode_length_prefixed_frame,
  stream_open_marker, hand_over, connection_writes, write_frame, socket_writes,
}
use wire_mesh.Streams.Loop.{drain_all-taken, drain_all_wait}
use wire_mesh.Streams.Chunks.{read-flatten, stream_round-IsStable, socket_round-IsStable}

-- What a reader relies on: a frame that is encoded parses as itself, and its body is not empty.
pub record IsFaithful {F : Type 0} (codec : Codec F) : Type 0 where
  pub parse-encode : (f : F) → codec.parse (codec.encode f) ≡ recognised f
  pub some_body : (f : F) → 0 < length (codec.encode f)

get_uint32-set_uint32 :
    (n : ℕ) (rest : Bytes) → n < 4294967296 → get_uint32 (set_uint32 n ++ rest) ≡ n
unfolding get_uint32 set_uint32
get_uint32-set_uint32 n rest h = omega arith

take-length-append {ℓ} : {A : Type ℓ} (xs ys : List A) → take (length xs) (xs ++ ys) ≡ xs
take-length-append [] ys = refl
take-length-append (x ∷ xs) ys = ap (◌∷◌ x) (take-length-append xs ys)

module _ {F : Type 0} (codec : Codec F) (faithful : IsFaithful codec) where
  -- A frame that both ends admit.
  abbrev pub Fits : F → Type 0
  Fits f = length (codec.encode f) ≤ max_frame_bytes

  -- A length that four bytes can tell.
  abbrev pub IsWritable : F → Type 0
  IsWritable f = length (codec.encode f) < 4294967296

  message : F → Bytes
  message f = set_uint32 (length (codec.encode f)) ++ codec.encode f

  length-message : (f : F) → length (message f) ≡ 4 + length (codec.encode f)
  unfolding set_uint32 message
  length-message f = omega arith

  body_of_message :
      (f : F) (rest : Bytes)
      → take (length (codec.encode f)) (drop 4 (message f ++ rest)) ≡ codec.encode f
  unfolding set_uint32 message
  body_of_message f rest = take-length-append (codec.encode f) rest

  size_of_message :
      (f : F) (rest : Bytes)
      → IsWritable f
      → get_uint32 (message f ++ rest) ≡ length (codec.encode f)
  unfolding message
  size_of_message f rest h =
      ap get_uint32 (append_assoc (set_uint32 (length (codec.encode f))) (codec.encode f) rest)
      ∙ get_uint32-set_uint32 (length (codec.encode f)) (codec.encode f ++ rest) h

  stream_round_at :
      (buffered : Bytes) (n : ℕ) (f : F)
      → get_uint32 buffered ≡ n
      → 0 < n
      → n ≤ max_frame_bytes
      → 4 + n ≤ length buffered
      → codec.parse (take n (drop 4 buffered)) ≡ recognised f
      → stream_round codec buffered ≡ taken (4 + n) (some f)
  unfolding stream_round
  stream_round_at buffered n f e some_bytes fits whole parsed = rw e (ground arith)

  socket_round_at :
      (buffered : Bytes) (n : ℕ) (f : F)
      → get_uint32 buffered ≡ n
      → 4 + n ≤ length buffered
      → codec.parse (take n (drop 4 buffered)) ≡ recognised f
      → socket_round codec buffered ≡ taken (4 + n) (some f)
  unfolding socket_round
  socket_round_at buffered n f e whole parsed = rw e (ground arith)

  parsed_message :
      (f : F) (rest : Bytes)
      → codec.parse (take (length (codec.encode f)) (drop 4 (message f ++ rest))) ≡ recognised f
  parsed_message f rest = ap codec.parse (body_of_message f rest) ∙ faithful.parse-encode f

  drop-message :
      (f : F) (rest : Bytes) → drop (4 + length (codec.encode f)) (message f ++ rest) ≡ rest
  drop-message f rest =
      ap (λ n. drop n (message f ++ rest)) (sym (length-message f))
      ∙ drop-length-append (message f) rest

  stream_message :
      (f : F) (rest : Bytes)
      → Fits f
      → drain_all (stream_round codec) (message f ++ rest)
        ≡ hand_over (some f) (drain_all (stream_round codec) rest)
  stream_message f rest h =
      drain_all-taken (stream_round codec) (stream_round-IsStable codec) (message f ++ rest) _
        (some f)
        (stream_round_at (message f ++ rest) (length (codec.encode f)) f
          (size_of_message f rest (omega arith)) (faithful.some_body f) h
          (omega (arith, length-append (message f) rest, length-message f)) (parsed_message f rest))
      ∙ ap (λ b. hand_over (some f) (drain_all (stream_round codec) b)) (drop-message f rest)

  socket_message :
      (f : F) (rest : Bytes)
      → IsWritable f
      → drain_all (socket_round codec) (message f ++ rest)
        ≡ hand_over (some f) (drain_all (socket_round codec) rest)
  socket_message f rest h =
      drain_all-taken (socket_round codec) (socket_round-IsStable codec) (message f ++ rest) _
        (some f)
        (socket_round_at (message f ++ rest) (length (codec.encode f)) f (size_of_message f rest h)
          (omega (arith, length-append (message f) rest, length-message f)) (parsed_message f rest))
      ∙ ap (λ b. hand_over (some f) (drain_all (socket_round codec) b)) (drop-message f rest)

  abbrev pub all_of : List F → Drained F
  all_of fs = record { frames = fs; rest = []; is_broken = false }

  stream_messages :
      (fs : List F)
      → All Fits fs
      → drain_all (stream_round codec) (flatten (map (encode_length_prefixed_frame codec) fs))
        ≡ all_of fs
  unfolding encode_length_prefixed_frame message
  stream_messages [] h =
      drain_all_wait (stream_round codec) (stream_round-IsStable codec) []
        (stream_round-IsStable codec).idle
  stream_messages (f ∷ fs) (fits, h) =
      stream_message f (flatten (map (encode_length_prefixed_frame codec) fs)) fits
      ∙ ap (hand_over (some f)) (stream_messages fs h)

  marker_round : (rest : Bytes) → stream_round codec (stream_open_marker ++ rest) ≡ taken 4 none
  unfolding stream_round get_uint32
  marker_round rest = ground arith

  marked :
      (rest : Bytes)
      → drain_all (stream_round codec) (stream_open_marker ++ rest)
        ≡ drain_all (stream_round codec) rest
  marked rest =
      drain_all-taken (stream_round codec) (stream_round-IsStable codec)
        (stream_open_marker ++ rest) 4 none (marker_round rest)

  socket_messages :
      (fs : List F)
      → All IsWritable fs
      → drain_all (socket_round codec) (flatten (socket_writes codec fs)) ≡ all_of fs
  unfolding socket_writes write_frame message
  socket_messages [] h =
      drain_all_wait (socket_round codec) (socket_round-IsStable codec) []
        (socket_round-IsStable codec).idle
  socket_messages (f ∷ fs) (fits, h) =
      ap (drain_all (socket_round codec)) (
        sym (
          append_assoc (set_uint32 (length (codec.encode f))) (codec.encode f)
            (flatten (socket_writes codec fs))))
      ∙ socket_message f (flatten (socket_writes codec fs)) fits
      ∙ ap (hand_over (some f)) (socket_messages fs h)

  -- Whatever frames one end sends, marked or not, each of at most 100 MiB as encoded, and however their
  -- bytes are cut on the way, the other end yields them in order, keeps nothing and stays open.
  pub read_frames-connection_writes :
      (opened : Bool) (fs : List F) (chunks : List Bytes)
      → All Fits fs
      → flatten chunks ≡ flatten (connection_writes codec opened fs)
      → read_frames codec chunks ≡ all_of fs
  unfolding read_frames connection_writes
  read_frames-connection_writes false fs chunks h e =
      read-flatten (stream_round codec) (stream_round-IsStable codec) chunks
      ∙ ap (drain_all (stream_round codec)) e
      ∙ stream_messages fs h
  read_frames-connection_writes true fs chunks h e =
      read-flatten (stream_round codec) (stream_round-IsStable codec) chunks
      ∙ ap (drain_all (stream_round codec)) e
      ∙ marked (flatten (map (encode_length_prefixed_frame codec) fs))
      ∙ stream_messages fs h

  -- So it is over TCP and TLS sockets, with the header and the body of a frame written apart.
  pub frame_reader-socket_writes :
      (fs : List F) (chunks : List Bytes)
      → All IsWritable fs
      → flatten chunks ≡ flatten (socket_writes codec fs)
      → frame_reader codec chunks ≡ all_of fs
  unfolding frame_reader
  frame_reader-socket_writes fs chunks h e =
      read-flatten (socket_round codec) (socket_round-IsStable codec) chunks
      ∙ ap (drain_all (socket_round codec)) e
      ∙ socket_messages fs h
