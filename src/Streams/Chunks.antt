-- ===== src/Streams/Chunks.antt =====
-- How a stream is cut into chunks makes no difference to what its reader hands over.
use wire_mesh.Prelude.{
  ℕ, zero, suc, ◌+◌, ◌<◌, ◌≤◌, ◌≡◌, ◌≢◌, inl, inr, refl, sym, ap, ◌∙◌, false, List, [], ◌∷◌, ◌++◌,
  Option, Bytes, if◌then◌else◌, arith, Bool-cases, length, append_assoc, append-nil, length-append,
  take, drop, length-drop,
}
use wire_mesh.Streams.{
  flatten, Codec, Parsed, undecodable, unrecognised, recognised, Round, wait, taken, Drained,
  prepend, drain_all, read, get_uint32, stream_round, socket_round, read_frames, frame_reader,
  after_parse, max_frame_bytes,
}
use wire_mesh.Streams.Loop.{
  IsStable, drain_all-append, drain_all-waits, drain_all_wait, extend, drop-append,
}

unless_broken :
    {F : Type 0} (d x y : Drained F)
    → (d.is_broken ≡ false → x ≡ y)
    → (if d.is_broken then d else prepend d.frames x)
      ≡ (if d.is_broken then d else prepend d.frames y)
unless_broken d x y h = elim (Bool-cases d.is_broken) [
  | inl b ↦ rw b refl
  | inr ok ↦ rw ok (ap (prepend d.frames) (h ok))
]

module _ {F : Type 0} (step : Bytes → Round F) (stable : IsStable step) where
  read_lem :
      (chunks : List Bytes) (a : Bytes)
      → step a ≡ wait
      → read step a chunks ≡ drain_all step (a ++ flatten chunks)
  unfolding read
  read_lem [] a h = sym (drain_all_wait step stable a h) ∙ ap (drain_all step) (sym (append-nil a))
  read_lem (chunk ∷ chunks) a h =
      let d = drain_all step (a ++ chunk) in
      let whole : drain_all step (a ++ (chunk ++ flatten chunks))
          ≡ extend step stable d (flatten chunks) =
        ap (drain_all step) (sym (append_assoc a chunk (flatten chunks)))
        ∙ drain_all-append step stable (length (a ++ chunk)) (a ++ chunk) (flatten chunks)
            (omega arith) in
      unless_broken d _ _ (λ ok.
        read_lem chunks d.rest
          (drain_all-waits step stable (length (a ++ chunk)) (a ++ chunk) (omega arith) ok))
      ∙ sym whole

  -- Read from the start.
  pub read-flatten : (chunks : List Bytes) → read step [] chunks ≡ drain_all step (flatten chunks)
  read-flatten chunks = read_lem chunks [] stable.idle

  pub read-waits :
      (chunks : List Bytes)
      → (read step [] chunks).is_broken ≡ false
      → step (read step [] chunks).rest ≡ wait
  read-waits chunks h =
      let e = read-flatten chunks in
      ap (λ (d : Drained F). step d.rest) e
      ∙ drain_all-waits step stable (length (flatten chunks)) (flatten chunks) (omega arith)
          (sym (ap (λ (d : Drained F). d.is_broken) e) ∙ h)

get_uint32-append : (a b : Bytes) → 4 ≤ length a → get_uint32 (a ++ b) ≡ get_uint32 a
unfolding get_uint32
get_uint32-append (w ∷ x ∷ y ∷ z ∷ a) b h = refl
get_uint32-append (w ∷ x ∷ y ∷ []) b h = absurd (omega arith)
get_uint32-append (w ∷ x ∷ []) b h = absurd (omega arith)
get_uint32-append (w ∷ []) b h = absurd (omega arith)
get_uint32-append [] b h = absurd (omega arith)

take-append {ℓ} :
    {A : Type ℓ} (n : ℕ) (xs ys : List A) → n ≤ length xs → take n (xs ++ ys) ≡ take n xs
take-append zero xs ys h = refl
take-append (suc n) [] ys h = absurd (omega arith)
take-append (suc n) (x ∷ xs) ys h = ap (◌∷◌ x) (take-append n xs ys (omega arith))

-- The body stands whole in the bytes at hand.
body-append :
    (n : ℕ) (a b : Bytes) → 4 + n ≤ length a → take n (drop 4 (a ++ b)) ≡ take n (drop 4 a)
body-append n a b h =
    ap (take n) (drop-append 4 a b (omega arith))
    ∙ take-append n (drop 4 a) b (omega (arith, length-drop 4 a))

module _ {F : Type 0} (codec : Codec F) where
  after_parse_cases : (n m : ℕ) (f : Option F) (p : Parsed F) → after_parse n p ≡ taken m f → n ≡ m
  after_parse_cases n m f undecodable h = cc
  after_parse_cases n m f unrecognised h = cc
  after_parse_cases n m f (recognised g) h = cc

  pub stream_round-IsStable : IsStable (stream_round codec)
  unfolding stream_round
  stream_round-IsStable = record {
    idle = refl;
    some_taken = λ a n f h. ground (
      arith,
      after_parse_cases (4 + get_uint32 a) n f (codec.parse (take (get_uint32 a) (drop 4 a))),
    );
    taken_more = λ a b n f h.
        ground (arith, length-append a b, get_uint32-append a b, body-append (get_uint32 a) a b);
    broken_more = λ a b h.
        ground (arith, length-append a b, get_uint32-append a b, body-append (get_uint32 a) a b);
  }

  pub socket_round-IsStable : IsStable (socket_round codec)
  unfolding socket_round
  socket_round-IsStable = record {
    idle = refl;
    some_taken = λ a n f h. ground (
      arith,
      after_parse_cases (4 + get_uint32 a) n f (codec.parse (take (get_uint32 a) (drop 4 a))),
    );
    taken_more = λ a b n f h.
        ground (arith, length-append a b, get_uint32-append a b, body-append (get_uint32 a) a b);
    broken_more = λ a b h.
        ground (arith, length-append a b, get_uint32-append a b, body-append (get_uint32 a) a b);
  }

  -- The frames that `readFrames` yields, whether it fails and what it keeps depend only on the bytes
  -- that arrived, however the stream cut them into chunks.
  pub read_frames-flatten :
      (chunks chunks' : List Bytes)
      → flatten chunks ≡ flatten chunks'
      → read_frames codec chunks ≡ read_frames codec chunks'
  unfolding read_frames
  read_frames-flatten chunks chunks' h =
      read-flatten (stream_round codec) stream_round-IsStable chunks
      ∙ ap (drain_all (stream_round codec)) h
      ∙ sym (read-flatten (stream_round codec) stream_round-IsStable chunks')

  -- So it is with the readers of TCP and TLS sockets.
  pub frame_reader-flatten :
      (chunks chunks' : List Bytes)
      → flatten chunks ≡ flatten chunks'
      → frame_reader codec chunks ≡ frame_reader codec chunks'
  unfolding frame_reader
  frame_reader-flatten chunks chunks' h =
      read-flatten (socket_round codec) socket_round-IsStable chunks
      ∙ ap (drain_all (socket_round codec)) h
      ∙ sym (read-flatten (socket_round codec) socket_round-IsStable chunks')

  after_parse-ne-wait : (n : ℕ) (p : Parsed F) → after_parse n p ≢ wait
  after_parse-ne-wait n undecodable h = cc
  after_parse-ne-wait n unrecognised h = cc
  after_parse-ne-wait n (recognised g) h = cc

  waits_within : (a : Bytes) → stream_round codec a ≡ wait → length a < 4 + max_frame_bytes
  unfolding stream_round
  waits_within a h =
      ground (
        arith,
        after_parse-ne-wait (4 + get_uint32 a) (codec.parse (take (get_uint32 a) (drop 4 a))),
      )

  -- Whatever a peer sends and however it announces its frames, an open reader keeps fewer bytes than
  -- a length prefix and one frame of the greatest size.
  read_frames_bound :
      (chunks : List Bytes)
      → (read_frames codec chunks).is_broken ≡ false
      → length (read_frames codec chunks).rest < 4 + max_frame_bytes
  unfolding read_frames
  read_frames_bound chunks h =
      waits_within _ (read-waits (stream_round codec) stream_round-IsStable chunks h)
