-- ===== src/Bulk/Sender/Books.antt =====
-- The books of the sender of bulk.ts, against the chunks that are on the wire and the acks it took.
use wire_mesh.Prelude.{
  ℕ, suc, ◌+◌, ◌<◌, ◌≤◌, ◌≡◌, refl, sym, ap, ◌∙◌, false, List, [], ◌∷◌, ◌++◌, Bytes, arith, length,
  ltb, inl, inr, Bool-cases, if◌then◌else◌,
}
use wire_mesh.Bulk.{BulkDataFrame, BulkAckFrame}
use wire_mesh.Bulk.Sender.{InFlight, Streaming, retire, apply_ack, send_chunk}

-- Of the chunks on the wire, those that an ack does not cover: it covers all below the number it names.
abbrev pub uncovered : BulkAckFrame → List BulkDataFrame → List BulkDataFrame
uncovered ack [] = []
uncovered ack (frame ∷ frames) =
    if ltb frame.seq ack.ack_seq then uncovered ack frames else frame ∷ uncovered ack frames

abbrev pub uncovered_by_all : List BulkAckFrame → List BulkDataFrame → List BulkDataFrame
uncovered_by_all [] frames = frames
uncovered_by_all (ack ∷ acks) frames = uncovered_by_all acks (uncovered ack frames)

abbrev pub bytes_of : List BulkDataFrame → ℕ
bytes_of [] = 0
bytes_of (frame ∷ frames) = length frame.bytes + bytes_of frames

-- The window of the last ack, or what there was before any.
abbrev pub last_window : ℕ → List BulkAckFrame → ℕ
last_window window [] = window
last_window window (ack ∷ acks) = last_window ack.window acks

abbrev pub entries : List BulkDataFrame → List InFlight
entries [] = []
entries (frame ∷ frames) = record { seq = frame.seq; length = length frame.bytes } ∷ entries frames

-- The chunks have rising numbers, from a bound on and below another.
abbrev AreRising : ℕ → ℕ → List BulkDataFrame → Type 0
AreRising low high [] = low ≤ high
AreRising low high (frame ∷ frames) =
    (low ≤ frame.seq) × (frame.seq < high) × AreRising (suc frame.seq) high frames

-- The books stand for the chunks that are on the wire and not covered, and the window.
pub record AreKept (window : ℕ) (flight : List BulkDataFrame) (s : Streaming) : Type 0 where
  pub listed : s.in_flight ≡ entries flight
  pub counted : s.bytes_in_flight ≡ bytes_of flight
  pub credit : s.window ≡ window
  pub rising : AreRising 0 s.seq flight

AreRising-below :
    (low low' high : ℕ) (l : List BulkDataFrame)
    → low' ≤ low
    → AreRising low high l
    → AreRising low' high l
AreRising-below low low' high [] le h = omega (arith, le, h)
AreRising-below low low' high (f ∷ l) le h = (omega (arith, le, h.0), h.1, h.2)

AreRising-uncovered :
    (ack : BulkAckFrame) (low high : ℕ) (l : List BulkDataFrame)
    → AreRising low high l
    → AreRising low high (uncovered ack l)
AreRising-uncovered ack low high [] h = h
AreRising-uncovered ack low high (f ∷ l) h =
    let rest = AreRising-uncovered ack (suc f.seq) high l h.2 in
    elim (Bool-cases (ltb f.seq ack.ack_seq)) [
      | inl covered ↦
          rw covered
            (AreRising-below (suc f.seq) low high (uncovered ack l) (omega (arith, h.0)) rest)
      | inr open_still ↦ rw open_still (h.0, h.1, rest)
    ]

AreRising-next :
    (low high : ℕ) (l : List BulkDataFrame) (frame : BulkDataFrame)
    → frame.seq ≡ high
    → AreRising low high l
    → AreRising low (high + 1) (l ++ frame ∷ [])
AreRising-next low high [] frame e h = (omega (arith, e, h), omega (arith, e), omega (arith, e))
AreRising-next low high (f ∷ l) frame e h =
    (h.0, omega (arith, h.1), AreRising-next (suc f.seq) high l frame e h.2)

pub uncovered-past :
    (ack : BulkAckFrame) (low high : ℕ) (l : List BulkDataFrame)
    → ack.ack_seq ≤ low
    → AreRising low high l
    → uncovered ack l ≡ l
uncovered-past ack low high [] le h = refl
uncovered-past ack low high (f ∷ l) le h =
    let open_still : (ltb f.seq ack.ack_seq) ≡ false = ground (arith, le, h.0) in
    rw open_still (ap (◌∷◌ f) (uncovered-past ack (suc f.seq) high l (omega (arith, le, h.0)) h.2))

-- Retiring from the front drops all that is covered.
retire_lem :
    (ack : BulkAckFrame) (low high : ℕ) (l : List BulkDataFrame)
    → AreRising low high l
    → retire ack.ack_seq (entries l) (bytes_of l)
      ≡ (entries (uncovered ack l), bytes_of (uncovered ack l))
unfolding retire
retire_lem ack low high [] h = refl
retire_lem ack low high (f ∷ l) h = elim (Bool-cases (ltb f.seq ack.ack_seq)) [
  | inl covered ↦
      rw covered
        (ap (retire ack.ack_seq (entries l)) (omega arith) ∙ retire_lem ack (suc f.seq) high l h.2)
  | inr open_still ↦
      let same : uncovered ack l ≡ l =
        uncovered-past ack (suc f.seq) high l (ground (arith, open_still)) h.2 in
      rw open_still
        (ap (λ (m : List BulkDataFrame). (entries (f ∷ m), bytes_of (f ∷ m))) (sym same))
]

pub apply_ack-AreKept :
    (window : ℕ) (flight : List BulkDataFrame) (s : Streaming) (ack : BulkAckFrame)
    → AreKept window flight s
    → AreKept ack.window (uncovered ack flight) (apply_ack s ack)
unfolding apply_ack
apply_ack-AreKept window flight s ack k =
    let retired : retire ack.ack_seq s.in_flight s.bytes_in_flight
        ≡ (entries (uncovered ack flight), bytes_of (uncovered ack flight)) =
      rw (k.listed, k.counted) (retire_lem ack 0 s.seq flight k.rising) in
    record {
      listed = ap (λ (x : List InFlight × ℕ). x.0) retired;
      counted = ap (λ (x : List InFlight × ℕ). x.1) retired;
      credit = refl;
      rising = AreRising-uncovered ack 0 s.seq flight k.rising;
    }

pub bytes_of-append :
    (l : List BulkDataFrame) (frame : BulkDataFrame)
    → bytes_of (l ++ frame ∷ []) ≡ bytes_of l + length frame.bytes
bytes_of-append [] frame = omega arith
bytes_of-append (f ∷ l) frame = omega (arith, bytes_of-append l frame)

entries-append :
    (l : List BulkDataFrame) (frame : BulkDataFrame)
    → entries (l ++ frame ∷ [])
      ≡ entries l ++ record { seq = frame.seq; length = length frame.bytes } ∷ []
entries-append [] frame = refl
entries-append (f ∷ l) frame =
    ap (λ m. record { seq = f.seq; length = length f.bytes } ∷ m) (entries-append l frame)

pub send_chunk-AreKept :
    (window : ℕ) (flight : List BulkDataFrame) (s : Streaming) (id chunk : Bytes)
    → AreKept window flight s
    → AreKept window
        (flight ++ record { transfer_id = id; seq = s.seq; bytes = chunk } ∷ [])
        (send_chunk s chunk)
unfolding send_chunk
send_chunk-AreKept window flight s id chunk k =
    let frame : BulkDataFrame = record { transfer_id = id; seq = s.seq; bytes = chunk } in
    record {
      listed =
          ap (λ (l : List InFlight). l ++ record { seq = s.seq; length = length chunk } ∷ [])
            k.listed
          ∙ sym (entries-append flight frame);
      counted = omega (arith, k.counted, bytes_of-append flight frame);
      credit = k.credit;
      rising = AreRising-next 0 s.seq flight frame refl k.rising;
    }
