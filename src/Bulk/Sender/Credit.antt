-- ===== src/Bulk/Sender/Credit.antt =====
-- What the sender of bulk.ts puts on the wire: the source's chunks in order, within the credit.
use wire_mesh.Prelude.{
  subst, ℕ, suc, ◌+◌, ◌≤◌, ◌≡◌, refl, ap, ◌∙◌, Bool, List, [], ◌∷◌, ◌++◌, Option, none, some, Bytes,
  arith, length, inl, inr, Bool-cases, take,
}
use wire_mesh.Bulk.{BulkDataFrame, BulkAckFrame}
use wire_mesh.Bulk.Sender.Books.{
  uncovered, uncovered_by_all, bytes_of, bytes_of-append, last_window, AreKept, apply_ack-AreKept,
  send_chunk-AreKept,
}
use wire_mesh.Bulk.Sender.{
  Streaming, begin_stream, apply_ack, exceeds_window, await_credit, send_chunk, BulkSendStatus,
  complete, incomplete, Sent, send_next, stream,
}

-- What was waited for: acks from the front of those to come, after which the next chunk fits.
record IsCredited (s : Streaming) (window : ℕ) (flight : List BulkDataFrame) (n : ℕ)
    (acks left : List BulkAckFrame) (t : Streaming) : Type 0 where
  taken : List BulkAckFrame
  split : acks ≡ taken ++ left
  kept : AreKept (last_window window taken) (uncovered_by_all taken flight) t
  same : t.seq ≡ s.seq
  fits : t.bytes_in_flight + n ≤ t.window

pub apply_ack-seq : (s : Streaming) (ack : BulkAckFrame) → (apply_ack s ack).seq ≡ s.seq
unfolding apply_ack
apply_ack-seq s ack = refl

await_credit-IsCredited :
    (s : Streaming) (window : ℕ) (flight : List BulkDataFrame) (n : ℕ)
    (acks left : List BulkAckFrame)
    → AreKept window flight s
    → (await_credit s n acks).1 ≡ some left
    → IsCredited s window flight n acks left (await_credit s n acks).0
unfolding await_credit
await_credit-IsCredited s window flight n [] left k e = record {
  taken = [];
  split = ground (arith, e);
  kept = k;
  same = refl;
  fits = ground (arith, e);
}
await_credit-IsCredited s window flight n (ack ∷ acks) left k e =
    elim (Bool-cases (exceeds_window s n)) [
      | inl over ↦
          let c =
            await_credit-IsCredited (apply_ack s ack) ack.window (uncovered ack flight) n acks left
              (apply_ack-AreKept window flight s ack k) (rw over at e) in
          rw over (record {
            taken = ack ∷ c.taken;
            split = ap (◌∷◌ ack) c.split;
            kept = c.kept;
            same = c.same ∙ apply_ack-seq s ack;
            fits = c.fits;
          })
      | inr room ↦
          let rest : some (ack ∷ acks) ≡ some left = rw room at e in
          rw room
            (record { taken = []; split = cc; kept = k; same = refl; fits = ground (arith, room) })
    ]

-- The chunks of a source from a number on, as frames.
abbrev pub numbered : Bytes → ℕ → List Bytes → List BulkDataFrame
numbered id seq [] = []
numbered id seq (chunk ∷ source) =
    record { transfer_id = id; seq = seq; bytes = chunk } ∷ numbered id (seq + 1) source

abbrev pub frames_of : List Sent → List BulkDataFrame
frames_of [] = []
frames_of (x ∷ sent) = x.frame ∷ frames_of sent

-- Each chunk goes out after acks from the front of those to come, and with the chunks on the wire that
-- no ack taken since their sending covers, it fits the window that the last ack gave.
abbrev pub AreWithin : ℕ → List BulkDataFrame → List Sent → List BulkAckFrame → Type 0
AreWithin window flight [] acks = Unit
AreWithin window flight (x ∷ sent) acks =
    (taken : List BulkAckFrame) × (left : List BulkAckFrame) × (acks ≡ taken ++ left)
    × (bytes_of (uncovered_by_all taken flight ++ x.frame ∷ []) ≤ last_window window taken)
    × AreWithin (last_window window taken) (uncovered_by_all taken flight ++ x.frame ∷ []) sent left

-- What was sent is the beginning of the numbered source, the whole of it where the sender says so, and
-- within the credit throughout.
pub record IsSending (id : Bytes) (from window : ℕ) (flight : List BulkDataFrame)
    (acks : List BulkAckFrame) (source : List Bytes) (r : List Sent × BulkSendStatus) : Type 0 where
  pub within : AreWithin window flight r.0 acks
  pub order : (k : ℕ) × (frames_of r.0 ≡ numbered id from (take k source))
  pub whole : r.1 ≡ complete → frames_of r.0 ≡ numbered id from source

module _ (cancelled reaches : ℕ → Bool) (id : Bytes) where
  stopped :
      (from window : ℕ) (flight : List BulkDataFrame) (acks : List BulkAckFrame)
      (source : List Bytes)
      → IsSending id from window flight acks source ([], incomplete)
  stopped from window flight acks source = record {
    within = tt;
    order = (0, refl);
    whole = λ e. ground (arith, e);
  }

  sent-IsSending :
      (chunk : Bytes) (source : List Bytes) (s t : Streaming) (rest : List Sent × BulkSendStatus)
      (window : ℕ) (flight : List BulkDataFrame) (acks left : List BulkAckFrame)
      (c : IsCredited s window flight (length chunk) acks left t)
      → IsSending id
          (t.seq + 1)
          (last_window window c.taken)
          (uncovered_by_all c.taken flight
            ++ record { transfer_id = id; seq = t.seq; bytes = chunk } ∷ [])
          left
          source
          rest
      → IsSending id t.seq window flight acks (chunk ∷ source) (
        record {
          frame = record { transfer_id = id; seq = t.seq; bytes = chunk };
          books = send_chunk t chunk;
        }
            ∷ rest.0,
        rest.1,
      )
  sent-IsSending chunk source s t rest window flight acks left c h =
      let (k, order) = h.order in
      let frame : BulkDataFrame = record { transfer_id = id; seq = t.seq; bytes = chunk } in
      record {
        within = (
          c.taken,
          left,
          c.split,
          omega (
            arith,
            c.fits,
            c.kept.counted,
            c.kept.credit,
            bytes_of-append (uncovered_by_all c.taken flight) frame,
          ),
          h.within,
        );
        order = (suc k, ap (λ l. frame ∷ l) order);
        whole = λ e. ap (λ l. frame ∷ l) (h.whole e);
      }

  send_next-IsSending :
      (chunk : Bytes) (source : List Bytes) (s : Streaming) (window : ℕ)
      (flight : List BulkDataFrame) (acks : List BulkAckFrame)
      (r : Streaming × Option (List BulkAckFrame))
      → ((left : List BulkAckFrame)
          → r.1 ≡ some left
          → IsCredited s window flight (length chunk) acks left r.0)
      → ((t : Streaming) (w : ℕ) (f : List BulkDataFrame) (left : List BulkAckFrame)
          → AreKept w f t
          → IsSending id t.seq w f left source (stream cancelled reaches id source t left))
      → IsSending id s.seq window flight acks (chunk ∷ source) (
          send_next cancelled reaches id chunk r
            (λ after left. stream cancelled reaches id source after left))
  unfolding send_chunk
  send_next-IsSending chunk source s window flight acks (t, none) c ih =
      stopped s.seq window flight acks (chunk ∷ source)
  send_next-IsSending chunk source s window flight acks (t, some left) c ih =
      elim (Bool-cases (reaches t.seq)) [
        | inl out ↦
            let credited = c left refl in
            let rest : List Sent × BulkSendStatus =
              stream cancelled reaches id source (send_chunk t chunk) left in
            let first : Sent = record {
              frame = record { transfer_id = id; seq = t.seq; bytes = chunk };
              books = send_chunk t chunk;
            } in
            let sent = sent-IsSending chunk source s t rest window flight acks left credited (
              ih (send_chunk t chunk) (last_window window credited.taken)
                (uncovered_by_all credited.taken flight ++ first.frame ∷ []) left
                (send_chunk-AreKept (last_window window credited.taken)
                  (uncovered_by_all credited.taken flight) t id chunk credited.kept)) in
            rw out (
              subst
                (λ n. IsSending id n window flight acks (chunk ∷ source) (first ∷ rest.0, rest.1))
                credited.same sent)
        | inr lost ↦ rw lost (stopped s.seq window flight acks (chunk ∷ source))
      ]

  stream-IsSending :
      (source : List Bytes) (s : Streaming) (window : ℕ) (flight : List BulkDataFrame)
      (acks : List BulkAckFrame)
      → AreKept window flight s
      → IsSending id s.seq window flight acks source (stream cancelled reaches id source s acks)
  unfolding stream
  stream-IsSending [] s window flight acks h = record {
    within = tt;
    order = (0, refl);
    whole = λ e. refl;
  }
  stream-IsSending (chunk ∷ source) s window flight acks h = elim (Bool-cases (cancelled s.seq)) [
    | inl gone ↦ rw gone (stopped s.seq window flight acks (chunk ∷ source))
    | inr going ↦ rw going (
        send_next-IsSending chunk source s window flight acks (await_credit s (length chunk) acks)
          (λ left e. await_credit-IsCredited s window flight (length chunk) acks left h e)
          (λ t w f left kept. stream-IsSending source t w f left kept))
  ]

  -- Whatever acks arrive, and wherever a cancellation or the connection's end cuts it off, a stream that
  -- starts at a chunk puts the source's chunks on the wire in order under their own numbers, all of
  -- them where it says complete; and each chunk goes out after some acks from the front of those to
  -- come, where the bytes of the chunks on the wire that no ack covers, its own included, are within
  -- the window of the last ack, or the initial one before any.
  pub stream-begin_stream :
      (source : List Bytes) (from window : ℕ) (acks : List BulkAckFrame)
      → IsSending id from window [] acks source
          (stream cancelled reaches id source (begin_stream from window) acks)
  unfolding begin_stream
  stream-begin_stream source from window acks =
      stream-IsSending source (begin_stream from window) window [] acks
        (record { listed = refl; counted = refl; credit = refl; rising = omega arith })
