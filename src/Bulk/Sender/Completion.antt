-- ===== src/Bulk/Sender/Completion.antt =====
-- A stream of the sender of bulk.ts that is acknowledged chunk by chunk.
use wire_mesh.Prelude.{
  Bool, none, ℕ, ◌+◌, ◌≤◌, ◌≡◌, refl, sym, ap, ◌∙◌, true, false, List, [], ◌∷◌, ◌++◌, All, Bytes,
  Option, some, arith, length, length-append, append_assoc, ltb, inl, inr, Bool-cases, subst,
}
use wire_mesh.Bulk.{BulkDataFrame, BulkAckFrame}
use wire_mesh.Bulk.Sender.{
  Streaming, apply_ack, exceeds_window, await_credit, send_chunk, send_next, stream, begin_stream,
  complete,
}
use wire_mesh.Bulk.Sender.Books.{uncovered, AreKept, apply_ack-AreKept, send_chunk-AreKept}
use wire_mesh.Bulk.Sender.Credit.{numbered, apply_ack-seq}

-- The acks of a receiver that takes the chunks from a number on, one for each.
abbrev pub acks_for : Bytes → ℕ → ℕ → List Bytes → List BulkAckFrame
acks_for id window from [] = []
acks_for id window from (chunk ∷ source) =
    record { transfer_id = id; ack_seq = from + 1; window = window }
    ∷ acks_for id window (from + 1) source

send_chunk-seq : (s : Streaming) (chunk : Bytes) → (send_chunk s chunk).seq ≡ s.seq + 1
unfolding send_chunk
send_chunk-seq s chunk = refl

-- A connection that takes every chunk, and no cancellation.
abbrev pub holds : ℕ → Bool
holds seq = true

abbrev pub cancels : ℕ → Bool
cancels seq = false

module _ (id : Bytes) (window : ℕ) where
  uncovered-numbered :
      (ack : BulkAckFrame) (from : ℕ) (l : List Bytes)
      → ack.ack_seq ≤ from
      → uncovered ack (numbered id from l) ≡ numbered id from l
  uncovered-numbered ack from [] le = refl
  uncovered-numbered ack from (c ∷ l) le =
      let open_still : ltb from ack.ack_seq ≡ false = ground (arith, le) in
      rw open_still (
        ap (λ (m : List BulkDataFrame). record { transfer_id = id; seq = from; bytes = c } ∷ m)
          (uncovered-numbered ack (from + 1) l (omega (arith, le))))

  uncovered-first :
      (ack : BulkAckFrame) (from : ℕ) (c : Bytes) (l : List Bytes)
      → ack.ack_seq ≡ from + 1
      → uncovered ack (numbered id from (c ∷ l)) ≡ numbered id (from + 1) l
  uncovered-first ack from c l e =
      let covered : ltb from ack.ack_seq ≡ true = ground (arith, e) in
      rw covered (uncovered-numbered ack (from + 1) l (omega (arith, e)))

  numbered-next :
      (from : ℕ) (l : List Bytes) (seq : ℕ) (chunk : Bytes)
      → seq ≡ from + length l
      → numbered id from (l ++ chunk ∷ [])
        ≡ numbered id from l ++ record { transfer_id = id; seq = seq; bytes = chunk } ∷ []
  numbered-next from [] seq chunk e = ap (λ (n : ℕ). numbered id n (chunk ∷ [])) (omega (arith, e))
  numbered-next from (c ∷ l) seq chunk e =
      ap (λ (m : List BulkDataFrame). record { transfer_id = id; seq = from; bytes = c } ∷ m)
        (numbered-next (from + 1) l seq chunk (omega (arith, e)))

  -- The chunks from a number on are on the wire and not acknowledged, up to the next one to send; the
  -- acks to come are theirs and those of what is still to send.
  record IsPaced (s : Streaming) (from : ℕ) (flight : List Bytes) : Type 0 where
    kept : AreKept window (numbered id from flight) s
    next : s.seq ≡ from + length flight

  -- Credit for a chunk that fits the window comes after some of the acks of the chunks on the wire.
  record IsPacedOn (s : Streaming) (chunk : Bytes) (rest : List Bytes)
      (r : Streaming × Option (List BulkAckFrame)) : Type 0 where
    from : ℕ
    flight : List Bytes
    paced : IsPaced r.0 from flight
    left : r.1 ≡ some (acks_for id window from (flight ++ chunk ∷ rest))

  await_credit-IsPacedOn :
      (s : Streaming) (chunk : Bytes) (rest : List Bytes) (from : ℕ) (flight : List Bytes)
      → length chunk ≤ window
      → IsPaced s from flight
      → IsPacedOn s chunk rest
          (await_credit s (length chunk) (acks_for id window from (flight ++ chunk ∷ rest)))
  unfolding await_credit
  await_credit-IsPacedOn s chunk rest from [] le p =
      let room : exceeds_window s (length chunk) ≡ false =
        ground (arith, le, p.kept.counted, p.kept.credit) in
      rw room (record { from = from; flight = []; paced = p; left = refl })
  await_credit-IsPacedOn s chunk rest from (c ∷ flight) le p =
      elim (Bool-cases (exceeds_window s (length chunk))) [
        | inr room ↦ rw room (record { from = from; flight = c ∷ flight; paced = p; left = refl })
        | inl over ↦
            let ack : BulkAckFrame = record {
              transfer_id = id;
              ack_seq = from + 1;
              window = window;
            } in
            let kept : AreKept window (numbered id (from + 1) flight) (apply_ack s ack) =
              subst (λ f. AreKept window f (apply_ack s ack))
                (uncovered-first ack from c flight refl)
                (apply_ack-AreKept window (numbered id from (c ∷ flight)) s ack p.kept) in
            let r =
              await_credit-IsPacedOn (apply_ack s ack) chunk rest (from + 1) flight le
                (record { kept = kept; next = apply_ack-seq s ack ∙ (omega (arith, p.next)) }) in
            rw over (record { from = r.from; flight = r.flight; paced = r.paced; left = r.left })
      ]

  send_chunk-IsPaced :
      (s : Streaming) (chunk : Bytes) (from : ℕ) (flight : List Bytes)
      → IsPaced s from flight
      → IsPaced (send_chunk s chunk) from (flight ++ chunk ∷ [])
  send_chunk-IsPaced s chunk from flight p = record {
    kept =
        subst (λ f. AreKept window f (send_chunk s chunk))
          (sym (numbered-next from flight s.seq chunk p.next))
          (send_chunk-AreKept window (numbered id from flight) s id chunk p.kept);
    next = send_chunk-seq s chunk ∙ (omega (arith, p.next, length-append flight (chunk ∷ [])));
  }

  send_next-complete :
      (chunk : Bytes) (source : List Bytes) (s : Streaming)
      (r : Streaming × Option (List BulkAckFrame))
      → IsPacedOn s chunk source r
      → ((t : Streaming) (from : ℕ) (flight : List Bytes)
          → IsPaced t from flight
          → (stream cancels holds id source t (acks_for id window from (flight ++ source))).1
            ≡ complete)
      → (send_next cancels holds id chunk r
          (λ after left. stream cancels holds id source after left)).1
        ≡ complete
  send_next-complete chunk source s (t, none) p ih = absurd (ground (arith, p.left))
  send_next-complete chunk source s (t, some left) p ih =
      let given : left ≡ acks_for id window p.from (p.flight ++ chunk ∷ source) =
        ground (arith, p.left) in
      let same : left ≡ acks_for id window p.from ((p.flight ++ chunk ∷ []) ++ source) =
        given ∙ ap (acks_for id window p.from) (sym (append_assoc p.flight (chunk ∷ []) source)) in
      ap (λ l. (stream cancels holds id source (send_chunk t chunk) l).1) same
      ∙ ih (send_chunk t chunk) p.from (p.flight ++ chunk ∷ [])
          (send_chunk-IsPaced t chunk p.from p.flight p.paced)

  stream-paced :
      (source : List Bytes) (s : Streaming) (from : ℕ) (flight : List Bytes)
      → All (λ (c : Bytes). length c ≤ window) source
      → IsPaced s from flight
      → (stream cancels holds id source s (acks_for id window from (flight ++ source))).1 ≡ complete
  unfolding stream
  stream-paced [] s from flight fit p = refl
  stream-paced (chunk ∷ source) s from flight fit p =
      send_next-complete chunk source s _
        (await_credit-IsPacedOn s chunk source from flight fit.0 p)
        (λ t f l q. stream-paced source t f l fit.1 q)

  -- A stream whose chunks fit the window, and whose every chunk is acknowledged, comes to its end.
  pub stream-complete :
      (source : List Bytes) (from : ℕ)
      → All (λ (c : Bytes). length c ≤ window) source
      → (stream cancels holds id source
          (begin_stream from window)
          (acks_for id window from source)).1
        ≡ complete
  unfolding begin_stream
  stream-complete source from fit =
      stream-paced source (begin_stream from window) from [] fit (record {
        kept = record { listed = refl; counted = refl; credit = refl; rising = omega arith };
        next = omega arith;
      })
