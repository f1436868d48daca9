-- ===== src/Bulk/Framed.antt =====
-- The handling of frames by the receiver of bulk.ts, against what the specification says of it.
use wire_mesh.Prelude.{
  ℕ, ◌≡◌, refl, sym, ap, ◌∙◌, true, [], ◌∷◌, ◌++◌, Option, none, some, Bytes, arith, length, inl,
  inr, Bool-cases, ◌==◌, subst,
}
use wire_mesh.Storage.{KeyValueStorage}
use wire_mesh.Bulk.{
  BulkDataFrame, BulkEndFrame, bulk_data, bulk_end, TransferRegistration, BulkReceiver, take_data,
  take_end, on_registered, on_frame, transfer_id_hex, store_chunk,
}
use wire_mesh.Bulk.Keys.{IsTransferId}
use wire_mesh.Bulk.Cells.{Holds, Holds-store_chunk, Holds-store_chunk_other, read_chunks-Holds}
use wire_mesh.Bulk.Transfers.{Transfer, owns, receive, framed, conclude, follow, answers, Shows}
use wire_mesh.Bulk.Updates.{
  Implements, Shows-updated, on_registered-foreign, on_registered-owned, Shows-unchanged,
  take_data-chunk, take_data-dropped,
}

module _ {S : Type 0} (kv : KeyValueStorage S) (digest_of : Bytes → Bytes) where
  abbrev after_chunk : BulkReceiver kv digest_of → BulkDataFrame → BulkReceiver kv digest_of
  after_chunk s frame = record s {
    storage =
        store_chunk kv digest_of s.storage (transfer_id_hex frame.transfer_id) frame.seq
          frame.bytes;
  }

  Shows-after_chunk :
      (s : BulkReceiver kv digest_of) (view : Bytes → Transfer) (connection : ℕ)
      (frame : BulkDataFrame)
      → IsTransferId frame.transfer_id
      → Shows kv digest_of s view
      → owns (view frame.transfer_id).registration connection ≡ true
      → (frame.seq == length (view frame.transfer_id).chunks) ≡ true
      → Shows kv digest_of
          (after_chunk s frame)
          (follow kv digest_of view (framed connection (bulk_data frame)))
  Shows-after_chunk s view connection frame is h mine hit =
      let id : Bytes = frame.transfer_id in
      let next : frame.seq ≡ length (view id).chunks = ground (arith, hit) in
      let stored =
        subst
          (λ n.
            Holds kv digest_of
              (store_chunk kv digest_of s.storage (transfer_id_hex id) n frame.bytes) id
              (view id).window ((view id).chunks ++ frame.bytes ∷ []))
          (sym next)
          (Holds-store_chunk kv digest_of id is s.storage frame.bytes (view id).window
            (view id).chunks (h.held id is)) in
      Shows-updated kv digest_of s (after_chunk s frame) view
        (λ q. receive (view q) connection frame) id is h (rw (mine, hit) (h.registered id is))
        (rw (mine, hit) stored)
        (λ q hq ne. (
          refl,
          Holds-store_chunk_other kv digest_of s.storage id frame.seq frame.bytes q (view q).window
              (view q).chunks is hq ne,
        ))

  pub data-Implements :
      (s : BulkReceiver kv digest_of) (view : Bytes → Transfer) (connection : ℕ)
      (frame : BulkDataFrame)
      → IsTransferId frame.transfer_id
      → Shows kv digest_of s view
      → Implements kv digest_of
          (on_frame kv digest_of s connection (bulk_data frame))
          (follow kv digest_of view (framed connection (bulk_data frame)))
          (answers kv digest_of view (framed connection (bulk_data frame)))
  unfolding on_frame
  data-Implements s view connection frame is h =
      let id : Bytes = frame.transfer_id in
      let keep =
        Shows-unchanged kv digest_of s view (λ q. receive (view q) connection frame) id is h in
      elim (Bool-cases (owns (view id).registration connection)) [
        | inr foreign ↦ (
          s,
          rw foreign (
              ap
                (λ o.
                  on_registered kv digest_of s connection o
                    (λ _. take_data kv digest_of s connection frame))
                (h.registered id is)
              ∙ on_registered-foreign kv digest_of s connection (view id).registration _ foreign),
          keep (rw foreign refl),
        )
        | inl mine ↦
            let opened =
              ap
                (λ o.
                  on_registered kv digest_of s connection o
                    (λ _. take_data kv digest_of s connection frame))
                (h.registered id is)
              ∙ on_registered-owned kv digest_of s connection (view id).registration
                  (take_data kv digest_of s connection frame) mine in
            elim (Bool-cases (frame.seq == length (view id).chunks)) [
              | inr miss ↦ (
                s,
                rw (mine, miss)
                    (opened ∙ take_data-dropped kv digest_of s view connection frame is h miss),
                keep (rw (mine, miss) refl),
              )
              | inl hit ↦ (
                after_chunk s frame,
                rw (mine, hit)
                    (opened
                      ∙ take_data-chunk kv digest_of s view connection frame is h
                          (ground (arith, hit))),
                Shows-after_chunk s view connection frame is h mine hit,
              )
            ]
      ]

  take_end-conclude :
      (s : BulkReceiver kv digest_of) (view : Bytes → Transfer) (connection : ℕ)
      (frame : BulkEndFrame) (o : Option TransferRegistration)
      → IsTransferId frame.transfer_id
      → Shows kv digest_of s view
      → on_registered kv digest_of s connection o (λ r. take_end kv digest_of s r frame)
        ≡ some (s, conclude kv digest_of (view frame.transfer_id) o connection frame)
  unfolding take_end
  take_end-conclude s view connection frame none is h = refl
  take_end-conclude s view connection frame (some r) is h =
      let id : Bytes = frame.transfer_id in
      let held = h.held id is in
      elim (Bool-cases (r.connection == connection)) [
        | inr foreign ↦ rw foreign refl
        | inl mine ↦
            rw
              (
                mine,
                held.counted,
                read_chunks-Holds kv digest_of s.storage id (view id).window (view id).chunks held,
              )
              refl
      ]

  pub end-Implements :
      (s : BulkReceiver kv digest_of) (view : Bytes → Transfer) (connection : ℕ)
      (frame : BulkEndFrame)
      → IsTransferId frame.transfer_id
      → Shows kv digest_of s view
      → Implements kv digest_of
          (on_frame kv digest_of s connection (bulk_end frame))
          view
          (answers kv digest_of view (framed connection (bulk_end frame)))
  unfolding on_frame
  end-Implements s view connection frame is h = (
    s,
    ap (λ o. on_registered kv digest_of s connection o (λ r. take_end kv digest_of s r frame))
          (h.registered frame.transfer_id is)
        ∙ take_end-conclude s view connection frame (view frame.transfer_id).registration is h,
    h,
  )
