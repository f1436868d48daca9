-- ===== src/Bulk/Resumption.antt =====
-- A transfer of bulk.ts that was cut off, resumed on another connection and streamed to its end: the
-- sender of Bulk.Sender, the receiver of Bulk and the source that reads back, together.
use wire_mesh.Prelude.{ℕ, ◌≡◌, true, List, [], ◌∷◌, ◌++◌, Bytes}
use wire_mesh.Storage.{KeyValueStorage}
use wire_mesh.Bulk.{
  send_ack, BulkDataFrame, BulkAckFrame, bulk_data, bulk_end, BulkEffect, Resuming, completion,
}
use wire_mesh.Bulk.Transfers.{Transfer, Event, framed, resumed}
use wire_mesh.Bulk.Receiving.{follow_all, all_answers}
use wire_mesh.Bulk.Sender.Completion.{acks_for, holds, cancels}
use wire_mesh.Bulk.Sender.{Sent, BulkSendStatus, begin_stream, stream, end_frame}
use wire_mesh.Bulk.Sender.Credit.{numbered}

module _ {S : Type 0} (kv : KeyValueStorage S) (digest_of : Bytes → Bytes) where
  -- Frames that arrive on a connection.
  abbrev pub arriving : ℕ → List BulkDataFrame → List (Event kv digest_of)
  arriving connection [] = []
  arriving connection (frame ∷ frames) =
      framed connection (bulk_data frame) ∷ arriving connection frames

  abbrev pub acknowledging : ℕ → List BulkAckFrame → List BulkEffect
  acknowledging connection [] = []
  acknowledging connection (ack ∷ acks) = send_ack connection ack ∷ acknowledging connection acks

  -- The frames of a source, numbered from the chunks that are held, are all taken and acknowledged.
  record Took (view : Bytes → Transfer) (connection : ℕ) (id : Bytes) (from : ℕ)
      (source : List Bytes) : Type 0 where
    after : Bytes → Transfer
    follows : follow_all kv digest_of view (arriving connection (numbered id from source)) ≡ after
    chunks : (after id).chunks ≡ (view id).chunks ++ source
    registration : (after id).registration ≡ (view id).registration
    answered :
        all_answers kv digest_of view (arriving connection (numbered id from source))
        ≡ acknowledging connection (acks_for id (view id).window from source)

  -- A connection over which a transfer is resumed and comes to its end: the sender's frames, and its end
  -- frame with the digest of the whole source.
  abbrev pub resumption :
      Bytes → Resuming kv digest_of → List BulkDataFrame → List Bytes → List (Event kv digest_of)
  resumption id resuming frames source =
      (resumed id resuming ∷ arriving resuming.registered.connection frames)
      ++ framed resuming.registered.connection (bulk_end (end_frame digest_of id source)) ∷ []

  -- What the receiver says over such a connection: the ack that the stream starts from, one for each
  -- chunk, and that the transfer is whole.
  abbrev pub resumption_effects :
      Bytes → Resuming kv digest_of → ℕ → List Bytes → ℕ → List BulkEffect
  resumption_effects id resuming window left total =
      acknowledging resuming.registered.connection (
        record { transfer_id = id; ack_seq = resuming.acked_count; window = window }
        ∷ acks_for id window resuming.acked_count left)
      ++ completion kv digest_of resuming.registered.on_complete
          (record { ok = true; chunk_count = total })

  -- The sender's stream over the connection, from the receiver's first ack on and given its acks of the
  -- chunks, on a connection that takes all of them and without a cancellation.
  abbrev pub resumed_stream :
      Bytes → Resuming kv digest_of → ℕ → List Bytes → List Sent × BulkSendStatus
  resumed_stream id resuming window left =
      stream cancels holds id left (begin_stream resuming.acked_count window)
        (acks_for id window resuming.acked_count left)
