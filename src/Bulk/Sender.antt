-- ===== src/Bulk/Sender.antt =====
-- ts/packages/core/src/domain/bulk.ts: the sender's `stream`, which sends the chunks of a source as far as
-- the receiver's credit goes. The acks that its waits are given are a list; where it ends, so has the
-- connection.
pub mod Books
pub mod Credit
pub mod Completion
pub mod Handlers
pub mod Resuming
use wire_mesh.Prelude.{
  ℕ, zero, suc, ◌+◌, ◌-◌, Bool, true, false, List, [], ◌∷◌, ◌++◌, Option, none, some, Bytes, ltb,
  length, if◌then◌else◌,
}
use wire_mesh.Bulk.{BulkDataFrame, BulkAckFrame, BulkEndFrame}
use wire_mesh.Streams.{flatten}

-- A chunk that was sent and is not covered by an ack.
pub record InFlight : Type 0 where
  pub seq : ℕ
  pub length : ℕ

pub record Streaming : Type 0 where
  pub seq : ℕ
  pub acked_count : ℕ
  pub window : ℕ
  pub bytes_in_flight : ℕ
  pub in_flight : List InFlight

unfoldable pub begin_stream : ℕ → ℕ → Streaming
begin_stream from_seq initial_window = record {
  seq = from_seq;
  acked_count = from_seq;
  window = initial_window;
  bytes_in_flight = 0;
  in_flight = [];
}

-- The chunks that an ack covers leave from the front, each with its bytes.
unfoldable pub retire : ℕ → List InFlight → ℕ → List InFlight × ℕ
retire acked_count [] bytes = ([], bytes)
retire acked_count (head ∷ in_flight) bytes =
    let rest = retire acked_count in_flight (bytes - head.length) in
    if ltb head.seq acked_count then rest else (head ∷ in_flight, bytes)

unfoldable pub apply_ack : Streaming → BulkAckFrame → Streaming
apply_ack s ack =
    let left = retire ack.ack_seq s.in_flight s.bytes_in_flight in
    record s {
      acked_count = ack.ack_seq;
      window = ack.window;
      in_flight = left.0;
      bytes_in_flight = left.1;
    }

abbrev pub exceeds_window : Streaming → ℕ → Bool
exceeds_window s length = ltb s.window (s.bytes_in_flight + length)

-- Takes acks until `length` more bytes fit in the window, or no more come.
unfoldable pub await_credit :
    Streaming → ℕ → List BulkAckFrame → Streaming × Option (List BulkAckFrame)
await_credit s length [] = (s, if exceeds_window s length then none else some [])
await_credit s length (ack ∷ acks) =
    let rest = await_credit (apply_ack s ack) length acks in
    if exceeds_window s length then rest else (s, some (ack ∷ acks))

unfoldable pub send_chunk : Streaming → Bytes → Streaming
send_chunk s chunk = record s {
  seq = s.seq + 1;
  bytes_in_flight = s.bytes_in_flight + length chunk;
  in_flight = s.in_flight ++ record { seq = s.seq; length = length chunk } ∷ [];
}

pub data BulkSendStatus : Type 0 where
  complete incomplete : BulkSendStatus

-- A frame that went out, with the books as they stand then.
pub record Sent : Type 0 where
  pub frame : BulkDataFrame
  pub books : Streaming

-- Which chunks a cancellation comes before, and which ones the connection takes.
module _ (cancelled reaches : ℕ → Bool) (transfer_id : Bytes) where
  abbrev pub send_next :
      Bytes
      → Streaming × Option (List BulkAckFrame)
      → (Streaming → List BulkAckFrame → List Sent × BulkSendStatus)
      → List Sent × BulkSendStatus
  send_next chunk (s, none) continue = ([], incomplete)
  send_next chunk (s, some acks) continue =
      let rest = continue (send_chunk s chunk) acks in
      if reaches s.seq
      then (
        record {
          frame = record { transfer_id = transfer_id; seq = s.seq; bytes = chunk };
          books = send_chunk s chunk;
        }
            ∷ rest.0,
        rest.1,
      )
      else ([], incomplete)

  -- `complete` is where the end frame follows.
  unfoldable pub stream : List Bytes → Streaming → List BulkAckFrame → List Sent × BulkSendStatus
  stream [] s acks = ([], complete)
  stream (chunk ∷ source) s acks =
      let next =
        send_next chunk (await_credit s (length chunk) acks)
          (λ after left. stream source after left) in
      if cancelled s.seq then ([], incomplete) else next

-- The frame that ends a transfer, with the digest of the whole source read again.
abbrev pub end_frame : (Bytes → Bytes) → Bytes → List Bytes → BulkEndFrame
end_frame digest_of transfer_id source = record {
  transfer_id = transfer_id;
  digest = digest_of (flatten source);
}
