-- ===== src/Tests/Transfers.antt =====
-- Bulk transfers (bulk.ts), over the in-memory storage and with contents for digests.
use wire_mesh.Prelude.{text_eq, ◌≡◌, refl, true, false, List, [], ◌∷◌, some, none, Bytes, arith}
use wire_mesh.Prelude.Maps.{lookup, insert}
use wire_mesh.Storage.Memory.{memory_storage, memory_get}
use wire_mesh.Bulk.{
  respond_ok, BulkReceiver, Resuming, BulkAckFrame, bulk_data, bulk_end, accept, transfer_id_hex,
  read_ack_seq, read_window,
}
use wire_mesh.Bulk.Keys.{IsTransferId}
use wire_mesh.Bulk.Transfers.{Transfer, Event, framed, decided, Shows}
use wire_mesh.Bulk.Receiving.{run, follow_all, all_answers, run-Implements}
use wire_mesh.Bulk.Sender.{
  stream, begin_stream, complete, BulkSendStatus, retire, apply_ack, await_credit, send_chunk, Sent,
}
use wire_mesh.Bulk.Sender.Credit.{IsSending, stream-begin_stream}
use wire_mesh.Bulk.Sender.Handlers.{
  BulkSender, create_bulk_sender, begin_open, continue_from, wait_for_ack, IncomingResume,
  handle_bulk_resume, on_ack, on_connection_end, settlement_of_wait,
}
use wire_mesh.Bulk.Sender.Resuming.{handle_bulk_resume-any_device, handle_bulk_resume-overtaken}
use wire_mesh.DeviceId.{bytes_to_hex, hex_digit}

abbrev digest : Bytes → Bytes
digest content = content

abbrev idle : BulkReceiver memory_storage digest
idle = record { storage = []; registrations = [] }

abbrev nothing : Bytes → Transfer
nothing id = record { registration = none; window = 0; chunks = [] }

idle-Shows : Shows memory_storage digest idle nothing
unfolding lookup read_ack_seq read_window memory_get
idle-Shows = record {
  registered = λ id is. refl;
  held = λ id is. record { counted = refl; credit = refl; chunk = λ i lt. absurd (ground arith) };
}

abbrev transfer : Bytes
transfer = 1 ∷ 2 ∷ 3 ∷ 4 ∷ 5 ∷ 6 ∷ 7 ∷ 8 ∷ 9 ∷ 10 ∷ 11 ∷ 12 ∷ 13 ∷ 14 ∷ 15 ∷ 16 ∷ []

transfer-IsTransferId : IsTransferId transfer
transfer-IsTransferId = record { bytes = ground arith; size = ground arith }

-- An offer is accepted; of a chunk, the same chunk again and a chunk of another connection, the first
-- counts; and the sender says that this was all.
abbrev received : List (Event memory_storage digest)
received =
    decided (record { transfer_id = transfer; opener_device = 8 ∷ []; connection = 1 })
      (accept 10 (some 7))
    ∷ framed 1 (bulk_data (record { transfer_id = transfer; seq = 0; bytes = 21 ∷ [] }))
    ∷ framed 1 (bulk_data (record { transfer_id = transfer; seq = 0; bytes = 21 ∷ [] }))
    ∷ framed 2 (bulk_data (record { transfer_id = transfer; seq = 1; bytes = 22 ∷ [] }))
    ∷ framed 1 (bulk_end (record { transfer_id = transfer; digest = 21 ∷ [] }))
    ∷ []

run-Implements_example :
    (final : BulkReceiver memory_storage digest) × (run memory_storage digest idle received
      ≡ some (final, all_answers memory_storage digest nothing received))
    × Shows memory_storage digest final (follow_all memory_storage digest nothing received)
run-Implements_example =
    run-Implements memory_storage digest idle nothing received
      (
        transfer-IsTransferId,
        (
          transfer-IsTransferId,
          (transfer-IsTransferId, (transfer-IsTransferId, (transfer-IsTransferId, tt))),
        ),
      )
      idle-Shows

abbrev source : List Bytes
source = (21 ∷ 22 ∷ []) ∷ (23 ∷ []) ∷ (24 ∷ 25 ∷ []) ∷ []

-- The window holds two bytes, so each chunk but the first waits for an ack.
abbrev acks : List BulkAckFrame
acks =
    record { transfer_id = transfer; ack_seq = 1; window = 2 }
    ∷ record { transfer_id = transfer; ack_seq = 2; window = 2 }
    ∷ []

abbrev streamed : List Sent × BulkSendStatus
streamed = stream (λ seq. false) (λ seq. true) transfer source (begin_stream 0 2) acks

stream-begin_stream_example : IsSending transfer 0 2 [] acks source streamed
stream-begin_stream_example =
    stream-begin_stream (λ seq. false) (λ seq. true) transfer source 0 2 acks

finishes : streamed.1 ≡ complete
unfolding stream begin_stream await_credit apply_ack retire send_chunk
finishes = refl

abbrev resuming : Resuming memory_storage digest
resuming = record {
  registered = record { opener_device = 8 ∷ []; connection = 3; on_complete = some 7 };
  acked_count = 1;
}

-- The offer is accepted and one chunk of three comes before the connection ends.
abbrev cut_off : List (Event memory_storage digest)
cut_off =
    decided (record { transfer_id = transfer; opener_device = 8 ∷ []; connection = 1 })
      (accept 2 (some 7))
    ∷ framed 1 (bulk_data (record { transfer_id = transfer; seq = 0; bytes = 21 ∷ 22 ∷ [] }))
    ∷ []

abbrev held : Bytes → Transfer
held = follow_all memory_storage digest nothing cut_off

abbrev still_left : List Bytes
still_left = (23 ∷ []) ∷ (24 ∷ 25 ∷ []) ∷ []

-- The receiver says that it holds two chunks.
abbrev holds_two : BulkAckFrame
holds_two = record { transfer_id = transfer; ack_seq = 2; window = 10 }

abbrev from_stranger : IncomingResume
from_stranger = record { from_device = some (99 ∷ []); transfer_id = some transfer }

-- A transfer that was opened_on_1 on connection 1, and one that is continued there.
abbrev opened_on_1 : BulkSender
opened_on_1 = begin_open create_bulk_sender 1 transfer

abbrev continued : BulkSender
continued = continue_from create_bulk_sender 1 transfer

handle_bulk_resume-any_device_example :
    ((handle_bulk_resume opened_on_1 4 from_stranger).1 ≡ respond_ok ∷ [])
    × ((handle_bulk_resume opened_on_1 4 from_stranger).0.active_connection ≡ some 4)
    × (settlement_of_wait (handle_bulk_resume opened_on_1 4 from_stranger).0.settled 0 ≡ none)
    × (settlement_of_wait
          (on_ack (handle_bulk_resume opened_on_1 4 from_stranger).0 holds_two).settled
          0
        ≡ some (some holds_two))
unfolding begin_open create_bulk_sender lookup
handle_bulk_resume-any_device_example =
    handle_bulk_resume-any_device opened_on_1 4 (some (99 ∷ [])) holds_two refl tt refl

handle_bulk_resume-overtaken_example :
    (on_connection_end (handle_bulk_resume continued 4 from_stranger).0 1
      ≡ (handle_bulk_resume continued 4 from_stranger).0)
    × (settlement_of_wait
          (on_ack
            (on_connection_end (handle_bulk_resume continued 4 from_stranger).0 1)
            holds_two).settled
          0
        ≡ some (some holds_two))
    × (settlement_of_wait
          (on_ack
            (on_connection_end (handle_bulk_resume continued 4 from_stranger).0 1)
            holds_two).settled
          1
        ≡ none)
unfolding begin_open continue_from wait_for_ack create_bulk_sender lookup insert text_eq
    transfer_id_hex bytes_to_hex hex_digit
handle_bulk_resume-overtaken_example =
    handle_bulk_resume-overtaken continued 4 (some (99 ∷ [])) holds_two refl tt 1 0 []
      (ground arith) refl (ground arith) refl
