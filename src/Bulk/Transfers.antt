-- ===== src/Bulk/Transfers.antt =====
-- What the receiver of bulk.ts does to each transfer: a specification without keys or storage, which
-- knows a transfer by its chunks.
use wire_mesh.Prelude.{
  ℕ, ◌+◌, ◌≡◌, Bool, false, List, [], ◌∷◌, ◌++◌, Option, none, some, Bytes, length, if◌then◌else◌,
  ◌==◌,
}
use wire_mesh.Scope.{bytes_equal}
use wire_mesh.Streams.{flatten}
use wire_mesh.Storage.{KeyValueStorage}
use wire_mesh.Bulk.{
  BulkDataFrame, BulkEndFrame, BulkFrame, bulk_data, bulk_end, other_frame, TransferRegistration,
  malformed, denied, BulkEffect, send_ack, respond_ok, respond_error, BulkOfferEvent,
  BulkOfferDecision, accept, reject, BulkReceiver, completion, registration_of, on_frame, decide,
  Resuming, finish_resume, handle_bulk_cancel,
}
use wire_mesh.Bulk.Keys.{IsTransferId}
use wire_mesh.Bulk.Cells.{Holds}

-- A transfer, as the receiver of its chunks sees it.
pub record Transfer : Type 0 where
  pub registration : Option TransferRegistration
  pub window : ℕ
  pub chunks : List Bytes

abbrev pub owns : Option TransferRegistration → ℕ → Bool
owns none connection = false
owns (some registration) connection = registration.connection == connection

-- What becomes of a transfer with a frame of data, and what is sent.
abbrev pub receive : Transfer → ℕ → BulkDataFrame → Transfer
receive t connection frame =
    if owns t.registration connection
    then (if frame.seq == length t.chunks
        then record t { chunks = t.chunks ++ frame.bytes ∷ [] }
        else t)
    else t

abbrev pub acknowledge : Transfer → ℕ → BulkDataFrame → List BulkEffect
acknowledge t connection frame =
    if owns t.registration connection
    then (if frame.seq == length t.chunks
        then send_ack connection
            (record { transfer_id = frame.transfer_id; ack_seq = frame.seq + 1; window = t.window })
          ∷ []
        else [])
    else []

module _ {S : Type 0} (kv : KeyValueStorage S) (digest_of : Bytes → Bytes) where
  pub data Event : Type 0 where
    framed : ℕ → BulkFrame → Event
    decided : BulkOfferEvent → BulkOfferDecision → Event
    resumed : Bytes → Resuming kv digest_of → Event
    cancelled : Option Bytes → Event

  unfoldable pub step :
      BulkReceiver kv digest_of → Event → Option (BulkReceiver kv digest_of × List BulkEffect)
  step s (framed connection frame) = on_frame kv digest_of s connection frame
  step s (decided offer decision) = some (decide kv digest_of s offer decision)
  step s (resumed transfer_id resuming) = finish_resume kv digest_of s transfer_id resuming
  step s (cancelled transfer_id) = some (handle_bulk_cancel kv digest_of s transfer_id)

  -- What becomes of the transfers, and what is sent and called.
  abbrev pub conclude : Transfer → Option TransferRegistration → ℕ → BulkEndFrame → List BulkEffect
  conclude t none connection frame = []
  conclude t (some registration) connection frame =
      if registration.connection == connection
      then completion kv digest_of registration.on_complete (record {
        ok = bytes_equal (digest_of (flatten t.chunks)) frame.digest;
        chunk_count = length t.chunks;
      })
      else []

  abbrev pub follow : (Bytes → Transfer) → Event → Bytes → Transfer
  follow view (framed connection (bulk_data frame)) id =
      if bytes_equal frame.transfer_id id then receive (view id) connection frame else view id
  follow view (framed connection (bulk_end frame)) id = view id
  follow view (framed connection other_frame) id = view id
  follow view (decided offer reject) id = view id
  follow view (decided offer (accept window on_complete)) id =
      if bytes_equal offer.transfer_id id
      then record {
        registration = some (record {
          opener_device = offer.opener_device;
          connection = offer.connection;
          on_complete = on_complete;
        });
        window = window;
        chunks = [];
      }
      else view id
  follow view (resumed transfer_id resuming) id =
      if bytes_equal transfer_id id
      then record (view id) { registration = some resuming.registered }
      else view id
  follow view (cancelled none) id = view id
  follow view (cancelled (some transfer_id)) id =
      if bytes_equal transfer_id id then record (view id) { registration = none } else view id

  abbrev pub answers : (Bytes → Transfer) → Event → List BulkEffect
  answers view (framed connection (bulk_data frame)) =
      acknowledge (view frame.transfer_id) connection frame
  answers view (framed connection (bulk_end frame)) =
      conclude (view frame.transfer_id) (view frame.transfer_id).registration connection frame
  answers view (framed connection other_frame) = []
  answers view (decided offer reject) = respond_error denied ∷ []
  answers view (decided offer (accept window on_complete)) =
      respond_ok
      ∷ send_ack offer.connection
          (record { transfer_id = offer.transfer_id; ack_seq = 0; window = window })
      ∷ []
  answers view (resumed transfer_id resuming) =
      send_ack resuming.registered.connection (record {
        transfer_id = transfer_id;
        ack_seq = resuming.acked_count;
        window = (view transfer_id).window;
      })
      ∷ []
  answers view (cancelled none) = respond_error malformed ∷ []
  answers view (cancelled (some transfer_id)) = respond_ok ∷ []

  -- What the schemas admit.
  abbrev pub IsAdmitted : Event → Type 0
  IsAdmitted (framed connection (bulk_data frame)) = IsTransferId frame.transfer_id
  IsAdmitted (framed connection (bulk_end frame)) = IsTransferId frame.transfer_id
  IsAdmitted (framed connection other_frame) = Unit
  IsAdmitted (decided offer decision) = IsTransferId offer.transfer_id
  IsAdmitted (resumed transfer_id resuming) = IsTransferId transfer_id
  IsAdmitted (cancelled none) = Unit
  IsAdmitted (cancelled (some transfer_id)) = IsTransferId transfer_id

  -- The receiver's storage and registrations are those of these transfers.
  pub record Shows (s : BulkReceiver kv digest_of) (view : Bytes → Transfer) : Type 0 where
    pub registered :
        (id : Bytes) → IsTransferId id → registration_of kv digest_of s id ≡ (view id).registration
    pub held :
        (id : Bytes)
        → IsTransferId id
        → Holds kv digest_of s.storage id (view id).window (view id).chunks
