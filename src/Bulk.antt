-- ===== src/Bulk.antt =====
-- ts/packages/core/src/domain/bulk.ts: the receiver of bulk transfers, over a storage that outlives its
-- connections, and the source that reads a received transfer back. A count that is read back is `none`
-- where the stored text is no number. Connections and the callbacks of an accepted offer are named by
-- numbers; what a handler sends and calls is a list of effects.
pub mod Keys
pub mod Cells
pub mod Transfers
pub mod Updates
pub mod Framed
pub mod Handling
pub mod Receiving
pub mod Sender
pub mod Resumption
use wire_mesh.Prelude.{
  decimal, ℕ, zero, suc, ◌+◌, Bool, true, false, List, [], ◌∷◌, ◌++◌, Option, none, some, Bytes,
  Text, text, text_eq, leb, ◌==◌, if◌then◌else◌,
}
use wire_mesh.Prelude.Maps.{lookup, insert, erase}
use wire_mesh.DeviceId.{bytes_to_hex}
use wire_mesh.Scope.{bytes_equal}
use wire_mesh.Streams.{flatten}
use wire_mesh.Storage.{KeyValueStorage, count_of, ◌>>=◌}

unfoldable pub transfer_id_hex : Bytes → Text
transfer_id_hex transfer_id = bytes_to_hex transfer_id

-- The key of a transfer's cell: each function below names one.
unfoldable pub cell_key : Text → Text → Text
cell_key id_hex cell = text "bulk/" ++ (id_hex ++ cell)

abbrev pub opener_key : Text → Text
opener_key id_hex = cell_key id_hex (text "/opener")

abbrev pub ack_seq_key : Text → Text
ack_seq_key id_hex = cell_key id_hex (text "/ack-seq")

abbrev pub window_key : Text → Text
window_key id_hex = cell_key id_hex (text "/window")

abbrev pub chunk_key : Text → ℕ → Text
chunk_key id_hex seq = cell_key id_hex (text "/chunk/" ++ decimal seq)

pub record BulkDataFrame : Type 0 where
  pub transfer_id : Bytes
  pub seq : ℕ
  pub bytes : Bytes

pub record BulkEndFrame : Type 0 where
  pub transfer_id : Bytes
  pub digest : Bytes

pub record BulkAckFrame : Type 0 where
  pub transfer_id : Bytes
  pub ack_seq : ℕ
  pub window : ℕ

-- A frame, as the receiver tells them apart.
pub data BulkFrame : Type 0 where
  bulk_data : BulkDataFrame → BulkFrame
  bulk_end : BulkEndFrame → BulkFrame
  other_frame : BulkFrame

pub record BulkReceiveResult : Type 0 where
  pub ok : Bool
  pub chunk_count : ℕ

-- `on_complete` names the callback, where the decision brought one.
pub record TransferRegistration : Type 0 where
  pub opener_device : Bytes
  pub connection : ℕ
  pub on_complete : Option ℕ

pub data BulkErrorCode : Type 0 where
  malformed already_exists denied unknown_transfer : BulkErrorCode

pub data BulkEffect : Type 0 where
  send_ack : ℕ → BulkAckFrame → BulkEffect
  call_complete : ℕ → BulkReceiveResult → BulkEffect
  respond_ok : BulkEffect
  respond_error : BulkErrorCode → BulkEffect

-- What the schema of bulk.open reads of a request's parameters.
pub record BulkOpen : Type 0 where
  pub transfer_id : Bytes

pub record BulkOfferEvent : Type 0 where
  pub transfer_id : Bytes
  pub opener_device : Bytes
  pub connection : ℕ

pub data BulkOfferDecision : Type 0 where
  accept : ℕ → Option ℕ → BulkOfferDecision
  reject : BulkOfferDecision

module _ {S : Type 0} (kv : KeyValueStorage S) (digest_of : Bytes → Bytes) where
  pub record BulkReceiver : Type 0 where
    pub storage : S
    pub registrations : List (Text × TransferRegistration)

  unfoldable pub read_ack_seq : S → Text → Option ℕ
  read_ack_seq s id_hex = count_of (kv.get s (ack_seq_key id_hex))

  unfoldable pub read_window : S → Text → Option ℕ
  read_window s id_hex = count_of (kv.get s (window_key id_hex))

  -- `count` chunks from `first` on; one that is not there is passed over.
  unfoldable pub read_chunks : S → Text → ℕ → ℕ → List Bytes
  read_chunks s id_hex first zero = []
  read_chunks s id_hex first (suc count) =
      let rest = read_chunks s id_hex (first + 1) count in
      elim (kv.get s (chunk_key id_hex first)) [ none ↦ rest | some chunk ↦ chunk ∷ rest ]

  unfoldable pub store_chunk : S → Text → ℕ → Bytes → S
  store_chunk s id_hex seq bytes =
      kv.set (kv.set s (chunk_key id_hex seq) bytes) (ack_seq_key id_hex) (decimal (seq + 1))

  unfoldable pub take_chunk :
      BulkReceiver → ℕ → BulkDataFrame → S → Option (BulkReceiver × List BulkEffect)
  take_chunk s connection frame stored = do
    window ← read_window stored (transfer_id_hex frame.transfer_id)
    some (
      record s { storage = stored },
      send_ack connection
            (record { transfer_id = frame.transfer_id; ack_seq = frame.seq + 1; window = window })
          ∷ [],
    )

  unfoldable pub take_data :
      BulkReceiver → ℕ → BulkDataFrame → Option (BulkReceiver × List BulkEffect)
  take_data s connection frame = do
    let id_hex = transfer_id_hex frame.transfer_id
    acked_count ← read_ack_seq s.storage id_hex
    let taken = take_chunk s connection frame (store_chunk s.storage id_hex frame.seq frame.bytes)
    if frame.seq == acked_count then taken else some (s, [])

  abbrev pub completion : Option ℕ → BulkReceiveResult → List BulkEffect
  completion none result = []
  completion (some callback) result = call_complete callback result ∷ []

  unfoldable pub take_end :
      BulkReceiver → TransferRegistration → BulkEndFrame → Option (BulkReceiver × List BulkEffect)
  take_end s registration frame = do
    let id_hex = transfer_id_hex frame.transfer_id
    acked_count ← read_ack_seq s.storage id_hex
    let content = flatten (read_chunks s.storage id_hex 0 acked_count)
    some (
      s,
      completion registration.on_complete
          (record { ok = bytes_equal (digest_of content) frame.digest; chunk_count = acked_count }),
    )

  -- A frame counts only on the connection that its transfer is registered to.
  abbrev pub on_registered :
      BulkReceiver
      → ℕ
      → Option TransferRegistration
      → (TransferRegistration → Option (BulkReceiver × List BulkEffect))
      → Option (BulkReceiver × List BulkEffect)
  on_registered s connection none handle = some (s, [])
  on_registered s connection (some registration) handle =
      let handled = handle registration in
      if registration.connection == connection then handled else some (s, [])

  abbrev pub registration_of : BulkReceiver → Bytes → Option TransferRegistration
  registration_of s transfer_id = lookup text_eq (transfer_id_hex transfer_id) s.registrations

  unfoldable pub on_frame : BulkReceiver → ℕ → BulkFrame → Option (BulkReceiver × List BulkEffect)
  on_frame s connection other_frame = some (s, [])
  on_frame s connection (bulk_data frame) =
      on_registered s connection (registration_of s frame.transfer_id)
        (λ registration. take_data s connection frame)
  on_frame s connection (bulk_end frame) =
      on_registered s connection (registration_of s frame.transfer_id)
        (λ registration. take_end s registration frame)

  -- The offer that a bulk.open makes, or the answer that refuses it.
  unfoldable pub handle_bulk_open :
      BulkReceiver → Bytes → ℕ → Option BulkOpen → Option BulkOfferEvent × List BulkEffect
  handle_bulk_open s opener_device connection none = (none, respond_error malformed ∷ [])
  handle_bulk_open s opener_device connection (some opening) =
      elim (kv.get s.storage (opener_key (transfer_id_hex opening.transfer_id))) [
        | none ↦ (
          some (record {
            transfer_id = opening.transfer_id;
            opener_device = opener_device;
            connection = connection;
          }),
          [],
        )
        | some existing ↦ (none, respond_error already_exists ∷ [])
      ]

  abbrev pub store_opening : S → Text → Bytes → ℕ → S
  store_opening s id_hex opener_device window =
      kv.set (kv.set (kv.set s (opener_key id_hex) opener_device) (ack_seq_key id_hex) (decimal 0))
        (window_key id_hex) (decimal window)

  abbrev pub register : BulkReceiver → Bytes → TransferRegistration → BulkReceiver
  register s transfer_id registration = record s {
    registrations = insert text_eq (transfer_id_hex transfer_id) registration s.registrations;
  }

  unfoldable pub decide :
      BulkReceiver → BulkOfferEvent → BulkOfferDecision → BulkReceiver × List BulkEffect
  decide s offer reject = (s, respond_error denied ∷ [])
  decide s offer (accept window on_complete) = (
    register
        (record s {
          storage =
              store_opening s.storage (transfer_id_hex offer.transfer_id) offer.opener_device
                window;
        })
        offer.transfer_id
        (record {
          opener_device = offer.opener_device;
          connection = offer.connection;
          on_complete = on_complete;
        }),
    respond_ok
        ∷ send_ack offer.connection
            (record { transfer_id = offer.transfer_id; ack_seq = 0; window = window })
        ∷ [],
  )

  -- What `requestResume` read before it asked the sender, whom it then waits for.
  pub record Resuming : Type 0 where
    pub registered : TransferRegistration
    pub acked_count : ℕ

  abbrev pub resumed_registration :
      ℕ → Option TransferRegistration → Option Bytes → Option TransferRegistration
  resumed_registration connection (some existing) stored_opener = some (record {
    opener_device = existing.opener_device;
    connection = connection;
    on_complete = existing.on_complete;
  })
  resumed_registration connection none none = none
  resumed_registration connection none (some stored_opener) =
      some (record { opener_device = stored_opener; connection = connection; on_complete = none })

  abbrev pub resuming_with : S → Text → Option TransferRegistration → Option (Option Resuming)
  resuming_with s id_hex none = some none
  resuming_with s id_hex (some registered) = do
    acked_count ← read_ack_seq s id_hex
    some (some (record { registered = registered; acked_count = acked_count }))

  -- None is an unknown transfer, for which nothing is sent.
  unfoldable pub request_resume : BulkReceiver → ℕ → Bytes → Option (Option Resuming)
  request_resume s connection transfer_id =
      let id_hex : Text = transfer_id_hex transfer_id in
      resuming_with s.storage id_hex (
        resumed_registration connection (registration_of s transfer_id)
          (kv.get s.storage (opener_key id_hex)))

  -- The sender has answered that it accepts.
  unfoldable pub finish_resume :
      BulkReceiver → Bytes → Resuming → Option (BulkReceiver × List BulkEffect)
  finish_resume s transfer_id resuming = do
    window ← read_window s.storage (transfer_id_hex transfer_id)
    some (
      register s transfer_id resuming.registered,
      send_ack resuming.registered.connection
            (record { transfer_id = transfer_id; ack_seq = resuming.acked_count; window = window })
          ∷ [],
    )

  unfoldable pub handle_bulk_cancel : BulkReceiver → Option Bytes → BulkReceiver × List BulkEffect
  handle_bulk_cancel s none = (s, respond_error malformed ∷ [])
  handle_bulk_cancel s (some transfer_id) = (
    record s { registrations = erase text_eq (transfer_id_hex transfer_id) s.registrations },
    respond_ok ∷ [],
  )

  -- What `storedTransferSource` does when it is asked for the next chunk.
  pub data NextChunk : Type 0 where
    done missing : NextChunk
    chunk_at : Bytes → NextChunk

  abbrev pub found_chunk : Option Bytes → NextChunk
  found_chunk none = missing
  found_chunk (some chunk) = chunk_at chunk

  unfoldable pub next_chunk : S → Text → ℕ → Option NextChunk
  next_chunk s id_hex seq = do
    acked_count ← read_ack_seq s id_hex
    if leb acked_count seq then some done else some (found_chunk (kv.get s (chunk_key id_hex seq)))

  abbrev pub yield_next : Option NextChunk → Option (List Bytes) → Option (List Bytes)
  yield_next none rest = none
  yield_next (some done) rest = some []
  yield_next (some missing) rest = none
  yield_next (some (chunk_at chunk)) rest = do chunks ← rest; some (chunk ∷ chunks)

  -- A consumer that asks until the source is done or throws (`none`), on fuel.
  unfoldable pub stored_transfer : ℕ → S → Text → ℕ → Option (List Bytes)
  stored_transfer zero s id_hex seq = none
  stored_transfer (suc fuel) s id_hex seq =
      yield_next (next_chunk s id_hex seq) (stored_transfer fuel s id_hex (seq + 1))
