-- ===== src/Bulk/Sender/Handlers.antt =====
-- ts/packages/core/src/domain/bulk.ts: the state that a bulk sender keeps beside its streams, and its
-- handlers. A wait for an ack is a number, with what it settled to: an ack, or `none` where it was
-- rejected. Whether an opening is accepted is known only later, in a step of its own.
use wire_mesh.Prelude.{
  ℕ, ◌+◌, Bool, false, List, [], ◌∷◌, ◌++◌, Option, none, some, Bytes, Text, text_eq, any, ◌==◌,
  if◌then◌else◌,
}
use wire_mesh.Prelude.Maps.{lookup, insert}
use wire_mesh.Bulk.{
  BulkAckFrame, malformed, unknown_transfer, BulkEffect, respond_ok, respond_error, transfer_id_hex,
}

abbrev pub AckSettlement : Type 0
AckSettlement = ℕ × Option BulkAckFrame

pub record BulkSender : Type 0 where
  pub pending_acks : List (Text × List ℕ)
  pub cancelled : List Text
  pub active_transfer_id : Option Text
  pub active_connection : Option ℕ
  pub next_wait : ℕ
  pub settled : List AckSettlement

unfoldable pub create_bulk_sender : BulkSender
create_bulk_sender = record {
  pending_acks = [];
  cancelled = [];
  active_transfer_id = none;
  active_connection = none;
  next_wait = 0;
  settled = [];
}

abbrev pub queue_of : Option (List ℕ) → List ℕ
queue_of none = []
queue_of (some queue) = queue

abbrev pub queue_at : BulkSender → Text → List ℕ
queue_at s id = queue_of (lookup text_eq id s.pending_acks)

-- The number of the wait is that which was the next.
unfoldable pub wait_for_ack : BulkSender → Text → BulkSender
wait_for_ack s id = record s {
  pending_acks = insert text_eq id (queue_at s id ++ s.next_wait ∷ []) s.pending_acks;
  next_wait = s.next_wait + 1;
}

abbrev pub settle_first : BulkSender → Text → BulkAckFrame → List ℕ → BulkSender
settle_first s id frame [] = s
settle_first s id frame (wait ∷ queue) = record s {
  pending_acks = insert text_eq id queue s.pending_acks;
  settled = s.settled ++ (wait, some frame) ∷ [];
}

-- An ack that nothing waits for is dropped.
unfoldable pub resolve_next_ack : BulkSender → Text → BulkAckFrame → BulkSender
resolve_next_ack s id frame = settle_first s id frame (queue_at s id)

abbrev pub rejected : List ℕ → List AckSettlement
rejected [] = []
rejected (wait ∷ queue) = (wait, none) ∷ rejected queue

abbrev pub reject_queue : BulkSender → Text → Option (List ℕ) → BulkSender
reject_queue s id none = s
reject_queue s id (some queue) = record s {
  pending_acks = insert text_eq id [] s.pending_acks;
  settled = s.settled ++ rejected queue;
}

unfoldable pub reject_all_acks : BulkSender → Text → BulkSender
reject_all_acks s id = reject_queue s id (lookup text_eq id s.pending_acks)

-- The sender heeds acks alone.
unfoldable pub on_ack : BulkSender → BulkAckFrame → BulkSender
on_ack s frame = resolve_next_ack s (transfer_id_hex frame.transfer_id) frame

abbrev pub is_at : Option ℕ → ℕ → Bool
is_at none connection = false
is_at (some active) connection = active == connection

abbrev pub end_active : BulkSender → ℕ → Option Text → BulkSender
end_active s connection none = s
end_active s connection (some id) =
    if is_at s.active_connection connection then reject_all_acks s id else s

unfoldable pub on_connection_end : BulkSender → ℕ → BulkSender
on_connection_end s connection = end_active s connection s.active_transfer_id

-- `cancelled.has` is what the stream asks before each chunk.
abbrev pub is_cancelled : BulkSender → Text → Bool
is_cancelled s id = any (text_eq id) s.cancelled

unfoldable pub handle_cancel : BulkSender → Option Bytes → BulkSender × List BulkEffect
handle_cancel s none = (s, respond_error malformed ∷ [])
handle_cancel s (some transfer_id) = (
  record s {
    cancelled =
        (if is_cancelled s (transfer_id_hex transfer_id)
          then s.cancelled
          else s.cancelled ++ transfer_id_hex transfer_id ∷ []);
  },
  respond_ok ∷ [],
)

-- `open` up to the request, which is sent last.
unfoldable pub begin_open : BulkSender → ℕ → Bytes → BulkSender
begin_open s connection transfer_id = record s {
  active_transfer_id = some (transfer_id_hex transfer_id);
  active_connection = some connection;
}

-- The receiver has accepted, or not; then `open` returns the code.
unfoldable pub finish_open : BulkSender → Bytes → Bool → BulkSender
finish_open s transfer_id accepted =
    if accepted then wait_for_ack s (transfer_id_hex transfer_id) else s

unfoldable pub continue_from : BulkSender → ℕ → Bytes → BulkSender
continue_from s connection transfer_id =
    wait_for_ack (begin_open s connection transfer_id) (transfer_id_hex transfer_id)

-- What a request for more brings: whom it is relayed for, and what the schema reads of it.
pub record IncomingResume : Type 0 where
  pub from_device : Option Bytes
  pub transfer_id : Option Bytes

abbrev pub names_transfer : Option Text → Text → Bool
names_transfer none id = false
names_transfer (some active) id = text_eq id active

abbrev pub resume_named : BulkSender → ℕ → Option Bytes → BulkSender × List BulkEffect
resume_named s connection none = (s, respond_error malformed ∷ [])
resume_named s connection (some transfer_id) =
    if names_transfer s.active_transfer_id (transfer_id_hex transfer_id)
    then (
      wait_for_ack (record s { active_connection = some connection }) (transfer_id_hex transfer_id),
      respond_ok ∷ [],
    )
    else (s, respond_error unknown_transfer ∷ [])

unfoldable pub handle_bulk_resume : BulkSender → ℕ → IncomingResume → BulkSender × List BulkEffect
handle_bulk_resume s connection incoming = resume_named s connection incoming.transfer_id

-- What a wait settled to, if it did.
abbrev pub settlement_of_wait : List AckSettlement → ℕ → Option (Option BulkAckFrame)
settlement_of_wait [] wait = none
settlement_of_wait ((w, outcome) ∷ settled) wait =
    if w == wait then some outcome else settlement_of_wait settled wait
