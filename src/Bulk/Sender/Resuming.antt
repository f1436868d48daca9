-- ===== src/Bulk/Sender/Resuming.antt =====
-- Requests of bulk.ts for more of a transfer: who is answered, and which stream the next ack goes to.
use wire_mesh.Prelude.{
  ℕ, ◌≡◌, ◌≢◌, ◌<◌, refl, ap, ◌∙◌, false, List, [], ◌∷◌, ◌++◌, Option, none, some, Bytes, Text,
  text_eq, text_eq_refl, text_eq_iff, arith, ◌==◌, All, if◌then◌else◌,
}
use wire_mesh.Prelude.Maps.{lookup-insert}
use wire_mesh.Bulk.{BulkAckFrame, BulkEffect, respond_ok, transfer_id_hex}
use wire_mesh.Bulk.Sender.Handlers.{
  AckSettlement, BulkSender, queue_at, wait_for_ack, settle_first, resolve_next_ack, on_ack,
  on_connection_end, handle_bulk_resume, settlement_of_wait,
}

-- No wait that is still to come has settled.
abbrev pub AreNumbered : BulkSender → Type 0
AreNumbered s = All (λ (e : AckSettlement). e.0 < s.next_wait) s.settled

unsettled :
    (l : List AckSettlement) (n wait : ℕ)
    → All (λ (e : AckSettlement). e.0 < n) l
    → n ≡ wait
    → settlement_of_wait l wait ≡ none
unsettled [] n wait h e = refl
unsettled ((w, outcome) ∷ l) n wait h e = ground (arith, unsettled l n wait h.1 e, h.0, e)

settlement_of_wait-append :
    (l : List AckSettlement) (w wait : ℕ) (outcome : Option BulkAckFrame)
    → settlement_of_wait l wait ≡ none
    → settlement_of_wait (l ++ (w, outcome) ∷ []) wait ≡ (if w == wait then some outcome else none)
settlement_of_wait-append [] w wait outcome h = refl
settlement_of_wait-append ((x, o) ∷ l) w wait outcome h =
    ground (arith, settlement_of_wait-append l w wait outcome, h)

queue_at-wait_for_ack :
    (s : BulkSender) (id : Text)
    → queue_at (wait_for_ack s id) id ≡ queue_at s id ++ s.next_wait ∷ []
unfolding wait_for_ack
queue_at-wait_for_ack s id =
    rw
      (
        lookup-insert text_eq text_eq_iff id id (queue_at s id ++ s.next_wait ∷ []) s.pending_acks,
        text_eq_refl id,
      )
      refl

settled-on_ack :
    (s : BulkSender) (ack : BulkAckFrame) (wait : ℕ) (queue : List ℕ)
    → queue_at s (transfer_id_hex ack.transfer_id) ≡ wait ∷ queue
    → (on_ack s ack).settled ≡ s.settled ++ (wait, some ack) ∷ []
unfolding on_ack resolve_next_ack
settled-on_ack s ack wait queue e =
    ap (λ q. (settle_first s (transfer_id_hex ack.transfer_id) ack q).settled) e

module _ (s : BulkSender) (connection : ℕ) (requester : Option Bytes) (ack : BulkAckFrame)
    (open_one : s.active_transfer_id ≡ some (transfer_id_hex ack.transfer_id))
    (numbered : AreNumbered s) where
  -- What the sender is once it has handled the request.
  abbrev asked : BulkSender × List BulkEffect
  asked =
      handle_bulk_resume s connection
        (record { from_device = requester; transfer_id = some ack.transfer_id })

  abbrev streaming : BulkSender
  streaming =
      wait_for_ack (record s { active_connection = some connection })
        (transfer_id_hex ack.transfer_id)

  asked_lem : asked ≡ (streaming, respond_ok ∷ [])
  unfolding handle_bulk_resume
  asked_lem = rw (open_one, text_eq_refl (transfer_id_hex ack.transfer_id)) refl

  settled-streaming : streaming.settled ≡ s.settled
  unfolding wait_for_ack
  settled-streaming = refl

  queue_at-streaming :
      queue_at streaming (transfer_id_hex ack.transfer_id)
      ≡ queue_at s (transfer_id_hex ack.transfer_id) ++ s.next_wait ∷ []
  queue_at-streaming =
      queue_at-wait_for_ack (record s { active_connection = some connection })
        (transfer_id_hex ack.transfer_id)

  -- Where no wait for an ack of the open transfer is pending, and waits have numbers of their own,
  -- then whoever asks for more of it, the sender says ok, takes the asker's connection for its own, and
  -- registers a new wait that the next ack of the transfer settles. The requester is not compared with
  -- anything.
  pub handle_bulk_resume-any_device :
      queue_at s (transfer_id_hex ack.transfer_id) ≡ []
      → (asked.1 ≡ respond_ok ∷ [])
        × (asked.0.active_connection ≡ some connection)
        × (settlement_of_wait asked.0.settled s.next_wait ≡ none)
        × (settlement_of_wait (on_ack asked.0 ack).settled s.next_wait ≡ some (some ack))
  unfolding wait_for_ack
  handle_bulk_resume-any_device idle =
      let fresh = unsettled s.settled s.next_wait s.next_wait numbered refl in
      let first : queue_at streaming (transfer_id_hex ack.transfer_id) ≡ s.next_wait ∷ [] =
        queue_at-streaming ∙ ap (λ q. q ++ s.next_wait ∷ []) idle in
      rw asked_lem (
        refl,
        refl,
        fresh,
        rw (settled-on_ack streaming ack s.next_wait [] first) (
            settlement_of_wait-append s.settled s.next_wait s.next_wait (some ack) fresh
            ∙ (ground arith)),
      )

  -- A request for more comes on another connection while the stream on the old one still waits for an
  -- ack, and then the old one ends. Its end is not heeded any more, and the ack that is meant for the
  -- new stream goes to the old one: the new one's wait does not settle.
  pub handle_bulk_resume-overtaken :
      (old wait : ℕ) (queue : List ℕ)
      → old ≢ connection
      → queue_at s (transfer_id_hex ack.transfer_id) ≡ wait ∷ queue
      → wait < s.next_wait
      → settlement_of_wait s.settled wait ≡ none
      → (on_connection_end asked.0 old ≡ asked.0)
        × (settlement_of_wait (on_ack (on_connection_end asked.0 old) ack).settled wait
            ≡ some (some ack))
        × (settlement_of_wait (on_ack (on_connection_end asked.0 old) ack).settled s.next_wait
            ≡ none)
  unfolding wait_for_ack on_connection_end
  handle_bulk_resume-overtaken old wait queue other waits earlier pending =
      let fresh = unsettled s.settled s.next_wait s.next_wait numbered refl in
      let first : queue_at streaming (transfer_id_hex ack.transfer_id)
          ≡ wait ∷ (queue ++ s.next_wait ∷ []) =
        queue_at-streaming ∙ ap (λ q. q ++ s.next_wait ∷ []) waits in
      let ended : on_connection_end streaming old ≡ streaming =
        (let foreign : (connection == old) ≡ false = ground (arith, other) in
          rw (open_one, foreign) refl) in
      let taken = settled-on_ack streaming ack wait (queue ++ s.next_wait ∷ []) first in
      rw (asked_lem, ended)
        (
          refl,
          rw taken
              (settlement_of_wait-append s.settled wait wait (some ack) pending ∙ (ground arith)),
          rw taken (
              settlement_of_wait-append s.settled wait s.next_wait (some ack) fresh
              ∙ (ground (arith, earlier))),
        )
