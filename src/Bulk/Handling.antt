-- ===== src/Bulk/Handling.antt =====
-- Each handler of the receiver of bulk.ts against what the specification says of it.
use wire_mesh.Bulk.Framed.{data-Implements, end-Implements}
use wire_mesh.Prelude.{
  ℕ, ◌≡◌, refl, ◌∙◌, [], ◌∷◌, Option, none, some, Bytes, text_eq, text_eq_refl, text_eq_iff,
}
use wire_mesh.Prelude.Maps.{lookup-erase}
use wire_mesh.Scope.Order.{bytes_equal_iff}
use wire_mesh.Storage.{KeyValueStorage}
use wire_mesh.Bulk.{
  bulk_data, bulk_end, other_frame, malformed, denied, send_ack, respond_ok, respond_error,
  BulkOfferEvent, accept, reject, BulkReceiver, on_frame, register, decide, Resuming, finish_resume,
  handle_bulk_cancel, transfer_id_hex, store_opening,
}
use wire_mesh.Bulk.Keys.{IsTransferId, text_eq-transfer_id_hex}
use wire_mesh.Bulk.Cells.{Holds-store_opening, Holds-store_opening_other}
use wire_mesh.Bulk.Transfers.{
  Transfer, Event, framed, decided, resumed, cancelled, step, follow, answers, IsAdmitted, Shows,
}
use wire_mesh.Bulk.Updates.{Implements, bytes_equal-ne, registration_of-register, Shows-updated}

module _ {S : Type 0} (kv : KeyValueStorage S) (digest_of : Bytes → Bytes) where
  decided-Shows :
      (s : BulkReceiver kv digest_of) (view : Bytes → Transfer) (offer : BulkOfferEvent)
      (window : ℕ) (on_complete : Option ℕ)
      → IsTransferId offer.transfer_id
      → Shows kv digest_of s view
      → Shows kv digest_of
          (decide kv digest_of s offer (accept window on_complete)).0
          (follow kv digest_of view (decided offer (accept window on_complete)))
  unfolding decide
  decided-Shows s view offer window on_complete is h =
      let id : Bytes = offer.transfer_id in
      let opened : BulkReceiver kv digest_of = record s {
        storage =
            store_opening kv digest_of s.storage (transfer_id_hex id) offer.opener_device window;
      } in
      Shows-updated kv digest_of s _ view _ id is h
        (registration_of-register kv digest_of opened id id _ is is
          ∙ (rw ((bytes_equal_iff id id).1 refl) refl))
        (Holds-store_opening kv digest_of id is s.storage offer.opener_device window)
        (λ q hq ne. (
          registration_of-register kv digest_of opened id q _ is hq
              ∙ (rw (bytes_equal-ne kv digest_of id q ne) refl),
          Holds-store_opening_other kv digest_of s.storage id offer.opener_device window q
              (view q).window (view q).chunks is hq ne,
        ))

  resumed-Implements :
      (s : BulkReceiver kv digest_of) (view : Bytes → Transfer) (id : Bytes)
      (resuming : Resuming kv digest_of)
      → IsTransferId id
      → Shows kv digest_of s view
      → Implements kv digest_of
          (finish_resume kv digest_of s id resuming)
          (follow kv digest_of view (resumed id resuming))
          (answers kv digest_of view (resumed id resuming))
  unfolding finish_resume
  resumed-Implements s view id resuming is h = (
    register kv digest_of s id resuming.registered,
    rw ((h.held id is).credit) refl,
    Shows-updated kv digest_of s _ view
        (λ q. record (view q) { registration = some resuming.registered }) id is h
        (registration_of-register kv digest_of s id id _ is is
          ∙ (rw ((bytes_equal_iff id id).1 refl) refl))
        (h.held id is)
        (λ q hq ne. (
          registration_of-register kv digest_of s id q _ is hq
              ∙ (rw (bytes_equal-ne kv digest_of id q ne) refl),
          λ k. k,
        )),
  )

  cancelled-Shows :
      (s : BulkReceiver kv digest_of) (view : Bytes → Transfer) (id : Bytes)
      → IsTransferId id
      → Shows kv digest_of s view
      → Shows kv digest_of
          (handle_bulk_cancel kv digest_of s (some id)).0
          (follow kv digest_of view (cancelled (some id)))
  unfolding handle_bulk_cancel
  cancelled-Shows s view id is h =
      Shows-updated kv digest_of s _ view (λ q. record (view q) { registration = none }) id is h
        (lookup-erase text_eq text_eq_iff (transfer_id_hex id) (transfer_id_hex id) s.registrations
          ∙ (rw (text_eq_refl (transfer_id_hex id)) refl))
        (h.held id is)
        (λ q hq ne. (
          lookup-erase text_eq text_eq_iff (transfer_id_hex q) (transfer_id_hex id) s.registrations
              ∙ (rw (text_eq-transfer_id_hex id q is hq ne) refl),
          λ k. k,
        ))

  decide_reject :
      (s : BulkReceiver kv digest_of) (offer : BulkOfferEvent)
      → some (decide kv digest_of s offer reject) ≡ some (s, respond_error denied ∷ [])
  unfolding decide
  decide_reject s offer = refl

  decide_accept :
      (s : BulkReceiver kv digest_of) (offer : BulkOfferEvent) (window : ℕ) (on_complete : Option ℕ)
      → some (decide kv digest_of s offer (accept window on_complete))
        ≡ some (
          (decide kv digest_of s offer (accept window on_complete)).0,
          respond_ok
              ∷ send_ack offer.connection
                  (record { transfer_id = offer.transfer_id; ack_seq = 0; window = window })
              ∷ [],
        )
  unfolding decide
  decide_accept s offer window on_complete = refl

  cancel_none :
      (s : BulkReceiver kv digest_of)
      → some (handle_bulk_cancel kv digest_of s none) ≡ some (s, respond_error malformed ∷ [])
  unfolding handle_bulk_cancel
  cancel_none s = refl

  cancel_some :
      (s : BulkReceiver kv digest_of) (id : Bytes)
      → some (handle_bulk_cancel kv digest_of s (some id))
        ≡ some ((handle_bulk_cancel kv digest_of s (some id)).0, respond_ok ∷ [])
  unfolding handle_bulk_cancel
  cancel_some s id = refl

  pub step-Implements :
      (s : BulkReceiver kv digest_of) (view : Bytes → Transfer) (e : Event kv digest_of)
      → IsAdmitted kv digest_of e
      → Shows kv digest_of s view
      → Implements kv digest_of
          (step kv digest_of s e)
          (follow kv digest_of view e)
          (answers kv digest_of view e)
  unfolding step on_frame
  step-Implements s view (framed connection (bulk_data frame)) is h =
      data-Implements kv digest_of s view connection frame is h
  step-Implements s view (framed connection (bulk_end frame)) is h =
      end-Implements kv digest_of s view connection frame is h
  step-Implements s view (framed connection other_frame) is h = (s, refl, h)
  step-Implements s view (decided offer reject) is h = (s, decide_reject s offer, h)
  step-Implements s view (decided offer (accept window on_complete)) is h = (
    _,
    decide_accept s offer window on_complete,
    decided-Shows s view offer window on_complete is h,
  )
  step-Implements s view (resumed id resuming) is h = resumed-Implements s view id resuming is h
  step-Implements s view (cancelled none) is h = (s, cancel_none s, h)
  step-Implements s view (cancelled (some id)) is h =
      (_, cancel_some s id, cancelled-Shows s view id is h)
