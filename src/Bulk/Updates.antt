-- ===== src/Bulk/Updates.antt =====
-- What a handler of the receiver of bulk.ts does to one transfer, it does to no other; and what a chunk
-- of data does to its own.
use wire_mesh.Prelude.{
  ℕ, ◌+◌, ◌≡◌, ◌≢◌, refl, sym, ◌∙◌, true, false, List, [], ◌∷◌, ◌++◌, Option, none, some, Bytes,
  text_eq, text_eq_refl, text_eq_iff, arith, length, if◌then◌else◌, inl, inr, Bool-cases, ◌==◌,
  subst,
}
use wire_mesh.Prelude.Maps.{lookup-insert}
use wire_mesh.Scope.{bytes_equal}
use wire_mesh.Scope.Order.{bytes_equal_iff}
use wire_mesh.Storage.{KeyValueStorage}
use wire_mesh.Bulk.{
  BulkDataFrame, TransferRegistration, BulkEffect, send_ack, BulkReceiver, take_chunk, take_data,
  on_registered, registration_of, register, transfer_id_hex, store_chunk,
}
use wire_mesh.Bulk.Keys.{IsTransferId, text_eq-transfer_id_hex}
use wire_mesh.Bulk.Cells.{Holds, Holds-store_chunk}
use wire_mesh.Bulk.Transfers.{Transfer, owns, Shows}

module _ {S : Type 0} (kv : KeyValueStorage S) (digest_of : Bytes → Bytes) where
  -- An event is handled as the specification says, and what is sent is what it says.
  abbrev pub Implements :
      Option (BulkReceiver kv digest_of × List BulkEffect)
      → (Bytes → Transfer)
      → List BulkEffect
      → Type 0
  Implements handled view effects =
      (s : BulkReceiver kv digest_of) × (handled ≡ some (s, effects)) × Shows kv digest_of s view

  pub bytes_equal-ne : (p q : Bytes) → p ≢ q → bytes_equal p q ≡ false
  bytes_equal-ne p q ne = ground (arith, bytes_equal_iff p q)

  text_eq-bytes_equal :
      (p q : Bytes)
      → IsTransferId p
      → IsTransferId q
      → text_eq (transfer_id_hex p) (transfer_id_hex q) ≡ bytes_equal p q
  text_eq-bytes_equal p q hp hq = elim (Bool-cases (bytes_equal p q)) [
    | inl same ↦
        let e : p ≡ q = (bytes_equal_iff p q).0 same in
        rw same (
          subst (λ x. text_eq (transfer_id_hex p) (transfer_id_hex x) ≡ true) e
            (text_eq_refl (transfer_id_hex p)))
    | inr other ↦
        rw other (
          text_eq-transfer_id_hex p q hp hq (λ e. ground (arith, other, (bytes_equal_iff p q).1 e)))
  ]

  pub registration_of-register :
      (s : BulkReceiver kv digest_of) (p q : Bytes) (r : TransferRegistration)
      → IsTransferId p
      → IsTransferId q
      → registration_of kv digest_of (register kv digest_of s p r) q
        ≡ (if bytes_equal p q then some r else registration_of kv digest_of s q)
  registration_of-register s p q r hp hq =
      lookup-insert text_eq text_eq_iff (transfer_id_hex q) (transfer_id_hex p) r s.registrations
      ∙ (rw (text_eq-bytes_equal p q hp hq) refl)

  -- A handler that changes one transfer, and leaves the others as they are.
  pub Shows-updated :
      (s after : BulkReceiver kv digest_of) (view updated : Bytes → Transfer) (p : Bytes)
      → IsTransferId p
      → Shows kv digest_of s view
      → registration_of kv digest_of after p ≡ (updated p).registration
      → Holds kv digest_of after.storage p (updated p).window (updated p).chunks
      → ((q : Bytes)
          → IsTransferId q
          → p ≢ q
          → (registration_of kv digest_of after q ≡ registration_of kv digest_of s q)
            × (Holds kv digest_of s.storage q (view q).window (view q).chunks
                → Holds kv digest_of after.storage q (view q).window (view q).chunks))
      → Shows kv digest_of after (λ id. if bytes_equal p id then updated id else view id)
  Shows-updated s after view updated p hp h r k others = record {
    registered = λ q hq. elim (Bool-cases (bytes_equal p q)) [
      | inl same ↦
          let e : p ≡ q = (bytes_equal_iff p q).0 same in
          rw same (subst (λ x. registration_of kv digest_of after x ≡ (updated x).registration) e r)
      | inr other ↦
          let ne : p ≢ q = λ e. ground (arith, other, (bytes_equal_iff p q).1 e) in
          rw other ((others q hq ne).0 ∙ h.registered q hq)
    ];
    held = λ q hq. elim (Bool-cases (bytes_equal p q)) [
      | inl same ↦
          let e : p ≡ q = (bytes_equal_iff p q).0 same in
          rw same (
            subst (λ x. Holds kv digest_of after.storage x (updated x).window (updated x).chunks) e
              k)
      | inr other ↦
          let ne : p ≢ q = λ e. ground (arith, other, (bytes_equal_iff p q).1 e) in
          rw other ((others q hq ne).1 (h.held q hq))
    ];
  }

  pub on_registered-foreign :
      (s : BulkReceiver kv digest_of) (connection : ℕ) (o : Option TransferRegistration)
      (handle : TransferRegistration → Option (BulkReceiver kv digest_of × List BulkEffect))
      → owns o connection ≡ false
      → on_registered kv digest_of s connection o handle ≡ some (s, [])
  on_registered-foreign s connection none handle h = refl
  on_registered-foreign s connection (some r) handle h = rw h refl

  pub on_registered-owned :
      (s : BulkReceiver kv digest_of) (connection : ℕ) (o : Option TransferRegistration)
      (handled : Option (BulkReceiver kv digest_of × List BulkEffect))
      → owns o connection ≡ true
      → on_registered kv digest_of s connection o (λ registration. handled) ≡ handled
  on_registered-owned s connection none handled h = absurd (ground (arith, h))
  on_registered-owned s connection (some r) handled h = rw h refl

  -- A frame that changes nothing of its transfer.
  pub Shows-unchanged :
      (s : BulkReceiver kv digest_of) (view updated : Bytes → Transfer) (p : Bytes)
      → IsTransferId p
      → Shows kv digest_of s view
      → updated p ≡ view p
      → Shows kv digest_of s (λ id. if bytes_equal p id then updated id else view id)
  Shows-unchanged s view updated p hp h e =
      Shows-updated s s view updated p hp h (rw e (h.registered p hp)) (rw e (h.held p hp))
        (λ q hq ne. (refl, λ k. k))

  pub take_data-chunk :
      (s : BulkReceiver kv digest_of) (view : Bytes → Transfer) (connection : ℕ)
      (frame : BulkDataFrame)
      → IsTransferId frame.transfer_id
      → Shows kv digest_of s view
      → frame.seq ≡ length (view frame.transfer_id).chunks
      → take_data kv digest_of s connection frame
        ≡ some (
          record s {
            storage =
                store_chunk kv digest_of s.storage
                  (transfer_id_hex frame.transfer_id)
                  frame.seq
                  frame.bytes;
          },
          send_ack connection (record {
            transfer_id = frame.transfer_id;
            ack_seq = frame.seq + 1;
            window = (view frame.transfer_id).window;
          })
              ∷ [],
        )
  unfolding take_data take_chunk
  take_data-chunk s view connection frame is h next =
      let before = h.held frame.transfer_id is in
      let stored =
        subst
          (λ n.
            Holds kv digest_of
              (store_chunk kv digest_of s.storage (transfer_id_hex frame.transfer_id) n frame.bytes)
              frame.transfer_id (view frame.transfer_id).window
              ((view frame.transfer_id).chunks ++ frame.bytes ∷ []))
          (sym next)
          (Holds-store_chunk kv digest_of frame.transfer_id is s.storage frame.bytes
            (view frame.transfer_id).window (view frame.transfer_id).chunks before) in
      let hit : (frame.seq == length (view frame.transfer_id).chunks) ≡ true =
        ground (arith, next) in
      rw (before.counted, hit, stored.credit) refl

  pub take_data-dropped :
      (s : BulkReceiver kv digest_of) (view : Bytes → Transfer) (connection : ℕ)
      (frame : BulkDataFrame)
      → IsTransferId frame.transfer_id
      → Shows kv digest_of s view
      → (frame.seq == length (view frame.transfer_id).chunks) ≡ false
      → take_data kv digest_of s connection frame ≡ some (s, [])
  unfolding take_data
  take_data-dropped s view connection frame is h miss =
      let before = h.held frame.transfer_id is in rw (before.counted, miss) refl
