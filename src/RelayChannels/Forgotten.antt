-- ===== src/RelayChannels/Forgotten.antt =====
-- An entry of relay-channels.ts that nothing knows of any more stays so, whatever the handlers do.
use wire_mesh.Prelude.{
  ℕ, ◌≡◌, ◌≢◌, ◌<◌, refl, List, [], ◌∷◌, ◌++◌, Option, none, some, Bool, false, Bytes, Text,
  text_eq, text_eq_iff, All, All-append, arith, Bool-cases, inl, inr, ◌==◌, ==_iff,
}
use wire_mesh.Prelude.Maps.{lookup, All-insert, All-erase, All-lookup}
use wire_mesh.DeviceId.{device_id_to_hex}
use wire_mesh.SecureChannel.{
  Crypto, Identity, SecureHelloFrame, SecureChannelPeer, HelloVerdict, verified, refused,
  PendingHandshake, SecureChannel, establish_channel,
}
use wire_mesh.RelayChannels.{
  ChannelState, awaiting, established, Completion, RelayChannels, HandshakeSettlement, is_settled,
  start, start_if_none, complete_with, complete_current, apply_verdict, is_entry, abandon,
  settle_completion, complete_taken, without_sending, fail_sending, hello_sent, abandoned_entries,
  rejection_of, Random,
}

pub is_settled-other :
    (id : ℕ) (l : List (ℕ × HandshakeSettlement))
    → All (λ (e : ℕ × HandshakeSettlement). e.0 ≢ id) l
    → is_settled l id ≡ false
is_settled-other id [] h = refl
is_settled-other id ((i, outcome) ∷ l) h = ground (arith, is_settled-other id l h.1, h.0)

module _ (crypto : Crypto) (identity : Identity) where
  without_sending-other :
      (id i : ℕ) (l : List (ℕ × Text))
      → All (λ (e : ℕ × Text). e.0 ≢ id) l
      → All (λ (e : ℕ × Text). e.0 ≢ id) (without_sending crypto identity l i)
  unfolding without_sending
  without_sending-other id i [] h = tt
  without_sending-other id i ((j, key) ∷ l) h = elim (Bool-cases (j == i)) [
    | inl gone ↦ rw gone (without_sending-other id i l h.1)
    | inr left ↦ rw left (h.0, without_sending-other id i l h.1)
  ]

  abbrev pub IsOther : ℕ → Text × ChannelState crypto → Type 0
  IsOther id (key, awaiting i pending) = i ≢ id
  IsOther id (key, established channel) = Unit

  -- Nothing that the module holds, or has under way, knows of the entry, which has not settled.
  pub record IsLost (id : ℕ) (s : RelayChannels crypto) : Type 0 where
    pub begun : id < s.next_id
    pub replaced : All (IsOther id) s.channels
    pub uncompleted : All (λ (c : Completion crypto). c.id ≢ id) s.completing
    pub out : All (λ (e : ℕ × Text). e.0 ≢ id) s.sending
    pub unsettled : All (λ (e : ℕ × HandshakeSettlement). e.0 ≢ id) s.settled

  start-IsLost :
      (id : ℕ) (s : RelayChannels crypto) (peer : Bytes) (random : Random crypto)
      → IsLost id s
      → IsLost id (start crypto identity s peer random)
  unfolding start
  start-IsLost id s peer (private_key, nonce) h =
      let other : s.next_id ≢ id = omega (arith, h.begun) in
      record {
        begun = omega (arith, h.begun);
        replaced =
            All-insert text_eq text_eq_iff (IsOther id) (device_id_to_hex peer) _ s.channels other
              h.replaced;
        uncompleted = h.uncompleted;
        out = All-append (λ (e : ℕ × Text). e.0 ≢ id) s.sending _ h.out (other, tt);
        unsettled = h.unsettled;
      }

  complete_with-IsLost :
      (id i : ℕ) (s : RelayChannels crypto) (pending : PendingHandshake crypto)
      (hello : SecureHelloFrame) (peer : SecureChannelPeer)
      → i ≢ id
      → IsLost id s
      → IsLost id (complete_with crypto identity s i pending hello peer)
  complete_with-IsLost id i s pending hello peer other h = record {
    begun = h.begun;
    replaced = h.replaced;
    uncompleted =
        All-append (λ (c : Completion crypto). c.id ≢ id) s.completing _ h.uncompleted (other, tt);
    out = h.out;
    unsettled = h.unsettled;
  }

  complete_current-IsLost :
      (id : ℕ) (s : RelayChannels crypto) (hello : SecureHelloFrame) (peer : SecureChannelPeer)
      (random : Random crypto) (o : Option (ChannelState crypto))
      → lookup text_eq (device_id_to_hex peer.device_id) s.channels ≡ o
      → IsLost id s
      → IsLost id (complete_current crypto identity s hello peer random o)
  complete_current-IsLost id s hello peer (private_key, nonce) none e h =
      complete_with-IsLost id s.next_id _ _ hello peer (omega (arith, h.begun))
        (start-IsLost id s peer.device_id (private_key, nonce) h)
  complete_current-IsLost id s hello peer (private_key, nonce) (some (established channel)) e h =
      complete_with-IsLost id s.next_id _ _ hello peer (omega (arith, h.begun))
        (start-IsLost id s peer.device_id (private_key, nonce) h)
  complete_current-IsLost id s hello peer random (some (awaiting i pending)) e h =
      complete_with-IsLost id i s pending hello peer
        (All-lookup text_eq text_eq_iff (IsOther id) (device_id_to_hex peer.device_id)
          (awaiting i pending) s.channels e h.replaced)
        h

  pub apply_verdict-IsLost :
      (id : ℕ) (s : RelayChannels crypto) (hello : SecureHelloFrame) (random : Random crypto)
      (verdict : HelloVerdict)
      → IsLost id s
      → IsLost id (apply_verdict crypto identity s hello random verdict)
  apply_verdict-IsLost id s hello random (refused reason) h = h
  apply_verdict-IsLost id s hello random (verified peer) h =
      complete_current-IsLost id s hello peer random
        (lookup text_eq (device_id_to_hex peer.device_id) s.channels) refl h

  -- Other entries settled, and entries of the map replaced or left out.
  pub settle-IsLost :
      (id : ℕ) (s : RelayChannels crypto) (more : List (ℕ × HandshakeSettlement))
      (kept : List (Text × ChannelState crypto))
      → IsLost id s
      → All (λ (e : ℕ × HandshakeSettlement). e.0 ≢ id) more
      → All (IsOther id) kept
      → IsLost id (record s { settled = s.settled ++ more; channels = kept })
  settle-IsLost id s more kept h others k = record {
    begun = h.begun;
    replaced = k;
    uncompleted = h.uncompleted;
    out = h.out;
    unsettled =
        All-append (λ (e : ℕ × HandshakeSettlement). e.0 ≢ id) s.settled more h.unsettled others;
  }

  abandon-IsLost :
      (id i : ℕ) (s : RelayChannels crypto) (key : Text)
      → i ≢ id
      → IsLost id s
      → IsLost id (abandon crypto identity s key i)
  unfolding abandon
  abandon-IsLost id i s key other h =
      elim (Bool-cases (is_entry crypto identity i (lookup text_eq key s.channels))) [
        | inl current ↦ rw current (
            settle-IsLost id s _ _ h (other, tt)
              (All-erase text_eq text_eq_iff (IsOther id) key s.channels h.replaced))
        | inr replaced ↦ rw replaced (settle-IsLost id s _ s.channels h (other, tt) h.replaced)
      ]

  settle_completion-IsLost :
      (id : ℕ) (s : RelayChannels crypto) (c : Completion crypto)
      (o : Option (SecureChannel crypto))
      → c.id ≢ id
      → IsLost id s
      → IsLost id (settle_completion crypto identity s c o)
  settle_completion-IsLost id s c none other h =
      abandon-IsLost id c.id s (device_id_to_hex c.peer.device_id) other h
  settle_completion-IsLost id s c (some channel) other h =
      settle-IsLost id s _ _ h (other, tt)
        (All-insert text_eq text_eq_iff (IsOther id) (device_id_to_hex c.peer.device_id)
          (established channel) s.channels tt h.replaced)

  pub complete_taken-IsLost :
      (id : ℕ) (s : RelayChannels crypto) (before after : List (Completion crypto))
      → All (λ (c : Completion crypto). c.id ≢ id) before
      → All (λ (c : Completion crypto). c.id ≢ id) after
      → IsLost id s
      → IsLost id (complete_taken crypto identity s before after)
  complete_taken-IsLost id s before [] b a h = h
  complete_taken-IsLost id s before (c ∷ after) b a h =
      settle_completion-IsLost id (record s { completing = before ++ after }) c
        (establish_channel crypto identity c.pending c.hello c.peer) a.0
        (record {
          begun = h.begun;
          replaced = h.replaced;
          uncompleted = All-append (λ (x : Completion crypto). x.id ≢ id) before after b a.1;
          out = h.out;
          unsettled = h.unsettled;
        })

  fail_sending-IsLost :
      (id i : ℕ) (s : RelayChannels crypto) (sending : List (ℕ × Text)) (o : Option Text)
      → lookup ◌==◌ i sending ≡ o
      → All (λ (e : ℕ × Text). e.0 ≢ id) sending
      → IsLost id s
      → IsLost id (fail_sending crypto identity s i o)
  fail_sending-IsLost id i s sending none e others h = h
  fail_sending-IsLost id i s sending (some key) e others h =
      abandon-IsLost id i s key
        (All-lookup ◌==◌ ==_iff (λ (x : ℕ × Text). x.0 ≢ id) i key sending e others) h

  pub abandoned_entries-other :
      (id : ℕ) (l : List (Text × ChannelState crypto))
      → All (IsOther id) l
      → All (λ (e : ℕ × HandshakeSettlement). e.0 ≢ id) (abandoned_entries crypto identity l)
  unfolding abandoned_entries
  abandoned_entries-other id [] h = tt
  abandoned_entries-other id ((key, awaiting i pending) ∷ l) h =
      (h.0, abandoned_entries-other id l h.1)
  abandoned_entries-other id ((key, established channel) ∷ l) h = abandoned_entries-other id l h.1

  pub rejection_of-other :
      (id : ℕ) (key : Text) (l : List (Text × ChannelState crypto))
      (o : Option (ChannelState crypto))
      → lookup text_eq key l ≡ o
      → All (IsOther id) l
      → All (λ (e : ℕ × HandshakeSettlement). e.0 ≢ id) (rejection_of crypto identity o)
  rejection_of-other id key l none e h = tt
  rejection_of-other id key l (some (established channel)) e h = tt
  rejection_of-other id key l (some (awaiting i pending)) e h =
      (All-lookup text_eq text_eq_iff (IsOther id) key (awaiting i pending) l e h, tt)

  pub hello_sent-IsLost :
      (id : ℕ) (s : RelayChannels crypto) (i : ℕ) (reached : Bool)
      → IsLost id s
      → IsLost id (hello_sent crypto identity s i reached)
  unfolding hello_sent
  hello_sent-IsLost id s i reached h =
      let left : IsLost id (record s { sending = without_sending crypto identity s.sending i }) =
        record {
          begun = h.begun;
          replaced = h.replaced;
          uncompleted = h.uncompleted;
          out = without_sending-other id i s.sending h.out;
          unsettled = h.unsettled;
        } in
      elim (Bool-cases reached) [
        | inl wired ↦ rw wired left
        | inr failed ↦
            rw failed
              (fail_sending-IsLost id i _ s.sending (lookup ◌==◌ i s.sending) refl h.out left)
      ]

  pub start_if_none-IsLost :
      (id : ℕ) (s : RelayChannels crypto) (peer : Bytes) (random : Random crypto)
      (o : Option (ChannelState crypto))
      → IsLost id s
      → IsLost id (start_if_none crypto identity s peer random o)
  start_if_none-IsLost id s peer random none h = start-IsLost id s peer random h
  start_if_none-IsLost id s peer random (some entry) h = h
