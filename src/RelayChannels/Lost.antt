-- ===== src/RelayChannels/Lost.antt =====
-- A handshake of relay-channels.ts that ends after its entry was given up, while another with the same
-- peer is under way.
use wire_mesh.Prelude.{
  ℕ, ◌≡◌, ◌≢◌, refl, List, [], ◌∷◌, Option, none, some, true, false, Bytes, Text, text_eq,
  text_eq_iff, arith,
}
use wire_mesh.Prelude.Maps.{lookup, insert, erase, All-insert, All-erase}
use wire_mesh.DeviceId.{device_id_to_hex}
use wire_mesh.SecureChannel.{
  Crypto, FrameCodec, Identity, SecureHelloFrame, SecureDataFrame, SecureChannelPeer, verified,
  verify_hello, begin_handshake, SecureChannel, establish_channel, open_one,
}
use wire_mesh.RelayChannels.{
  ChannelState, awaiting, established, Completion, RelayChannels, resolved, rejected, is_settled,
  create_relay_channels, start, ensure, apply_hello, split_completing, complete, without_sending,
  hello_sent, abandoned_entries, reset, rejection_of, forget, opened_from, open_with, open_from,
  Event, ensured, hello_came, completed, sent, data_came, was_reset, forgotten, step, run, Random,
}
use wire_mesh.RelayChannels.Checked.{All-split_completing}
use wire_mesh.RelayChannels.Forgotten.{
  is_settled-other, IsOther, IsLost, apply_verdict-IsLost, settle-IsLost, complete_taken-IsLost,
  abandoned_entries-other, rejection_of-other, hello_sent-IsLost, start_if_none-IsLost,
}

module _ (crypto : Crypto) (identity : Identity) where
  module _ (codec : FrameCodec) where
    opened_from-IsLost :
        (id : ℕ) (s : RelayChannels crypto) (key : Text) (peer : SecureChannelPeer)
        (r : SecureChannel crypto × Option codec.Frame)
        → IsLost crypto identity id s
        → IsLost crypto identity id (opened_from crypto identity codec s key peer r).0
    opened_from-IsLost id s key peer (channel, none) h = record {
      begun = h.begun;
      replaced =
          All-insert text_eq text_eq_iff (IsOther crypto identity id) key (established channel)
            s.channels tt h.replaced;
      uncompleted = h.uncompleted;
      out = h.out;
      unsettled = h.unsettled;
    }
    opened_from-IsLost id s key peer (channel, some frame) h = record {
      begun = h.begun;
      replaced =
          All-insert text_eq text_eq_iff (IsOther crypto identity id) key (established channel)
            s.channels tt h.replaced;
      uncompleted = h.uncompleted;
      out = h.out;
      unsettled = h.unsettled;
    }

    open_with-IsLost :
        (id : ℕ) (s : RelayChannels crypto) (key : Text) (sealed : SecureDataFrame)
        (o : Option (ChannelState crypto))
        → IsLost crypto identity id s
        → IsLost crypto identity id (open_with crypto identity codec s key sealed o).0
    open_with-IsLost id s key sealed none h = h
    open_with-IsLost id s key sealed (some (awaiting i pending)) h = h
    open_with-IsLost id s key sealed (some (established channel)) h =
        opened_from-IsLost id s key channel.peer (open_one crypto codec channel sealed) h

    open_from-IsLost :
        (id : ℕ) (s : RelayChannels crypto) (sealed : SecureDataFrame) (claimed : Option Bytes)
        → IsLost crypto identity id s
        → IsLost crypto identity id (open_from crypto identity codec s sealed claimed).0
    unfolding open_from
    open_from-IsLost id s sealed none h = h
    open_from-IsLost id s sealed (some claimed) h =
        open_with-IsLost id s (device_id_to_hex claimed) sealed
          (lookup text_eq (device_id_to_hex claimed) s.channels) h

    step-IsLost :
        (id : ℕ) (s : RelayChannels crypto) (e : Event crypto identity codec)
        → IsLost crypto identity id s
        → IsLost crypto identity id (step crypto identity codec s e)
    unfolding step ensure apply_hello complete reset forget
    step-IsLost id s (ensured peer random) h =
        start_if_none-IsLost crypto identity id s peer random
          (lookup text_eq (device_id_to_hex peer) s.channels) h
    step-IsLost id s (hello_came hello random) h =
        apply_verdict-IsLost crypto identity id s hello random (verify_hello identity hello) h
    step-IsLost id s (completed n) h =
        let (before, after) =
          All-split_completing crypto identity (λ (c : Completion crypto). c.id ≢ id) n s.completing
            h.uncompleted in
        complete_taken-IsLost crypto identity id s
          (split_completing crypto identity n s.completing).0
          (split_completing crypto identity n s.completing).1 before after h
    step-IsLost id s (sent i reached) h = hello_sent-IsLost crypto identity id s i reached h
    step-IsLost id s (data_came sealed claimed) h = open_from-IsLost id s sealed claimed h
    step-IsLost id s was_reset h =
        settle-IsLost crypto identity id s (abandoned_entries crypto identity s.channels) [] h
          (abandoned_entries-other crypto identity id s.channels h.replaced) tt
    step-IsLost id s (forgotten peer) h =
        let key : Text = device_id_to_hex peer in
        settle-IsLost crypto identity id s
          (rejection_of crypto identity (lookup text_eq key s.channels))
          (erase text_eq key s.channels) h
          (rejection_of-other crypto identity id key s.channels (lookup text_eq key s.channels) refl
            h.replaced)
          (All-erase text_eq text_eq_iff (IsOther crypto identity id) key s.channels h.replaced)

    run-IsLost :
        (id : ℕ) (s : RelayChannels crypto) (events : List (Event crypto identity codec))
        → IsLost crypto identity id s
        → IsLost crypto identity id (run crypto identity codec s events)
    unfolding run
    run-IsLost id s [] h = h
    run-IsLost id s (e ∷ events) h =
        run-IsLost id (step crypto identity codec s e) events (step-IsLost id s e h)

    -- A handshake whose hello was answered, cut off by a reset before it came to its end, and another
    -- with the same peer begun at once.
    abbrev pub cut_off :
        Bytes
        → SecureHelloFrame
        → Random crypto
        → Random crypto
        → Random crypto
        → List (Event crypto identity codec)
    cut_off peer hello first second third =
        ensured peer first
        ∷ sent 0 true
        ∷ hello_came hello second
        ∷ was_reset
        ∷ ensured peer third
        ∷ sent 1 true
        ∷ completed 0
        ∷ []

    cut_off-state :
        (hello : SecureHelloFrame) (peer : SecureChannelPeer) (channel : SecureChannel crypto)
        (first second third : Random crypto)
        → verify_hello identity hello ≡ verified peer
        → establish_channel crypto identity
            (begin_handshake crypto identity peer.device_id first.0 first.1)
            hello
            peer
          ≡ some channel
        → run crypto identity codec
            (create_relay_channels crypto)
            (cut_off peer.device_id hello first second third)
          ≡ record {
            channels = (device_id_to_hex peer.device_id, established channel) ∷ [];
            next_id = 2;
            settled = (0, rejected) ∷ (0, resolved) ∷ [];
            sending = [];
            completing = [];
          }
    unfolding run step ensure start hello_sent without_sending apply_hello complete reset
        abandoned_entries create_relay_channels lookup insert
    cut_off-state hello peer channel (first, nonce) second (third, last) v e =
        let same : text_eq (device_id_to_hex peer.device_id) (device_id_to_hex peer.device_id)
            ≡ true =
          (text_eq_iff (device_id_to_hex peer.device_id) (device_id_to_hex peer.device_id)).1
            refl in
        rw (v, same, e, same) refl

    -- A handshake completes after a reset gave it up, while another with the same peer is awaited:
    -- the stale channel takes the other's place, and the other's promise never settles, whatever
    -- events follow. (The hello verified and its key is usable.)
    pub cut_off-never_settled :
        (hello : SecureHelloFrame) (peer : SecureChannelPeer) (channel : SecureChannel crypto)
        (first second third : Random crypto) (events : List (Event crypto identity codec))
        → verify_hello identity hello ≡ verified peer
        → establish_channel crypto identity
            (begin_handshake crypto identity peer.device_id first.0 first.1)
            hello
            peer
          ≡ some channel
        → (lookup text_eq
              (device_id_to_hex peer.device_id)
              (run crypto identity codec
                (create_relay_channels crypto)
                (cut_off peer.device_id hello first second third)).channels
            ≡ some (established channel))
          × (is_settled
                (run crypto identity codec
                  (run crypto identity codec
                    (create_relay_channels crypto)
                    (cut_off peer.device_id hello first second third))
                  events).settled
                1
              ≡ false)
    unfolding lookup
    cut_off-never_settled hello peer channel first second third events v e =
        let key : Text = device_id_to_hex peer.device_id in
        let state = cut_off-state hello peer channel first second third v e in
        let same : text_eq key key ≡ true = (text_eq_iff key key).1 refl in
        rw state (
          rw same refl,
          is_settled-other 1 _
              (run-IsLost 1 _ events (record {
                begun = omega arith;
                replaced = (tt, tt);
                uncompleted = tt;
                out = tt;
                unsettled = (ground arith, (ground arith, tt));
              })).unsettled,
        )
