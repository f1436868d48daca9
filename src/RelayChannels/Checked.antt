-- ===== src/RelayChannels/Checked.antt =====
-- The channels of relay-channels.ts stand under the keys of the devices whose hellos verified, whatever
-- the handlers of hellos do.
use wire_mesh.Prelude.{
  Bool, true, false, ℕ, zero, suc, ◌≡◌, refl, sym, ap, ◌∙◌, List, [], ◌∷◌, ◌++◌, Option, none, some,
  Bytes, Text, text_eq, text_eq_iff, All, All-append, arith, Bool-cases, Option-cases, inl, inr,
  ◌==◌,
}
use wire_mesh.Prelude.Maps.{lookup, All-insert, All-erase}
use wire_mesh.DeviceId.{device_id_to_hex}
use wire_mesh.SecureChannel.{
  Crypto, Identity, SecureHelloFrame, SecureChannelPeer, HelloVerdict, verified, refused,
  verify_hello, PendingHandshake, SecureChannel, establish_channel, channel_with,
}
use wire_mesh.RelayChannels.{
  ChannelState, awaiting, established, Completion, RelayChannels, start, start_if_none,
  complete_with, complete_current, apply_verdict, is_entry, abandon, settle_completion,
  complete_taken, split_completing, fail_sending, hello_sent, Random,
}

module _ (crypto : Crypto) (identity : Identity) where
  -- A hello of the peer's verified.
  abbrev pub HasVerified : SecureChannelPeer → Type 0
  HasVerified peer = (hello : SecureHelloFrame) × (verify_hello identity hello ≡ verified peer)

  abbrev pub IsKeyed : Text × ChannelState crypto → Type 0
  IsKeyed (key, awaiting id pending) = Unit
  IsKeyed (key, established channel) =
      (device_id_to_hex channel.peer.device_id ≡ key) × HasVerified channel.peer

  pub record AreKeyed (s : RelayChannels crypto) : Type 0 where
    pub keyed : All IsKeyed s.channels
    pub checked :
        All
          (λ (c : Completion crypto). verify_hello identity c.hello ≡ verified c.peer)
          s.completing

  establish_channel-peer :
      (pending : PendingHandshake crypto) (hello : SecureHelloFrame) (peer : SecureChannelPeer)
      (channel : SecureChannel crypto)
      → establish_channel crypto identity pending hello peer ≡ some channel
      → channel.peer ≡ peer
  unfolding establish_channel channel_with
  establish_channel-peer pending hello peer channel h =
      elim (Option-cases (crypto.derive_bits pending.private_key hello.ephemeral_key)) [
        | inl unusable ↦ absurd (ground (arith, unusable))
        | inr (secret, e) ↦
            let same : channel_with crypto identity pending hello peer secret ≡ channel =
              ground (arith, e) in
            ap (λ (c : SecureChannel crypto). c.peer) (sym same)
      ]

  start-AreKeyed :
      (s : RelayChannels crypto) (peer : Bytes) (random : Random crypto)
      → AreKeyed s
      → AreKeyed (start crypto identity s peer random)
  unfolding start
  start-AreKeyed s peer (private_key, nonce) k = record {
    keyed = All-insert text_eq text_eq_iff IsKeyed (device_id_to_hex peer) _ s.channels tt k.keyed;
    checked = k.checked;
  }

  complete_with-AreKeyed :
      (s : RelayChannels crypto) (id : ℕ) (pending : PendingHandshake crypto)
      (hello : SecureHelloFrame) (peer : SecureChannelPeer)
      → verify_hello identity hello ≡ verified peer
      → AreKeyed s
      → AreKeyed (complete_with crypto identity s id pending hello peer)
  complete_with-AreKeyed s id pending hello peer v k = record {
    keyed = k.keyed;
    checked =
        All-append (λ (c : Completion crypto). verify_hello identity c.hello ≡ verified c.peer)
          s.completing _ k.checked (v, tt);
  }

  complete_current-AreKeyed :
      (s : RelayChannels crypto) (hello : SecureHelloFrame) (peer : SecureChannelPeer)
      (random : Random crypto) (o : Option (ChannelState crypto))
      → verify_hello identity hello ≡ verified peer
      → AreKeyed s
      → AreKeyed (complete_current crypto identity s hello peer random o)
  complete_current-AreKeyed s hello peer (private_key, nonce) none v k =
      complete_with-AreKeyed _ _ _ hello peer v
        (start-AreKeyed s peer.device_id (private_key, nonce) k)
  complete_current-AreKeyed s hello peer (private_key, nonce) (some (established channel)) v k =
      complete_with-AreKeyed _ _ _ hello peer v
        (start-AreKeyed s peer.device_id (private_key, nonce) k)
  complete_current-AreKeyed s hello peer random (some (awaiting id pending)) v k =
      complete_with-AreKeyed s id pending hello peer v k

  pub apply_verdict-AreKeyed :
      (s : RelayChannels crypto) (hello : SecureHelloFrame) (random : Random crypto)
      (verdict : HelloVerdict)
      → verify_hello identity hello ≡ verdict
      → AreKeyed s
      → AreKeyed (apply_verdict crypto identity s hello random verdict)
  apply_verdict-AreKeyed s hello random (refused reason) v k = k
  apply_verdict-AreKeyed s hello random (verified peer) v k =
      complete_current-AreKeyed s hello peer random
        (lookup text_eq (device_id_to_hex peer.device_id) s.channels) v k

  abandon-AreKeyed :
      (s : RelayChannels crypto) (key : Text) (id : ℕ)
      → AreKeyed s
      → AreKeyed (abandon crypto identity s key id)
  unfolding abandon
  abandon-AreKeyed s key id k =
      elim (Bool-cases (is_entry crypto identity id (lookup text_eq key s.channels))) [
        | inl current ↦ rw current (record {
          keyed = All-erase text_eq text_eq_iff IsKeyed key s.channels k.keyed;
          checked = k.checked;
        })
        | inr replaced ↦ rw replaced (record { keyed = k.keyed; checked = k.checked })
      ]

  settle_completion-AreKeyed :
      (s : RelayChannels crypto) (c : Completion crypto) (o : Option (SecureChannel crypto))
      → establish_channel crypto identity c.pending c.hello c.peer ≡ o
      → verify_hello identity c.hello ≡ verified c.peer
      → AreKeyed s
      → AreKeyed (settle_completion crypto identity s c o)
  settle_completion-AreKeyed s c none e v k =
      abandon-AreKeyed s (device_id_to_hex c.peer.device_id) c.id k
  settle_completion-AreKeyed s c (some channel) e v k =
      let same : channel.peer ≡ c.peer =
        establish_channel-peer c.pending c.hello c.peer channel e in
      record {
        keyed =
            All-insert text_eq text_eq_iff IsKeyed (device_id_to_hex c.peer.device_id)
              (established channel) s.channels
              (
                ap (λ (p : SecureChannelPeer). device_id_to_hex p.device_id) same,
                (c.hello, v ∙ ap verified (sym same)),
              )
              k.keyed;
        checked = k.checked;
      }

  pub All-split_completing :
      (P : Completion crypto → Type 0) (n : ℕ) (l : List (Completion crypto))
      → All P l
      → All P (split_completing crypto identity n l).0
        × All P (split_completing crypto identity n l).1
  All-split_completing P zero l h = (tt, h)
  All-split_completing P (suc n) [] h = (tt, tt)
  All-split_completing P (suc n) (c ∷ l) h =
      let (a, b) = All-split_completing P n l h.1 in ((h.0, a), b)

  pub complete_taken-AreKeyed :
      (s : RelayChannels crypto) (before after : List (Completion crypto))
      → All (λ (c : Completion crypto). verify_hello identity c.hello ≡ verified c.peer) before
      → All (λ (c : Completion crypto). verify_hello identity c.hello ≡ verified c.peer) after
      → AreKeyed s
      → AreKeyed (complete_taken crypto identity s before after)
  complete_taken-AreKeyed s before [] h k a = a
  complete_taken-AreKeyed s before (c ∷ after) h k a =
      settle_completion-AreKeyed (record s { completing = before ++ after }) c
        (establish_channel crypto identity c.pending c.hello c.peer) refl k.0
        (record {
          keyed = a.keyed;
          checked =
              All-append
                (λ (x : Completion crypto). verify_hello identity x.hello ≡ verified x.peer) before
                after h k.1;
        })

  fail_sending-AreKeyed :
      (s : RelayChannels crypto) (id : ℕ) (o : Option Text)
      → AreKeyed s
      → AreKeyed (fail_sending crypto identity s id o)
  fail_sending-AreKeyed s id none k = k
  fail_sending-AreKeyed s id (some key) k = abandon-AreKeyed s key id k

  pub hello_sent-AreKeyed :
      (s : RelayChannels crypto) (id : ℕ) (reached : Bool)
      → AreKeyed s
      → AreKeyed (hello_sent crypto identity s id reached)
  unfolding hello_sent
  hello_sent-AreKeyed s id true k = record { keyed = k.keyed; checked = k.checked }
  hello_sent-AreKeyed s id false k =
      fail_sending-AreKeyed _ id (lookup ◌==◌ id s.sending)
        (record { keyed = k.keyed; checked = k.checked })

  pub start_if_none-AreKeyed :
      (s : RelayChannels crypto) (peer : Bytes) (random : Random crypto)
      (o : Option (ChannelState crypto))
      → AreKeyed s
      → AreKeyed (start_if_none crypto identity s peer random o)
  start_if_none-AreKeyed s peer random none k = start-AreKeyed s peer random k
  start_if_none-AreKeyed s peer random (some entry) k = k
