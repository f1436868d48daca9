-- ===== src/SecureChannel/Delivery.antt =====
-- What one end of secure-channel.ts seals, and what of it the other end opens.
use wire_mesh.Prelude.{
  length, suc, ◌^◌, suc, ◌<◌, ◌≤◌, ℕ, ◌+◌, ◌≡◌, inl, inr, refl, ap, false, List, [], ◌∷◌, none,
  some, Bytes, ltb, All, arith, Bool-cases,
}
use wire_mesh.SecureChannel.{
  incremented, iv_for, Crypto, FrameCodec, SecureChannel, SecureDataFrame, seal, seal_at, open_one,
  associated_data,
}
use wire_mesh.SecureChannel.Replay.{open_all}
use wire_mesh.SecureChannel.Agreement.{IsSound, IsMatched}

-- What the way does: it delivers a frame that is sealed, loses it, or puts in data of its own.
pub data Transit (F : Type 0) : Type 0 where
  deliver : F → Transit F
  lose : F → Transit F
  inject : SecureDataFrame → Transit F

module _ (crypto : Crypto) (codec : FrameCodec) where
  unfoldable pub arriving : SecureChannel crypto → List (Transit codec.Frame) → List SecureDataFrame
  arriving channel [] = []
  arriving channel (deliver frame ∷ way) =
      let (channel', sealed) = seal crypto codec channel frame in sealed ∷ arriving channel' way
  arriving channel (lose frame ∷ way) = arriving (seal crypto codec channel frame).0 way
  arriving channel (inject sealed ∷ way) = sealed ∷ arriving channel way

  unfoldable pub delivered : List (Transit codec.Frame) → List codec.Frame
  delivered [] = []
  delivered (deliver frame ∷ way) = frame ∷ delivered way
  delivered (lose frame ∷ way) = delivered way
  delivered (inject sealed ∷ way) = delivered way

  -- The data put in were not sealed with the receiver's key for its direction.
  abbrev pub IsForged : Bytes → Bytes → Bytes → Transit codec.Frame → Type 0
  IsForged key sender own (deliver frame) = Unit
  IsForged key sender own (lose frame) = Unit
  IsForged key sender own (inject sealed) =
      crypto.decrypt key (iv_for sealed.counter) (associated_data sender own sealed.counter)
        sealed.ciphertext
      ≡ none

  abbrev pub frames : List (ℕ × codec.Frame) → List codec.Frame
  frames [] = []
  frames (x ∷ l) = x.1 ∷ frames l

  IsMatched-lose :
      (a b : SecureChannel crypto) (frame : codec.Frame)
      → IsMatched a b
      → IsMatched (seal crypto codec a frame).0 b
  unfolding seal incremented
  IsMatched-lose a b frame m = record {
    key = m.key;
    sender = m.sender;
    recipient = m.recipient;
    fresh = ground (arith, m.fresh);
  }

  IsMatched-deliver :
      (a b : SecureChannel crypto) (frame : codec.Frame)
      → IsMatched a b
      → a.next_send_counter < 2 ^ 53
      → IsMatched
          (seal crypto codec a frame).0
          (record b { least_acceptable = a.next_send_counter + 1 })
  unfolding seal incremented
  IsMatched-deliver a b frame m exact = record {
    key = m.key;
    sender = m.sender;
    recipient = m.recipient;
    fresh = ground arith;
  }

  open_one_forged :
      (b : SecureChannel crypto) (sealed : SecureDataFrame)
      → IsForged b.receive_key b.peer.device_id b.own (inject sealed)
      → open_one crypto codec b sealed ≡ (b, none)
  unfolding open_one
  open_one_forged b sealed h = elim (Bool-cases (ltb sealed.counter b.least_acceptable)) [
    | inl behind ↦ rw behind refl
    | inr ahead ↦ rw (ahead, h) refl
  ]

  next_exact :
      (a : SecureChannel crypto) (frame : codec.Frame) (way : List (Transit codec.Frame))
      → a.next_send_counter + suc (length way) ≤ 2 ^ 53
      → (seal crypto codec a frame).0.next_send_counter + length way ≤ 2 ^ 53
  unfolding seal incremented
  next_exact a frame way h = ground arith

  module _ (sound : IsSound crypto)
      (decodes : (f : codec.Frame)
        → codec.try_decode_frame (codec.message_from_frame f) ≡ some f) where
    open_one-seal :
        (a b : SecureChannel crypto) (frame : codec.Frame)
        → IsMatched a b
        → open_one crypto codec b (seal crypto codec a frame).1
          ≡ (record b { least_acceptable = a.next_send_counter + 1 }, some frame)
    unfolding open_one seal seal_at
    open_one-seal a b frame m =
        let ahead : ltb a.next_send_counter b.least_acceptable ≡ false = ground (arith, m.fresh) in
        rw (ahead, m.key, m.sender, ← m.recipient, sound.decrypts, decodes frame) refl

    -- Of the frames that one end seals, while its counter stays within 2 ^ 53, the other opens exactly
    -- those that are delivered, in order, whatever is lost and whatever data that were not sealed for
    -- it are put in between.
    pub open_all-arriving :
        (a b : SecureChannel crypto) (way : List (Transit codec.Frame))
        → IsMatched a b
        → a.next_send_counter + length way ≤ 2 ^ 53
        → All (IsForged b.receive_key b.peer.device_id b.own) way
        → frames (open_all crypto codec b (arriving a way)) ≡ delivered way
    unfolding open_all arriving delivered
    open_all-arriving a b [] m exact h = refl
    open_all-arriving a b (deliver frame ∷ way) m exact h = rw (open_one-seal a b frame m) (
        ap (◌∷◌ frame) (
          open_all-arriving (seal crypto codec a frame).0
            (record b { least_acceptable = a.next_send_counter + 1 }) way
            (IsMatched-deliver a b frame m (omega arith)) (next_exact a frame way exact) h.1))
    open_all-arriving a b (lose frame ∷ way) m exact h =
        open_all-arriving (seal crypto codec a frame).0 b way (IsMatched-lose a b frame m)
          (next_exact a frame way exact) h.1
    open_all-arriving a b (inject sealed ∷ way) m exact h =
        rw (open_one_forged b sealed h.0) (open_all-arriving a b way m (omega arith) h.1)
