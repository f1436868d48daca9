-- ===== src/SecureChannel/Replay.antt =====
-- The receiving end of secure-channel.ts: each counter is let through once, in ascending order.
use wire_mesh.Prelude.{
  ℕ, suc, ◌+◌, ◌≤◌, ◌≡◌, ◌⊎◌, inl, inr, refl, List, [], ◌∷◌, Option, none, some, Bytes, ltb, arith,
  Bool-cases, Option-cases,
}
use wire_mesh.SecureChannel.{
  iv_for, Crypto, FrameCodec, SecureChannel, SecureDataFrame, open_one, associated_data,
}

module _ (crypto : Crypto) (codec : FrameCodec) where
  abbrev pub with_counter : ℕ → Option codec.Frame → List (ℕ × codec.Frame) → List (ℕ × codec.Frame)
  with_counter counter none rest = rest
  with_counter counter (some frame) rest = (counter, frame) ∷ rest

  -- Whatever arrives: the frames that open, each with its counter.
  unfoldable pub open_all : SecureChannel crypto → List SecureDataFrame → List (ℕ × codec.Frame)
  open_all channel [] = []
  open_all channel (sealed ∷ arriving) =
      let (channel', frame) = open_one crypto codec channel sealed in
      with_counter sealed.counter frame (open_all channel' arriving)

  abbrev pub Ascend : ℕ → List (ℕ × codec.Frame) → Type 0
  Ascend least [] = Unit
  Ascend least (x ∷ l) = (least ≤ x.0) × Ascend (suc x.0) l

  Ascend-le : (n m : ℕ) (l : List (ℕ × codec.Frame)) → n ≤ m → Ascend m l → Ascend n l
  Ascend-le n m [] h k = tt
  Ascend-le n m (x ∷ l) h k = (omega (arith, k.0), k.1)

  Ascend-with_counter :
      (least counter : ℕ) (frame : Option codec.Frame) (l : List (ℕ × codec.Frame))
      → least ≤ counter
      → Ascend (counter + 1) l
      → Ascend least (with_counter counter frame l)
  Ascend-with_counter least counter none l h k = Ascend-le least (counter + 1) l (omega arith) k
  Ascend-with_counter least counter (some frame) l h k =
      (h, Ascend-le (suc counter) (counter + 1) l (omega arith) k)

  abbrev OpenOutcome :
      SecureChannel crypto → SecureDataFrame → SecureChannel crypto × Option codec.Frame → Type 0
  OpenOutcome channel sealed r =
      (r ≡ (channel, none))
      ⊎ ((frame : Option codec.Frame) × (channel.least_acceptable ≤ sealed.counter)
          × (r ≡ (record channel { least_acceptable = sealed.counter + 1 }, frame)))

  -- A frame leaves the channel as it is, or comes with a counter that is not behind and puts the
  -- channel past it.
  open_one_cases :
      (channel : SecureChannel crypto) (sealed : SecureDataFrame)
      → OpenOutcome channel sealed (open_one crypto codec channel sealed)
  unfolding open_one
  open_one_cases channel sealed = elim (Bool-cases (ltb sealed.counter channel.least_acceptable)) [
    | inl behind ↦ inl (rw behind refl)
    | inr ahead ↦
        let plaintext : Option Bytes =
          crypto.decrypt channel.receive_key (iv_for sealed.counter)
            (associated_data channel.peer.device_id channel.own sealed.counter) sealed.ciphertext in
        elim (Option-cases plaintext) [
          | inl failed ↦ inl (rw (ahead, failed) refl)
          | inr (bytes, e) ↦ inr (codec.try_decode_frame bytes, ground arith, rw (ahead, e) refl)
        ]
  ]

  -- Whatever arrives, replayed, reordered or forged: the counters of the frames that open ascend, so
  -- no frame is opened twice and none after a later one.
  pub open_all-Ascend :
      (channel : SecureChannel crypto) (arriving : List SecureDataFrame)
      → Ascend channel.least_acceptable (open_all channel arriving)
  unfolding open_all
  open_all-Ascend channel [] = tt
  open_all-Ascend channel (sealed ∷ arriving) = elim (open_one_cases channel sealed) [
    | inl same ↦ rw same (open_all-Ascend channel arriving)
    | inr (frame, ahead, e) ↦ rw e (
        Ascend-with_counter channel.least_acceptable sealed.counter frame _ ahead
          (open_all-Ascend (record channel { least_acceptable = sealed.counter + 1 }) arriving))
  ]
