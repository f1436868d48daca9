-- ===== src/SecureChannel/Counters.antt =====
-- The counters of secure-channel.ts, and the initialisation vectors made of them.
use wire_mesh.Prelude.{ℕ, zero, suc, ◌+◌, ◌*◌, ◌≢◌, List, [], ◌∷◌, Bytes, All}
use wire_mesh.SecureChannel.{iv_for, Crypto, FrameCodec, SecureChannel, SecureDataFrame, seal}

-- The number that big-endian bytes stand for, and how far a size goes.
abbrev value : ℕ → Bytes → ℕ
value n [] = n
value n (b ∷ bytes) = value (n * 256 + b) bytes

abbrev reach : ℕ → ℕ
reach zero = 1
reach (suc size) = 256 * reach size

module _ (crypto : Crypto) (codec : FrameCodec) where
  unfoldable pub seal_all : SecureChannel crypto → List codec.Frame → List SecureDataFrame
  seal_all channel [] = []
  seal_all channel (frame ∷ frames) =
      let (channel', sealed) = seal crypto codec channel frame in sealed ∷ seal_all channel' frames

  abbrev pub HasOtherIv : SecureDataFrame → SecureDataFrame → Type 0
  HasOtherIv a b = iv_for a.counter ≢ iv_for b.counter

  -- No two of them are sealed under one initialisation vector.
  abbrev pub HaveOwnIvs : List SecureDataFrame → Type 0
  HaveOwnIvs [] = Unit
  HaveOwnIvs (a ∷ l) = All (HasOtherIv a) l × HaveOwnIvs l
