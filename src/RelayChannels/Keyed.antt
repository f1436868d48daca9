-- ===== src/RelayChannels/Keyed.antt =====
-- Whom relay-channels.ts says a frame is from: the peer whose hello verified, which is the one that
-- the frame was claimed to be from.
use wire_mesh.Prelude.{◌≡◌, Option, some, Bytes, Text}
use wire_mesh.DeviceId.{device_id_to_hex}
use wire_mesh.SecureChannel.{Crypto, FrameCodec, Identity, SecureChannelPeer, SecureChannel}
use wire_mesh.RelayChannels.{RelayChannels}
use wire_mesh.RelayChannels.Checked.{HasVerified, AreKeyed}

module _ (crypto : Crypto) (identity : Identity) where
  module _ (codec : FrameCodec) where
    -- What comes of opening: the state keeps its keys, and a frame is from the peer under the key.
    record IsAttributed (key : Text) (r : RelayChannels crypto × Option (codec.Frame × Bytes))
        : Type 0 where
      state : AreKeyed crypto identity r.0
      from :
          (frame : codec.Frame) (peer : Bytes)
          → r.1 ≡ some (frame, peer)
          → (device_id_to_hex peer ≡ key)
            × (p : SecureChannelPeer) × (p.device_id ≡ peer)
            × HasVerified crypto identity p
