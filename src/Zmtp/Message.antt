-- ===== src/Zmtp/Message.antt =====
-- `ZmtpMessage::emit_to_buffer` of zmtpproto.rs.
use daqingest.Base.{ℕ, List, [], ◌∷◌, length, ◌>>◌, pure}
use daqingest.SlideBuf
use daqingest.SlideBuf.{put_u8, put_u64_be, put_slice}
use daqingest.Zmtp.{ZmtpFrame, ZmtpMessage}

-- `2`, with the bit of a frame that others follow
unfoldable pub emit_flags : List ZmtpFrame → ℕ
emit_flags [] = 2
emit_flags (_ ∷ _) = 3

-- the loop over the frames
unfoldable pub emit_frames : List ZmtpFrame → SlideBuf.Op Unit
unfolding emit_flags
emit_frames [] = pure tt
emit_frames (fr ∷ frs) = do
  put_u8 (emit_flags frs)
  put_u64_be (length fr.payload)
  put_slice fr.payload
  emit_frames frs

-- The errors are those of the buffer, which the caller wraps.
unfoldable pub emit_to_buffer : ZmtpMessage → SlideBuf.Op Unit
emit_to_buffer m = emit_frames m.frames
