-- ===== src/Zmtp/Frames/RoundTrip.antt =====
-- A message through `emit_to_buffer` and the parser of zmtpproto.rs.
use daqingest.Base.{
  ℕ, ◌/◌, ◌≤◌, ◌≡◌, refl, ap, ◌∙◌, Bool, true, false, List, [], ◌∷◌, ◌++◌, length, append_assoc, ok,
  arith,
}
use daqingest.SlideBuf.{SlideBuf}
use daqingest.SlideBuf.Invariant.{IsValid, contents}
use daqingest.Zmtp.{ZmtpFrame, zmtp_message, Zmtp}
use daqingest.Zmtp.Message.{emit_flags, emit_frames, emit_to_buffer}
use daqingest.Zmtp.Frames.{wires_bytes, assemble, AtFrame}
use daqingest.Zmtp.Frames.Messages.{
  parse_items, rounds_of, AllTaken, Assembled, parse_items-assemble, emitted, emit_frames-Puts,
  emit_flags-bits,
}
use daqingest.SlideBuf.Puts.{}

-- whether other frames follow
abbrev pub others : List ZmtpFrame → Bool
others [] = false
others (_ ∷ _) = true

-- the frames as a receiver has them: the size and the flags are those of the bytes
abbrev pub as_received : List ZmtpFrame → List ZmtpFrame
as_received [] = []
as_received (fr ∷ frs) =
    record {
      msglen = length fr.payload;
      has_more = others frs;
      is_command = false;
      payload = fr.payload;
    }
    ∷ as_received frs

assemble-emitted :
    (more : Bool) (before : List ZmtpFrame) (fr : ZmtpFrame) (frs : List ZmtpFrame)
    → assemble more before (emitted (fr ∷ frs))
      ≡ zmtp_message (record { frames = before ++ as_received (fr ∷ frs) }) ∷ []
unfolding assemble emit_flags
assemble-emitted more before fr [] = refl
assemble-emitted more before fr (next ∷ frs) =
    assemble-emitted true _ next frs
    ∙ ap (λ q. zmtp_message (record { frames = q }) ∷ [])
        (append_assoc before _ (as_received (next ∷ frs)))

-- Every payload fits half of a buffer of `n` bytes.
abbrev pub IsSmall : ℕ → List ZmtpFrame → Type 0
IsSmall n [] = Unit
IsSmall n (fr ∷ frs) = (length fr.payload ≤ n / 2) × IsSmall n frs

emitted-AllTaken : (n : ℕ) (frs : List ZmtpFrame) → IsSmall n frs → AllTaken n (emitted frs)
emitted-AllTaken n [] h = tt
emitted-AllTaken n (fr ∷ frs) (h, hs) = (
  record { size = h; short = λ e. let b = (emit_flags-bits frs).0 in ground arith },
  emitted-AllTaken n frs hs,
)

-- The bytes that emit_to_buffer puts into a valid empty buffer with room for them, for a message
-- of at least one frame with payloads of at most half the size of the receiving buffer, are read
-- back by a parser without unfinished frames as one message with the same payloads in the same
-- order, and the bytes behind them stay.
pub parse_items-emit_to_buffer :
    {n : ℕ} (fr : ZmtpFrame) (frs : List ZmtpFrame) (bs : List ℕ) (s : SlideBuf) (z : Zmtp)
    → IsValid s
    → contents s ≡ []
    → length (wires_bytes (emitted (fr ∷ frs))) ≤ length s.buf
    → IsSmall n (fr ∷ frs)
    → AtFrame n (contents (emit_to_buffer (record { frames = fr ∷ frs }) s).1 ++ bs) z
    → z.frames ≡ []
    → Assembled n
        (zmtp_message (record { frames = as_received (fr ∷ frs) }) ∷ [])
        bs
        (parse_items (rounds_of (emitted (fr ∷ frs))) z)
unfolding emit_to_buffer
parse_items-emit_to_buffer {n} fr frs bs s z v e fits small f none_before =
    let p = emit_frames-Puts (fr ∷ frs) v (omega (arith, fits, ap length e)) in
    let put : contents (emit_frames (fr ∷ frs) s).1 ≡ wires_bytes (emitted (fr ∷ frs)) =
      ap (λ r. contents r.1) p.reply
      ∙ p.bytes
      ∙ ap (λ q. q ++ wires_bytes (emitted (fr ∷ frs))) e in
    let a =
      parse_items-assemble (emitted (fr ∷ frs)) bs z (emitted-AllTaken n (fr ∷ frs) small) (record {
        state = f.state;
        inp = f.inp;
        size = f.size;
        bytes = f.bytes ∙ ap (λ q. q ++ bs) put;
        out = f.out;
      }) in
    record {
      after = a.after;
      reply =
          a.reply
          ∙ ap (λ es. (ok es, a.after))
              (ap (λ q. assemble z.has_more q (emitted (fr ∷ frs))) none_before
                ∙ assemble-emitted z.has_more [] fr frs);
      at = a.at;
    }
