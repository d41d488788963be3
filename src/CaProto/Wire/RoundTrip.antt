-- ===== src/CaProto/Wire/RoundTrip.antt =====
-- The header that `place_into` of proto.rs writes is the one that `from_netbuf` reads.
use daqingest.Base.{
  ℕ, ◌≡◌, refl, sym, ap, ◌∙◌, some, List, [], ◌++◌, length, be_bytes, Outcome, ok, err, panic,
}
use daqingest.SlideBuf.{SlideBuf}
use daqingest.SlideBuf.Invariant.{IsValid, contents}
use daqingest.SlideBuf.Read.{advanced}
use daqingest.CaProto.Message.{CaMsg}
use daqingest.CaProto.Error.{Error}
use daqingest.CaProto.Fields.{msg_len}
use daqingest.CaProto.Header.{from_netbuf}
use daqingest.CaProto.Parser.Head.{InRange, head_and, from_netbuf-front}
use daqingest.CaProto.Encode.{place_into}
use daqingest.CaProto.Wire.{wire, sent_head, payload_bytes, IsSendable, place_into-wire}

value_or_nil : Outcome Error (List ℕ) → List ℕ
value_or_nil (ok bytes) = bytes
value_or_nil (err _) = []
value_or_nil panic = []

wire-append :
    (m : CaMsg) (rest : List ℕ)
    → wire m ++ rest ≡ head_and (sent_head m) (payload_bytes m.ty ++ rest)
unfolding wire be_bytes
wire-append m rest = refl

-- The header of a message that a client may send, with fields in the ranges of their widths, is
-- read back by from_netbuf from the bytes that place_into writes, and its payload, padded with
-- zeros, and what follows stay in the buffer.
pub from_netbuf-place_into :
    (m : CaMsg) (area bytes rest : List ℕ) {s : SlideBuf}
    → IsSendable m.ty
    → InRange (sent_head m)
    → msg_len m.ty ≡ some (length area)
    → place_into m area ≡ ok bytes
    → IsValid s
    → contents s ≡ bytes ++ rest
    → (from_netbuf s ≡ (ok (sent_head m), advanced 16 s))
      × IsValid (advanced 16 s)
      × (contents (advanced 16 s) ≡ payload_bytes m.ty ++ rest)
unfolding value_or_nil
from_netbuf-place_into m area bytes rest sendable range size placed v e =
    let written : bytes ≡ wire m =
      ap value_or_nil (sym placed ∙ place_into-wire m area sendable size) in
    from_netbuf-front (sent_head m) (payload_bytes m.ty ++ rest) v range
      (e ∙ ap (λ b. b ++ rest) written ∙ wire-append m rest)
