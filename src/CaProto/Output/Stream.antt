-- ===== src/CaProto/Output/Stream.antt =====
-- The bytes that a connection of proto.rs has yet to send, with those that it has sent.
use daqingest.Base.{ℕ, ◌≤◌, List, [], ◌∷◌, ◌++◌, length}
use daqingest.SlideBuf.Invariant.{IsValid, contents}
use daqingest.CaProto.Message.{CaMsg}
use daqingest.CaProto.Wire.{wire, IsSendable}
use daqingest.CaProto.Parser.{CaProto}
use daqingest.CaProto.Output.{Conn}

abbrev pub wires : List CaMsg → List ℕ
wires [] = []
wires (m ∷ ms) = wire m ++ wires ms

abbrev pub AllSendable : List CaMsg → Type 0
AllSendable [] = Unit
AllSendable (m ∷ ms) = IsSendable m.ty × AllSendable ms

-- what is still to be written to the socket
abbrev pub unsent : CaProto → List ℕ
unsent s = contents s.outbuf ++ wires s.out

abbrev pub stream : Conn → List ℕ
stream c = c.sent ++ unsent c.proto

-- A valid output buffer that has the size for any message, and messages that a client may send.
pub record IsOutput (s : CaProto) : Type 0 where
  pub valid : IsValid s.outbuf
  pub size : 0x4000 ≤ length s.outbuf.buf
  pub sendable : AllSendable s.out
