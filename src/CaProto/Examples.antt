-- ===== src/CaProto/Examples.antt =====
-- Runs of proto.rs at concrete messages, payloads and connections.
use daqingest.Base.{
  ℕ, ◌^◌, ◌≤◌, ◌≡◌, refl, some, List, [], ◌∷◌, ◌++◌, arith, length, replicate, be_bytes,
  length-replicate, ok,
}
use daqingest.SlideBuf.{SlideBuf}
use daqingest.SlideBuf.Invariant.{IsValid}
use daqingest.Base.Fallible.{◌>>=◌}
use daqingest.CaProto.Message.{CaMsg, create_chan, echo}
use daqingest.CaProto.Error.{Externals, Shape}
use daqingest.CaProto.Header.{HeadInfo}
use daqingest.CaProto.Fields.{msg_len}
use daqingest.CaProto.Wire.RoundTrip.{from_netbuf-place_into}
use daqingest.CaProto.Fields.{cmdid, data_type, data_count, param1, param2}
use daqingest.CaProto.Header.{from_netbuf}
use daqingest.CaProto.Wire.{sent_head, payload_bytes}
use daqingest.SlideBuf.Read.{advanced}
use daqingest.SlideBuf.Invariant.{contents}
use daqingest.Base.{be_bytes}
use daqingest.CaProto.Poll.{Next, read_pending, poll_next}
use daqingest.CaProto.Poll.Ends.{Replies, poll_next-ends}
use daqingest.CaProto.Error.{Error}
use daqingest.Base.{Outcome, some, replicate}
use daqingest.Base.{length}
use daqingest.CaProto.Encode.{place_into}
use daqingest.CaProto.Wire.{wire, place_into-wire}
use daqingest.CaProto.DbrType.{CaScalarType}
use daqingest.CaProto.Decode.{from_proto_infos, value_of}
use daqingest.CaProto.Decode.Layout.{
  event_payload, event_of, time_code, time_padding, from_proto_infos-event,
}
use daqingest.CaProto.Parser.{CaProto, std_head}
use daqingest.CaProto.Output.{Conn, takes, write_pending, output}
use daqingest.CaProto.Fields.{payload_len}
use daqingest.CaProto.Output.Stream.{IsOutput}
use daqingest.CaProto.Output.Progress.{output_delivers}
use daqingest.CaProto.Output.Rounds.{Outputs, AllSent}

abbrev ext : Externals
ext = record {
  from_ca_count = λ n. some (Shape.wave n);
  sec = 10 ^ 9;
  into_string_error = λ xs. xs;
}

abbrev create : CaMsg
create = record { ty = create_chan (record { cid = 7; channel = 65 ∷ 66 ∷ 67 ∷ [] }) }

abbrev old : List ℕ
old =
    9 ∷ 9 ∷ 9 ∷ 9 ∷ 9 ∷ 9 ∷ 9 ∷ 9 ∷ 9 ∷ 9 ∷ 9 ∷ 9 ∷ 9 ∷ 9 ∷ 9 ∷ 9 ∷ 9 ∷ 9 ∷ 9 ∷ 9 ∷ 9 ∷ 9 ∷ 9 ∷ 9
    ∷ []

place_into-wire_example : place_into create old ≡ ok (wire create)
unfolding msg_len daqingest.CaProto.Fields.payload_len
place_into-wire_example = place_into-wire create old (omega arith) refl

abbrev event : HeadInfo
event = record {
  cmdid = 1;
  payload_size = 20;
  data_type = 19;
  data_count = 3;
  param1 = 1;
  param2 = 5;
}

abbrev event_body : List ℕ
event_body = event_payload 2 1 1000 500 [] (be_bytes 4 70000 ++ be_bytes 4 9)

from_proto_infos-event_example :
    let hi = record event { data_count = 3 } in
    from_proto_infos ext hi event_body 2 ≡ (
      value_of (Shape.wave 3) CaScalarType.i32 2 (be_bytes 4 70000 ++ be_bytes 4 9) >>= λ value.
      ok (event_of ext hi CaScalarType.i32 (Shape.wave 3) 2 1 1000 500 [] [] 2 value))
unfolding time_code time_padding
from_proto_infos-event_example =
    from_proto_infos-event ext event CaScalarType.i32 (Shape.wave 3) 2 1 1000 500 []
      (be_bytes 4 70000 ++ be_bytes 4 9) 2 (omega arith) (omega arith) (omega arith) (omega arith)
      refl refl refl refl

-- An output buffer of the smallest size, of which three bytes are to be sent.
abbrev outbuf : SlideBuf
outbuf = record { buf = replicate 0x4000 7; wp = 3; rp = 0 }

abbrev parser : CaProto
parser = record {
  state = std_head;
  buf = record { buf = []; wp = 0; rp = 0 };
  outbuf = record { buf = []; wp = 0; rp = 0 };
  out = [];
  array_truncate = 2;
  logged_proto_error_for_cid = [];
}

abbrev conn : Conn
conn = record {
  proto = record parser { outbuf = outbuf; out = create ∷ record { ty = echo } ∷ [] };
  writes = takes 2 ∷ takes 30 ∷ write_pending ∷ [];
  sent = [];
}

outbuf-IsValid : IsValid outbuf × (0x4000 ≤ length outbuf.buf)
outbuf-IsValid = omega (arith, length-replicate 0x4000 (let z : ℕ = 7 in z))

conn-IsOutput : IsOutput conn.proto
unfolding payload_len
conn-IsOutput = record {
  valid = outbuf-IsValid.0;
  size = outbuf-IsValid.1;
  sendable = (omega arith, (tt, tt));
}

output_delivers_example : Outputs output AllSent conn
output_delivers_example = output_delivers conn conn-IsOutput

-- The bytes of `create`, and one more.
abbrev placed : SlideBuf
placed = record { buf = wire create ++ (5 ∷ []); wp = 25; rp = 0 }

from_netbuf-place_into_example :
    (from_netbuf placed ≡ (ok (sent_head create), advanced 16 placed))
    × IsValid (advanced 16 placed)
    × (contents (advanced 16 placed) ≡ 65 ∷ 66 ∷ 67 ∷ 0 ∷ 0 ∷ 0 ∷ 0 ∷ 0 ∷ 5 ∷ [])
unfolding msg_len payload_len wire be_bytes payload_bytes cmdid data_type data_count param1 param2
from_netbuf-place_into_example =
    from_netbuf-place_into create old (wire create) (5 ∷ []) {s = placed} (omega arith)
      (omega arith) refl place_into-wire_example (omega arith) refl

poll_next-ends_example :
    (end : Outcome Error Next × Conn) × (poll_next ext (replicate 4 read_pending) conn ≡ some end)
    × Replies ext conn.proto end.0
poll_next-ends_example =
    poll_next-ends ext 4 conn (record { output = conn-IsOutput; valid = omega arith; quiet = refl })
      (omega arith)
