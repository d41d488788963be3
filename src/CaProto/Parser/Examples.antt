-- ===== src/CaProto/Parser/Examples.antt =====
-- Runs of the parser of proto.rs at concrete buffers.
use daqingest.Base.{ℕ, ◌^◌, ◌≡◌, refl, some, List, [], ◌∷◌, ◌++◌, arith, be_bytes, ok}
use daqingest.Base.{
  ◌≢◌, drop, length, length-append, take-all, replicate, length-replicate, err, ◌>>◌,
}
use daqingest.CaProto.Error.{parse_attempt_in_done_state}
use daqingest.CaProto.Poll.Eof.{eof-fails}
use daqingest.SlideBuf.Invariant.{contents}
use daqingest.CaProto.Message.{CaMsg, host_name, create_chan_res}
use daqingest.CaProto.Error.{Externals, Shape}
use daqingest.CaProto.Header.{HeadInfo}
use daqingest.CaProto.Decode.{from_proto_infos, host_name_text}
use daqingest.CaProto.Parser.{CaProto, std_head, payload, parse_item}
use daqingest.CaProto.Parser.Extended.{Yields, parse_items-out_of_step}
use daqingest.CaProto.Parser.Head.{head_and}
use daqingest.SlideBuf.Invariant.{IsValid}
use daqingest.CaProto.Parser.Steps.{IsReady}
use daqingest.CaProto.Parser.Frames.{Frame, frames_and, parse_items, parse_items-frames}
use daqingest.CaProto.Parser.{CaState, done, need_min}
use mathlib.Core.Path.{subst}
use daqingest.CaProto.Parser.Safety.{Proceeds, parse_item-Proceeds}
use daqingest.CaProto.Poll.{received, read_input}
use daqingest.CaProto.Poll.Input.{TakesIn, read_input-TakesIn}

abbrev ext : Externals
ext = record {
  from_ca_count = λ n. some (Shape.wave n);
  sec = 10 ^ 9;
  into_string_error = λ xs. xs;
}

abbrev event : HeadInfo
event = record {
  cmdid = 1;
  payload_size = 20;
  data_type = 19;
  data_count = 3;
  param1 = 1;
  param2 = 5;
}

-- A parser whose buffer holds an echo and the reply to a created channel, and half a header.
abbrev create_res : Frame
create_res = record {
  head = record {
    cmdid = 18;
    payload_size = 0;
    data_type = 6;
    data_count = 1;
    param1 = 7;
    param2 = 70000;
  };
  body = [];
}

abbrev host : Frame
host = record {
  head = record {
    cmdid = 21;
    payload_size = 3;
    data_type = 0;
    data_count = 0;
    param1 = 0;
    param2 = 0;
  };
  body = 65 ∷ 66 ∷ 0 ∷ [];
}

abbrev bytes : List ℕ
bytes = frames_and (create_res ∷ host ∷ []) (0 ∷ 1 ∷ [])

abbrev parser : CaProto
parser = record {
  state = std_head;
  buf = record { buf = bytes; wp = 37; rp = 0 };
  outbuf = record { buf = []; wp = 0; rp = 0 };
  out = [];
  array_truncate = 2;
  logged_proto_error_for_cid = [];
}

abbrev messages : List CaMsg
messages =
    record { ty = create_chan_res (record { data_type = 6; data_count = 1; cid = 7; sid = 70000 }) }
    ∷ record { ty = host_name host_name_text }
    ∷ []

parse_items-frames_example :
    (s' : CaProto) × (parse_items ext 3 parser ≡ (ok messages, s'))
    × IsReady s'
    × (contents s'.buf ≡ 0 ∷ 1 ∷ [])
unfolding be_bytes from_proto_infos
parse_items-frames_example =
    parse_items-frames ext (create_res ∷ host ∷ []) messages (0 ∷ 1 ∷ []) parser
      (record { at_head = refl; quiet = refl; valid = omega arith })
      (
        record { range = omega arith; standard = refl; size = refl },
        (record { range = omega arith; standard = refl; size = refl }, tt),
      )
      (refl, (refl, tt)) refl

-- A host name with an extended header that announces 20000 bytes, and messages behind it.
abbrev long_head : HeadInfo
long_head = record host.head { payload_size = 0xffff }

abbrev long_body : List ℕ
long_body = replicate 20000 7

abbrev following : List ℕ
following = replicate 60000 9

abbrev long_bytes : List ℕ
long_bytes = head_and long_head (be_bytes 4 20000 ++ (be_bytes 4 9 ++ (long_body ++ following)))

abbrev long : CaProto
long = record parser { buf = record { buf = long_bytes; wp = length long_bytes; rp = 0 } }

length-long : length (long_body ++ following) ≡ 80000
length-long = omega (
  arith,
  length-append long_body following,
  length-replicate 20000 (let z : ℕ = 7 in z),
  length-replicate 60000 (let z : ℕ = 9 in z),
)

long-IsValid : IsValid long.buf
unfolding be_bytes
long-IsValid = omega (arith, length-long)

parse_items-out_of_step_example :
    (left : List ℕ) × Yields ext long 3 (record { ty = host_name host_name_text }) left
    × (left ≡ drop 65535 (long_body ++ following))
    × (left ≢ following)
unfolding from_proto_infos be_bytes
parse_items-out_of_step_example =
    parse_items-out_of_step ext long long_head 20000 9 long_body following
      (record { ty = host_name host_name_text })
      (record { at_head = refl; quiet = refl; valid = long-IsValid }) (omega arith) refl refl
      (omega arith) (omega arith) (length-replicate 20000 (let z : ℕ = 7 in z))
      (take-all (length long_bytes) long_bytes (omega arith)) (omega arith)
      (omega (arith, length-long)) refl

abbrev IsOpen : CaState → Type 0
IsOpen done = ⊥
IsOpen _ = Unit

parse_item-Proceeds_example : Proceeds ext parser (parse_item ext parser)
unfolding need_min be_bytes
parse_item-Proceeds_example =
    parse_item-Proceeds ext parser (omega arith) refl (λ e. subst IsOpen e tt) (omega arith)

-- The last bytes of the buffer are half a header, which the parser waits for.
abbrev waiting : CaProto
waiting = record parser { buf = record { buf = bytes ++ bytes; wp = 37; rp = 35 } }

read_input-TakesIn_example :
    TakesIn waiting (received (9 ∷ 8 ∷ [])) (read_input (received (9 ∷ 8 ∷ [])) waiting)
unfolding need_min be_bytes
read_input-TakesIn_example =
    read_input-TakesIn waiting (omega arith) (omega arith) (omega arith) (received (9 ∷ 8 ∷ []))

-- 130 bytes of a payload of 200 have come.
abbrev broken : CaProto
broken = record parser {
  state = payload (record event { payload_size = 200 });
  buf = record { buf = replicate 500 7; wp = 130; rp = 0 };
}

eof-fails_example :
    ((read_input (received []) >> parse_item ext) broken).0 ≡ err parse_attempt_in_done_state
unfolding need_min
eof-fails_example =
    eof-fails ext broken (omega (arith, length-replicate 500 (let z : ℕ = 7 in z))) (omega arith)
      (omega (arith, length-replicate 500 (let z : ℕ = 7 in z))) (omega arith)
