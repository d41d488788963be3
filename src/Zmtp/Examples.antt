-- ===== src/Zmtp/Examples.antt =====
-- Runs of the ZMTP protocol of zmtpproto.rs at concrete buffers.
use daqingest.Base.{
  ℕ, ◌+◌, ◌≤◌, ◌≡◌, refl, true, false, some, List, [], ◌∷◌, ◌++◌, length, length-append,
  length-replicate, replicate, arith, ok, isize_max, be_bytes, copy_at, slice,
}
use daqingest.Socket.{takes, write_error, write_pending, received, read_pending}
use daqingest.SlideBuf.{
  SlideBuf, len, cap, wcap, put_u8, put_u64_be, put_be, put_slice, make_room, rewind_if_needed,
  rewind_if_short, check_space, data_slice,
}
use daqingest.SlideBuf.Invariant.{IsValid}
use daqingest.Zmtp.{
  io, ConnState, init_send, init_recv2, read_frame_flags, on_outbuf, need_min, pull, ZmtpFrame,
  zmtp_message, Zmtp, new,
}
use daqingest.Zmtp.Message.{emit_flags, emit_frames, emit_to_buffer}
use daqingest.Zmtp.Parse.{answer_ping, zero_position}
use daqingest.Base.Text.{is_utf8}
use daqingest.Zmtp.Round.{
  Answers, data_closed, data_pending, failed, ended, not_ready, poll_next, rounds, answer,
  loop_body, serialize, write_output, poll_write, take_write, read_input, item_count, parse_round,
  conclude, is_idle, settle, error_or,
}
use daqingest.Zmtp.Safety.States.{IsSound, is_scanning}
use daqingest.Zmtp.Commands.{Sent, answer_ping-Sent, pong_bytes, ping_bytes}
use daqingest.Zmtp.Frames.{Wire, assemble}
use daqingest.Zmtp.Frames.Messages.{parse_items, Assembled, parse_items-assemble}
use daqingest.Zmtp.Frames.RoundTrip.{as_received, parse_items-emit_to_buffer}
use daqingest.Zmtp.Greeting.{Greeting, greeting_bytes}
use daqingest.Zmtp.Greeting.Handshake.{Connected, handshake-Connected}
use daqingest.Zmtp.Eof.{poll_next-stuck}
use daqingest.Zmtp.Safety.Rounds.{Polled, poll_next-Polled, failed-ended, new-IsSound}

-- a buffer of `xs`, with `n` bytes behind them
abbrev filled : List ℕ → ℕ → SlideBuf
filled xs n = record { buf = xs ++ replicate n 0; wp = length xs; rp = 0 }

abbrev connection : ConnState → SlideBuf → SlideBuf → Zmtp
connection st buf outbuf = record {
  done = false;
  complete = false;
  socket_type = pull;
  conn_state = st;
  buf = buf;
  outbuf = outbuf;
  out_enable = false;
  msglen = 0;
  has_more = false;
  is_command = false;
  peer_ver = (0, 0);
  frames = [];
  inp_eof = false;
}

filled-IsValid : (xs : List ℕ) (n : ℕ) → length xs + n ≤ isize_max → IsValid (filled xs n)
filled-IsValid xs n h =
    let e = length-append xs (replicate n 0) in
    let z : ℕ = 0 in omega (arith, e, length-replicate n z)

-- a PING with a context of two bytes
abbrev ping : List ℕ
ping = 4 ∷ 80 ∷ 73 ∷ 78 ∷ 71 ∷ 0 ∷ 9 ∷ 1 ∷ 2 ∷ []

abbrev idle : Zmtp
idle = connection read_frame_flags (filled [] 8) (filled (7 ∷ []) 60)

answer_ping-Sent_example : Sent (pong_bytes ping ++ ping_bytes) idle (answer_ping ping idle)
unfolding wcap
answer_ping-Sent_example =
    answer_ping-Sent ping (filled-IsValid (7 ∷ []) 60 (omega arith)) (omega arith) (omega arith)
      (omega arith)

-- the first frame of a message, a PING, and the last frame, whose size has eight bytes
abbrev sent : List Wire
sent =
    record { flags = 1; payload = 5 ∷ 6 ∷ [] }
    ∷ record { flags = 4; payload = ping }
    ∷ record { flags = 2; payload = 8 ∷ [] }
    ∷ []

abbrev busy : Zmtp
busy =
    connection read_frame_flags
      (filled (1 ∷ 2 ∷ 5 ∷ 6 ∷ 4 ∷ 9 ∷ (ping ++ (2 ∷ 0 ∷ 0 ∷ 0 ∷ 0 ∷ 0 ∷ 0 ∷ 0 ∷ 1 ∷ 8 ∷ 3 ∷ [])))
        8)
      (filled [] 8)

parse_items-assemble_example : Assembled 34 (assemble false [] sent) (3 ∷ []) (parse_items 9 busy)
unfolding be_bytes
parse_items-assemble_example =
    parse_items-assemble sent (3 ∷ []) busy
      (
        record { size = omega arith; short = λ _. omega arith },
        (
          record { size = omega arith; short = λ _. omega arith },
          (record { size = omega arith; short = λ _. omega arith }, tt),
        ),
      )
      (record { state = refl; inp = omega arith; size = refl; bytes = refl; out = omega arith })

-- a frame whose own size and flags are not those of its bytes
abbrev frame : List ℕ → ZmtpFrame
frame payload = record { msglen = 0; has_more = false; is_command = true; payload = payload }

abbrev receiving : Zmtp
receiving =
    connection read_frame_flags
      (filled
        (3 ∷ 0 ∷ 0 ∷ 0 ∷ 0 ∷ 0 ∷ 0 ∷ 0 ∷ 2 ∷ 5 ∷ 6 ∷ 2 ∷ 0 ∷ 0 ∷ 0 ∷ 0 ∷ 0 ∷ 0 ∷ 0 ∷ 1 ∷ 7 ∷ 3 ∷ [])
        8)
      (filled [] 8)

parse_items-emit_to_buffer_example :
    Assembled 30
      (zmtp_message (record { frames = as_received (frame (5 ∷ 6 ∷ []) ∷ frame (7 ∷ []) ∷ []) })
        ∷ [])
      (3 ∷ [])
      (parse_items 6 receiving)
unfolding emit_to_buffer emit_frames emit_flags be_bytes put_u8 put_u64_be put_be put_slice
    make_room rewind_if_needed rewind_if_short check_space wcap cap copy_at
parse_items-emit_to_buffer_example =
    parse_items-emit_to_buffer (frame (5 ∷ 6 ∷ [])) (frame (7 ∷ []) ∷ []) (3 ∷ []) (filled [] 30)
      receiving (filled-IsValid [] 30 (omega arith)) refl (omega arith)
      (omega arith, (omega arith, tt))
      (record { state = refl; inp = omega arith; size = refl; bytes = refl; out = omega arith })
      refl

abbrev peer : Greeting
peer = record {
  padding = 0 ∷ 0 ∷ 0 ∷ 0 ∷ 0 ∷ 0 ∷ 0 ∷ 0 ∷ [];
  last = 0x7f;
  minor = 0;
  mechanism = 0x4e ∷ 0x55 ∷ 0x4c ∷ 0x4c ∷ replicate 16 0;
  filler = replicate 32 0;
}

abbrev starting : Zmtp
starting = connection init_send (filled (greeting_bytes peer ++ (5 ∷ [])) 8) (filled [] 100)

handshake-Connected_example : Connected peer (5 ∷ []) starting (parse_items 6 starting)
unfolding zero_position is_utf8
handshake-Connected_example =
    handshake-Connected starting peer (5 ∷ [])
      (record {
        padding = refl;
        last = refl;
        minor = omega arith;
        mechanism = refl;
        ends = omega arith;
        text = refl;
        filler = refl;
      })
      refl (filled-IsValid (greeting_bytes peer ++ (5 ∷ [])) 8 (omega arith)) refl
      (filled-IsValid [] 100 (omega arith)) (omega arith)

abbrev answers : List Answers
answers =
    record { data_rx = data_pending; write = takes 3; read = received (0xff ∷ []) }
    ∷ record { data_rx = data_pending; write = write_pending; read = received [] }
    ∷ []

poll_next-Polled_example : Polled 131072 131072 (poll_next answers (new pull))
poll_next-Polled_example = poll_next-Polled answers (new-IsSound pull)

-- the input has ended within a greeting
abbrev cut : Zmtp
cut = record (connection init_recv2 (filled (1 ∷ 2 ∷ []) 8) (filled [] 8)) { inp_eof = true }

poll_next-stuck_example :
    poll_next
      (record { data_rx = data_closed; write = write_pending; read = received (1 ∷ []) } ∷ [])
      cut
    ≡ some (ok not_ready, cut)
unfolding len need_min
poll_next-stuck_example =
    poll_next-stuck (record { going = (refl, refl); eof = refl; sent = refl; short = omega arith })
      (record { data_rx = data_closed; write = write_pending; read = received (1 ∷ []) }) []
      (λ e. ground arith)

-- Output stands in the buffer, and the socket fails.
abbrev failing : Zmtp
failing = connection read_frame_flags (filled [] 104) (filled (1 ∷ []) 7)

abbrev write_fails : Answers
write_fails = record { data_rx = data_pending; write = write_error; read = read_pending }

failing-IsSound : IsSound 104 8 failing
unfolding need_min is_scanning
failing-IsSound = record {
  buffers = record {
    inp = (filled-IsValid [] 104 (omega arith), refl);
    out = (filled-IsValid (1 ∷ []) 7 (omega arith), refl);
    going = (refl, refl);
  };
  roomy = omega arith;
  need = omega arith;
  locked = refl;
}

failing-fails :
    poll_next (write_fails ∷ []) failing ≡ some (ok (failed io), record failing { done = true })
unfolding poll_next rounds answer loop_body serialize write_output poll_write on_outbuf data_slice
    slice take_write read_input item_count parse_round conclude is_idle settle error_or len
failing-fails = refl

failed-ended_example :
    poll_next [] (record failing { done = true })
    ≡ some (ok ended, record failing { done = true; complete = true })
failed-ended_example = failed-ended (write_fails ∷ []) [] io failing-IsSound failing-fails
