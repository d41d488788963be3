-- ===== src/Zmtp/Frames.antt =====
-- The frames that zmtpproto.rs reads: their bytes, and the events that they make up.
pub mod Parsing
pub mod Messages
pub mod RoundTrip
use daqingest.Base.{
  ℕ, zero, suc, ◌+◌, ◌/◌, ◌%◌, ◌^◌, ◌≤◌, ◌<◌, ◌≡◌, refl, sym, ap, ◌∙◌, Bool, true, false, ◌&&◌,
  Bool-cases, inl, inr, Option, none, some, List, [], ◌∷◌, ◌++◌, length, take, drop, append_assoc,
  length-append, be_bytes, le→ltb_false, leb, ltb, ◌==◌, if◌then◌else◌, arith, Outcome, Act, ◌>>=◌,
  ◌>>◌, and_then, pure, throw, get, modify, bind-ok, ok, err, isize_max,
}
use daqingest.SlideBuf
use daqingest.SlideBuf.{SlideBuf, cap, read_u8, read_u64_be, read_bytes}
use daqingest.SlideBuf.Invariant.{IsValid, contents}
use daqingest.SlideBuf.Read.{advanced, read_u8-front, read_be-front, read_bytes-front}
use daqingest.Zmtp.{
  Error, ConnState, read_frame_flags, read_frame_short, read_frame_long, read_frame_body, ZmtpFrame,
  ZmtpMessage, ZmtpEvent, zmtp_command, zmtp_message, Zmtp, wrap, on_buf,
}
use daqingest.Zmtp.Parse.{
  bit0, bit1, bit2, parse_flags, take_size, is_ping, answer_ping, take_command, take_frame,
  parse_body, parse_state, parse_item,
}
use daqingest.Zmtp.Commands.{answer_ping-AnySent, is_ping-size}

-- a frame as a peer sends it
pub record Wire : Type 0 where
  pub flags : ℕ
  pub payload : List ℕ

abbrev pub size_bytes : Bool → ℕ → List ℕ
size_bytes long size = if long then be_bytes 8 size else size ∷ []

abbrev pub wire_bytes : Wire → List ℕ
wire_bytes w = w.flags ∷ (size_bytes (bit1 w.flags) (length w.payload) ++ w.payload)

abbrev pub wires_bytes : List Wire → List ℕ
wires_bytes [] = []
wires_bytes (w ∷ ws) = wire_bytes w ++ wires_bytes ws

-- A frame that a parser with `n` bytes takes.
pub record IsTaken (n : ℕ) (w : Wire) : Type 0 where
  pub size : length w.payload ≤ n / 2
  pub short : bit1 w.flags ≡ false → length w.payload < 256

abbrev pub frame_of : Bool → Wire → ZmtpFrame
frame_of more w = record {
  msglen = length w.payload;
  has_more = more;
  is_command = bit2 w.flags;
  payload = w.payload;
}

-- what one frame makes of the frames before it: an event, whether more are to come, and the
-- frames of an unfinished message
abbrev pub receive : Bool → List ZmtpFrame → Wire → Option ZmtpEvent × (Bool × List ZmtpFrame)
receive more before w =
    let after = before ++ (frame_of (bit0 w.flags) w ∷ []) in
    if bit2 w.flags
    then (some (zmtp_command (frame_of more w)), (more, before))
    else if bit0 w.flags
    then (none, (true, after))
    else (some (zmtp_message (record { frames = after })), (false, []))

abbrev pub cons_event : Option ZmtpEvent → List ZmtpEvent → List ZmtpEvent
cons_event none xs = xs
cons_event (some x) xs = x ∷ xs

-- the events that a list of frames makes up
unfoldable pub assemble : Bool → List ZmtpFrame → List Wire → List ZmtpEvent
assemble more before [] = []
assemble more before (w ∷ ws) =
    let (event, next) = receive more before w in cons_event event (assemble next.0 next.1 ws)

-- the parser at the front of the bytes `bs`, between two frames
pub record AtFrame (n : ℕ) (bs : List ℕ) (z : Zmtp) : Type 0 where
  pub state : z.conn_state ≡ read_frame_flags
  pub inp : IsValid z.buf
  pub size : length z.buf.buf ≡ n
  pub bytes : contents z.buf ≡ bs
  pub out : IsValid z.outbuf

on_buf-ok :
    {A : Type 0} (m : SlideBuf.Op A) {z : Zmtp} {a : A} {b : SlideBuf}
    → m z.buf ≡ (ok a, b)
    → on_buf m z ≡ (ok a, record z { buf = b })
unfolding on_buf
on_buf-ok m h = rw h

pub parse_item-state :
    (z : Zmtp) {st : ConnState} → z.conn_state ≡ st → parse_item z ≡ parse_state st z
unfolding parse_item
parse_item-state z e = ap (λ st. parse_state st z) e

pub on_buf-step :
    {A B : Type 0} (m : SlideBuf.Op A) (f : A → Act Zmtp Error B) {z : Zmtp} {a : A} {b : SlideBuf}
    → m z.buf ≡ (ok a, b)
    → (on_buf m >>= f) z ≡ f a (record z { buf = b })
on_buf-step m f h = bind-ok (on_buf m) f (on_buf-ok m h)
