-- ===== src/Zmtp.antt =====
-- ingest-bsread/src/zmtp/zmtpproto.rs: the ZMTP 3 protocol of bsread sources.
pub mod Message
pub mod Parse
pub mod Round
pub mod Commands
pub mod Safety
pub mod Frames
pub mod Greeting
pub mod Eof
mod Examples
use daqingest.Base.{
  ℕ, ◌*◌, Bool, false, List, [], ◌∷◌, Option, Outcome, ok, err, panic, Act, modify,
}
use daqingest.SlideBuf
use daqingest.SlideBuf.{SlideBuf}

pub data Error : Type 0 where
  bad : Error
  net_buf : SlideBuf.Error → Error
  zmtp_init_peer_not3x zmtp_init_peer_unsupported_version bad_peer_mechanism : Error
  msg_too_large : ℕ → Error
  buffer_too_small_for_need_min : ℕ → ℕ → Error
  from_utf8_error io : Error

pub data ConnState : Type 0 where
  init_send init_recv1 init_recv2 init_recv3 init_recv4 init_recv5 : ConnState
  read_frame_flags read_frame_short read_frame_long : ConnState
  read_frame_body lock_scan : ℕ → ConnState

unfoldable pub need_min : ConnState → ℕ
need_min init_send = 0
need_min init_recv1 = 1
need_min init_recv2 = 9
need_min init_recv3 = 1
need_min init_recv4 = 1
need_min init_recv5 = 52
need_min read_frame_flags = 1
need_min read_frame_short = 1
need_min read_frame_long = 8
need_min (read_frame_body msglen) = msglen
need_min (lock_scan n) = n

pub data SocketType : Type 0 where
  push pull : SocketType

pub record ZmtpFrame : Type 0 where
  pub msglen : ℕ
  pub has_more : Bool
  pub is_command : Bool
  pub payload : List ℕ

pub record ZmtpMessage : Type 0 where
  pub frames : List ZmtpFrame

pub data ZmtpEvent : Type 0 where
  zmtp_command : ZmtpFrame → ZmtpEvent
  zmtp_message : ZmtpMessage → ZmtpEvent

-- The socket and the channel of items to send are the environment's. The logs of states are left
-- out, as nothing writes them.
pub record Zmtp : Type 0 where
  pub done : Bool
  pub complete : Bool
  pub socket_type : SocketType
  pub conn_state : ConnState
  pub buf : SlideBuf
  pub outbuf : SlideBuf
  pub out_enable : Bool
  pub msglen : ℕ
  pub has_more : Bool
  pub is_command : Bool
  pub peer_ver : ℕ × ℕ
  pub frames : List ZmtpFrame
  pub inp_eof : Bool

unfoldable pub new : SocketType → Zmtp
new socket_type = record {
  done = false;
  complete = false;
  socket_type = socket_type;
  conn_state = init_send;
  buf = SlideBuf.new (1024 * 128);
  outbuf = SlideBuf.new (1024 * 128);
  out_enable = false;
  msglen = 0;
  has_more = false;
  is_command = false;
  peer_ver = (0, 0);
  frames = [];
  inp_eof = false;
}

-- a call on a buffer, its error wrapped by `From`
abbrev pub wrap : {A : Type 0} → Outcome SlideBuf.Error A → Outcome Error A
wrap (ok a) = ok a
wrap (err e) = err (net_buf e)
wrap panic = panic

unfoldable pub on_buf : {A : Type 0} → SlideBuf.Op A → Act Zmtp Error A
on_buf m z = let (r, b) = m z.buf in (wrap r, record z { buf = b })

unfoldable pub on_outbuf : {A : Type 0} → SlideBuf.Op A → Act Zmtp Error A
on_outbuf m z = let (r, b) = m z.outbuf in (wrap r, record z { outbuf = b })

unfoldable pub set_state : ConnState → Act Zmtp Error Unit
set_state st = modify (λ z. record z { conn_state = st })
