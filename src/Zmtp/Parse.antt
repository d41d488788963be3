-- ===== src/Zmtp/Parse.antt =====
-- `Zmtp::parse_item` of zmtpproto.rs, one definition for each state.
use daqingest.Base.{
  ℕ, ◌+◌, ◌-◌, ◌/◌, ◌%◌, Bool, true, false, ◌&&◌, Option, none, some, List, [], ◌∷◌, ◌++◌, length,
  take, drop, replicate, get_elem?, ltb, leb, ◌==◌, if◌then◌else◌, ok, err, panic, Act, ◌>>=◌, ◌>>◌,
  pure, throw, get, modify, or_panic,
}
use daqingest.Base.Text.{is_utf8}
use daqingest.SlideBuf
use daqingest.SlideBuf.{
  SlideBuf, cap, wcap, adv, read_u8, read_u64_be, read_bytes, put_u8, put_slice, data_slice,
}
use daqingest.Zmtp.{
  Error, zmtp_init_peer_not3x, zmtp_init_peer_unsupported_version, bad_peer_mechanism,
  msg_too_large, from_utf8_error, ConnState, init_send, init_recv1, init_recv2, init_recv3,
  init_recv4, init_recv5, read_frame_flags, read_frame_short, read_frame_long, read_frame_body,
  lock_scan, SocketType, push, pull, ZmtpEvent, zmtp_command, zmtp_message, Zmtp, on_buf, on_outbuf,
  set_state,
}

-- the bits 0, 1 and 2 of a byte
abbrev pub bit0 : ℕ → Bool
bit0 b = b % 2 == 1

abbrev pub bit1 : ℕ → Bool
bit1 b = b / 2 % 2 == 1

abbrev pub bit2 : ℕ → Bool
bit2 b = b / 4 % 2 == 1

abbrev pub greeting : List ℕ
greeting = 0xff ∷ 0 ∷ 0 ∷ 0 ∷ 0 ∷ 0 ∷ 0 ∷ 0 ∷ 0 ∷ 0x7f ∷ 3 ∷ 1 ∷ []

abbrev pub null_mechanism : List ℕ
null_mechanism = 0x4e ∷ 0x55 ∷ 0x4c ∷ 0x4c ∷ []

-- "\x04\x1a\x05READY\x0bSocket-Type\x00\x00\x00\x04" and the type
abbrev pub ready_command : SocketType → List ℕ
ready_command t =
    (0x04 ∷ 0x1a ∷ 0x05 ∷ b'R' ∷ b'E' ∷ b'A' ∷ b'D' ∷ b'Y' ∷ 0x0b ∷ b'S' ∷ b'o' ∷ b'c' ∷ b'k' ∷ b'e'
      ∷ b't' ∷ b'-' ∷ b'T' ∷ b'y' ∷ b'p' ∷ b'e' ∷ 0 ∷ 0 ∷ 0 ∷ 0x04 ∷ [])
    ++ (elim t [ push ↦ b'P' ∷ b'U' ∷ b'S' ∷ b'H' ∷ [] | pull ↦ b'P' ∷ b'U' ∷ b'L' ∷ b'L' ∷ [] ])

unfoldable pub parse_init_send : Act Zmtp Error (Option ZmtpEvent)
parse_init_send = do on_outbuf (put_slice greeting); set_state init_recv1; pure none

unfoldable pub parse_init_recv1 : Act Zmtp Error (Option ZmtpEvent)
parse_init_recv1 = do
  b ← on_buf read_u8
  if b == 0xff then (do set_state init_recv2; pure none) else throw zmtp_init_peer_not3x

unfoldable pub parse_init_recv2 : Act Zmtp Error (Option ZmtpEvent)
parse_init_recv2 = do
  on_buf (adv 8)
  b ← on_buf read_u8
  if bit0 b then (do set_state init_recv3; pure none) else throw zmtp_init_peer_not3x

unfoldable pub parse_init_recv3 : Act Zmtp Error (Option ZmtpEvent)
parse_init_recv3 = do
  maj ← on_buf read_u8
  if maj == 3
      then (do
        modify (λ z. record z { peer_ver = (maj, z.peer_ver.1) })
        on_outbuf (put_slice null_mechanism)
        on_outbuf (put_slice (replicate 48 0))
        set_state init_recv4
        pure none)
      else throw zmtp_init_peer_not3x

unfoldable pub parse_init_recv4 : Act Zmtp Error (Option ZmtpEvent)
parse_init_recv4 = do
  minver ← on_buf read_u8
  if ltb 1 minver then throw zmtp_init_peer_unsupported_version else (do
    modify (λ z. record z { peer_ver = (z.peer_ver.0, minver) })
    set_state init_recv5
    pure none)

-- the position of the first zero, or the length
unfoldable pub zero_position : List ℕ → ℕ
zero_position [] = 0
zero_position (b ∷ bs) = if b == 0 then 0 else 1 + zero_position bs

unfoldable pub check_mechanism : List ℕ → Act Zmtp Error Unit
check_mechanism b2 =
    let i = zero_position b2 in
    if leb (length b2) i
    then throw bad_peer_mechanism
    else if is_utf8 (take i b2)
    then pure tt
    else throw from_utf8_error

unfoldable pub parse_init_recv5 : Act Zmtp Error (Option ZmtpEvent)
parse_init_recv5 = do
  b2 ← on_buf (read_bytes 20)
  check_mechanism b2
  on_buf (adv 32)
  z ← get
  on_outbuf (put_slice (ready_command z.socket_type))
  modify (λ z. record z { out_enable = true; conn_state = read_frame_flags })
  pure none

unfoldable pub parse_flags : Act Zmtp Error (Option ZmtpEvent)
parse_flags = do
  flags ← on_buf read_u8
  modify (λ z. record z {
    has_more = if bit2 flags then z.has_more else bit0 flags;
    is_command = bit2 flags;
    conn_state = if bit1 flags then read_frame_long else read_frame_short;
  })
  pure none

-- after the size of a frame was read
unfoldable pub take_size : ℕ → Act Zmtp Error (Option ZmtpEvent)
take_size msglen = do
  modify (λ z. record z { msglen = msglen; conn_state = read_frame_body msglen })
  z ← get
  if ltb (cap z.buf / 2) msglen then throw (msg_too_large msglen) else pure none

-- "\x04PONG", "\x04PING" and "daqingest"
abbrev pub pong_name : List ℕ
pong_name = 0x04 ∷ b'P' ∷ b'O' ∷ b'N' ∷ b'G' ∷ []

abbrev pub ping_name : List ℕ
ping_name = 0x04 ∷ b'P' ∷ b'I' ∷ b'N' ∷ b'G' ∷ []

abbrev pub my_ctx : List ℕ
my_ctx = b'd' ∷ b'a' ∷ b'q' ∷ b'i' ∷ b'n' ∷ b'g' ∷ b'e' ∷ b's' ∷ b't' ∷ []

-- `.unwrap()` on a write to the output buffer
unfoldable pub unwrap_outbuf : SlideBuf.Op Unit → Act Zmtp Error Unit
unwrap_outbuf m z =
    let (r, b) = m z.outbuf in
    (elim r [ ok a ↦ ok a | err _ ↦ panic | panic ↦ panic ], record z { outbuf = b })

unfoldable pub put_command : List ℕ → List ℕ → Act Zmtp Error Unit
put_command name ctx = do
  unwrap_outbuf (put_u8 0x04)
  unwrap_outbuf (put_u8 ((5 + length ctx % 256) % 256))
  unwrap_outbuf (put_slice name)
  unwrap_outbuf (put_slice ctx)

-- the answer to a PING, and a PING of its own
unfoldable pub answer_ping : List ℕ → Act Zmtp Error Unit
answer_ping bytes = do
  z ← get
  if ltb (wcap z.outbuf) (length bytes) then pure tt else put_command pong_name (drop 7 bytes)
  z ← get
  if ltb (wcap z.outbuf) 32 then pure tt else put_command ping_name my_ctx

unfoldable pub same_bytes : List ℕ → List ℕ → Bool
same_bytes [] [] = true
same_bytes (a ∷ as') (b ∷ bs) = a == b && same_bytes as' bs
same_bytes _ _ = false

-- a PING that is answered
unfoldable pub is_ping : List ℕ → Bool
unfolding same_bytes
is_ping bytes = leb 7 (length bytes) && same_bytes (take 5 bytes) ping_name && leb (length bytes) 32

unfoldable pub take_command : ℕ → List ℕ → Act Zmtp Error (Option ZmtpEvent)
take_command msglen bytes = do
  if is_ping bytes then answer_ping bytes else pure tt
  z ← get
  pure (
      some (
        zmtp_command (record {
          msglen = msglen;
          has_more = z.has_more;
          is_command = z.is_command;
          payload = bytes;
        })))

unfoldable pub take_frame : ℕ → List ℕ → Act Zmtp Error (Option ZmtpEvent)
take_frame msglen bytes = do
  modify (λ z. record z {
    frames =
        z.frames
        ++ (record {
          msglen = msglen;
          has_more = z.has_more;
          is_command = z.is_command;
          payload = bytes;
        }
            ∷ []);
  })
  z ← get
  if z.has_more then pure none else (do
    modify (λ z. record z { frames = [] })
    pure (some (zmtp_message (record { frames = z.frames }))))

unfoldable pub parse_body : ℕ → Act Zmtp Error (Option ZmtpEvent)
parse_body msglen = do
  bytes ← on_buf (read_bytes msglen)
  modify (λ z. record z { conn_state = read_frame_flags; msglen = 0 })
  z ← get
  if z.is_command then take_command msglen bytes else take_frame msglen bytes

-- {"dh_compression":
abbrev pub needle : List ℕ
needle =
    b'{' ∷ b'"' ∷ b'd' ∷ b'h' ∷ b'_' ∷ b'c' ∷ b'o' ∷ b'm' ∷ b'p' ∷ b'r' ∷ b'e' ∷ b's' ∷ b's' ∷ b'i'
    ∷ b'o' ∷ b'n' ∷ b'"' ∷ b':' ∷ []

-- the first position from 2 on at which the needle stands
unfoldable pub find_needle : ℕ → List ℕ → Option ℕ
unfolding same_bytes
find_needle i [] = none
find_needle i (b ∷ bs) =
    let later = find_needle (i + 1) bs in
    if leb 2 i && same_bytes (take (length needle) (b ∷ bs)) needle then some i else later

unfoldable pub is_locked : List ℕ → ℕ → Act Zmtp Error Bool
is_locked bytes nf = do
  flags ← or_panic (get_elem? bytes (nf - 2))
  size ← or_panic (get_elem? bytes (nf - 1))
  pure (flags == 1 && ltb 0x70 size && ltb size 0xd0)

unfoldable pub parse_lock_scan : Act Zmtp Error (Option ZmtpEvent)
parse_lock_scan = do
  bytes ← on_buf data_slice
  locked ← elim (find_needle 0 bytes) [ none ↦ pure false | some nf ↦ is_locked bytes nf ]
  set_state (if locked then read_frame_flags else lock_scan (length bytes + 1))
  pure none

unfoldable pub parse_state : ConnState → Act Zmtp Error (Option ZmtpEvent)
parse_state init_send = parse_init_send
parse_state init_recv1 = parse_init_recv1
parse_state init_recv2 = parse_init_recv2
parse_state init_recv3 = parse_init_recv3
parse_state init_recv4 = parse_init_recv4
parse_state init_recv5 = parse_init_recv5
parse_state read_frame_flags = parse_flags
parse_state read_frame_short = do n ← on_buf read_u8; take_size n
parse_state read_frame_long = do n ← on_buf read_u64_be; take_size n
parse_state (read_frame_body msglen) = parse_body msglen
parse_state (lock_scan n) = parse_lock_scan

unfoldable pub parse_item : Act Zmtp Error (Option ZmtpEvent)
parse_item z = parse_state z.conn_state z
