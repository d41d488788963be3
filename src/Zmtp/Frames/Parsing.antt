-- ===== src/Zmtp/Frames/Parsing.antt =====
-- The three rounds in which the parser of zmtpproto.rs takes a frame.
use daqingest.Base.{
  ℕ, ◌/◌, ◌≤◌, ◌≡◌, refl, ap, ◌∙◌, Bool, true, false, Bool-cases, inl, inr, Option, none, some,
  List, [], ◌∷◌, ◌++◌, length, append_assoc, le→ltb_false, if◌then◌else◌, arith, Outcome, ok,
}
use daqingest.SlideBuf.{cap, read_u8, read_u64_be, read_bytes}
use daqingest.SlideBuf.Invariant.{IsValid, contents}
use daqingest.SlideBuf.Read.{advanced, read_u8-front, read_be-front, read_bytes-front}
use daqingest.Zmtp.{
  Error, read_frame_flags, read_frame_short, read_frame_long, read_frame_body, ZmtpFrame, ZmtpEvent,
  zmtp_command, zmtp_message, Zmtp,
}
use daqingest.Zmtp.Parse.{
  bit0, bit1, bit2, parse_flags, take_size, is_ping, take_command, take_frame, parse_body,
  parse_state, parse_item,
}
use daqingest.Zmtp.Commands.{answer_ping-AnySent, is_ping-size}
use daqingest.Zmtp.Frames.{
  Wire, size_bytes, wire_bytes, IsTaken, frame_of, receive, AtFrame, parse_item-state, on_buf-step,
}

abbrev flags_read : ℕ → Zmtp → Zmtp
flags_read flags z = record z {
  buf = advanced 1 z.buf;
  has_more = if bit2 flags then z.has_more else bit0 flags;
  is_command = bit2 flags;
  conn_state = if bit1 flags then read_frame_long else read_frame_short;
}

parse_flags-front :
    (z : Zmtp) (flags : ℕ) (bs : List ℕ)
    → z.conn_state ≡ read_frame_flags
    → IsValid z.buf
    → contents z.buf ≡ flags ∷ bs
    → (parse_item z ≡ (ok none, flags_read flags z))
      × IsValid (advanced 1 z.buf)
      × (contents (advanced 1 z.buf) ≡ bs)
unfolding parse_state parse_flags
parse_flags-front z flags bs st v e =
    let r = read_u8-front v flags bs e in
    (parse_item-state z st ∙ on_buf-step read_u8 _ (r.0), r.1, r.2)

abbrev size_read : ℕ → ℕ → Zmtp → Zmtp
size_read width size z = record z {
  buf = advanced width z.buf;
  msglen = size;
  conn_state = read_frame_body size;
}

take_size-fits :
    (z : Zmtp) (width size : ℕ)
    → size ≤ length z.buf.buf / 2
    → take_size size (record z { buf = advanced width z.buf }) ≡ (ok none, size_read width size z)
unfolding take_size cap
take_size-fits z width size h = rw (le→ltb_false _ _ h)

abbrev width : Bool → ℕ
width long = if long then 8 else 1

parse_size-front :
    (z : Zmtp) (long : Bool) (size : ℕ) (bs : List ℕ)
    → z.conn_state ≡ (if long then read_frame_long else read_frame_short)
    → IsValid z.buf
    → contents z.buf ≡ size_bytes long size ++ bs
    → size ≤ length z.buf.buf / 2
    → (parse_item z ≡ (ok none, size_read (width long) size z))
      × IsValid (advanced (width long) z.buf)
      × (contents (advanced (width long) z.buf) ≡ bs)
unfolding parse_state read_u64_be
parse_size-front z true size bs st v e h =
    let r = read_be-front v 8 size bs (omega (arith, v)) e in
    (
      parse_item-state z st ∙ on_buf-step read_u64_be take_size (r.0) ∙ take_size-fits z 8 size h,
      r.1,
      r.2,
    )
parse_size-front z false size bs st v e h =
    let r = read_u8-front v size bs e in
    (
      parse_item-state z st ∙ on_buf-step read_u8 take_size (r.0) ∙ take_size-fits z 1 size h,
      r.1,
      r.2,
    )

-- what the parser has made of a frame
pub record Received (n : ℕ) (ev : Option ZmtpEvent × (Bool × List ZmtpFrame)) (bs : List ℕ)
    (r : Outcome Error (Option ZmtpEvent) × Zmtp) : Type 0 where
  pub after : Zmtp
  pub reply : r ≡ (ok ev.0, after)
  pub at : AtFrame n bs after
  pub more : after.has_more ≡ ev.1.0
  pub before : after.frames ≡ ev.1.1

abbrev command_taken : Wire → Zmtp → Zmtp → Bool → Outcome Error (Option ZmtpEvent) × Zmtp
command_taken w z after c = (
  ok (
      some (
        zmtp_command (record {
          msglen = length w.payload;
          has_more = z.has_more;
          is_command = c;
          payload = w.payload;
        }))),
  after,
)

abbrev frame_taken : Wire → Zmtp → Bool → Bool → Outcome Error (Option ZmtpEvent) × Zmtp
frame_taken w z more c =
    let frames =
      z.frames
      ++ (record { msglen = length w.payload; has_more = more; is_command = c; payload = w.payload }
          ∷ []) in
    if more
    then (ok none, record z { frames = frames })
    else (ok (some (zmtp_message (record { frames = frames }))), record z { frames = [] })

module _ {n : ℕ} (bs : List ℕ) (z : Zmtp) (w : Wire) (f : AtFrame n bs z)
    (c : z.is_command ≡ bit2 w.flags) where
  take_command-Received :
      Received n
        (some (zmtp_command (frame_of z.has_more w)), (z.has_more, z.frames))
        bs
        (take_command (length w.payload) w.payload z)
  unfolding take_command
  take_command-Received = elim (Bool-cases (is_ping w.payload)) [
    | inl p ↦
        let size = is_ping-size w.payload p in
        let s = answer_ping-AnySent {z = z} w.payload f.out size.0 size.1 in
        rw (p, s.sent.reply)
          (record {
            after = record z { outbuf = s.sent.after };
            reply = ap (λ x. command_taken w z (record z { outbuf = s.sent.after }) x) c;
            at = record {
              state = f.state;
              inp = f.inp;
              size = f.size;
              bytes = f.bytes;
              out = s.sent.grown.valid;
            };
            more = refl;
            before = refl;
          })
    | inr p ↦ rw p (record {
      after = z;
      reply = ap (λ x. command_taken w z z x) c;
      at = f;
      more = refl;
      before = refl;
    })
  ]

  frame_taken-Received :
      (more command : Bool)
      → z.has_more ≡ more
      → let frames =
          z.frames
          ++ (record {
            msglen = length w.payload;
            has_more = more;
            is_command = command;
            payload = w.payload;
          }
              ∷ []) in
        Received n
          (if more
            then (none, (true, frames))
            else (some (zmtp_message (record { frames = frames })), (false, [])))
          bs
          (frame_taken w z more command)
  frame_taken-Received true command m = record {
    after = _;
    reply = refl;
    at = record { state = f.state; inp = f.inp; size = f.size; bytes = f.bytes; out = f.out };
    more = m;
    before = refl;
  }
  frame_taken-Received false command m = record {
    after = _;
    reply = refl;
    at = record { state = f.state; inp = f.inp; size = f.size; bytes = f.bytes; out = f.out };
    more = m;
    before = refl;
  }

  take_frame-eq :
      z.has_more ≡ bit0 w.flags
      → take_frame (length w.payload) w.payload z ≡ frame_taken w z (bit0 w.flags) (bit2 w.flags)
  unfolding take_frame
  take_frame-eq m =
      by_more z.has_more refl
      ∙ ap (λ x. frame_taken w z x z.is_command) m
      ∙ ap (λ x. frame_taken w z (bit0 w.flags) x) c
    where
      by_more :
          (more : Bool)
          → z.has_more ≡ more
          → take_frame (length w.payload) w.payload z ≡ frame_taken w z z.has_more z.is_command
      by_more true e = simp e refl
      by_more false e = simp e refl

  take_frame-Received :
      z.has_more ≡ bit0 w.flags
      → bit2 w.flags ≡ false
      → Received n (receive z.has_more z.frames w) bs (take_frame (length w.payload) w.payload z)
  take_frame-Received m d = rw (take_frame-eq m, d) (frame_taken-Received (bit0 w.flags) false m)

body_taken-Received :
    {n : ℕ} (bs : List ℕ) (more : Bool) (z : Zmtp) (w : Wire)
    → AtFrame n bs z
    → z.is_command ≡ bit2 w.flags
    → z.has_more ≡ (if bit2 w.flags then more else bit0 w.flags)
    → Received n (receive more z.frames w) bs (
        (if bit2 w.flags
            then take_command (length w.payload) w.payload
            else take_frame (length w.payload) w.payload)
          z)
body_taken-Received {n} bs more z w f c m = elim (Bool-cases (bit2 w.flags)) [
  | inl d ↦
      let e : z.has_more ≡ more = m ∙ rw d in
      rw (d, ← e) (rw d at (take_command-Received bs z w f c))
  | inr d ↦
      let e : z.has_more ≡ bit0 w.flags = m ∙ rw d in
      rw d (rw d at (take_frame-Received bs z w f c e d))
]

abbrev body_read : ℕ → Zmtp → Zmtp
body_read size z = record z { buf = advanced size z.buf; conn_state = read_frame_flags; msglen = 0 }

parse_body-front :
    (z : Zmtp) (payload bs : List ℕ)
    → z.conn_state ≡ read_frame_body (length payload)
    → IsValid z.buf
    → contents z.buf ≡ payload ++ bs
    → (parse_item z
        ≡ (if z.is_command
              then take_command (length payload) payload
              else take_frame (length payload) payload)
            (body_read (length payload) z))
      × IsValid (advanced (length payload) z.buf)
      × (contents (advanced (length payload) z.buf) ≡ bs)
unfolding parse_state parse_body
parse_body-front z payload bs st v e =
    let r = read_bytes-front v payload bs e in
    (parse_item-state z st ∙ on_buf-step (read_bytes (length payload)) _ (r.0), r.1, r.2)

-- The three rounds in which the parser takes one frame.
pub record Taken (n : ℕ) (w : Wire) (bs : List ℕ) (z : Zmtp) : Type 0 where
  pub flagged : Zmtp
  pub sized : Zmtp
  pub first : parse_item z ≡ (ok none, flagged)
  pub second : parse_item flagged ≡ (ok none, sized)
  pub third : Received n (receive z.has_more z.frames w) bs (parse_item sized)

pub parse_item-Taken :
    {n : ℕ} (w : Wire) (bs : List ℕ) (z : Zmtp)
    → IsTaken n w
    → AtFrame n (wire_bytes w ++ bs) z
    → Taken n w bs z
parse_item-Taken {n} w bs z t f =
    let long = bit1 w.flags in
    let size = length w.payload in
    let a =
      parse_flags-front z w.flags (size_bytes long size ++ (w.payload ++ bs)) f.state f.inp
        (f.bytes ∙ ap (λ xs. w.flags ∷ xs) (append_assoc (size_bytes long size) w.payload bs)) in
    let z1 = flags_read w.flags z in
    let b = parse_size-front z1 long size (w.payload ++ bs) refl a.1 (a.2) (rw f.size t.size) in
    let z2 = size_read (width long) size z1 in
    let c = parse_body-front z2 w.payload bs refl b.1 b.2 in
    record {
      flagged = z1;
      sized = z2;
      first = a.0;
      second = b.0;
      third = rw (c.0) (
          body_taken-Received bs z.has_more (body_read size z2) w
            (record { state = refl; inp = c.1; size = f.size; bytes = c.2; out = f.out }) refl
            refl);
    }
