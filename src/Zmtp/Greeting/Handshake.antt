-- ===== src/Zmtp/Greeting/Handshake.antt =====
-- The whole handshake of zmtpproto.rs.
use daqingest.Base.{
  ℕ, ◌+◌, ◌≤◌, ◌≡◌, refl, ap, ◌∙◌, true, List, [], ◌∷◌, ◌++◌, length, replicate, append_assoc,
  length-append, arith, Outcome, ok,
}
use daqingest.SlideBuf.{SlideBuf, put_slice}
use daqingest.SlideBuf.Invariant.{IsValid, contents}
use daqingest.SlideBuf.Read.{advanced}
use daqingest.Zmtp.{
  Error, init_send, init_recv1, init_recv2, init_recv3, init_recv4, init_recv5, read_frame_flags,
  SocketType, push, pull, ZmtpEvent, Zmtp,
}
use daqingest.Zmtp.Parse.{greeting, null_mechanism, ready_command}
use daqingest.Zmtp.Frames.{AtFrame}
use daqingest.Zmtp.Frames.Messages.{parse_items, parse_items-suc}
use daqingest.SlideBuf.Puts.{Puts, put_slice-Puts}
use daqingest.Zmtp.Greeting.{
  Greeting, greeting_bytes, IsAccepted, init_send-ok, init_recv1-ok, init_recv2-ok, init_recv3-ok,
  init_recv4-ok, init_recv5-ok,
}

-- all that a connection sends
abbrev pub own_bytes : SocketType → List ℕ
own_bytes t = greeting ++ (null_mechanism ++ (replicate 48 0 ++ ready_command t))

length-ready_command : (t : SocketType) → length (ready_command t) ≡ 28
length-ready_command push = refl
length-ready_command pull = refl

-- A connection that is ready for frames.
pub record Connected (g : Greeting) (bs : List ℕ) (z : Zmtp)
    (r : Outcome Error (List ZmtpEvent) × Zmtp) : Type 0 where
  pub after : Zmtp
  pub reply : r ≡ (ok [], after)
  pub at : AtFrame (length z.buf.buf) bs after
  pub sent : contents after.outbuf ≡ contents z.outbuf ++ own_bytes z.socket_type
  pub enabled : after.out_enable ≡ true
  pub version : after.peer_ver ≡ (3, g.minor)

-- the writes of the handshake, one after the other
record Writes (t : SocketType) (s : SlideBuf) : Type 0 where
  pub first : Puts greeting s (put_slice greeting s)
  pub second : Puts null_mechanism first.after (put_slice null_mechanism first.after)
  pub third : Puts (replicate 48 0) second.after (put_slice (replicate 48 0) second.after)
  pub fourth : Puts (ready_command t) third.after (put_slice (ready_command t) third.after)

Writes-fit :
    (t : SocketType) (s : SlideBuf)
    → IsValid s
    → length (contents s) + 92 ≤ length s.buf
    → Writes t s
Writes-fit t s v h =
    let a = put_slice-Puts greeting v (omega arith) in
    let la = ap length a.bytes ∙ length-append (contents s) greeting in
    let b = put_slice-Puts null_mechanism a.valid (omega (arith, la, a.size)) in
    let lb = ap length b.bytes ∙ length-append (contents a.after) null_mechanism in
    let c = put_slice-Puts (replicate 48 0) b.valid (omega (arith, la, lb, a.size, b.size)) in
    let lc = ap length c.bytes ∙ length-append (contents b.after) (replicate 48 0) in
    record {
      first = a;
      second = b;
      third = c;
      fourth =
          put_slice-Puts (ready_command t) c.valid
            (omega (arith, la, lb, lc, a.size, b.size, c.size, length-ready_command t));
    }

written :
    {t : SocketType} {s : SlideBuf} (w : Writes t s)
    → contents w.fourth.after ≡ contents s ++ own_bytes t
written {t} {s} w =
    w.fourth.bytes
    ∙ ap (λ q. q ++ ready_command t) w.third.bytes
    ∙ append_assoc (contents w.second.after) (replicate 48 0) (ready_command t)
    ∙ ap (λ q. q ++ (replicate 48 0 ++ ready_command t)) w.second.bytes
    ∙ append_assoc (contents w.first.after) null_mechanism (replicate 48 0 ++ ready_command t)
    ∙ ap (λ q. q ++ (null_mechanism ++ (replicate 48 0 ++ ready_command t))) w.first.bytes
    ∙ append_assoc (contents s) greeting (null_mechanism ++ (replicate 48 0 ++ ready_command t))

-- When a greeting has come that begins with 0xff, has an odd tenth byte, the version 3.0 or 3.1
-- and a mechanism of UTF-8 text that ends in its 20 bytes, six rounds take a new connection with
-- valid buffers and room for 92 bytes of output to its first frame; the output then holds in
-- addition exactly the own greeting and the READY command of the socket type, the version of the
-- peer is noted, output is enabled, and the bytes behind the greeting stay.
pub handshake-Connected :
    (z : Zmtp) (g : Greeting) (bs : List ℕ)
    → IsAccepted g
    → z.conn_state ≡ init_send
    → IsValid z.buf
    → contents z.buf ≡ greeting_bytes g ++ bs
    → IsValid z.outbuf
    → length (contents z.outbuf) + 92 ≤ length z.outbuf.buf
    → Connected g bs z (parse_items 6 z)
unfolding parse_items
handshake-Connected z g bs a st v e vo room =
    let w = Writes-fit z.socket_type z.outbuf vo room in
    let behind5 = g.mechanism ++ (g.filler ++ bs) in
    let behind2 = g.last ∷ 3 ∷ g.minor ∷ behind5 in
    let e0 : contents z.buf ≡ 0xff ∷ (g.padding ++ behind2) =
      e
      ∙ ap (λ q. 0xff ∷ q)
          (append_assoc g.padding (g.last ∷ 3 ∷ g.minor ∷ (g.mechanism ++ g.filler)) bs
            ∙ ap (λ q. g.padding ++ (g.last ∷ 3 ∷ g.minor ∷ q))
                (append_assoc g.mechanism g.filler bs)) in
    let s0 = init_send-ok z v [] st w.first in
    let z1 = record z { outbuf = w.first.after; conn_state = init_recv1 } in
    let s1 = init_recv1-ok z1 v (g.padding ++ behind2) refl e0 in
    let z2 = record z1 { buf = advanced 1 z1.buf; conn_state = init_recv2 } in
    let s2 =
      init_recv2-ok z2 (s1.1) (3 ∷ g.minor ∷ behind5) g.padding g.last refl (s1.2) a.padding
        a.last in
    let z3 = record z2 { buf = advanced 1 (advanced 8 z2.buf); conn_state = init_recv3 } in
    let s3 = init_recv3-ok z3 (s2.1) (g.minor ∷ behind5) refl (s2.2) w.second w.third in
    let z4 = record z3 {
      buf = advanced 1 z3.buf;
      outbuf = w.third.after;
      peer_ver = (3, z3.peer_ver.1);
      conn_state = init_recv4;
    } in
    let s4 = init_recv4-ok z4 (s3.1) behind5 g.minor refl (s3.2) a.minor in
    let z5 = record z4 {
      buf = advanced 1 z4.buf;
      peer_ver = (3, g.minor);
      conn_state = init_recv5;
    } in
    let s5 = init_recv5-ok z5 g bs a (s4.1) refl (s4.2) w.fourth in
    record {
      after = record z5 {
        buf = advanced 32 (advanced 20 z5.buf);
        outbuf = w.fourth.after;
        out_enable = true;
        conn_state = read_frame_flags;
      };
      reply = parse_items-suc 5 z s0 (
          parse_items-suc 4 z1 (s1.0) (
            parse_items-suc 3 z2 (s2.0) (
              parse_items-suc 2 z3 (s3.0)
                (parse_items-suc 1 z4 (s4.0) (parse_items-suc 0 z5 (s5.0) refl)))));
      at = record { state = refl; inp = s5.1; size = refl; bytes = s5.2; out = w.fourth.valid };
      sent = written w;
      enabled = refl;
      version = refl;
    }
