-- ===== src/Zmtp/Greeting.antt =====
-- The handshake of zmtpproto.rs: what a connection sends, and the greetings that it accepts.
pub mod Handshake
use daqingest.Base.{
  ℕ, suc, ◌+◌, ◌/◌, ◌%◌, ◌≤◌, ◌<◌, ◌≡◌, refl, sym, ap, ◌∙◌, Bool, true, false, ◌&&◌, Option, none,
  some, List, [], ◌∷◌, ◌++◌, length, take, drop, replicate, append_assoc, append-nil, length-append,
  le→ltb_false, lt→leb_false, leb, ltb, ◌==◌, if◌then◌else◌, arith, Outcome, Act, ◌>>=◌, ◌>>◌,
  and_then, bind-ok, pure, throw, get, modify, ok,
}
use daqingest.Base.Text.{is_utf8}
use daqingest.SlideBuf
use daqingest.SlideBuf.{SlideBuf, put_slice, read_u8, read_bytes, adv}
use daqingest.SlideBuf.Invariant.{IsValid, contents}
use daqingest.SlideBuf.Read.{advanced, read_u8-front, read_bytes-front, adv-front}
use daqingest.Zmtp.{
  Error, ConnState, init_send, init_recv1, init_recv2, init_recv3, init_recv4, init_recv5,
  read_frame_flags, SocketType, ZmtpEvent, Zmtp, on_buf, on_outbuf, set_state,
}
use daqingest.Zmtp.Parse.{
  bit0, greeting, null_mechanism, ready_command, parse_init_send, parse_init_recv1,
  parse_init_recv2, parse_init_recv3, parse_init_recv4, parse_init_recv5, zero_position,
  check_mechanism, parse_state, parse_item,
}
use daqingest.Zmtp.Frames.{AtFrame, parse_item-state, on_buf-step}
use daqingest.Zmtp.Frames.Messages.{parse_items, parse_items-suc}
use daqingest.SlideBuf.Puts.{Puts, put_slice-Puts}

-- the 64 bytes of a peer
pub record Greeting : Type 0 where
  pub padding : List ℕ
  pub last : ℕ
  pub minor : ℕ
  pub mechanism : List ℕ
  pub filler : List ℕ

abbrev pub greeting_bytes : Greeting → List ℕ
greeting_bytes g = 0xff ∷ (g.padding ++ (g.last ∷ 3 ∷ g.minor ∷ (g.mechanism ++ g.filler)))

-- A greeting that is accepted.
pub record IsAccepted (g : Greeting) : Type 0 where
  pub padding : length g.padding ≡ 8
  pub last : bit0 g.last ≡ true
  pub minor : g.minor ≤ 1
  pub mechanism : length g.mechanism ≡ 20
  pub ends : zero_position g.mechanism < 20
  pub text : is_utf8 (take (zero_position g.mechanism) g.mechanism) ≡ true
  pub filler : length g.filler ≡ 32

on_outbuf-step :
    {A B : Type 0} (m : SlideBuf.Op A) (f : A → Act Zmtp Error B) {z : Zmtp} {a : A} {b : SlideBuf}
    → m z.outbuf ≡ (ok a, b)
    → (on_outbuf m >>= f) z ≡ f a (record z { outbuf = b })
unfolding on_outbuf
on_outbuf-step m f {z} {a} {b} h =
    bind-ok (on_outbuf m) f {s = z} {s' = record z { outbuf = b }} (rw h)

module _ (z : Zmtp) (v : IsValid z.buf) (bs : List ℕ) where
  pub init_send-ok :
      z.conn_state ≡ init_send
      → (g : Puts greeting z.outbuf (put_slice greeting z.outbuf))
      → parse_item z ≡ (ok none, record z { outbuf = g.after; conn_state = init_recv1 })
  unfolding parse_state parse_init_send set_state
  init_send-ok st g = parse_item-state z st ∙ on_outbuf-step (put_slice greeting) _ g.reply

  pub init_recv1-ok :
      z.conn_state ≡ init_recv1
      → contents z.buf ≡ 0xff ∷ bs
      → (parse_item z ≡ (ok none, record z { buf = advanced 1 z.buf; conn_state = init_recv2 }))
        × IsValid (advanced 1 z.buf)
        × (contents (advanced 1 z.buf) ≡ bs)
  unfolding parse_state parse_init_recv1 set_state
  init_recv1-ok st e =
      let r = read_u8-front v 0xff bs e in
      (parse_item-state z st ∙ on_buf-step read_u8 _ (r.0), r.1, r.2)

  pub init_recv2-ok :
      (padding : List ℕ) (last : ℕ)
      → z.conn_state ≡ init_recv2
      → contents z.buf ≡ padding ++ (last ∷ bs)
      → length padding ≡ 8
      → bit0 last ≡ true
      → let b = advanced 1 (advanced 8 z.buf) in
        (parse_item z ≡ (ok none, record z { buf = b; conn_state = init_recv3 }))
        × IsValid b
        × (contents b ≡ bs)
  unfolding parse_state parse_init_recv2 set_state
  init_recv2-ok padding last st e eight odd =
      let a = adv-front v padding (last ∷ bs) e in
      let a8 : (adv 8 z.buf ≡ (ok tt, advanced 8 z.buf))
          × IsValid (advanced 8 z.buf)
          × (contents (advanced 8 z.buf) ≡ last ∷ bs) =
        rw eight at a in
      let r = read_u8-front (a8.1) last bs (a8.2) in
      (
        parse_item-state z st ∙ on_buf-step (adv 8) _ (a8.0) ∙ on_buf-step read_u8 _ (r.0) ∙ rw odd,
        r.1,
        r.2,
      )

  pub init_recv3-ok :
      z.conn_state ≡ init_recv3
      → contents z.buf ≡ 3 ∷ bs
      → (g : Puts null_mechanism z.outbuf (put_slice null_mechanism z.outbuf))
      → (h : Puts (replicate 48 0) g.after (put_slice (replicate 48 0) g.after))
      → (parse_item z ≡ (
        ok none,
        record z {
          buf = advanced 1 z.buf;
          outbuf = h.after;
          peer_ver = (3, z.peer_ver.1);
          conn_state = init_recv4;
        },
      ))
        × IsValid (advanced 1 z.buf)
        × (contents (advanced 1 z.buf) ≡ bs)
  unfolding parse_state parse_init_recv3 set_state
  init_recv3-ok st e g h =
      let r = read_u8-front v 3 bs e in
      (
        parse_item-state z st
            ∙ on_buf-step read_u8 _ (r.0)
            ∙ on_outbuf-step (put_slice null_mechanism) _ g.reply
            ∙ on_outbuf-step (put_slice (replicate 48 0)) _ h.reply,
        r.1,
        r.2,
      )

  pub init_recv4-ok :
      (minor : ℕ)
      → z.conn_state ≡ init_recv4
      → contents z.buf ≡ minor ∷ bs
      → minor ≤ 1
      → (parse_item z ≡ (
        ok none,
        record z {
          buf = advanced 1 z.buf;
          peer_ver = (z.peer_ver.0, minor);
          conn_state = init_recv5;
        },
      ))
        × IsValid (advanced 1 z.buf)
        × (contents (advanced 1 z.buf) ≡ bs)
  unfolding parse_state parse_init_recv4 set_state
  init_recv4-ok minor st e low =
      let r = read_u8-front v minor bs e in
      (parse_item-state z st ∙ on_buf-step read_u8 _ (r.0) ∙ rw (le→ltb_false _ _ low), r.1, r.2)

check_mechanism-ok :
    {z : Zmtp} (g : Greeting) → IsAccepted g → check_mechanism g.mechanism z ≡ (ok tt, z)
unfolding check_mechanism
check_mechanism-ok g a = rw (
  lt→leb_false (length g.mechanism) (zero_position g.mechanism)
      (omega (arith, a.ends, a.mechanism)),
  a.text,
)

pub init_recv5-ok :
    (z : Zmtp) (g : Greeting) (bs : List ℕ)
    → IsAccepted g
    → IsValid z.buf
    → z.conn_state ≡ init_recv5
    → contents z.buf ≡ g.mechanism ++ (g.filler ++ bs)
    → (h : Puts
        (ready_command z.socket_type)
        z.outbuf
        (put_slice (ready_command z.socket_type) z.outbuf))
    → let b = advanced 32 (advanced 20 z.buf) in
      (parse_item z ≡ (
        ok none,
        record z { buf = b; outbuf = h.after; out_enable = true; conn_state = read_frame_flags },
      ))
      × IsValid b
      × (contents b ≡ bs)
unfolding parse_state parse_init_recv5
init_recv5-ok z g bs a v st e h =
    let r = rw a.mechanism at (read_bytes-front v g.mechanism (g.filler ++ bs) e) in
    let d = rw a.filler at (adv-front (r.1) g.filler bs (r.2)) in
    (
      parse_item-state z st
          ∙ on_buf-step (read_bytes 20) _ (r.0)
          ∙ bind-ok (check_mechanism g.mechanism) _ (check_mechanism-ok g a)
          ∙ on_buf-step (adv 32) _ (d.0)
          ∙ on_outbuf-step (put_slice (ready_command z.socket_type)) _ h.reply,
      d.1,
      d.2,
    )
