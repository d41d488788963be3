-- ===== src/Zmtp/Safety/States.antt =====
-- What the states of `Zmtp::parse_item` of zmtpproto.rs leave behind.
use daqingest.Base.{
  ℕ, ◌*◌, ◌/◌, ◌≤◌, ◌≡◌, refl, ◌∙◌, Bool, true, false, Bool-cases, inl, inr, Option, none, List,
  length, leb, ltb, ltb_false→le, take, replicate, ◌==◌, if◌then◌else◌, arith, Outcome, ◌>>◌, pure,
  ok, Runs, returns, fails, Runs-and_then, Runs-if,
}
use daqingest.Base.Text.{is_utf8}
use daqingest.SlideBuf.{cap, read_u8, read_u64_be, read_bytes, adv, put_slice}
use daqingest.Zmtp.{
  Error, ConnState, init_send, init_recv1, init_recv2, init_recv3, init_recv4, init_recv5,
  read_frame_flags, read_frame_short, read_frame_long, read_frame_body, lock_scan, ZmtpEvent, Zmtp,
  need_min, set_state,
}
use daqingest.Zmtp.Parse.{
  parse_init_send, parse_init_recv1, parse_init_recv2, parse_init_recv3, parse_init_recv4,
  parse_init_recv5, check_mechanism, zero_position, parse_flags, take_size, is_ping, take_command,
  take_frame, parse_body, parse_state, parse_item, greeting, null_mechanism, ready_command, bit0,
  bit1, bit2,
}
use daqingest.Zmtp.Commands.{answer_ping-AnySent, is_ping-size}
use daqingest.Zmtp.Safety.{
  Buffers, on_buf-Runs, on_outbuf-Runs, read_u8-KeepsBuf, read_u64_be-KeepsBuf, read_bytes-KeepsBuf,
  adv-KeepsBuf, put_slice-KeepsBuf,
}

unfoldable pub is_scanning : ConnState → Bool
is_scanning (lock_scan _) = true
is_scanning _ = false

-- A state from which the protocol goes on: twice what it waits for fits the buffer.
pub record IsSound (n k : ℕ) (z : Zmtp) : Type 0 where
  pub buffers : Buffers n k z
  pub roomy : 104 ≤ n
  pub need : 2 * need_min z.conn_state ≤ n
  pub locked : is_scanning z.conn_state ≡ false

abbrev pub Step : ℕ → ℕ → Outcome Error (Option ZmtpEvent) × Zmtp → Type 0
Step n k r = Runs (Buffers n k) (λ _ z. IsSound n k z) r

module _ {n k : ℕ} (big : 104 ≤ n) where
  -- a state that waits for at most 52 bytes
  enter :
      {z : Zmtp} {x : Option ZmtpEvent}
      → Buffers n k z
      → need_min z.conn_state ≤ 52
      → is_scanning z.conn_state ≡ false
      → Step n k (ok x, z)
  enter b h l =
      returns (record { buffers = b; roomy = big; need = omega (arith, h, big); locked = l })

  to_state :
      {z : Zmtp} (st : ConnState)
      → Buffers n k z
      → need_min st ≤ 52
      → is_scanning st ≡ false
      → Step n k ((set_state st >> pure none) z)
  unfolding set_state
  to_state st b h l = enter (record { inp = b.inp; out = b.out; going = b.going }) h l

  parse_init_send-Step : {z : Zmtp} → Buffers n k z → Step n k (parse_init_send z)
  unfolding parse_init_send need_min is_scanning
  parse_init_send-Step b =
      Runs-and_then _ (on_outbuf-Runs b (put_slice greeting) (put_slice-KeepsBuf greeting))
        (λ _ z c. to_state init_recv1 c (omega arith) refl)

  parse_init_recv1-Step : {z : Zmtp} → Buffers n k z → Step n k (parse_init_recv1 z)
  unfolding parse_init_recv1 need_min is_scanning
  parse_init_recv1-Step b =
      Runs-and_then _ (on_buf-Runs b read_u8 read_u8-KeepsBuf)
        (λ x z c. Runs-if (x == 0xff) _ _ (to_state init_recv2 c (omega arith) refl) (fails c))

  parse_init_recv2-Step : {z : Zmtp} → Buffers n k z → Step n k (parse_init_recv2 z)
  unfolding parse_init_recv2 need_min is_scanning
  parse_init_recv2-Step b = Runs-and_then _ (on_buf-Runs b (adv 8) (adv-KeepsBuf 8)) (λ _ z c.
      Runs-and_then _ (on_buf-Runs c read_u8 read_u8-KeepsBuf)
        (λ x z d. Runs-if (bit0 x) _ _ (to_state init_recv3 d (omega arith) refl) (fails d)))

  parse_init_recv3-Step : {z : Zmtp} → Buffers n k z → Step n k (parse_init_recv3 z)
  unfolding parse_init_recv3 need_min is_scanning
  parse_init_recv3-Step b = Runs-and_then _ (on_buf-Runs b read_u8 read_u8-KeepsBuf) (λ maj z c.
      Runs-if (maj == 3) _ _
        (Runs-and_then _
          (on_outbuf-Runs {z = record z { peer_ver = (maj, z.peer_ver.1) }}
            (record { inp = c.inp; out = c.out; going = c.going }) (put_slice null_mechanism)
            (put_slice-KeepsBuf null_mechanism))
          (λ _ z d.
            Runs-and_then _
              (on_outbuf-Runs d (put_slice (replicate 48 0)) (put_slice-KeepsBuf (replicate 48 0)))
              (λ _ z e. to_state init_recv4 e (omega arith) refl)))
        (fails c))

  parse_init_recv4-Step : {z : Zmtp} → Buffers n k z → Step n k (parse_init_recv4 z)
  unfolding parse_init_recv4 need_min is_scanning
  parse_init_recv4-Step b = Runs-and_then _ (on_buf-Runs b read_u8 read_u8-KeepsBuf) (λ minver z c.
      Runs-if (ltb 1 minver) _ _ (fails c) (
        to_state {z = record z { peer_ver = (z.peer_ver.0, minver) }} init_recv5
          (record { inp = c.inp; out = c.out; going = c.going }) (omega arith) refl))

  check_mechanism-Runs :
      {z : Zmtp} (bytes : List ℕ)
      → Buffers n k z
      → Runs (Buffers n k) (λ _ z'. Buffers n k z') (check_mechanism bytes z)
  unfolding check_mechanism
  check_mechanism-Runs bytes b =
      let i = zero_position bytes in
      Runs-if (leb (length bytes) i) _ _ (fails b)
        (Runs-if (is_utf8 (take i bytes)) _ _ (returns b) (fails b))

  parse_init_recv5-Step : {z : Zmtp} → Buffers n k z → Step n k (parse_init_recv5 z)
  unfolding parse_init_recv5 need_min is_scanning
  parse_init_recv5-Step b =
      Runs-and_then _ (on_buf-Runs b (read_bytes 20) (read_bytes-KeepsBuf 20)) (λ bytes z c.
        Runs-and_then _ (check_mechanism-Runs bytes c) (λ _ z d.
          Runs-and_then _ (on_buf-Runs d (adv 32) (adv-KeepsBuf 32)) (λ _ z e.
            let ready = ready_command z.socket_type in
            Runs-and_then _ (on_outbuf-Runs e (put_slice ready) (put_slice-KeepsBuf ready))
              (λ _ z f.
                enter (record { inp = f.inp; out = f.out; going = f.going }) (omega arith) refl))))

  parse_flags-Step : {z : Zmtp} → Buffers n k z → Step n k (parse_flags z)
  unfolding parse_flags need_min is_scanning
  parse_flags-Step b = Runs-and_then _ (on_buf-Runs b read_u8 read_u8-KeepsBuf) (λ flags z c.
      by_size (bit1 flags)
        {z = record z {
          has_more = if bit2 flags then z.has_more else bit0 flags;
          is_command = bit2 flags;
        }}
        (record { inp = c.inp; out = c.out; going = c.going }))
    where
      by_size :
          (long : Bool) {z : Zmtp}
          → Buffers n k z
          → Step n k (
            ok none,
            record z { conn_state = if long then read_frame_long else read_frame_short },
          )
      by_size true b =
          enter (record { inp = b.inp; out = b.out; going = b.going }) (omega arith) refl
      by_size false b =
          enter (record { inp = b.inp; out = b.out; going = b.going }) (omega arith) refl

  take_size-Step : {z : Zmtp} (msglen : ℕ) → Buffers n k z → Step n k (take_size msglen z)
  unfolding take_size need_min is_scanning cap
  take_size-Step {z} msglen b =
      let c : Buffers n k (record z { msglen = msglen; conn_state = read_frame_body msglen }) =
        record { inp = b.inp; out = b.out; going = b.going } in
      elim (Bool-cases (ltb (length z.buf.buf / 2) msglen)) [
        | inl large ↦ rw large (fails c)
        | inr small ↦
            let h = ltb_false→le _ _ small in
            rw small (
              returns (record {
                buffers = c;
                roomy = big;
                need = omega (arith, h, b.inp.1);
                locked = refl;
              }))
      ]

  take_command-Step :
      {z : Zmtp} (msglen : ℕ) (bytes : List ℕ)
      → z.conn_state ≡ read_frame_flags
      → Buffers n k z
      → Step n k (take_command msglen bytes z)
  unfolding take_command need_min is_scanning
  take_command-Step {z} msglen bytes e b = elim (Bool-cases (is_ping bytes)) [
    | inl c ↦
        let size = is_ping-size bytes c in
        let s = answer_ping-AnySent {z = z} bytes b.out.0 size.0 size.1 in
        let g = s.sent.grown in
        rw (c, s.sent.reply)
          (enter {z = record z { outbuf = s.sent.after }}
            (record { inp = b.inp; out = (g.valid, g.size ∙ b.out.1); going = b.going })
            (rw e (omega arith)) (rw e))
    | inr c ↦ rw c (enter b (rw e (omega arith)) (rw e))
  ]

  take_frame-Step :
      {z : Zmtp} (msglen : ℕ) (bytes : List ℕ)
      → z.conn_state ≡ read_frame_flags
      → Buffers n k z
      → Step n k (take_frame msglen bytes z)
  unfolding take_frame need_min is_scanning
  take_frame-Step {z} msglen bytes e b =
      Runs-if z.has_more _ _
        (enter (record { inp = b.inp; out = b.out; going = b.going }) (rw e (omega arith)) (rw e))
        (enter (record { inp = b.inp; out = b.out; going = b.going }) (rw e (omega arith)) (rw e))

  parse_body-Step : {z : Zmtp} (msglen : ℕ) → Buffers n k z → Step n k (parse_body msglen z)
  unfolding parse_body
  parse_body-Step msglen b =
      Runs-and_then _ (on_buf-Runs b (read_bytes msglen) (read_bytes-KeepsBuf msglen)) (λ bytes z c.
        Runs-if z.is_command _ _
          (take_command-Step msglen bytes refl
            (record { inp = c.inp; out = c.out; going = c.going }))
          (take_frame-Step msglen bytes refl
            (record { inp = c.inp; out = c.out; going = c.going })))

  parse_state-Step :
      {z : Zmtp} (st : ConnState)
      → is_scanning st ≡ false
      → Buffers n k z
      → Step n k (parse_state st z)
  unfolding parse_state is_scanning
  parse_state-Step init_send h b = parse_init_send-Step b
  parse_state-Step init_recv1 h b = parse_init_recv1-Step b
  parse_state-Step init_recv2 h b = parse_init_recv2-Step b
  parse_state-Step init_recv3 h b = parse_init_recv3-Step b
  parse_state-Step init_recv4 h b = parse_init_recv4-Step b
  parse_state-Step init_recv5 h b = parse_init_recv5-Step b
  parse_state-Step read_frame_flags h b = parse_flags-Step b
  parse_state-Step read_frame_short h b =
      Runs-and_then _ (on_buf-Runs b read_u8 read_u8-KeepsBuf)
        (λ msglen z c. take_size-Step msglen c)
  parse_state-Step read_frame_long h b =
      Runs-and_then _ (on_buf-Runs b read_u64_be read_u64_be-KeepsBuf)
        (λ msglen z c. take_size-Step msglen c)
  parse_state-Step (read_frame_body msglen) h b = parse_body-Step msglen b
  parse_state-Step (lock_scan m) h b = cc

-- From a sound state the parser does not panic, and it either returns with a sound state or fails
-- with buffers that are valid.
pub parse_item-Step : {n k : ℕ} {z : Zmtp} → IsSound n k z → Step n k (parse_item z)
unfolding parse_item
parse_item-Step {z} s = parse_state-Step s.roomy z.conn_state s.locked s.buffers
