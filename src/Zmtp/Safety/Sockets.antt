-- ===== src/Zmtp/Safety/Sockets.antt =====
-- The reads and writes of `Zmtp::loop_body` of zmtpproto.rs keep a stream sound.
use daqingest.Base.{
  ℕ, ◌-◌, ◌≤◌, ◌<◌, ◌≡◌, ◌∙◌, true, false, ◌||◌, Bool-cases, inl, inr, List, length, length-take,
  slice-eq_some, ltb, ltb→lt, le→ltb_false, ◌==◌, arith, Outcome, Act, ok, Runs, returns, fails,
  Runs-and_then, Runs-if,
}
use daqingest.Socket.{
  WriteResult, takes, write_error, write_pending, ReadResult, received, read_error, read_pending,
}
use daqingest.SlideBuf
use daqingest.SlideBuf.{
  SlideBuf, cap, len, adv, wadv, make_room, available_writable_area, data_slice,
}
use daqingest.SlideBuf.Invariant.{len-eq, length-contents}
use daqingest.SlideBuf.Write.{available_writable_area-eq, wadv-fill_area}
use daqingest.Zmtp.{Error, Zmtp, need_min, wrap, on_buf, on_outbuf}
use daqingest.Zmtp.Round.{
  attempt, as_result, take_write, take_read, poll_write, write_output, take_input, poll_read,
  read_input,
}
use daqingest.Zmtp.Safety.{IsSized, KeepsBuf, adv-KeepsBuf}
use daqingest.Zmtp.Safety.States.{IsSound}

-- the state behind an error
pub record IsStopped (n k : ℕ) (z : Zmtp) : Type 0 where
  pub inp : IsSized n z.buf
  pub out : IsSized k z.outbuf
  pub done : z.done ≡ true
  pub complete : z.complete ≡ false

-- A run that returns in a sound state; it may only fail behind the end.
abbrev pub Sound : {A : Type 0} → ℕ → ℕ → Outcome Error A × Zmtp → Type 0
Sound n k r = Runs (IsStopped n k) (λ _ z. IsSound n k z) r

with_buf :
    {n k : ℕ} {z : Zmtp} {b : SlideBuf}
    → IsSound n k z
    → IsSized n b
    → IsSound n k (record z { buf = b })
with_buf s h = record {
  buffers = record { inp = h; out = s.buffers.out; going = s.buffers.going };
  roomy = s.roomy;
  need = s.need;
  locked = s.locked;
}

with_outbuf :
    {n k : ℕ} {z : Zmtp} {b : SlideBuf}
    → IsSound n k z
    → IsSized k b
    → IsSound n k (record z { outbuf = b })
with_outbuf s h = record {
  buffers = record { inp = s.buffers.inp; out = h; going = s.buffers.going };
  roomy = s.roomy;
  need = s.need;
  locked = s.locked;
}

at_eof : {n k : ℕ} {z : Zmtp} → IsSound n k z → IsSound n k (record z { inp_eof = true })
at_eof s = record {
  buffers = record { inp = s.buffers.inp; out = s.buffers.out; going = s.buffers.going };
  roomy = s.roomy;
  need = s.need;
  locked = s.locked;
}

module _ {n k : ℕ} {z : Zmtp} (s : IsSound n k z) where
  on_outbuf-Runs :
      {A : Type 0} (m : SlideBuf.Op A)
      → KeepsBuf m
      → Runs (λ z'. IsSound n k z') (λ _ z'. IsSound n k z') (on_outbuf m z)
  unfolding on_outbuf
  on_outbuf-Runs m keeps = lift (m z.outbuf) (keeps k z.outbuf s.buffers.out)
    where
      lift :
          {A : Type 0} (r : Outcome SlideBuf.Error A × SlideBuf)
          → Runs (IsSized k) (λ _ b'. IsSized k b') r
          → Runs
              (λ z'. IsSound n k z')
              (λ _ z'. IsSound n k z')
              (wrap r.0, record z { outbuf = r.1 })
      lift _ (returns h) = returns (with_outbuf s h)
      lift _ (fails h) = fails (with_outbuf s h)

  data_slice-Sound : Sound n k (on_outbuf data_slice z)
  unfolding on_outbuf data_slice
  data_slice-Sound =
      let b = z.outbuf in
      let v = s.buffers.out.0 in
      rw (slice-eq_some b.rp b.wp b.buf v.rp_le_wp v.wp_le_cap)
        (returns (with_outbuf s s.buffers.out))

module _ {n k : ℕ} where
  as_result-Sound :
      {A : Type 0} (r : Outcome Error A × Zmtp)
      → Runs (λ z. IsSound n k z) (λ _ z. IsSound n k z) r
      → Sound n k (as_result r.0, r.1)
  as_result-Sound _ (returns s) = returns s
  as_result-Sound _ (fails s) = returns s

  attempt-Sound :
      {A : Type 0} (m : Act Zmtp Error A) {z : Zmtp}
      → Runs (λ z'. IsSound n k z') (λ _ z'. IsSound n k z') (m z)
      → Sound n k (attempt m z)
  unfolding attempt
  attempt-Sound m {z} h = as_result-Sound (m z) h

  take_write-Sound : (w : WriteResult) {z : Zmtp} → IsSound n k z → Sound n k (take_write w z)
  unfolding take_write
  take_write-Sound (takes x) s =
      Runs-and_then _
        (attempt-Sound (on_outbuf (adv x)) (on_outbuf-Runs s (adv x) (adv-KeepsBuf x)))
        (λ _ z t. returns t)
  take_write-Sound write_error s = returns s
  take_write-Sound write_pending s = returns s

  poll_write-Sound : (w : WriteResult) {z : Zmtp} → IsSound n k z → Sound n k (poll_write w z)
  unfolding poll_write
  poll_write-Sound w s = Runs-and_then _ (data_slice-Sound s) (λ _ z t. take_write-Sound w t)

  pub write_output-Sound :
      (count : ℕ) (w : WriteResult) {z : Zmtp} → IsSound n k z → Sound n k (write_output count w z)
  unfolding write_output
  write_output-Sound count w {z} s =
      Runs-if (ltb 0 count) _ _ (returns s)
        (Runs-if (ltb 0 (len z.outbuf)) _ _ (poll_write-Sound w s) (returns s))

  -- Twice what is waited for fits, so there is room for the rest of it.
  area-eq :
      {z : Zmtp}
      → IsSound n k z
      → len z.buf < need_min z.conn_state
      → let t = (make_room (need_min z.conn_state) z.buf).1 in
        (on_buf (available_writable_area (need_min z.conn_state)) z
          ≡ (ok (t.wp, length t.buf - t.wp), record z { buf = t }))
        × IsSized n t
  unfolding on_buf
  area-eq {z} s short =
      let v = s.buffers.inp.0 in
      let a =
        available_writable_area-eq (need_min z.conn_state) v
          (omega (arith, s.need, s.buffers.inp.1, len-eq v, length-contents v, short)) in
      (rw (a.0), (a.2.valid, a.2.size ∙ s.buffers.inp.1))

  take_input-Sound :
      (xs : List ℕ) {z : Zmtp}
      → IsSound n k z
      → length xs ≤ length z.buf.buf - z.buf.wp
      → Sound n k (take_input xs z)
  unfolding take_input on_buf attempt
  take_input-Sound xs {z} s fits =
      let f = wadv-fill_area xs s.buffers.inp.0 fits in
      Runs-if (length xs == 0) _ _ (returns (at_eof s))
        (rw (f.0) (returns (with_buf s (f.1, f.3 ∙ s.buffers.inp.1))))

  take_read-Sound :
      (rd : ReadResult) {z : Zmtp}
      → IsSound n k z
      → Sound n k (take_read (length z.buf.buf - z.buf.wp) rd z)
  unfolding take_read
  take_read-Sound (received xs) {z} s =
      take_input-Sound _ s (omega (arith, length-take (length z.buf.buf - z.buf.wp) xs))
  take_read-Sound read_error s = returns s
  take_read-Sound read_pending s = returns s

  poll_read-Sound :
      (rd : ReadResult) {z : Zmtp}
      → IsSound n k z
      → len z.buf < need_min z.conn_state
      → Sound n k (poll_read rd z)
  unfolding poll_read
  poll_read-Sound rd s short =
      let a = area-eq s short in rw (a.0) (take_read-Sound rd (with_buf s a.1))

  pub read_input-Sound :
      (count : ℕ) (rd : ReadResult) {z : Zmtp} → IsSound n k z → Sound n k (read_input count rd z)
  unfolding read_input cap
  read_input-Sound count rd {z} s =
      let fits : ltb (length z.buf.buf) (need_min z.conn_state) ≡ false =
        le→ltb_false _ _ (omega (arith, s.need, s.buffers.inp.1)) in
      Runs-if (ltb 0 count || z.inp_eof) _ _ (returns s) (
        rw fits (elim (Bool-cases (ltb (len z.buf) (need_min z.conn_state))) [
          | inl c ↦ rw c (poll_read-Sound rd s (ltb→lt _ _ c))
          | inr c ↦ rw c (returns s)
        ]))
