-- ===== src/Zmtp/Eof.antt =====
-- `Zmtp::poll_next` of zmtpproto.rs behind the end of the input.
use daqingest.Base.{
  ◌<◌, ◌≡◌, ◌≢◌, refl, Bool, true, false, ◌&&◌, some, List, ◌∷◌, leb, lt→ltb, ◌/◌, if◌then◌else◌,
  ok,
}
use daqingest.Socket.{pending, WriteResult, ReadResult}
use daqingest.SlideBuf.{cap, len, wcap}
use daqingest.Zmtp.{Zmtp, need_min}
use daqingest.Zmtp.Round.{
  no_work, pend, empty, finished, item_count, DataPoll, data_item, data_closed, data_pending,
  Answers, serialize, write_output, read_input, parse_round, is_idle, is_empty, error_or, settle,
  combine, conclude, loop_body, not_ready, answer, rounds, poll_next,
}

-- A stream at the end of its input, with nothing to send and too few bytes for what it waits for.
pub record IsStuck (z : Zmtp) : Type 0 where
  pub going : (z.done ≡ false) × (z.complete ≡ false)
  pub eof : z.inp_eof ≡ true
  pub sent : len z.outbuf ≡ 0
  pub short : len z.buf < need_min z.conn_state

module _ {z : Zmtp} (h : IsStuck z) where
  write_output-stuck : (w : WriteResult) → write_output 0 w z ≡ (ok no_work, z)
  unfolding write_output
  write_output-stuck w = simp h.sent refl

  read_input-stuck : (rd : ReadResult) → read_input 0 rd z ≡ (ok no_work, z)
  unfolding read_input
  read_input-stuck rd = simp h.eof refl

  parse_round-stuck : parse_round 0 z ≡ (ok no_work, z)
  unfolding parse_round
  parse_round-stuck = simp (lt→ltb _ _ h.short) refl

  -- What a channel without an item makes of a round.
  conclude-stuck :
      (rx : DataPoll) (enabled : Bool)
      → rx ≢ data_item
      → let s =
          if enabled
          then (elim rx [ data_item ↦ empty | data_closed ↦ finished | data_pending ↦ pend ])
          else no_work in
        (item_count s ≡ 0) × (conclude s no_work no_work no_work z ≡ (ok (some pending), z))
  unfolding conclude settle is_idle error_or combine item_count is_empty
  conclude-stuck data_item true n = absurd (n refl)
  conclude-stuck data_closed true n = (refl, refl)
  conclude-stuck data_pending true n = (refl, refl)
  conclude-stuck rx false n = (refl, refl)

  loop_body-stuck : (a : Answers) → a.data_rx ≢ data_item → loop_body a z ≡ (ok (some pending), z)
  unfolding loop_body serialize item_count
  loop_body-stuck a n =
      let s = serialize a.data_rx z in
      let c = conclude-stuck a.data_rx (z.out_enable && leb (cap z.outbuf / 2) (wcap z.outbuf)) n in
      simp (c.0, write_output-stuck a.write, read_input-stuck a.read, parse_round-stuck, c.1) refl

  -- At the end of the input, with nothing to send and fewer bytes than the state waits for, a
  -- poll gives that the stream is not ready and changes nothing, whatever the socket answers,
  -- unless the channel has an item to send: the stream never ends.
  pub poll_next-stuck :
      (a : Answers) (later : List Answers)
      → a.data_rx ≢ data_item
      → poll_next (a ∷ later) z ≡ some (ok not_ready, z)
  unfolding poll_next rounds answer
  poll_next-stuck a later n = simp (h.going.0, h.going.1, loop_body-stuck a n) refl
