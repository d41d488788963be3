-- ===== src/CaProto/Poll/Eof.antt =====
-- The end of the input in the middle of a message, in `CaProto::loop_body` of proto.rs.
use daqingest.Base.{
  ℕ, ◌+◌, ◌≤◌, ◌<◌, ◌≡◌, ap, ◌∙◌, [], length, take, length-append, length-take, arith, err, ◌>>◌,
  bind-ok,
}
use daqingest.SlideBuf.Invariant.{IsValid, contents}
use daqingest.SlideBuf.Room.{area_size}
use daqingest.CaProto.Error.{Externals, parse_attempt_in_done_state}
use daqingest.CaProto.Parser.{CaProto, need_min, parse_item, parse_state}
use daqingest.CaProto.Parser.Steps.{parse_item-enough}
use daqingest.CaProto.Poll.{received, read_input}
use daqingest.CaProto.Poll.Input.{TakesIn, read_input-TakesIn}

module _ (ext : Externals) (s : CaProto) (v : IsValid s.buf)
    (waits : length (contents s.buf) < need_min s.state)
    (fits : need_min s.state + need_min s.state ≤ length s.buf.buf + 1) where
  read : TakesIn s (received []) (read_input (received []) s)
  read = read_input-TakesIn s v waits fits (received [])

  abbrev closed : CaProto
  closed = (read_input (received []) s).1

  -- When the input ends while the parser waits for more bytes than a valid buffer holds, of
  -- which twice as many fit it, save one, and at least 123 bytes are held, the parser of the
  -- same round fails with ParseAttemptInDoneState.
  pub eof-fails :
      123 ≤ length (contents s.buf)
      → ((read_input (received []) >> parse_item ext) s).0 ≡ err parse_attempt_in_done_state
  unfolding parse_state need_min
  eof-fails many =
      let held : length (contents closed.buf) ≡ length (contents s.buf) = omega (
        arith,
        ap length read.bytes,
        length-append (contents s.buf) (take {A = ℕ} (area_size (need_min s.state) s.buf) []),
        length-take {A = ℕ} (area_size (need_min s.state) s.buf) [],
      ) in
      let step =
        parse_item-enough ext closed read.valid
          (omega (arith, held, ap need_min read.state, many)) in
      ap (λ r. r.0)
        (bind-ok (read_input (received [])) (λ _. parse_item ext) {s' = closed}
          (ap (λ r. (r, closed)) read.reply))
      ∙ ap (λ r. r.0) (step ∙ ap (λ st. parse_state ext st closed) read.state)
