-- ===== src/CaProto/Parser/Steps.antt =====
-- One round of `parse_item` of proto.rs, at a header and at a payload.
use daqingest.Base.{
  ℕ, ◌≤◌, ◌≡◌, ◌≢◌, sym, ap, ◌∙◌, true, false, ◌&&◌, none, some, List, [], ◌++◌, length, drop, ◌==◌,
  arith, length-append, take-append_left, drop-append_left, le→leb, le→ltb_false, ne→==_false,
  eq→==_true, ok,
}
use daqingest.SlideBuf
use daqingest.SlideBuf.{SlideBuf, len, read_bytes}
use daqingest.SlideBuf.Invariant.{IsValid, contents, len-eq, length-contents}
use daqingest.SlideBuf.Read.{advanced, advanced-IsValid, read_bytes-eq}
use daqingest.CaProto.Message.{CaMsg}
use daqingest.CaProto.Error.{Externals}
use daqingest.CaProto.Header.{HeadInfo, from_netbuf}
use daqingest.CaProto.Decode.{from_proto_infos}
use daqingest.CaProto.Parser.{
  CaProto, std_head, ext_head, payload, msg, need_min, on_buf, set_state, note_oversize,
  contains_key, decode, parse_std_head, parse_payload, parse_item, parse_state,
}
use daqingest.CaProto.Parser.Head.{InRange, head_and, length-head_and, from_netbuf-front}

-- Between two messages: the parser waits for a header, and no error was noted.
pub record IsReady (s : CaProto) : Type 0 where
  pub at_head : s.state ≡ std_head
  pub quiet : s.logged_proto_error_for_cid ≡ []
  pub valid : IsValid s.buf

pub on_buf-ok :
    {A : Type 0} (m : SlideBuf.Op A) (s : CaProto) {a : A} {b : SlideBuf}
    → m s.buf ≡ (ok a, b)
    → on_buf m s ≡ (ok a, record s { buf = b })
unfolding on_buf
on_buf-ok m s e = rw e

pub note_oversize-quiet :
    (hi : HeadInfo) (s : CaProto)
    → s.logged_proto_error_for_cid ≡ []
    → note_oversize hi s ≡ (ok tt, s)
unfolding note_oversize contains_key
note_oversize-quiet hi s e = ground (arith, e)

module _ (ext : Externals) where
  -- Enough bytes: the round goes on by the state.
  pub parse_item-enough :
      (s : CaProto)
      → IsValid s.buf
      → need_min s.state ≤ length (contents s.buf)
      → parse_item ext s ≡ parse_state ext s.state s
  unfolding parse_item
  parse_item-enough s v h =
      rw (le→ltb_false (len s.buf) (need_min s.state) (omega (arith, len-eq v, length-contents v)))

  -- At a header: the round parses it, and the header is read.
  module _ (s : CaProto) (hi : HeadInfo) (rest : List ℕ) (r : IsReady s) (range : InRange hi)
      (e : contents s.buf ≡ head_and hi rest) where
    abbrev pub taken : CaProto
    taken = record s { buf = advanced 16 s.buf }

    pub taken-IsValid : IsValid taken.buf × (contents taken.buf ≡ rest)
    taken-IsValid = let f = from_netbuf-front hi rest r.valid range e in (f.1, f.2)

    parse_head-eq : parse_item ext s ≡ parse_std_head ext s
    unfolding parse_state need_min
    parse_head-eq =
        parse_item-enough s r.valid
          (omega (arith, ap need_min r.at_head, ap length e, length-head_and hi rest))
        ∙ ap (λ st. parse_state ext st s) r.at_head

    read_head : on_buf from_netbuf s ≡ (ok hi, taken)
    read_head = on_buf-ok from_netbuf s (from_netbuf-front hi rest r.valid range e).0

    note_head : note_oversize hi taken ≡ (ok tt, taken)
    note_head = note_oversize-quiet hi taken r.quiet

    -- A header that announces a payload is taken, and the payload is waited for.
    pub parse_head-payload :
        (hi.payload_size == 0xffff && hi.data_count == 0) ≡ false
        → hi.payload_size ≢ 0
        → parse_item ext s ≡ (ok none, record taken { state = payload hi })
    unfolding parse_std_head set_state
    parse_head-payload std more =
        parse_head-eq ∙ rw (read_head, note_head, std, ne→==_false hi.payload_size 0 more)

    -- A header with the marks of an extended one is taken, and its second half is waited for.
    pub parse_head-extended :
        (hi.payload_size == 0xffff && hi.data_count == 0) ≡ true
        → parse_item ext s ≡ (ok none, record taken { state = ext_head hi })
    unfolding parse_std_head set_state
    parse_head-extended marks = parse_head-eq ∙ rw (read_head, note_head, marks)

    -- A header without payload is a whole message.
    pub parse_head-empty :
        (hi.payload_size == 0xffff && hi.data_count == 0) ≡ false
        → hi.payload_size ≡ 0
        → {m : CaMsg} → from_proto_infos ext hi [] s.array_truncate ≡ ok m
        → parse_item ext s ≡ (ok (some (msg m)), record taken { state = std_head })
    unfolding parse_std_head set_state decode
    parse_head-empty std zero_size d =
        parse_head-eq ∙ rw (read_head, note_head, std, eq→==_true hi.payload_size 0 zero_size, d)

  -- At a payload whose bytes have come: the round yields its message.
  module _ (s : CaProto) (hi : HeadInfo) (body rest : List ℕ) (waits : s.state ≡ payload hi)
      (v : IsValid s.buf) (size : length body ≡ hi.payload_size)
      (e : contents s.buf ≡ body ++ rest) where
    abbrev pub consumed : CaProto
    consumed = record s { buf = advanced hi.payload_size s.buf; state = std_head }

    fits : hi.payload_size ≤ length (contents s.buf)
    fits = omega (arith, ap length e, length-append body rest)

    pub consumed-IsValid : IsValid consumed.buf × (contents consumed.buf ≡ rest)
    consumed-IsValid =
        let a = advanced-IsValid v hi.payload_size fits in
        (
          a.0,
          a.1
              ∙ ap (λ xs. drop hi.payload_size xs) e
              ∙ ap (λ n. drop n (body ++ rest)) (sym size)
              ∙ drop-append_left body rest,
        )

    read_body :
        on_buf (read_bytes hi.payload_size) s
        ≡ (ok body, record s { buf = advanced hi.payload_size s.buf })
    read_body = on_buf-ok (read_bytes hi.payload_size) s (
        read_bytes-eq v hi.payload_size
        ∙ rw (le→leb _ _ fits, e, ← size)
            (ap (λ xs. (ok xs, advanced (length body) s.buf)) (take-append_left body rest)))

    pub parse_payload-msg :
        {m : CaMsg}
        → from_proto_infos ext hi body s.array_truncate ≡ ok m
        → parse_item ext s ≡ (ok (some (msg m)), consumed)
    unfolding parse_state need_min parse_payload set_state decode
    parse_payload-msg d =
        parse_item-enough s v (omega (arith, ap need_min waits, fits))
        ∙ ap (λ st. parse_state ext st s) waits
        ∙ rw (read_body, d)
