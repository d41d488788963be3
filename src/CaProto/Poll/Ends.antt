-- ===== src/CaProto/Poll/Ends.antt =====
-- `poll_next` of proto.rs ends when the socket has no bytes to read.
use mathlib.Core.Path.{subst}
use mathlib.Core.Bool.{false≢true}
use native.Mathlib.Decide.{dec_le}
use daqingest.Base.{
  false, ℕ, zero, suc, ◌≤◌, ◌<◌, ◌≡◌, ◌≢◌, refl, sym, ap, ◌∙◌, inl, inr, Option, none, some, length,
  replicate, ltb, arith, le→ltb_false, Bool-cases, Outcome, ok, err, panic, Act, ◌>>=◌, pure,
  and_then,
}
use daqingest.CaProto.Decode.{from_proto_infos}
use daqingest.SlideBuf.{cap, len}
use daqingest.SlideBuf.Invariant.{IsValid, contents, length-contents, len-eq}
use daqingest.CaProto.Error.{Error, Externals}
use daqingest.CaProto.Message.{CaMsg}
use daqingest.CaProto.Parser.{CaProto, CaItem, CaState, done, need_min, parse_item}
use daqingest.CaProto.Parser.Safety.{
  rounds_left, Proceeds, parse_item-Proceeds, parse_item-waits, IsDecoded, body_size,
  body_size-head, body_at-take, offset, HeadAt,
}
use daqingest.CaProto.Output.{Conn, Poll, ready, pending, on_proto, output}
use daqingest.CaProto.Output.Stream.{AllSendable}
use daqingest.CaProto.Output.Rounds.{Outputs, AllSent}
use daqingest.CaProto.Output.Progress.{output_delivers}
use daqingest.CaProto.Poll.{
  read_pending, read_input, combine, loop_body, Next, ended, item, failed, not_ready, is_done,
  answer, poll_next,
}
use daqingest.CaProto.Poll.Waits.{
  IsConn, Result, IsNone, DecodingGives, Reported, OnlyDecoding, Goes, same_decoding,
  Reported-before, Waits, read_input-Waits, not_none,
}

module _ (ext : Externals) where
  -- the round after the output
  rest_of_round : Poll Unit → Act Conn Error (Option (Poll CaItem))
  rest_of_round p = do
    read_res ← on_proto (read_input read_pending)
    parse_res ← on_proto (parse_item ext)
    pure (combine p read_res parse_res)

  rest-Waits :
      (p : Poll Unit) (c : Conn) (read : Result × CaProto)
      → read_input read_pending c.proto ≡ read
      → Waits read
      → Goes ext c (rest_of_round p c)
  unfolding rest_of_round on_proto
  rest-Waits p c (ok (some pending), s) e w =
      rw (e, parse_item-waits ext s w.valid w.quiet w.short) (tt, λ h. absurd (not_none p h))
  rest-Waits p c (ok (some (ready i)), s) e w = absurd w
  rest-Waits p c (ok none, s) e w = absurd w
  rest-Waits p c (err x, s) e w = rw e (inr (inl w), λ h. absurd h)
  rest-Waits p c (panic, s) e w = absurd w

  -- the bytes that a state decodes are in the buffer
  decoding_gives :
      (s : CaProto) (r : Outcome Error CaMsg) → IsDecoded ext s r → DecodingGives ext s r
  decoding_gives s r (hi, head, p) = record {
    hi = hi;
    head = head;
    from = 0;
    n = body_size s.state;
    near = omega arith;
    size = body_size-head s.state s.buf hi head;
    gives =
        ap (λ xs. from_proto_infos ext hi xs s.array_truncate)
          (sym (body_at-take s.state (contents s.buf)))
        ∙ p;
  }

  -- The parser has what it needs.
  parsed :
      (p : Poll Unit) (c : Conn) (out : Outcome Error (Option CaItem) × CaProto)
      → IsConn c
      → Proceeds ext c.proto out
      → Goes ext c (and_then (out.0, record c { proto = out.1 }) (λ x. pure (combine p none x)))
  unfolding combine
  parsed p c (err e, s) i z = (inr (inr (decoding_gives c.proto (err e) z.fails)), λ h. absurd h)
  parsed p c (panic, s) i z = (decoding_gives c.proto panic z.fails, λ h. absurd h)
  parsed p c (ok (some x), s) i z = (tt, λ h. absurd h)
  parsed pending c (ok none, s) i z = (tt, λ h. absurd h)
  parsed (ready _) c (ok none, s) i z = (
    tt,
    λ _. record {
      conn = record {
        output = record {
          valid = subst IsValid (sym (ap {A = CaProto} (λ s. s.outbuf) z.others)) i.output.valid;
          size = omega (arith, i.output.size, ap {A = CaProto} (λ s. length s.outbuf.buf) z.others);
          sendable =
              subst AllSendable (sym (ap {A = CaProto} (λ s. s.out) z.others)) i.output.sendable;
        };
        valid = z.valid;
        quiet = z.quiet;
      };
      fewer = z.progress refl;
      same_decodings = same_decoding ext c.proto s (need_min c.proto.state) (record {
        left = z.eaten;
        limit = ap {A = CaProto} (λ s. s.array_truncate) z.others;
        nearer = z.nearer refl;
        head = z.head refl;
      });
    },
  )

  rest-Parses :
      (p : Poll Unit) (c : Conn)
      → IsConn c
      → c.proto.state ≢ done
      → need_min c.proto.state ≤ length (contents c.proto.buf)
      → Goes ext c (rest_of_round p c)
  unfolding rest_of_round on_proto read_input cap
  rest-Parses p c i open_state enough =
      let short : ltb (cap c.proto.buf) (need_min c.proto.state) ≡ false =
        le→ltb_false _ _ (omega (arith, i.valid, length-contents i.valid)) in
      let no_read : ltb (len c.proto.buf) (need_min c.proto.state) ≡ false =
        le→ltb_false _ _ (omega (arith, len-eq i.valid, length-contents i.valid)) in
      rw (short, no_read)
        (parsed p c (parse_item ext c.proto) i
          (parse_item-Proceeds ext c.proto i.valid i.quiet open_state enough))

  rest-Goes :
      (p : Poll Unit) (c : Conn) → IsConn c → c.proto.state ≢ done → Goes ext c (rest_of_round p c)
  rest-Goes p c i open_state =
      elim (dec_le (need_min c.proto.state) (length (contents c.proto.buf))) [
        | yes h ↦ rest-Parses p c i open_state h
        | no h ↦ rest-Waits p c (read_input read_pending c.proto) refl (
            read_input-Waits c.proto
              (record { valid = i.valid; short = omega arith; quiet = i.quiet }))
      ]

  module _ (c : Conn) (i : IsConn c) (open_state : c.proto.state ≢ done) where
    written : Outputs output AllSent c
    written = output_delivers c i.output

    same_state : written.after.proto.state ≡ c.proto.state
    same_state = ap {A = CaProto} (λ s. s.state) written.parser

    written-IsConn : IsConn written.after
    written-IsConn = record {
      output = written.output;
      valid = subst IsValid (sym (ap {A = CaProto} (λ s. s.buf) written.parser)) i.valid;
      quiet = ap {A = CaProto} (λ s. s.logged_proto_error_for_cid) written.parser ∙ i.quiet;
    }

    -- The parser is as before the output.
    same_parser :
        (r : Outcome Error CaMsg)
        → DecodingGives ext written.after.proto r
        → DecodingGives ext c.proto r
    same_parser = same_decoding ext c.proto written.after.proto 0 (record {
      left = ap {A = CaProto} (λ s. contents s.buf) written.parser;
      limit = ap {A = CaProto} (λ s. s.array_truncate) written.parser;
      nearer = omega (arith, ap offset same_state);
      head = λ hi h. subst {A = CaProto} (λ s. HeadAt s.state s.buf hi) written.parser h;
    })

    only_before : (r : Result) → OnlyDecoding ext written.after.proto r → OnlyDecoding ext c.proto r
    only_before (ok _) h = tt
    only_before (err e) h = Reported-before ext c.proto written.after.proto e same_parser h
    only_before panic h = same_parser panic h

    -- The output goes on with `p`.
    answered : (p : Poll Unit) → written.reply ≡ ok p → Goes ext c (loop_body ext read_pending c)
    unfolding loop_body rest_of_round
    answered p e =
        let g = rest-Goes p written.after written-IsConn (λ d. open_state (sym same_state ∙ d)) in
        rw (written.runs, e)
          (
            only_before (rest_of_round p written.after).0 g.0,
            λ h.
                let k = g.1 h in
                record {
                  conn = k.conn;
                  fewer = omega (arith, k.fewer, ap rounds_left same_state);
                  same_decodings = λ r d. same_parser r (k.same_decodings r d);
                },
          )

    loop_body-Goes : Goes ext c (loop_body ext read_pending c)
    unfolding loop_body
    loop_body-Goes = elim written.replies [
      | inl (e, sent) ↦ answered (ready tt) e
      | inr (inl e) ↦ answered pending e
      | inr (inr e) ↦ rw (written.runs, e) (inl refl, λ h. absurd h)
    ]

  -- What a poll ends with: a reply, whose error is `Reported`, or the panic of a decoding.
  abbrev pub Replies : CaProto → Outcome Error Next → Type 0
  Replies s (ok (failed e)) = Reported ext s e
  Replies s (ok ended) = Unit
  Replies s (ok (item _)) = Unit
  Replies s (ok not_ready) = Unit
  Replies s (err _) = ⊥
  Replies s panic = DecodingGives ext s panic

  abbrev pub Ends : CaProto → Option (Outcome Error Next × Conn) → Type 0
  Ends s none = ⊥
  Ends s (some end) = Replies s end.0

  answer-Ends :
      (s : CaProto) (out : Result × Conn) (go : Conn → Option (Outcome Error Next × Conn))
      → OnlyDecoding ext s out.0
      → (IsNone out.0 → Ends s (go out.1))
      → Ends s (answer out go)
  unfolding answer
  answer-Ends s (ok none, d) go only next = next tt
  answer-Ends s (ok (some (ready i)), d) go only next = tt
  answer-Ends s (ok (some pending), d) go only next = tt
  answer-Ends s (err x, d) go only next = only
  answer-Ends s (panic, d) go only next = only

  Ends-before :
      (s t : CaProto) (end : Option (Outcome Error Next × Conn))
      → ((r : Outcome Error CaMsg) → DecodingGives ext t r → DecodingGives ext s r)
      → Ends t end
      → Ends s end
  Ends-before s t none f h = h
  Ends-before s t (some (ok ended, _)) f h = h
  Ends-before s t (some (ok (item _), _)) f h = h
  Ends-before s t (some (ok not_ready, _)) f h = h
  Ends-before s t (some (ok (failed e), _)) f h = Reported-before ext s t e f h
  Ends-before s t (some (err _, _)) f h = h
  Ends-before s t (some (panic, _)) f h = f panic h

  is_open : (st : CaState) → is_done st ≡ false → st ≢ done
  unfolding is_done
  is_open st e d = false≢true (sym e ∙ ap is_done d)

  poll_next-Ends :
      (n : ℕ) (c : Conn)
      → IsConn c
      → rounds_left c.proto.state < n
      → Ends c.proto (poll_next ext (replicate n read_pending) c)
  unfolding poll_next
  poll_next-Ends zero c i few = absurd (omega arith)
  poll_next-Ends (suc n) c i few = elim (Bool-cases (is_done c.proto.state)) [
    | inl over ↦ rw over tt
    | inr more ↦
        let g = loop_body-Goes c i (is_open c.proto.state more) in
        rw more (
          answer-Ends c.proto (loop_body ext read_pending c)
            (λ c. poll_next ext (replicate n read_pending) c) g.0
            (λ h.
              let k = g.1 h in
              Ends-before c.proto (loop_body ext read_pending c).1.proto _ k.same_decodings (
                poll_next-Ends n (loop_body ext read_pending c).1 k.conn (omega (arith, k.fewer)))))
  ]

  ended_with :
      (s : CaProto) (end : Option (Outcome Error Next × Conn))
      → Ends s end
      → (r : Outcome Error Next × Conn) × (end ≡ some r) × Replies s r.0
  ended_with s none h = absurd h
  ended_with s (some r) h = (r, refl, h)

  -- From a connection with valid buffers, an output buffer of at least 16384 bytes, sendable
  -- messages and no error noted, and a socket that has nothing to read, poll_next ends, with a
  -- reply or with the panic of decoding the message at the front, in at most one round more than
  -- the state can still go on (at a header three, at an extended header two, at a payload one,
  -- when done none), for every sequence of answers to its writes. An error that it replies is
  -- one of the socket, of missing space in the input buffer, or of decoding the message at the
  -- front: that of the header in the state, or of the one in front of the input buffer, with no
  -- payload or as many bytes of the buffer as it says, from at most 24 behind the front.
  pub poll_next-ends :
      (n : ℕ) (c : Conn)
      → IsConn c
      → rounds_left c.proto.state < n
      → (end : Outcome Error Next × Conn) × (poll_next ext (replicate n read_pending) c ≡ some end)
        × Replies c.proto end.0
  poll_next-ends n c i few = ended_with c.proto _ (poll_next-Ends n c i few)
