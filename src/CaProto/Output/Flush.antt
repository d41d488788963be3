-- ===== src/CaProto/Output/Flush.antt =====
-- `attempt_output` and the loop that flushes the output buffer: the socket gets the bytes of the
-- buffer in order, each once.
use native.Mathlib.Decide.{dec_lt}
use daqingest.Base.{
  true, false, ℕ, ◌≤◌, ◌<◌, ◌≡◌, ◌⊎◌, inl, inr, refl, sym, ap, ◌∙◌, min, List, [], ◌∷◌, ◌++◌,
  append_assoc, length, length-nil, take, drop, ltb, arith, slice-eq_some, le→ltb_false, le→leb,
  lt→ltb, take-append-drop, Outcome, ok, err, pure, and_then,
}
use daqingest.SlideBuf.{SlideBuf, len, data_slice, adv}
use daqingest.SlideBuf.Invariant.{IsValid, contents, length-contents, len-eq}
use daqingest.SlideBuf.Read.{advanced, advanced-IsValid, adv-eq}
use daqingest.CaProto.Error.{Error, io}
use daqingest.CaProto.Parser.{CaProto}
use daqingest.CaProto.Output.{
  Conn, Poll, ready, pending, WriteResult, takes, write_error, write_pending, on_proto,
  attempt_output, flush,
}
use daqingest.CaProto.Output.Stream.{wires, stream, IsOutput}
use daqingest.CaProto.Output.Fill.{on_outbuf-ok}

data_slice-eq : {s : SlideBuf} → IsValid s → data_slice s ≡ (ok (contents s), s)
unfolding data_slice
data_slice-eq {s} v = rw (slice-eq_some s.rp s.wp s.buf v.rp_le_wp v.wp_le_cap)

-- What writing to the socket does to a connection.
pub record Flushed (c c' : Conn) : Type 0 where
  pub output : IsOutput c'.proto
  pub kept : stream c' ≡ stream c
  pub parser : record c'.proto { outbuf = c.proto.outbuf } ≡ c.proto

pub Flushed-trans : {c d e : Conn} → Flushed c d → Flushed d e → Flushed c e
Flushed-trans {c} f g = record {
  output = g.output;
  kept = g.kept ∙ f.kept;
  parser =
      ap {A = CaProto} {B = CaProto} (λ s. record s { outbuf = c.proto.outbuf }) g.parser
      ∙ f.parser;
}

module _ (c : Conn) (ws : List WriteResult) (o : IsOutput c.proto) where
  abbrev taken_by : ℕ → ℕ
  taken_by n = min n (length (contents c.proto.outbuf))

  abbrev written : ℕ → Conn
  written n = record {
    proto = record c.proto { outbuf = advanced (taken_by n) c.proto.outbuf };
    writes = ws;
    sent = c.sent ++ take (taken_by n) (contents c.proto.outbuf);
  }

  -- The socket takes the first bytes of the buffer.
  attempt_output-takes : (n : ℕ) → attempt_output (takes n) ws c ≡ (ok (ready tt), written n)
  unfolding attempt_output on_proto
  attempt_output-takes n =
      let moved : adv (taken_by n) c.proto.outbuf ≡ (ok tt, advanced (taken_by n) c.proto.outbuf) =
        adv-eq o.valid (taken_by n)
        ∙ rw (le→leb (taken_by n) (length (contents c.proto.outbuf)) (omega arith)) in
      rw (
        on_outbuf-ok data_slice c.proto (data_slice-eq o.valid),
        on_outbuf-ok (adv (taken_by n)) c.proto moved,
      )

  written-Flushed : (n : ℕ) → Flushed c (written n)
  written-Flushed n =
      let q : List ℕ = contents c.proto.outbuf in
      let w : List ℕ = wires c.proto.out in
      let a = advanced-IsValid o.valid (taken_by n) (omega arith) in
      record {
        output = record { valid = a.0; size = o.size; sendable = o.sendable };
        kept =
            ap (λ r. (c.sent ++ take (taken_by n) q) ++ (r ++ w)) a.1
            ∙ append_assoc c.sent (take (taken_by n) q) (drop (taken_by n) q ++ w)
            ∙ ap (λ r. c.sent ++ r)
                (sym (append_assoc (take (taken_by n) q) (drop (taken_by n) q) w))
            ∙ ap (λ r. c.sent ++ (r ++ w)) (take-append-drop (taken_by n) q);
        parser = refl;
      }

  abbrev waiting : Conn
  waiting = record c { writes = ws }

  attempt_output-error : attempt_output write_error ws c ≡ (err io, waiting)
  unfolding attempt_output on_proto
  attempt_output-error = rw (on_outbuf-ok data_slice c.proto (data_slice-eq o.valid))

  attempt_output-pending : attempt_output write_pending ws c ≡ (ok pending, waiting)
  unfolding attempt_output on_proto
  attempt_output-pending = rw (on_outbuf-ok data_slice c.proto (data_slice-eq o.valid))

  waiting-Flushed : Flushed c waiting
  waiting-Flushed = record { output = o; kept = refl; parser = refl }

-- The replies of the loop: the buffer is empty, or the socket is not ready or has failed.
abbrev pub FlushReply : Outcome Error (Poll Unit) → Conn → Type 0
FlushReply r c =
    ((r ≡ ok (ready tt)) × (contents c.proto.outbuf ≡ [])) ⊎ (r ≡ ok pending) ⊎ (r ≡ err io)

empty_outbuf : {s : SlideBuf} → IsValid s → length (contents s) ≤ 0 → ltb 0 (len s) ≡ false
empty_outbuf v h = le→ltb_false _ _ (omega (arith, len-eq v, length-contents v))

more_outbuf : {s : SlideBuf} → IsValid s → 0 < length (contents s) → ltb 0 (len s) ≡ true
more_outbuf v h = lt→ltb _ _ (omega (arith, len-eq v, length-contents v))

pub record FlushOut (ws : List WriteResult) (c : Conn) : Type 0 where
  pub reply : Outcome Error (Poll Unit)
  pub after : Conn
  pub runs : flush ws c ≡ (reply, after)
  pub flushed : Flushed c after
  pub replies : FlushReply reply after

-- With an empty buffer the loop ends at once.
FlushOut-empty :
    (ws : List WriteResult) (c : Conn)
    → IsOutput c.proto
    → length (contents c.proto.outbuf) ≤ 0
    → FlushOut ws c
unfolding flush
FlushOut-empty [] c o h = record {
  reply = ok (ready tt);
  after = c;
  runs = rw (empty_outbuf o.valid h);
  flushed = record { output = o; kept = refl; parser = refl };
  replies = inl (refl, length-nil (contents c.proto.outbuf) (omega arith));
}
FlushOut-empty (w ∷ ws) c o h = record {
  reply = ok (ready tt);
  after = c;
  runs = rw (empty_outbuf o.valid h);
  flushed = record { output = o; kept = refl; parser = refl };
  replies = inl (refl, length-nil (contents c.proto.outbuf) (omega arith));
}

-- With bytes in the buffer the first answer decides.
module _ (w : WriteResult) (ws : List WriteResult) (c : Conn) (o : IsOutput c.proto)
    (more : 0 < length (contents c.proto.outbuf)) where
  flush-answer :
      flush (w ∷ ws) c
      ≡ and_then
          (attempt_output w ws c)
          (λ p. elim p [ ready _ ↦ flush ws | pending ↦ pure pending ])
  unfolding flush
  flush-answer = rw (more_outbuf o.valid more)

FlushOut-answer :
    (w : WriteResult) (ws : List WriteResult) (c : Conn)
    → IsOutput c.proto
    → 0 < length (contents c.proto.outbuf)
    → ((d : Conn) → IsOutput d.proto → FlushOut ws (record d { writes = ws }))
    → FlushOut (w ∷ ws) c
FlushOut-answer (takes n) ws c o more ih =
    let f = written-Flushed c ws o n in
    let rest = ih (written c ws o n) f.output in
    record {
      reply = rest.reply;
      after = rest.after;
      runs = flush-answer (takes n) ws c o more ∙ rw (attempt_output-takes c ws o n) rest.runs;
      flushed = Flushed-trans f rest.flushed;
      replies = rest.replies;
    }
FlushOut-answer write_error ws c o more ih = record {
  reply = err io;
  after = waiting c ws o;
  runs = flush-answer write_error ws c o more ∙ rw (attempt_output-error c ws o);
  flushed = waiting-Flushed c ws o;
  replies = inr (inr refl);
}
FlushOut-answer write_pending ws c o more ih = record {
  reply = ok pending;
  after = waiting c ws o;
  runs = flush-answer write_pending ws c o more ∙ rw (attempt_output-pending c ws o);
  flushed = waiting-Flushed c ws o;
  replies = inr (inl refl);
}

-- For every sequence of answers of the socket, flushing a valid output buffer ends, the bytes
-- taken and those left stay the same sequence, and the reply is that the buffer is empty, or
-- that the socket is not ready or has failed.
pub flush-FlushOut :
    (ws : List WriteResult) (c : Conn) → IsOutput c.proto → FlushOut ws (record c { writes = ws })
unfolding flush
flush-FlushOut [] c o = elim (dec_lt 0 (length (contents c.proto.outbuf))) [
  | yes h ↦ record {
    reply = ok pending;
    after = record c { writes = [] };
    runs = rw (more_outbuf o.valid h);
    flushed = record { output = o; kept = refl; parser = refl };
    replies = inr (inl refl);
  }
  | no h ↦ FlushOut-empty [] (record c { writes = [] }) o (omega arith)
]
flush-FlushOut (w ∷ ws) c o = elim (dec_lt 0 (length (contents c.proto.outbuf))) [
  | yes h ↦ FlushOut-answer w ws (record c { writes = w ∷ ws }) o h (flush-FlushOut ws)
  | no h ↦ FlushOut-empty (w ∷ ws) (record c { writes = w ∷ ws }) o (omega arith)
]
