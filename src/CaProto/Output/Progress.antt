-- ===== src/CaProto/Output/Progress.antt =====
-- The whole output half of a poll of proto.rs: it ends, and the socket gets the queued messages in
-- order.

use daqingest.Base.{
  ◌+◌, ◌≡◌, ◌⊎◌, inl, inr, refl, ap, ◌∙◌, [], length, arith, Outcome, ok, err, and_then,
}
use daqingest.SlideBuf.Invariant.{contents}
use daqingest.CaProto.Error.{Error, io}
use daqingest.CaProto.Parser.{CaProto}
use daqingest.CaProto.Output.{Conn, Poll, ready, pending, flush, output_loop, output}
use daqingest.CaProto.Output.Stream.{IsOutput}
use daqingest.CaProto.Output.Flush.{FlushOut, flush-FlushOut}
use daqingest.CaProto.Output.Rounds.{Outputs, QueueEmpty, AllSent, output_loop-Outputs}

module _ (c : Conn) (o : IsOutput c.proto) where
  looped : Outputs (output_loop (length c.proto.out + 2)) QueueEmpty c
  looped = output_loop-Outputs (length c.proto.out + 2) c o (inl (omega arith))

  last : FlushOut looped.after.writes looped.after
  last = flush-FlushOut looped.after.writes looped.after looped.output

  output-eq :
      output c
      ≡ and_then
          (looped.reply, looped.after)
          (λ p c. elim p as (λ _. Outcome Error (Poll Unit) × Conn) [
            | ready _ ↦ flush c.writes c
            | pending ↦ (ok pending, c)
          ])
  unfolding output
  output-eq = rw looped.runs (ground arith)

  output_waits :
      (r : Outcome Error (Poll Unit))
      → looped.reply ≡ r
      → (r ≡ ok pending) ⊎ (r ≡ err io)
      → Outputs output AllSent c
  output_waits r e stop = record {
    reply = r;
    after = looped.after;
    runs = output-eq ∙ ground (arith, e, stop);
    output = looped.output;
    kept = looped.kept;
    parser = looped.parser;
    replies = inr stop;
  }

  all_sent :
      looped.after.proto.out ≡ []
      → ((last.reply ≡ ok (ready tt)) × (contents last.after.proto.outbuf ≡ []))
        ⊎ (last.reply ≡ ok pending)
        ⊎ (last.reply ≡ err io)
      → ((last.reply ≡ ok (ready tt)) × AllSent last.after)
        ⊎ (last.reply ≡ ok pending)
        ⊎ (last.reply ≡ err io)
  all_sent none_left (inl (e, empty)) =
      inl (e, (ap {A = CaProto} (λ s. s.out) last.flushed.parser ∙ none_left, empty))
  all_sent none_left (inr stop) = inr stop

  output_flushes :
      looped.reply ≡ ok (ready tt) → looped.after.proto.out ≡ [] → Outputs output AllSent c
  output_flushes e none_left = record {
    reply = last.reply;
    after = last.after;
    runs = output-eq ∙ rw (e, last.runs);
    output = last.flushed.output;
    kept = last.flushed.kept ∙ looped.kept;
    parser =
        ap {A = CaProto} {B = CaProto}
          (λ s. record s { outbuf = c.proto.outbuf; out = c.proto.out }) last.flushed.parser
        ∙ looped.parser;
    replies = all_sent none_left last.replies;
  }

-- From an output buffer of at least 16384 bytes and a queue of messages that a client may send,
-- the output half of a poll ends within its fuel for every sequence of answers of the socket,
-- with no panic: what the socket has taken, the buffer and the queue together stay the same
-- sequence of bytes, the parser is not touched, and the reply is that all was sent, with queue
-- and buffer empty, or that the socket is not ready or has failed.
pub output_delivers : (c : Conn) → IsOutput c.proto → Outputs output AllSent c
output_delivers c o = elim (looped c o).replies [
  | inl (e, none_left) ↦ output_flushes c o e none_left
  | inr stop ↦ output_waits c o (looped c o).reply refl stop
]
