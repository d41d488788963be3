-- ===== src/CaProto/Output/Rounds.antt =====
-- The rounds of the output loop of proto.rs: each that empties the buffer takes a message.
use native.Mathlib.Decide.{ℕ_discrete}
use daqingest.Base.{
  ℕ, zero, suc, ◌+◌, ◌<◌, ◌≡◌, ◌≢◌, ◌⊎◌, inl, inr, refl, ap, ◌∙◌, [], ◌++◌, length, length-nil,
  eq→==_true, ne→==_false, arith, Outcome, ok, err, Act, pure, and_then,
}
use daqingest.SlideBuf.Invariant.{contents}
use daqingest.CaProto.Error.{Error, io}
use daqingest.CaProto.Parser.{CaProto}
use daqingest.CaProto.Output.{Conn, Poll, ready, pending, on_proto, fill_out, output_loop}
use daqingest.CaProto.Output.Stream.{stream, IsOutput}
use daqingest.CaProto.Output.Fill.{Filled, fill_out-Filled}
use daqingest.CaProto.Output.Flush.{FlushOut, flush-FlushOut}

-- A run of the output: it keeps the stream of bytes and touches nothing of the parser, and it ends
-- when `Done` holds, or the socket is not ready or has failed.
pub record Outputs (m : Act Conn Error (Poll Unit)) (Done : Conn → Type 0) (c : Conn) : Type 0 where
  pub reply : Outcome Error (Poll Unit)
  pub after : Conn
  pub runs : m c ≡ (reply, after)
  pub output : IsOutput after.proto
  pub kept : stream after ≡ stream c
  pub parser : record after.proto { outbuf = c.proto.outbuf; out = c.proto.out } ≡ c.proto
  pub replies : ((reply ≡ ok (ready tt)) × Done after) ⊎ (reply ≡ ok pending) ⊎ (reply ≡ err io)

abbrev pub QueueEmpty : Conn → Type 0
QueueEmpty c = c.proto.out ≡ []

abbrev pub AllSent : Conn → Type 0
AllSent c = (c.proto.out ≡ []) × (contents c.proto.outbuf ≡ [])

-- There is fuel for every message, and for one more round if the buffer holds bytes.
abbrev Enough : ℕ → Conn → Type 0
Enough fuel c =
    (length c.proto.out + 1 < fuel) ⊎ ((length c.proto.out < fuel) × (contents c.proto.outbuf ≡ []))

module _ (c : Conn) (o : IsOutput c.proto) where
  filled : (s' : CaProto) × (fill_out c.proto.out c.proto ≡ (ok tt, s')) × Filled c.proto s'
  filled = fill_out-Filled c.proto.out c.proto o

  abbrev full : Conn
  full = record c { proto = filled.0 }

  flushed : FlushOut c.writes full
  flushed = flush-FlushOut c.writes full filled.2.output

  abbrev turn : Outcome Error (Poll Unit) × Conn
  turn = (flushed.reply, flushed.after)

  round_eq :
      (fuel : ℕ)
      → c.proto.out ≢ []
      → output_loop (suc fuel) c
        ≡ and_then turn (λ p. elim p [ ready _ ↦ output_loop fuel | pending ↦ pure pending ])
  unfolding output_loop on_proto
  round_eq fuel more = rw (
    ne→==_false (length c.proto.out) 0 (λ e. more (length-nil c.proto.out e)),
    filled.1,
    flushed.runs,
  )

  round_kept : stream flushed.after ≡ stream c
  round_kept = flushed.flushed.kept ∙ ap (λ r. c.sent ++ r) filled.2.kept

  round_parser : record flushed.after.proto { outbuf = c.proto.outbuf; out = c.proto.out } ≡ c.proto
  round_parser =
      ap {A = CaProto} {B = CaProto} (λ s. record s { outbuf = c.proto.outbuf; out = c.proto.out })
        flushed.flushed.parser
      ∙ filled.2.parser

  round_queue : flushed.after.proto.out ≡ filled.0.out
  round_queue = ap {A = CaProto} (λ s. s.out) flushed.flushed.parser

  round_fewer :
      (fuel : ℕ) → c.proto.out ≢ [] → Enough (suc fuel) c → length flushed.after.proto.out < fuel
  round_fewer fuel more (inl h) = omega (arith, ap length round_queue, filled.2.fewer)
  round_fewer fuel more (inr (h, e)) =
      omega (arith, ap length round_queue, filled.2.progress e more)

  -- A round whose flush did not empty the buffer is the last.
  round_stops :
      (fuel : ℕ) (r : Outcome Error (Poll Unit))
      → c.proto.out ≢ []
      → flushed.reply ≡ r
      → (r ≡ ok pending) ⊎ (r ≡ err io)
      → Outputs (output_loop (suc fuel)) QueueEmpty c
  round_stops fuel r more e stop = record {
    reply = r;
    after = flushed.after;
    runs =
        round_eq fuel more
        ∙ ap
            (λ r.
              and_then (r, flushed.after)
                (λ p. elim p [ ready _ ↦ output_loop fuel | pending ↦ pure pending ]))
            e
        ∙ ground (arith, stop);
    output = flushed.flushed.output;
    kept = round_kept;
    parser = round_parser;
    replies = inr stop;
  }

  -- A round that emptied the buffer goes on.
  round_goes_on :
      (fuel : ℕ)
      → c.proto.out ≢ []
      → flushed.reply ≡ ok (ready tt)
      → Outputs (output_loop fuel) QueueEmpty flushed.after
      → Outputs (output_loop (suc fuel)) QueueEmpty c
  round_goes_on fuel more e rest = record {
    reply = rest.reply;
    after = rest.after;
    runs =
        round_eq fuel more
        ∙ ap
            (λ r.
              and_then (r, flushed.after)
                (λ p. elim p [ ready _ ↦ output_loop fuel | pending ↦ pure pending ]))
            e
        ∙ rest.runs;
    output = rest.output;
    kept = rest.kept ∙ round_kept;
    parser =
        ap {A = CaProto} {B = CaProto}
          (λ s. record s { outbuf = c.proto.outbuf; out = c.proto.out }) rest.parser
        ∙ round_parser;
    replies = rest.replies;
  }

  loop_idle : (fuel : ℕ) → c.proto.out ≡ [] → Outputs (output_loop (suc fuel)) QueueEmpty c
  unfolding output_loop
  loop_idle fuel e = record {
    reply = ok (ready tt);
    after = c;
    runs = rw (eq→==_true (length c.proto.out) 0 (ap length e));
    output = o;
    kept = refl;
    parser = refl;
    replies = inl (refl, e);
  }

pub output_loop-Outputs :
    (fuel : ℕ) (c : Conn)
    → IsOutput c.proto
    → Enough fuel c
    → Outputs (output_loop fuel) QueueEmpty c
output_loop-Outputs zero c o (inl h) = absurd (omega arith)
output_loop-Outputs zero c o (inr h) = absurd (omega (arith, h.0))
output_loop-Outputs (suc fuel) c o enough = elim (ℕ_discrete (length c.proto.out) 0) [
  | yes e ↦ loop_idle c o fuel (length-nil c.proto.out e)
  | no ne ↦
      let more : c.proto.out ≢ [] = λ e. ne (ap length e) in
      let f = flushed c o in
      elim f.replies [
        | inl (e, empty) ↦ round_goes_on c o fuel more e (
            output_loop-Outputs fuel f.after f.flushed.output
              (inr (round_fewer c o fuel more enough, empty)))
        | inr stop ↦ round_stops c o fuel f.reply more refl stop
      ]
]
