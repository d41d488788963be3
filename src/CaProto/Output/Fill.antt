-- ===== src/CaProto/Output/Fill.antt =====
-- `fill_out` moves messages from the queue to the output buffer, in order and whole.
use daqingest.Base.{
  ℕ, ◌+◌, ◌-◌, ◌≤◌, ◌<◌, ◌≡◌, ◌≢◌, refl, sym, ap, ◌∙◌, some, List, [], ◌∷◌, ◌++◌, append_assoc,
  length, take, drop, arith, slice, slice-eq_some, copy_at-eq_some, length-take, length-drop,
  le→ltb_false, ok,
}
use native.Mathlib.Decide.{dec_le}
use daqingest.SlideBuf
use daqingest.SlideBuf.{SlideBuf, available_writable_area, make_room, wadv}
use daqingest.SlideBuf.Invariant.{IsValid, contents}
use daqingest.SlideBuf.Write.{
  available_writable_area-eq, available_writable_area-full, fill_area, wadv-fill_area,
}
use daqingest.CaProto.Message.{CaMsg}
use daqingest.CaProto.Fields.{msg_len}
use daqingest.CaProto.Wire.{wire, IsSendable, payload_len-length, length-wire, place_into-wire}
use daqingest.CaProto.Parser.{CaProto}
use daqingest.CaProto.Output.{on_outbuf, or_none, out_msg_buf, place_msg, fill_out}
use daqingest.CaProto.Output.Stream.{wires, unsent, IsOutput}

msg_len-wire :
    (m : CaMsg)
    → IsSendable m.ty
    → (msg_len m.ty ≡ some (length (wire m))) × (length (wire m) ≤ 0x4000)
unfolding msg_len
msg_len-wire m h = let p = payload_len-length m.ty h in ground (arith, p, length-wire m)

pub on_outbuf-ok :
    {A : Type 0} (f : SlideBuf.Op A) (s : CaProto) {a : A} {b : SlideBuf}
    → f s.outbuf ≡ (ok a, b)
    → on_outbuf f s ≡ (ok a, record s { outbuf = b })
unfolding on_outbuf
on_outbuf-ok f s e = rw e

module _ (s : CaProto) (m : CaMsg) (ms : List CaMsg) (v : IsValid s.outbuf)
    (h : IsSendable m.ty) where
  abbrev roomy : SlideBuf
  roomy = (make_room (length (wire m)) s.outbuf).1

  abbrev grown : SlideBuf
  grown = (wadv (length (wire m)) (fill_area (wire m) roomy)).1

  -- The message stands in the buffer behind what was there, and has left the queue.
  place_msg-eq :
      length (contents s.outbuf) + length (wire m) ≤ length s.outbuf.buf
      → place_msg m ms roomy.wp (record s { outbuf = roomy })
        ≡ (ok tt, record s { outbuf = grown; out = ms })
  unfolding place_msg fill_area
  place_msg-eq fits =
      let area = available_writable_area-eq (length (wire m)) v fits in
      let k = area.2 in
      let b : List ℕ = roomy.buf in
      let w = wadv-fill_area (wire m) k.valid area.1 in
      let cut : slice roomy.wp (roomy.wp + length (wire m)) b
          ≡ some (take (roomy.wp + length (wire m) - roomy.wp) (drop roomy.wp b)) =
        slice-eq_some roomy.wp (roomy.wp + length (wire m)) b (omega arith)
          (omega (arith, k.valid)) in
      let old : List ℕ = take (roomy.wp + length (wire m) - roomy.wp) (drop roomy.wp b) in
      let old_size : length old ≡ length (wire m) = omega (
        arith,
        length-take (roomy.wp + length (wire m) - roomy.wp) (drop roomy.wp b),
        length-drop roomy.wp b,
        k.valid,
      ) in
      let moved : wadv (length (wire m)) (fill_area (wire m) roomy) ≡ (ok tt, grown) =
        ap (λ r. (r, grown)) w.0 in
      rw (
        (msg_len-wire m h).0,
        cut,
        place_into-wire m old h ((msg_len-wire m h).0 ∙ ap (λ k. some k) (sym old_size)),
        copy_at-eq_some roomy.wp (wire m) b (omega (arith, k.valid)),
        on_outbuf-ok (wadv (length (wire m))) (record s { outbuf = fill_area (wire m) roomy })
            moved,
      )

  pub grown-IsValid :
      length (contents s.outbuf) + length (wire m) ≤ length s.outbuf.buf
      → IsValid grown
        × (contents grown ≡ contents s.outbuf ++ wire m)
        × (length grown.buf ≡ length s.outbuf.buf)
  grown-IsValid fits =
      let area = available_writable_area-eq (length (wire m)) v fits in
      let k = area.2 in
      let w = wadv-fill_area (wire m) k.valid area.1 in
      (w.1, w.2 ∙ ap (λ c. c ++ wire m) k.same, w.3 ∙ k.size)

  -- One round with room.
  fill_out-fits :
      length (contents s.outbuf) + length (wire m) ≤ length s.outbuf.buf
      → fill_out (m ∷ ms) s ≡ fill_out ms (record s { outbuf = grown; out = ms })
  unfolding fill_out out_msg_buf or_none
  fill_out-fits fits =
      let area = available_writable_area-eq (length (wire m)) v fits in
      let k = area.2 in
      rw (
        (msg_len-wire m h).0,
        on_outbuf-ok (available_writable_area (length (wire m))) s area.0,
        le→ltb_false (length roomy.buf - roomy.wp) (length (wire m)) area.1,
        place_msg-eq fits,
      )

  -- Without room the loop ends, and the bytes may have moved to the front.
  fill_out-full :
      length s.outbuf.buf < length (contents s.outbuf) + length (wire m)
      → fill_out (m ∷ ms) s ≡ (ok tt, record s { outbuf = roomy })
  unfolding fill_out out_msg_buf or_none on_outbuf
  fill_out-full full =
      rw ((msg_len-wire m h).0, (available_writable_area-full (length (wire m)) v full).0)

-- What filling does to a connection: no byte is lost, added or moved.
pub record Filled (s s' : CaProto) : Type 0 where
  pub output : IsOutput s'
  pub kept : unsent s' ≡ unsent s
  pub parser : record s' { outbuf = s.outbuf; out = s.out } ≡ s
  pub fewer : length s'.out ≤ length s.out
  -- from an empty buffer at least one message goes
  pub progress : contents s.outbuf ≡ [] → s.out ≢ [] → length s'.out < length s.out

Filled-fits :
    (s : CaProto) (m : CaMsg) (ms : List CaMsg) (o : IsOutput (record s { out = m ∷ ms }))
    (s' : CaProto)
    → let g = grown (record s { out = m ∷ ms }) m ms o.valid o.sendable.0 in
      length (contents s.outbuf) + length (wire m) ≤ length s.outbuf.buf
      → Filled (record s { outbuf = g; out = ms }) s'
      → Filled (record s { out = m ∷ ms }) s'
Filled-fits s m ms o s' fits ih =
    let g = grown-IsValid (record s { out = m ∷ ms }) m ms o.valid o.sendable.0 fits in
    record {
      output = ih.output;
      kept =
          ih.kept
          ∙ ap (λ c. c ++ wires ms) g.1
          ∙ append_assoc (contents s.outbuf) (wire m) (wires ms);
      parser =
          ap {A = CaProto} {B = CaProto} (λ r. record r { outbuf = s.outbuf; out = m ∷ ms })
            ih.parser;
      fewer = omega (arith, ih.fewer);
      progress = λ _ _. omega (arith, ih.fewer);
    }

Filled-full :
    (s : CaProto) (m : CaMsg) (ms : List CaMsg) (o : IsOutput (record s { out = m ∷ ms }))
    → length s.outbuf.buf < length (contents s.outbuf) + length (wire m)
    → Filled
        (record s { out = m ∷ ms })
        (record s { outbuf = (make_room (length (wire m)) s.outbuf).1; out = m ∷ ms })
Filled-full s m ms o full =
    let k = (available_writable_area-full (length (wire m)) o.valid full).1 in
    let small = (msg_len-wire m o.sendable.0).1 in
    record {
      output = record {
        valid = k.valid;
        size = omega (arith, o.size, k.size);
        sendable = o.sendable;
      };
      kept = ap (λ c. c ++ wires (m ∷ ms)) k.same;
      parser = refl;
      fewer = omega arith;
      progress = λ e _. absurd (omega (arith, ap length e, small, o.size));
    }

-- From an output buffer of at least 16384 bytes and sendable messages, filling the output buffer
-- succeeds: the bytes of the buffer followed by those of the queue stay the same, the parser is
-- not touched, the queue does not grow, and from an empty buffer at least one message leaves it.
pub fill_out-Filled :
    (ms : List CaMsg) (s : CaProto)
    → IsOutput (record s { out = ms })
    → (s' : CaProto) × (fill_out ms (record s { out = ms }) ≡ (ok tt, s'))
      × Filled (record s { out = ms }) s'
unfolding fill_out
fill_out-Filled [] s o = (
  record s { out = [] },
  refl,
  record {
    output = o;
    kept = refl;
    parser = refl;
    fewer = omega arith;
    progress = λ _ ne. absurd (ne refl);
  },
)
fill_out-Filled (m ∷ ms) s o =
    elim (dec_le (length (contents s.outbuf) + length (wire m)) (length s.outbuf.buf)) [
      | yes fits ↦
          let g = grown-IsValid (record s { out = m ∷ ms }) m ms o.valid o.sendable.0 fits in
          let t : SlideBuf = grown (record s { out = m ∷ ms }) m ms o.valid o.sendable.0 in
          let (s', e, f) =
            fill_out-Filled ms (record s { outbuf = t })
              (record {
                valid = g.0;
                size = omega (arith, o.size, g.2);
                sendable = o.sendable.1;
              }) in
          (
            s',
            fill_out-fits (record s { out = m ∷ ms }) m ms o.valid o.sendable.0 fits ∙ e,
            Filled-fits s m ms o s' fits f,
          )
      | no over ↦ (
        record s { outbuf = (make_room (length (wire m)) s.outbuf).1; out = m ∷ ms },
        fill_out-full (record s { out = m ∷ ms }) m ms o.valid o.sendable.0 (omega arith),
        Filled-full s m ms o (omega arith),
      )
    ]
