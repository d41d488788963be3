-- ===== src/Zmtp/Frames/Messages.antt =====
-- Sequences of frames, and the messages that `emit_to_buffer` of zmtpproto.rs puts into a buffer.
use daqingest.Base.{
  ℕ, zero, suc, ◌+◌, ◌≤◌, ◌≡◌, refl, sym, ap, ◌∙◌, true, Option, List, [], ◌∷◌, ◌++◌, length,
  append_assoc, append-nil, length-append, be_bytes, arith, Outcome, Act, ◌>>=◌, ◌>>◌, bind-ok,
  pure, ok,
}
use daqingest.SlideBuf
use daqingest.SlideBuf.{SlideBuf, put_slice, put_be, put_u8, put_u64_be}
use daqingest.SlideBuf.Invariant.{IsValid, contents}
use daqingest.SlideBuf.Puts.{Puts, put_slice-Puts}
use daqingest.Zmtp.{Error, ZmtpFrame, ZmtpEvent, Zmtp}
use daqingest.Zmtp.Message.{emit_flags, emit_frames}
use daqingest.Zmtp.Parse.{parse_item, bit1}
use daqingest.Zmtp.Frames.{
  Wire, wire_bytes, wires_bytes, IsTaken, receive, cons_event, assemble, AtFrame,
}
use daqingest.Zmtp.Frames.Parsing.{parse_item-Taken}

-- rounds of the parser, with the events that they give
unfoldable pub parse_items : ℕ → Act Zmtp Error (List ZmtpEvent)
parse_items zero = pure []
parse_items (suc n) = do x ← parse_item; xs ← parse_items n; pure (cons_event x xs)

pub parse_items-suc :
    (n : ℕ) (z : Zmtp) {z' z'' : Zmtp} {x : Option ZmtpEvent} {xs : List ZmtpEvent}
    → parse_item z ≡ (ok x, z')
    → parse_items n z' ≡ (ok xs, z'')
    → parse_items (suc n) z ≡ (ok (cons_event x xs), z'')
unfolding parse_items
parse_items-suc n z {x = x} e h =
    bind-ok parse_item (λ x. parse_items n >>= λ xs. pure (cons_event x xs)) e
    ∙ bind-ok (parse_items n) (λ xs. pure (cons_event x xs)) h

-- Every frame takes three rounds.
abbrev pub rounds_of : List Wire → ℕ
rounds_of [] = 0
rounds_of (_ ∷ ws) = suc (suc (suc (rounds_of ws)))

abbrev pub AllTaken : ℕ → List Wire → Type 0
AllTaken n [] = Unit
AllTaken n (w ∷ ws) = IsTaken n w × AllTaken n ws

-- what the parser has made of a sequence of frames, of which it has given the events `es`
pub record Assembled (n : ℕ) (es : List ZmtpEvent) (bs : List ℕ)
    (r : Outcome Error (List ZmtpEvent) × Zmtp) : Type 0 where
  pub after : Zmtp
  pub reply : r ≡ (ok es, after)
  pub at : AtFrame n bs after

-- From a state between two frames, with valid buffers and any frames in front of the input, each
-- with a payload of at most half the size of the buffer and of fewer than 256 bytes where the
-- size has one byte, the parser takes every frame in three rounds and gives exactly the events
-- that the frames make up with the frames before them: a message for each frame without more to
-- follow, with all the frames since the last one, and each command at its place, also between
-- the frames of a message. The bytes behind them stay.
pub parse_items-assemble :
    {n : ℕ} (ws : List Wire) (bs : List ℕ) (z : Zmtp)
    → AllTaken n ws
    → AtFrame n (wires_bytes ws ++ bs) z
    → Assembled n (assemble z.has_more z.frames ws) bs (parse_items (rounds_of ws) z)
unfolding parse_items assemble
parse_items-assemble [] bs z t f = record { after = z; reply = refl; at = f }
parse_items-assemble {n} (w ∷ ws) bs z (t, ts) f =
    let rest = wires_bytes ws ++ bs in
    let a = parse_item-Taken w rest z t (record {
      state = f.state;
      inp = f.inp;
      size = f.size;
      bytes = f.bytes ∙ append_assoc (wire_bytes w) (wires_bytes ws) bs;
      out = f.out;
    }) in
    let r = a.third in
    let k = rounds_of ws in
    let later = parse_items-assemble ws bs r.after ts r.at in
    let events =
      ap (λ m. assemble m r.after.frames ws) r.more
      ∙ ap (λ b. assemble (receive z.has_more z.frames w).1.0 b ws) r.before in
    record {
      after = later.after;
      reply =
          parse_items-suc (suc (suc k)) z a.first (
            parse_items-suc (suc k) a.flagged a.second
              (parse_items-suc k a.sized r.reply later.reply))
          ∙ ap (λ es. (ok (cons_event (receive z.has_more z.frames w).0 es), later.after)) events;
      at = later.at;
    }

-- the frames that `emit_frames` writes
abbrev pub emitted : List ZmtpFrame → List Wire
emitted [] = []
emitted (fr ∷ frs) = record { flags = emit_flags frs; payload = fr.payload } ∷ emitted frs

-- A write that fits, and then another.
put_slice_then-Puts :
    (xs ys : List ℕ) (k : SlideBuf.Op Unit) {s : SlideBuf}
    → IsValid s
    → length (contents s) + length (xs ++ ys) ≤ length s.buf
    → ((t : SlideBuf)
        → IsValid t
        → length (contents t) + length ys ≤ length t.buf
        → Puts ys t (k t))
    → Puts (xs ++ ys) s ((put_slice xs >> k) s)
put_slice_then-Puts xs ys k {s} v h next =
    let g = put_slice-Puts xs v (omega (arith, length-append xs ys)) in
    let l = next g.after g.valid (
      omega
        (arith, ap length g.bytes, length-append (contents s) xs, length-append xs ys, g.size)) in
    record {
      after = l.after;
      reply = bind-ok (put_slice xs) (λ _. k) g.reply ∙ l.reply;
      valid = l.valid;
      size = l.size ∙ g.size;
      bytes = l.bytes ∙ ap (λ q. q ++ ys) g.bytes ∙ append_assoc (contents s) xs ys;
    }

pub emit_flags-bits :
    (frs : List ZmtpFrame)
    → (bit1 (emit_flags frs) ≡ true) × (be_bytes 1 (emit_flags frs) ≡ emit_flags frs ∷ [])
unfolding emit_flags be_bytes
emit_flags-bits [] = (refl, refl)
emit_flags-bits (_ ∷ _) = (refl, refl)

emitted-bytes :
    (fr : ZmtpFrame) (frs : List ZmtpFrame)
    → wires_bytes (emitted (fr ∷ frs))
      ≡ be_bytes 1 (emit_flags frs)
        ++ (be_bytes 8 (length fr.payload) ++ (fr.payload ++ wires_bytes (emitted frs)))
emitted-bytes fr frs =
    let b = emit_flags-bits frs in
    rw (b.0, b.1)
      (ap (λ xs. emit_flags frs ∷ xs)
        (append_assoc (be_bytes 8 (length fr.payload)) fr.payload (wires_bytes (emitted frs))))

-- `emit_frames` appends exactly the bytes of the frames, when they fit.
pub emit_frames-Puts :
    (frs : List ZmtpFrame) {s : SlideBuf}
    → IsValid s
    → length (contents s) + length (wires_bytes (emitted frs)) ≤ length s.buf
    → Puts (wires_bytes (emitted frs)) s (emit_frames frs s)
unfolding emit_frames put_u8 put_u64_be put_be
emit_frames-Puts [] {s} v h = record {
  after = s;
  reply = refl;
  valid = v;
  size = refl;
  bytes = sym (append-nil (contents s));
}
emit_frames-Puts (fr ∷ frs) {s} v h =
    let e = emitted-bytes fr frs in
    rw e (
      put_slice_then-Puts (be_bytes 1 (emit_flags frs)) _ _ v (omega (arith, h, ap length e))
        (λ _ v h. put_slice_then-Puts (be_bytes 8 (length fr.payload)) _ _ v h (λ _ v h.
          put_slice_then-Puts fr.payload _ (emit_frames frs) v h
            (λ _ v h. emit_frames-Puts frs v h))))
