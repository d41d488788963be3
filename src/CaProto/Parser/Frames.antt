-- ===== src/CaProto/Parser/Frames.antt =====
-- `parse_item` of proto.rs over a stream of messages: each frame is cut where its header says, and
-- its message comes out, in order.
use daqingest.Base.{
  ℕ, zero, suc, ◌≡◌, ◌≢◌, refl, sym, ap, ◌∙◌, false, ◌&&◌, none, some, List, [], ◌∷◌, ◌++◌, length,
  length-nil, ◌==◌, if◌then◌else◌, ne→==_false, eq→==_true, ok, Act, ◌>>=◌, pure,
}
use mathlib.Core.Path.{subst}
use native.Mathlib.Decide.{ℕ_discrete}
use daqingest.SlideBuf.Invariant.{IsValid, contents}
use daqingest.CaProto.Message.{CaMsg}
use daqingest.CaProto.Error.{Error, Externals}
use daqingest.CaProto.Header.{HeadInfo}
use daqingest.CaProto.Decode.{from_proto_infos}
use daqingest.CaProto.Parser.{CaProto, std_head, payload, msg, empty, parse_item}
use daqingest.CaProto.Parser.Steps.{
  IsReady, taken, taken-IsValid, parse_head-payload, parse_head-empty, consumed, consumed-IsValid,
  parse_payload-msg,
}
use daqingest.CaProto.Parser.Head.{InRange, head_and}

pub record Frame : Type 0 where
  pub head : HeadInfo
  pub body : List ℕ

-- A frame with a standard header, whose payload has the announced size.
pub record IsFrame (f : Frame) : Type 0 where
  pub range : InRange f.head
  pub standard : (f.head.payload_size == 0xffff && f.head.data_count == 0) ≡ false
  pub size : length f.body ≡ f.head.payload_size

abbrev pub frames_and : List Frame → List ℕ → List ℕ
frames_and [] rest = rest
frames_and (f ∷ fs) rest = head_and f.head (f.body ++ frames_and fs rest)

abbrev pub All : {A : Type 0} → (A → Type 0) → List A → Type 0
All P [] = Unit
All P (x ∷ xs) = P x × All P xs

module _ (ext : Externals) where
  -- rounds of `poll_next` that parse, with what they yield
  unfoldable pub parse_items : ℕ → Act CaProto Error (List CaMsg)
  parse_items zero = pure []
  parse_items (suc n) = do
    item ← parse_item ext
    items ← parse_items n
    pure (elim item [ none ↦ items | some i ↦ elim i [ empty ↦ items | msg m ↦ m ∷ items ] ])

  abbrev pub Decodes : ℕ → List Frame → List CaMsg → Type 0
  Decodes n [] [] = Unit
  Decodes n (f ∷ fs) (m ∷ ms) = (from_proto_infos ext f.head f.body n ≡ ok m) × Decodes n fs ms
  Decodes n _ _ = ⊥

  -- a round for the header, and one for a payload that is not empty
  abbrev pub frame_rounds : Frame → ℕ → ℕ
  frame_rounds f k = if f.head.payload_size == 0 then suc k else suc (suc k)

  abbrev pub rounds : List Frame → ℕ
  rounds [] = 0
  rounds (f ∷ fs) = frame_rounds f (rounds fs)

  -- The rounds of one frame yield its message and leave a parser that is ready for the rest.
  record Yields (s : CaProto) (f : Frame) (m : CaMsg) (rest : List ℕ) (t : CaProto) : Type 0 where
    ready : IsReady t
    limit : t.array_truncate ≡ s.array_truncate
    left : contents t.buf ≡ rest
    goes_on :
        (k : ℕ) (ms : List CaMsg) (u : CaProto)
        → parse_items k t ≡ (ok ms, u)
        → parse_items (frame_rounds f k) s ≡ (ok (m ∷ ms), u)

  module _ (s : CaProto) (f : Frame) (m : CaMsg) (rest : List ℕ) (r : IsReady s) (h : IsFrame f)
      (d : from_proto_infos ext f.head f.body s.array_truncate ≡ ok m)
      (e : contents s.buf ≡ head_and f.head (f.body ++ rest)) where
    abbrev headed : CaProto
    headed = taken ext s f.head (f.body ++ rest) r h.range e

    headed-IsValid : IsValid headed.buf × (contents headed.buf ≡ f.body ++ rest)
    headed-IsValid = taken-IsValid ext s f.head (f.body ++ rest) r h.range e

    Yields-empty : f.head.payload_size ≡ 0 → Yields s f m rest (record headed { state = std_head })
    unfolding parse_items
    Yields-empty zero_size =
        let none_left : f.body ≡ [] = length-nil f.body (h.size ∙ zero_size) in
        let step =
          parse_head-empty ext s f.head (f.body ++ rest) r h.range e h.standard zero_size
            (subst (λ b. from_proto_infos ext f.head b s.array_truncate ≡ ok m) none_left d) in
        record {
          ready = record { at_head = refl; quiet = r.quiet; valid = headed-IsValid.0 };
          limit = refl;
          left = headed-IsValid.1 ∙ ap (λ b. b ++ rest) none_left;
          goes_on = λ k ms u p. rw (eq→==_true f.head.payload_size 0 zero_size, step, p);
        }

    abbrev waiting : CaProto
    waiting = record headed { state = payload f.head }

    abbrev finished : CaProto
    finished = consumed ext waiting f.head f.body rest refl headed-IsValid.0 h.size headed-IsValid.1

    Yields-payload : f.head.payload_size ≢ 0 → Yields s f m rest finished
    unfolding parse_items
    Yields-payload more =
        let head = parse_head-payload ext s f.head (f.body ++ rest) r h.range e h.standard more in
        let body =
          parse_payload-msg ext waiting f.head f.body rest refl headed-IsValid.0 h.size
            headed-IsValid.1 d in
        let left =
          consumed-IsValid ext waiting f.head f.body rest refl headed-IsValid.0 h.size
            headed-IsValid.1 in
        record {
          ready = record { at_head = refl; quiet = r.quiet; valid = left.0 };
          limit = refl;
          left = left.1;
          goes_on = λ k ms u p. rw (ne→==_false f.head.payload_size 0 more, head, body, p);
        }

    one_frame : (t : CaProto) × Yields s f m rest t
    one_frame = elim (ℕ_discrete f.head.payload_size 0) [
      | yes z ↦ (record headed { state = std_head }, Yields-empty z)
      | no nz ↦ (finished, Yields-payload nz)
    ]

  -- A parser that waits for a header, with a valid buffer that holds frames with standard
  -- headers, each of which decodes to a message, and a rest behind them, yields exactly those
  -- messages in order, in one round per header and one per payload, and then waits for a header
  -- with the rest in its buffer.
  pub parse_items-frames :
      (fs : List Frame) (ms : List CaMsg) (rest : List ℕ) (s : CaProto)
      → IsReady s
      → All IsFrame fs
      → Decodes s.array_truncate fs ms
      → contents s.buf ≡ frames_and fs rest
      → (s' : CaProto) × (parse_items (rounds fs) s ≡ (ok ms, s'))
        × IsReady s'
        × (contents s'.buf ≡ rest)
  unfolding parse_items
  parse_items-frames [] [] rest s r fine d e = (s, refl, r, e)
  parse_items-frames [] (m ∷ ms) rest s r fine d e = absurd d
  parse_items-frames (f ∷ fs) [] rest s r fine d e = absurd d
  parse_items-frames (f ∷ fs) (m ∷ ms) rest s r (h, hs) (d, ds) e =
      let (t, y) = one_frame s f m (frames_and fs rest) r h d e in
      let (u, p, w, c) =
        parse_items-frames fs ms rest t y.ready hs (subst (λ n. Decodes n fs ms) (sym y.limit) ds)
          y.left in
      (u, y.goes_on (rounds fs) ms u p, w, c)
