-- ===== src/CaProto/Parser/Safety.antt =====
-- A round of `parse_item` of proto.rs reads only bytes that have come: it takes as many as its state
-- needs, or none.

use daqingest.Base.{
  ℕ, ◌+◌, ◌-◌, ◌≤◌, ◌<◌, ◌≡◌, ◌≢◌, ◌⊎◌, refl, sym, ap, ◌∙◌, ◌&&◌, Option, none, some, List, [],
  length, drop, take, leb, ◌==◌, arith, be_value, Outcome, ok, err, panic, lt→ltb, le→leb,
  Bool-cases, inl, inr, ◌>>◌, and_then, pure,
}
use mathlib.Core.Path.{subst}
use daqingest.SlideBuf
use daqingest.SlideBuf.{SlideBuf, len, read_u16_be, read_u32_be, read_bytes}
use daqingest.SlideBuf.Invariant.{IsValid, contents, len-eq, length-contents}
use daqingest.SlideBuf.Read.{advanced, advanced-IsValid, read_be-enough, read_bytes-eq}
use daqingest.CaProto.Message.{CaMsg}
use daqingest.CaProto.Error.{Error, Externals}
use daqingest.CaProto.Header.{HeadInfo, from_netbuf}
use daqingest.CaProto.Decode.{from_proto_infos}
use daqingest.CaProto.Decode.Errors.{NoBufferError, from_proto_infos-NoBufferError}
use daqingest.CaProto.Parser.{
  CaProto, CaState, std_head, ext_head, payload, done, CaItem, msg, need_min, set_state, decode,
  parse_item, parse_state, parse_std_head, parse_ext_head, parse_payload,
}
use daqingest.CaProto.Parser.Steps.{on_buf-ok, parse_item-enough, note_oversize-quiet}

-- how many rounds without an item can follow
abbrev pub rounds_left : CaState → ℕ
rounds_left std_head = 3
rounds_left (ext_head _) = 2
rounds_left (payload _) = 1
rounds_left done = 0

abbrev IsNone : Outcome Error (Option CaItem) → Type 0
IsNone (ok none) = Unit
IsNone _ = ⊥

-- the bytes that are decoded in a state: a header is decoded without a payload
abbrev pub body_at : CaState → List ℕ → List ℕ
body_at (payload hi) bytes = take hi.payload_size bytes
body_at _ bytes = []

-- how many they are
abbrev pub body_size : CaState → ℕ
body_size (payload hi) = hi.payload_size
body_size _ = 0

-- the header that is decoded in a state: the one that was read, or the one in front of the buffer
abbrev pub HeadAt : CaState → SlideBuf → HeadInfo → Type 0
HeadAt std_head b hi = (from_netbuf b).0 ≡ ok hi
HeadAt (ext_head h) b hi = hi ≡ h
HeadAt (payload h) b hi = hi ≡ h
HeadAt done b hi = ⊥

pub body_size-head :
    (st : CaState) (b : SlideBuf) (hi : HeadInfo)
    → HeadAt st b hi
    → (body_size st ≡ 0) ⊎ (body_size st ≡ hi.payload_size)
body_size-head (payload h) b hi same = inr (ap (λ (x : HeadInfo). x.payload_size) (sym same))
body_size-head std_head b hi same = inl refl
body_size-head (ext_head _) b hi same = inl refl
body_size-head done b hi same = inl refl

pub body_at-take : (st : CaState) (bytes : List ℕ) → body_at st bytes ≡ take (body_size st) bytes
body_at-take (payload hi) bytes = refl
body_at-take std_head bytes = refl
body_at-take (ext_head _) bytes = refl
body_at-take done bytes = refl

-- the outcome of decoding the message in front of the buffer
abbrev pub IsDecoded : Externals → CaProto → Outcome Error CaMsg → Type 0
IsDecoded ext s r =
    (hi : HeadInfo) × HeadAt s.state s.buf hi
    × (from_proto_infos ext hi (body_at s.state (contents s.buf)) s.array_truncate ≡ r)

-- how far behind the front the bytes of a message begin, at most
abbrev pub offset : CaState → ℕ
offset std_head = 24
offset (ext_head _) = 8
offset (payload _) = 0
offset done = 0

-- An error or a panic is that of the decoding.
abbrev pub FailsDecoding : Externals → CaProto → Outcome Error (Option CaItem) → Type 0
FailsDecoding ext s (ok _) = Unit
FailsDecoding ext s (err e) = IsDecoded ext s (err e)
FailsDecoding ext s panic = IsDecoded ext s panic

-- What a round that goes on does.
pub record Proceeds (ext : Externals) (s : CaProto) (out : Outcome Error (Option CaItem) × CaProto)
    : Type 0 where
  pub valid : IsValid out.1.buf
  pub size : length out.1.buf.buf ≡ length s.buf.buf
  pub eaten : contents out.1.buf ≡ drop (need_min s.state) (contents s.buf)
  pub quiet : out.1.logged_proto_error_for_cid ≡ []
  pub others : record out.1 { state = s.state; buf = s.buf } ≡ s
  pub fails : FailsDecoding ext s out.0
  pub reads : NoBufferError out.0
  -- without an item the state goes on: from a header to what it announces
  pub progress : out.0 ≡ ok none → rounds_left out.1.state < rounds_left s.state
  pub nearer : out.0 ≡ ok none → need_min s.state + offset out.1.state ≤ offset s.state
  pub head :
      out.0 ≡ ok none → (hi : HeadInfo) → HeadAt out.1.state out.1.buf hi → HeadAt s.state s.buf hi

module _ {s : SlideBuf} (v : IsValid s) where
  u16-enough :
      2 ≤ length (contents s)
      → (x : ℕ) × (read_u16_be s ≡ (ok x, advanced 2 s))
        × IsValid (advanced 2 s)
        × (length (contents (advanced 2 s)) ≡ length (contents s) - 2)
  unfolding read_u16_be
  u16-enough h = let a = read_be-enough v 2 h in (be_value (take 2 (contents s)), a.0, a.1, a.3)

  u32-enough :
      4 ≤ length (contents s)
      → (x : ℕ) × (read_u32_be s ≡ (ok x, advanced 4 s))
        × IsValid (advanced 4 s)
        × (length (contents (advanced 4 s)) ≡ length (contents s) - 4)
  unfolding read_u32_be
  u32-enough h = let a = read_be-enough v 4 h in (be_value (take 4 (contents s)), a.0, a.1, a.3)

advance_sum : (s : SlideBuf) (m n : ℕ) → advanced n (advanced m s) ≡ advanced (m + n) s
advance_sum s m n = ap (λ r. record s { rp = r }) {x = s.rp + m + n} (omega arith)

-- A whole header is read without an error.
pub from_netbuf-enough :
    {s : SlideBuf}
    → IsValid s
    → 16 ≤ length (contents s)
    → (hi : HeadInfo) × (from_netbuf s ≡ (ok hi, advanced 16 s))
unfolding from_netbuf
from_netbuf-enough {s} v h =
    let (x1, e1, v1, l1) = u16-enough v (omega arith) in
    let (x2, e2, v2, l2) = u16-enough v1 (omega arith) in
    let (x3, e3, v3, l3) = u16-enough v2 (omega arith) in
    let (x4, e4, v4, l4) = u16-enough v3 (omega arith) in
    let (x5, e5, v5, l5) = u32-enough v4 (omega arith) in
    let (x6, e6, v6, l6) = u32-enough v5 (omega arith) in
    let last : SlideBuf =
      advanced 4 (advanced 4 (advanced 2 (advanced 2 (advanced 2 (advanced 2 s))))) in
    let whole : last ≡ advanced 16 s =
      ap (λ n. record s { rp = n }) {x = s.rp + 2 + 2 + 2 + 2 + 4 + 4} (omega arith) in
    let hi : HeadInfo = record {
      cmdid = x1;
      payload_size = x2;
      data_type = x3;
      data_count = x4;
      param1 = x5;
      param2 = x6;
    } in
    (hi, rw (e1, e2, e3, e4, e5, e6) (ap (λ t. (ok hi, t)) whole))

module _ (ext : Externals) (s : CaProto) (v : IsValid s.buf)
    (q : s.logged_proto_error_for_cid ≡ []) where
  -- The state `st` behind the next `n` bytes goes on with the same message.
  abbrev GoesTo : ℕ → CaState → Type 0
  GoesTo n st =
      (rounds_left st < rounds_left s.state)
      × (need_min s.state + offset st ≤ offset s.state)
      × ((hi : HeadInfo) → HeadAt st (advanced n s.buf) hi → HeadAt s.state s.buf hi)

  -- The state after `n` bytes were taken, with a reply.
  Proceeds-advanced :
      (n : ℕ) (st : CaState) (r : Outcome Error (Option CaItem))
      → n ≡ need_min s.state
      → n ≤ length (contents s.buf)
      → FailsDecoding ext s r
      → NoBufferError r
      → (IsNone r → GoesTo n st)
      → Proceeds ext s (r, record s { buf = advanced n s.buf; state = st })
  Proceeds-advanced n st r e h decoded fine goes =
      let a = advanced-IsValid v n h in
      record {
        valid = a.0;
        size = refl;
        eaten = a.1 ∙ ap (λ k. drop k (contents s.buf)) e;
        quiet = q;
        others = refl;
        fails = decoded;
        reads = fine;
        progress = λ k. (goes (subst IsNone (sym k) tt)).0;
        nearer = λ k. (goes (subst IsNone (sym k) tt)).1;
        head = λ k. (goes (subst IsNone (sym k) tt)).2;
      }

  -- After the bytes were taken, a message is decoded, and the state may change with it.
  module _ (n : ℕ) (st : CaState) (e : n ≡ need_min s.state) (h : n ≤ length (contents s.buf)) where
    abbrev taken_bytes : CaState → CaProto
    taken_bytes st = record s { buf = advanced n s.buf; state = st }

    Proceeds-decoded :
        (r : Outcome Error CaMsg)
        → IsDecoded ext s r
        → NoBufferError r
        → Proceeds ext s (and_then (r, taken_bytes st) (λ m. pure (some (msg m))))
    Proceeds-decoded (ok m) d fine =
        Proceeds-advanced n st (ok (some (msg m))) e h tt tt (λ k. absurd k)
    Proceeds-decoded (err x) d fine = Proceeds-advanced n st (err x) e h d fine (λ k. absurd k)
    Proceeds-decoded panic d fine = Proceeds-advanced n st panic e h d tt (λ k. absurd k)

    Proceeds-decoded_then :
        (r : Outcome Error CaMsg)
        → IsDecoded ext s r
        → NoBufferError r
        → Proceeds ext s
            (and_then (r, taken_bytes s.state) (λ m. set_state st >> pure (some (msg m))))
    unfolding set_state
    Proceeds-decoded_then (ok m) d fine =
        Proceeds-advanced n st (ok (some (msg m))) e h tt tt (λ k. absurd k)
    Proceeds-decoded_then (err x) d fine =
        Proceeds-advanced n s.state (err x) e h d fine (λ k. absurd k)
    Proceeds-decoded_then panic d fine = Proceeds-advanced n s.state panic e h d tt (λ k. absurd k)

  -- The message is decoded from the header and the bytes of the state `st`.
  head-IsDecoded :
      (st : CaState) (hi : HeadInfo)
      → s.state ≡ st
      → HeadAt st s.buf hi
      → IsDecoded ext s (from_proto_infos ext hi (body_at st (contents s.buf)) s.array_truncate)
  head-IsDecoded st hi e head = (
    hi,
    subst (λ t. HeadAt t s.buf hi) (sym e) head,
    ap (λ t. from_proto_infos ext hi (body_at t (contents s.buf)) s.array_truncate) e,
  )

  std_head-Proceeds :
      s.state ≡ std_head → 16 ≤ length (contents s.buf) → Proceeds ext s (parse_std_head ext s)
  unfolding parse_std_head set_state decode need_min
  std_head-Proceeds st h =
      let (hi, e) = from_netbuf-enough v h in
      let read = on_buf-ok from_netbuf s e in
      let noted = note_oversize-quiet hi (record s { buf = advanced 16 s.buf }) q in
      let need : 16 ≡ need_min s.state = ap need_min (sym st) in
      let goes : (k : ℕ) → k < 3 → k < rounds_left s.state =
        λ k less. omega (arith, ap rounds_left st) in
      let keeps : (h : HeadInfo) → h ≡ hi → HeadAt s.state s.buf h = λ h same.
        subst (λ t. HeadAt t s.buf h) (sym st)
          (ap (λ (p : Outcome SlideBuf.Error HeadInfo × SlideBuf). p.0) e ∙ ap ok (sym same)) in
      elim (Bool-cases (hi.payload_size == 0xffff && hi.data_count == 0)) [
        | inl c1 ↦
            rw (read, noted, c1)
              (Proceeds-advanced 16 (ext_head hi) (ok none) need h tt tt
                (λ _. (goes 2 (omega arith), omega (arith, need, ap offset st), keeps)))
        | inr c1 ↦ elim (Bool-cases (hi.payload_size == 0)) [
          | inl c2 ↦
              rw (read, noted, c1, c2)
                (Proceeds-decoded 16 std_head need h (from_proto_infos ext hi [] s.array_truncate)
                  (head-IsDecoded std_head hi st
                    (ap (λ (p : Outcome SlideBuf.Error HeadInfo × SlideBuf). p.0) e))
                  (from_proto_infos-NoBufferError ext hi [] s.array_truncate))
          | inr c2 ↦
              rw (read, noted, c1, c2)
                (Proceeds-advanced 16 (payload hi) (ok none) need h tt tt
                  (λ _. (goes 1 (omega arith), omega (arith, need, ap offset st), keeps)))
        ]
      ]

  payload-Proceeds :
      (hi : HeadInfo)
      → s.state ≡ payload hi
      → hi.payload_size ≤ length (contents s.buf)
      → Proceeds ext s (parse_payload ext hi s)
  unfolding parse_payload decode need_min
  payload-Proceeds hi st h =
      let read =
        on_buf-ok (read_bytes hi.payload_size) s
          (read_bytes-eq v hi.payload_size ∙ rw (le→leb _ _ h)) in
      let body : List ℕ = take hi.payload_size (contents s.buf) in
      rw read (
        Proceeds-decoded_then hi.payload_size std_head (ap need_min (sym st)) h
          (from_proto_infos ext hi body s.array_truncate) (head-IsDecoded (payload hi) hi st refl)
          (from_proto_infos-NoBufferError ext hi body s.array_truncate))

  ext_head-Proceeds :
      (hi : HeadInfo)
      → s.state ≡ ext_head hi
      → 8 ≤ length (contents s.buf)
      → Proceeds ext s (parse_ext_head ext hi s)
  unfolding parse_ext_head set_state decode need_min
  ext_head-Proceeds hi st h =
      let (size, e1, v1, l1) = u32-enough v (omega arith) in
      let (count, e2, v2, l2) = u32-enough v1 (omega arith) in
      let read_size = on_buf-ok read_u32_be s e1 in
      let read_count =
        on_buf-ok read_u32_be (record s { buf = advanced 4 s.buf })
          (e2 ∙ ap (λ t. (ok count, t)) (advance_sum s.buf 4 4)) in
      let need : 8 ≡ need_min s.state = ap need_min (sym st) in
      elim (Bool-cases (leb size 16368)) [
        | inl c ↦
            rw (read_size, read_count, c)
              (Proceeds-decoded_then 8 std_head need h (from_proto_infos ext hi [] s.array_truncate)
                (head-IsDecoded (ext_head hi) hi st refl)
                (from_proto_infos-NoBufferError ext hi [] s.array_truncate))
        | inr c ↦
            rw (read_size, read_count, c)
              (Proceeds-advanced 8 (payload hi) (ok none) need h tt tt (λ _. (
                omega (arith, ap rounds_left st),
                omega (arith, need, ap offset st),
                λ h same. subst (λ t. HeadAt t s.buf h) (sym st) same,
              )))
      ]

  state-Proceeds :
      (st : CaState)
      → s.state ≡ st
      → st ≢ done
      → need_min st ≤ length (contents s.buf)
      → Proceeds ext s (parse_state ext st s)
  unfolding parse_state need_min
  state-Proceeds std_head e open_state h = std_head-Proceeds e h
  state-Proceeds (ext_head hi) e open_state h = ext_head-Proceeds hi e h
  state-Proceeds (payload hi) e open_state h = payload-Proceeds hi e h
  state-Proceeds done e open_state h = absurd (open_state refl)

  -- When the state is not Done, the buffer is valid, no error was noted and as many bytes have
  -- come as the state needs, a round of parse_item takes exactly those bytes, keeps the buffer
  -- valid and of the same size, changes nothing else than the state, goes on without an item
  -- only with the header that it holds or has read, and fails or panics only as the decoding
  -- does of the message in front of the buffer (the header of the state, with the bytes taken as
  -- its payload when it waits for one, and else with none), never with an error of the buffer.
  pub parse_item-Proceeds :
      s.state ≢ done
      → need_min s.state ≤ length (contents s.buf)
      → Proceeds ext s (parse_item ext s)
  parse_item-Proceeds open_state h =
      rw (parse_item-enough ext s v h) (state-Proceeds s.state refl open_state h)

  -- With fewer bytes the round leaves everything as it is.
  pub parse_item-waits :
      length (contents s.buf) < need_min s.state → parse_item ext s ≡ (ok none, s)
  unfolding parse_item
  parse_item-waits h =
      rw (lt→ltb (len s.buf) (need_min s.state) (omega (arith, len-eq v, length-contents v)))
