-- ===== src/CaProto/Poll/Waits.antt =====
-- What a poll of proto.rs reports, and its read from a socket that has no bytes.
use mathlib.Core.Path.{subst}
use daqingest.Base.{
  true, ℕ, ◌≤◌, ◌<◌, ◌≡◌, refl, sym, ap, ◌∙◌, inl, inr, Option, none, some, [], length, take, drop,
  drop-drop, ◌+◌, ◌-◌, ◌⊎◌, leb, ltb, arith, lt→ltb, Bool-cases, Outcome, ok, err, panic, pure,
  and_then,
}
use daqingest.SlideBuf
use daqingest.SlideBuf.Room.{room_reply, make_room_lem}
use daqingest.CaProto.Header.{HeadInfo}
use daqingest.CaProto.Decode.{from_proto_infos}
use daqingest.SlideBuf.{SlideBuf, make_room, cap, len, available_writable_area}
use daqingest.SlideBuf.Invariant.{IsValid, Kept, contents, length-contents, len-eq}
use daqingest.CaProto.Error.{Error, Externals, slide_buf, buffer_too_small_for_need_min, io}
use daqingest.CaProto.Message.{CaMsg}
use daqingest.CaProto.Parser.{CaProto, CaItem, need_min, on_buf, set_state}
use daqingest.CaProto.Parser.Safety.{rounds_left, offset, HeadAt}
use daqingest.CaProto.Output.{Conn, Poll, ready, pending}
use daqingest.CaProto.Output.Stream.{IsOutput}
use daqingest.CaProto.Poll.{read_pending, poll_read, read_input, combine}

-- A connection whose buffers are valid, with messages that a client may send.
pub record IsConn (c : Conn) : Type 0 where
  pub output : IsOutput c.proto
  pub valid : IsValid c.proto.buf
  pub quiet : c.proto.logged_proto_error_for_cid ≡ []

abbrev pub Result : Type 0
Result = Outcome Error (Option (Poll CaItem))

abbrev pub IsNone : Result → Type 0
IsNone (ok none) = Unit
IsNone _ = ⊥

-- The decoding of the message at the front has the outcome: of the header that the state holds or
-- that stands in front of the buffer, with no payload, or with as many bytes as it says.
pub record DecodingGives (ext : Externals) (s : CaProto) (r : Outcome Error CaMsg) : Type 0 where
  pub hi : HeadInfo
  pub head : HeadAt s.state s.buf hi
  pub from : ℕ
  pub n : ℕ
  pub near : from ≤ offset s.state
  pub size : (n ≡ 0) ⊎ (n ≡ hi.payload_size)
  pub gives : from_proto_infos ext hi (take n (drop from (contents s.buf))) s.array_truncate ≡ r

-- an error of the space in the input buffer
abbrev pub IsSpace : Error → Type 0
IsSpace (slide_buf (SlideBuf.not_enough_space _ _ _)) = Unit
IsSpace (buffer_too_small_for_need_min _ _) = Unit
IsSpace _ = ⊥

-- An error is one of the socket, of the space, or of a decoding.
abbrev pub Reported : Externals → CaProto → Error → Type 0
Reported ext s e = (e ≡ io) ⊎ IsSpace e ⊎ DecodingGives ext s (err e)

-- An error is reported, and a panic is that of a decoding.
abbrev pub OnlyDecoding : {A : Type 0} → Externals → CaProto → Outcome Error A → Type 0
OnlyDecoding ext s (ok _) = Unit
OnlyDecoding ext s (err e) = Reported ext s e
OnlyDecoding ext s panic = DecodingGives ext s panic

-- A round that gives nothing leaves fewer rounds, and what is decoded later is in the buffer now.
pub record GoesOn (ext : Externals) (c d : Conn) : Type 0 where
  pub conn : IsConn d
  pub fewer : rounds_left d.proto.state < rounds_left c.proto.state
  pub same_decodings :
      (r : Outcome Error CaMsg) → DecodingGives ext d.proto r → DecodingGives ext c.proto r

abbrev pub Goes : Externals → Conn → Result × Conn → Type 0
Goes ext c out = OnlyDecoding ext c.proto out.0 × (IsNone out.0 → GoesOn ext c out.1)

-- A parser that goes on with the message of `s`, behind the bytes skipped, decodes what `s` does.
pub record SameMessage (s t : CaProto) (skipped : ℕ) : Type 0 where
  pub left : contents t.buf ≡ drop skipped (contents s.buf)
  pub limit : t.array_truncate ≡ s.array_truncate
  pub nearer : skipped + offset t.state ≤ offset s.state
  pub head : (hi : HeadInfo) → HeadAt t.state t.buf hi → HeadAt s.state s.buf hi

pub same_decoding :
    (ext : Externals) (s t : CaProto) (skipped : ℕ)
    → SameMessage s t skipped
    → (r : Outcome Error CaMsg) → DecodingGives ext t r
    → DecodingGives ext s r
same_decoding ext s t skipped m r d = record {
  hi = d.hi;
  head = m.head d.hi d.head;
  from = skipped + d.from;
  n = d.n;
  near = omega (arith, m.nearer, d.near);
  size = d.size;
  gives =
      ap (λ xs. from_proto_infos ext d.hi (take d.n xs) s.array_truncate)
        (sym (ap (λ ys. drop d.from ys) m.left ∙ drop-drop d.from skipped (contents s.buf)))
      ∙ ap (λ k. from_proto_infos ext d.hi (take d.n (drop d.from (contents t.buf))) k)
          (sym m.limit)
      ∙ d.gives;
}

pub Reported-before :
    (ext : Externals) (s t : CaProto) (e : Error)
    → ((r : Outcome Error CaMsg) → DecodingGives ext t r → DecodingGives ext s r)
    → Reported ext t e
    → Reported ext s e
Reported-before ext s t e f (inl h) = inl h
Reported-before ext s t e f (inr (inl h)) = inr (inl h)
Reported-before ext s t e f (inr (inr h)) = inr (inr (f (err e) h))

-- A parser that waits for more bytes than it has.
pub record IsShort (s : CaProto) : Type 0 where
  pub valid : IsValid s.buf
  pub short : length (contents s.buf) < need_min s.state
  pub quiet : s.logged_proto_error_for_cid ≡ []

-- A read from a socket that has no bytes: pending, or an error.
abbrev pub Waits : Result × CaProto → Type 0
Waits (ok (some pending), t) = IsShort t
Waits (ok _, t) = ⊥
Waits (err e, t) = IsSpace e
Waits (panic, t) = ⊥

-- The area is given, or there is not enough space.
abbrev OnlySpace : {A : Type 0} → Outcome SlideBuf.Error A → Type 0
OnlySpace (ok _) = Unit
OnlySpace (err e) = IsSpace (slide_buf e)
OnlySpace panic = ⊥

room-OnlySpace : (s : SlideBuf) (n : ℕ) → OnlySpace (room_reply s n)
room-OnlySpace s n = elim (Bool-cases (leb (length (contents s) + n) (length s.buf))) [
  | inl e ↦ rw e tt
  | inr e ↦ rw e tt
]

-- the area behind what `make_room` leaves
abbrev after_room :
    Outcome SlideBuf.Error Unit × SlideBuf → Outcome SlideBuf.Error (ℕ × ℕ) × SlideBuf
after_room r = and_then r (λ _ t. (ok (t.wp, length t.buf - t.wp), t))

area_after :
    (r : Outcome SlideBuf.Error Unit × SlideBuf)
    → OnlySpace r.0
    → OnlySpace (after_room r).0 × ((after_room r).1 ≡ r.1)
area_after (ok _, t) h = (tt, refl)
area_after (err e, t) h = (h, refl)
area_after (panic, t) h = absurd h

area-OnlySpace :
    {s : SlideBuf} (n : ℕ)
    → IsValid s
    → let out = available_writable_area n s in OnlySpace out.0 × Kept s out.1
unfolding available_writable_area
area-OnlySpace {s} n v =
    let m = make_room_lem n v in
    let a = area_after (make_room n s) (subst OnlySpace (sym m.reply) (room-OnlySpace s n)) in
    (a.0, subst (λ t. Kept s t) (sym a.1) m.kept)

area_then :
    (s : CaProto) (out : Outcome SlideBuf.Error (ℕ × ℕ) × SlideBuf)
    → IsShort s
    → OnlySpace out.0
    → Kept s.buf out.1
    → Waits (and_then (on_buf (λ _. out) s) (λ _. pure (some pending)))
unfolding on_buf
area_then s (ok a, b) w f k = record {
  valid = k.valid;
  short = omega (arith, w.short, ap length k.same);
  quiet = w.quiet;
}
area_then s (err e, b) w f k = f
area_then s (panic, b) w f k = absurd f

pub read_input-Waits : (s : CaProto) → IsShort s → Waits (read_input read_pending s)
unfolding read_input poll_read set_state on_buf
read_input-Waits s w =
    let short : ltb (len s.buf) (need_min s.state) ≡ true =
      lt→ltb _ _ (omega (arith, w.short, len-eq w.valid, length-contents w.valid)) in
    elim (Bool-cases (ltb (cap s.buf) (need_min s.state))) [
      | inl small ↦ rw small tt
      | inr fits ↦
          let a = area-OnlySpace (need_min s.state) w.valid in
          rw (fits, short)
            (area_then s (available_writable_area (need_min s.state) s.buf) w a.0 a.1)
    ]

pub not_none : (p : Poll Unit) → IsNone (ok (combine p (some pending) none)) → ⊥
unfolding combine
not_none pending h = h
not_none (ready _) h = h
