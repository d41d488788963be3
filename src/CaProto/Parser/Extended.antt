-- ===== src/CaProto/Parser/Extended.antt =====
-- Extended headers in `parse_item` of proto.rs: the size that they announce is not used.
use daqingest.Base.{
  ℕ, ◌^◌, ◌≤◌, ◌<◌, ◌≡◌, ◌≢◌, refl, sym, ap, ◌∙◌, true, false, Bool-cases, inl, inr, none, some,
  List, [], ◌∷◌, ◌++◌, length, take, drop, arith, be_bytes, ok, leb, if◌then◌else◌, length-append,
  length-take, length-drop, take-append-drop,
}
use daqingest.SlideBuf.{read_u32_be}
use daqingest.SlideBuf.Invariant.{IsValid, contents}
use daqingest.SlideBuf.Read.{advanced}
use daqingest.CaProto.Message.{CaMsg}
use daqingest.CaProto.Error.{Externals}
use daqingest.CaProto.Header.{HeadInfo}
use daqingest.CaProto.Decode.{from_proto_infos}
use daqingest.CaProto.Parser.{
  CaProto, std_head, ext_head, payload, msg, need_min, on_buf, set_state, decode, parse_item,
  parse_state, parse_ext_head,
}
use daqingest.CaProto.Parser.Head.{InRange, head_and, u32-front}
use daqingest.CaProto.Parser.Steps.{
  IsReady, on_buf-ok, parse_item-enough, taken, taken-IsValid, parse_head-extended, consumed,
  consumed-IsValid, parse_payload-msg,
}
use daqingest.CaProto.Parser.Frames.{parse_items}

module _ (ext : Externals) (s : CaProto) (hi : HeadInfo) (size count : ℕ) (rest : List ℕ)
    (waits : s.state ≡ ext_head hi) (v : IsValid s.buf) (small_size : size < 2 ^ 32)
    (small_count : count < 2 ^ 32)
    (e : contents s.buf ≡ be_bytes 4 size ++ (be_bytes 4 count ++ rest)) where
  abbrev after_size : CaProto
  after_size = record s { buf = advanced 4 s.buf }

  abbrev after_ext : CaProto
  after_ext = record s { buf = advanced 4 (advanced 4 s.buf) }

  read_size : on_buf read_u32_be s ≡ (ok size, after_size)
  read_size = on_buf-ok read_u32_be s (u32-front v size (be_bytes 4 count ++ rest) small_size e).0

  read_count : on_buf read_u32_be after_size ≡ (ok count, after_ext)
  read_count =
      let a = u32-front v size (be_bytes 4 count ++ rest) small_size e in
      on_buf-ok read_u32_be after_size (u32-front a.1 count rest small_count a.2).0

  parse_ext-eq : parse_item ext s ≡ parse_ext_head ext hi s
  unfolding parse_state need_min be_bytes
  parse_ext-eq =
      parse_item-enough ext s v (omega (arith, ap need_min waits, ap length e))
      ∙ ap (λ st. parse_state ext st s) waits

  after_ext-IsValid : IsValid after_ext.buf × (contents after_ext.buf ≡ rest)
  after_ext-IsValid =
      let a = u32-front v size (be_bytes 4 count ++ rest) small_size e in
      let b = u32-front a.1 count rest small_count a.2 in (b.1, b.2)

  -- More than 16368 bytes: the size of the first header is waited for.
  ext_head-waits :
      leb size 16368 ≡ false → parse_item ext s ≡ (ok none, record after_ext { state = payload hi })
  unfolding parse_ext_head set_state
  ext_head-waits big = parse_ext-eq ∙ rw (read_size, read_count, big)

  -- At most 16368 bytes: the message is decoded from no payload.
  ext_head-decodes :
      leb size 16368 ≡ true
      → {m : CaMsg} → from_proto_infos ext hi [] s.array_truncate ≡ ok m
      → parse_item ext s ≡ (ok (some (msg m)), record after_ext { state = std_head })
  unfolding parse_ext_head set_state decode
  ext_head-decodes few d = parse_ext-eq ∙ rw (read_size, read_count, few, d)

-- the bytes that the parser takes for the payload, by the size that is announced
abbrev pub bytes_taken : ℕ → ℕ
bytes_taken size = if leb size 16368 then 0 else 65535

-- the rounds of the parser, by the size that is announced
abbrev pub rounds_taken : ℕ → ℕ
rounds_taken size = if leb size 16368 then 2 else 3

-- The message `m` comes out, and the parser is ready with `left` in front.
abbrev pub Yields : Externals → CaProto → ℕ → CaMsg → List ℕ → Type 0
Yields ext s n m left =
    (t : CaProto) × (parse_items ext n s ≡ (ok (m ∷ []), t)) × IsReady t × (contents t.buf ≡ left)

module _ (ext : Externals) (s : CaProto) (hi : HeadInfo) (size count : ℕ) (after : List ℕ)
    (r : IsReady s) (range : InRange hi) (full : hi.payload_size ≡ 0xffff)
    (none_counted : hi.data_count ≡ 0) (small_size : size < 2 ^ 32) (small_count : count < 2 ^ 32)
    (e : contents s.buf ≡ head_and hi (be_bytes 4 size ++ (be_bytes 4 count ++ after))) where
  abbrev second : List ℕ
  second = be_bytes 4 size ++ (be_bytes 4 count ++ after)

  abbrev halfway : CaProto
  halfway = record (taken ext s hi second r range e) { state = ext_head hi }

  halfway-IsValid : IsValid halfway.buf × (contents halfway.buf ≡ second)
  halfway-IsValid = taken-IsValid ext s hi second r range e

  first_round : parse_item ext s ≡ (ok none, halfway)
  first_round = parse_head-extended ext s hi second r range e (ground (arith, full, none_counted))

  abbrev behind : CaProto
  behind =
      after_ext ext halfway hi size count after refl halfway-IsValid.0 small_size small_count
        halfway-IsValid.1

  behind-IsValid : IsValid behind.buf × (contents behind.buf ≡ after)
  behind-IsValid =
      after_ext-IsValid ext halfway hi size count after refl halfway-IsValid.0 small_size
        small_count halfway-IsValid.1

  extended-few :
      leb size 16368 ≡ true
      → {m : CaMsg} → from_proto_infos ext hi [] s.array_truncate ≡ ok m
      → Yields ext s 2 m after
  unfolding parse_items
  extended-few few d =
      let step =
        ext_head-decodes ext halfway hi size count after refl halfway-IsValid.0 small_size
          small_count halfway-IsValid.1 few d in
      (
        record behind { state = std_head },
        rw (first_round, step) refl,
        record { at_head = refl; quiet = r.quiet; valid = behind-IsValid.0 },
        behind-IsValid.1,
      )

  extended-many :
      leb size 16368 ≡ false
      → 65535 ≤ length after
      → {m : CaMsg} → from_proto_infos ext hi (take 65535 after) s.array_truncate ≡ ok m
      → Yields ext s 3 m (drop 65535 after)
  unfolding parse_items
  extended-many many enough d =
      let step =
        ext_head-waits ext halfway hi size count after refl halfway-IsValid.0 small_size small_count
          halfway-IsValid.1 many in
      let waiting : CaProto = record behind { state = payload hi } in
      let held : contents waiting.buf ≡ take 65535 after ++ drop 65535 after =
        behind-IsValid.1 ∙ sym (take-append-drop 65535 after) in
      let whole : length (take 65535 after) ≡ hi.payload_size =
        omega (arith, length-take 65535 after, full) in
      let last =
        parse_payload-msg ext waiting hi (take 65535 after) (drop 65535 after) refl behind-IsValid.0
          whole held d in
      let left =
        consumed-IsValid ext waiting hi (take 65535 after) (drop 65535 after) refl behind-IsValid.0
          whole held in
      (
        consumed ext waiting hi (take 65535 after) (drop 65535 after) refl behind-IsValid.0 whole
            held,
        rw (first_round, step, last) refl,
        record { at_head = refl; quiet = r.quiet; valid = left.0 },
        left.1,
      )

  extended-Yields :
      bytes_taken size ≤ length after
      → {m : CaMsg}
      → from_proto_infos ext hi (take (bytes_taken size) after) s.array_truncate ≡ ok m
      → Yields ext s (rounds_taken size) m (drop (bytes_taken size) after)
  extended-Yields enough d = elim (Bool-cases (leb size 16368)) [
    | inl few ↦ rw few (extended-few few (rw few at d))
    | inr many ↦ rw many (extended-many many (rw many at enough) (rw many at d))
  ]

-- When a parser that is ready for a header meets an extended one that announces neither 0 nor
-- 65535 bytes, with fields within their widths, a payload of as many bytes, and a rest, it
-- decodes the message from none of the payload in two rounds if at most 16368 bytes are
-- announced, and else from the 65535 bytes behind the header in three, when as many have come.
-- If that gives a message, the parser is then ready for a header at the bytes behind those that
-- it took, which are not the rest.
pub parse_items-out_of_step :
    (ext : Externals) (s : CaProto) (hi : HeadInfo) (size count : ℕ) (body rest : List ℕ)
    (m : CaMsg)
    → IsReady s
    → InRange hi
    → hi.payload_size ≡ 0xffff
    → hi.data_count ≡ 0
    → size < 2 ^ 32
    → count < 2 ^ 32
    → length body ≡ size
    → contents s.buf ≡ head_and hi (be_bytes 4 size ++ (be_bytes 4 count ++ (body ++ rest)))
    → size ≢ bytes_taken size
    → bytes_taken size ≤ length (body ++ rest)
    → from_proto_infos ext hi (take (bytes_taken size) (body ++ rest)) s.array_truncate ≡ ok m
    → (left : List ℕ) × Yields ext s (rounds_taken size) m left
      × (left ≡ drop (bytes_taken size) (body ++ rest))
      × (left ≢ rest)
parse_items-out_of_step ext s hi size count body rest m r range full none_counted small_size
      small_count whole e off enough d =
    (
      drop (bytes_taken size) (body ++ rest),
      extended-Yields ext s hi size count (body ++ rest) r range full none_counted small_size
          small_count e enough d,
      refl,
      λ same. off (
          omega (
            arith,
            whole,
            ap length same,
            length-append body rest,
            length-drop (bytes_taken size) (body ++ rest),
            enough,
          )),
    )
