-- ===== src/CaProto/Poll/Input.antt =====
-- The read of `CaProto::loop_body` of proto.rs, for every answer of the socket.
use daqingest.Base.{
  ℕ, zero, suc, ◌+◌, ◌-◌, ◌≤◌, ◌<◌, ◌≡◌, refl, sym, ap, ◌∙◌, min, Option, some, List, [], ◌∷◌, ◌++◌,
  append-nil, length, take, arith, length-take, ne→==_false, le→ltb_false, lt→ltb, Outcome, ok, err,
}
use mathlib.Core.Path.{subst}
use daqingest.SlideBuf.{SlideBuf, cap, len, wadv, make_room, available_writable_area}
use daqingest.SlideBuf.Invariant.{IsValid, Kept, contents, length-contents, len-eq}
use daqingest.SlideBuf.Room.{area_size, make_room-area}
use daqingest.SlideBuf.Write.{fill_area, available_writable_area-eq, wadv-fill_area}
use daqingest.CaProto.Error.{Error, io}
use daqingest.CaProto.Parser.{CaProto, CaItem, empty, CaState, done, need_min, on_buf, set_state}
use daqingest.CaProto.Parser.Steps.{on_buf-ok}
use daqingest.CaProto.Output.{Poll, ready, pending}
use daqingest.CaProto.Poll.{
  ReadResult, received, read_error, read_pending, take_input, poll_read, read_input,
}

abbrev pub input_reply : ReadResult → Outcome Error (Option (Poll CaItem))
input_reply (received _) = ok (some (ready empty))
input_reply read_error = err io
input_reply read_pending = ok (some pending)

abbrev pub input_bytes : ReadResult → List ℕ
input_bytes (received xs) = xs
input_bytes _ = []

-- The end of the stream closes the parser.
abbrev pub input_state : ReadResult → CaState → CaState
input_state (received []) st = done
input_state _ st = st

-- What a read does when the parser waits for bytes.
pub record TakesIn (s : CaProto) (rd : ReadResult)
    (out : Outcome Error (Option (Poll CaItem)) × CaProto) : Type 0 where
  pub valid : IsValid out.1.buf
  pub size : length out.1.buf.buf ≡ length s.buf.buf
  pub reply : out.0 ≡ input_reply rd
  pub enough : need_min s.state ≤ area_size (need_min s.state) s.buf
  pub bytes :
      contents out.1.buf
      ≡ contents s.buf ++ take (area_size (need_min s.state) s.buf) (input_bytes rd)
  pub state : out.1.state ≡ input_state rd s.state
  pub others : record out.1 { state = s.state; buf = s.buf } ≡ s

take_nil : (n : ℕ) → take {A = ℕ} n [] ≡ []
take_nil zero = refl
take_nil (suc n) = refl

module _ (s : CaProto) (v : IsValid s.buf) (waits : length (contents s.buf) < need_min s.state)
    (fits : need_min s.state + need_min s.state ≤ length s.buf.buf + 1) where
  abbrev roomy : SlideBuf
  roomy = (make_room (need_min s.state) s.buf).1

  area :
      (available_writable_area (need_min s.state) s.buf
        ≡ (ok (roomy.wp, length roomy.buf - roomy.wp), roomy))
      × (need_min s.state ≤ length roomy.buf - roomy.wp)
      × Kept s.buf roomy
  area = available_writable_area-eq (need_min s.state) v (omega arith)

  read_input-eq : (rd : ReadResult) → read_input rd s ≡ poll_read rd s
  unfolding read_input cap
  read_input-eq rd = rw (
    le→ltb_false (length s.buf.buf) (need_min s.state) (omega arith),
    lt→ltb (len s.buf) (need_min s.state) (omega (arith, len-eq v, length-contents v)),
  )

  read_area :
      on_buf (available_writable_area (need_min s.state)) s
      ≡ (ok (roomy.wp, length roomy.buf - roomy.wp), record s { buf = roomy })
  read_area = on_buf-ok (available_writable_area (need_min s.state)) s area.0

  abbrev room_left : ℕ
  room_left = length roomy.buf - roomy.wp

  room_left-area : room_left ≡ area_size (need_min s.state) s.buf
  room_left-area =
      ap (λ k. k - roomy.wp) area.2.size ∙ make_room-area (need_min s.state) v (omega arith)

  room_enough : need_min s.state ≤ area_size (need_min s.state) s.buf
  room_enough = subst (λ k. need_min s.state ≤ k) room_left-area area.1

  -- No byte came, and the bytes held may have moved.
  TakesIn-kept :
      (rd : ReadResult)
      → input_bytes rd ≡ []
      → TakesIn s rd (input_reply rd, record s { buf = roomy; state = input_state rd s.state })
  TakesIn-kept rd none_came =
      let k = area.2 in
      record {
        valid = k.valid;
        size = k.size;
        reply = refl;
        enough = room_enough;
        bytes =
            k.same
            ∙ sym (append-nil (contents s.buf))
            ∙ ap (λ r. contents s.buf ++ r)
                (sym (take_nil (area_size (need_min s.state) s.buf))
                  ∙ ap (λ xs. take (area_size (need_min s.state) s.buf) xs) (sym none_came));
        state = refl;
        others = refl;
      }

  module _ (x : ℕ) (xs : List ℕ) where
    abbrev filled : List ℕ
    filled = take room_left (x ∷ xs)

    abbrev grown : SlideBuf
    grown = (wadv (length filled) (fill_area filled roomy)).1

    length-filled : length filled ≡ min room_left (suc (length xs))
    length-filled = length-take room_left (x ∷ xs)

    take_input-eq :
        take_input filled (record s { buf = roomy })
        ≡ (ok (some (ready empty)), record s { buf = grown })
    unfolding take_input
    take_input-eq =
        let w = wadv-fill_area filled area.2.valid (omega (arith, length-filled)) in
        rw (
          ne→==_false (length filled) 0 (λ e. omega (arith, length-filled, e, area.1, waits)),
          on_buf-ok (wadv (length filled)) (record s { buf = fill_area filled roomy })
              (ap (λ r. (r, grown)) w.0),
        )

    TakesIn-received : TakesIn s (received (x ∷ xs)) (take_input filled (record s { buf = roomy }))
    TakesIn-received =
        let k = area.2 in
        let w = wadv-fill_area filled k.valid (omega (arith, length-filled)) in
        rw take_input-eq record {
          valid = w.1;
          size = w.3 ∙ k.size;
          reply = refl;
          enough = room_enough;
          bytes =
              w.2
              ∙ ap (λ c. c ++ filled) k.same
              ∙ ap (λ n. contents s.buf ++ take n (x ∷ xs)) room_left-area;
          state = refl;
          others = refl;
        }

  TakesIn-poll_read : (rd : ReadResult) → TakesIn s rd (poll_read rd s)
  unfolding poll_read take_input set_state
  TakesIn-poll_read read_error = rw read_area (TakesIn-kept read_error refl)
  TakesIn-poll_read read_pending = rw read_area (TakesIn-kept read_pending refl)
  TakesIn-poll_read (received []) =
      rw (read_area, take_nil room_left) (TakesIn-kept (received []) refl)
  TakesIn-poll_read (received (x ∷ xs)) = rw read_area (TakesIn-received x xs)

  -- When the parser waits for more bytes than a valid buffer holds, and twice as many fit it,
  -- save one, then for every answer of the socket the read gives its reply (an empty item, the
  -- error of the socket, or pending), appends exactly the bytes received, as many as there is
  -- space for: behind those held, or, when none are held or the bytes needed do not fit behind
  -- them, in the whole buffer beside them, and in either case as many as are needed; closes the
  -- parser exactly at the end of the stream, and changes nothing else.
  pub read_input-TakesIn : (rd : ReadResult) → TakesIn s rd (read_input rd s)
  read_input-TakesIn rd = rw (read_input-eq rd) (TakesIn-poll_read rd)
