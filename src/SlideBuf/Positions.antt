-- ===== src/SlideBuf/Positions.antt =====
-- The calls of slidebuf.rs that move the positions only: `set_rp`, `rewind_rp`, `wadv`, `write_buf`.
use native.Mathlib.Decide.{dec_le}
use daqingest.Base.{
  ℕ, ◌-◌, ◌+◌, ◌≤◌, ◌<◌, ◌≡◌, refl, sym, ap, ◌∙◌, List, arith, length, take, drop, leb, le→leb,
  lt→leb_false, if◌then◌else◌, ok, Outcome, ◌>>=◌, get, or_panic, modify, copy_at, copy_at-eq_some,
  length-take, length-drop, take-take, take-all,
}
use daqingest.SlideBuf.{
  SlideBuf, Op, Error, adv, set_rp, rewind_rp, wadv, write_buf, make_room, put_slice,
  rewind_if_short, check_space, cap, wcap,
}
use daqingest.SlideBuf.Invariant.{IsValid, Kept, contents, length-contents}
use daqingest.SlideBuf.Room.{
  MadeRoom, room_reply, make_room_lem, rewind_if_short-Kept, rewind_if_short-room,
  check_space-MadeRoom,
}
use daqingest.SlideBuf.Read.{adv-eq}

-- After adv over at most as many bytes as a valid buffer holds, rewind_rp by the same number and
-- set_rp to the old position both restore the buffer.
pub unread :
    {s : SlideBuf} (n : ℕ)
    → IsValid s
    → n ≤ length (contents s)
    → (rewind_rp n (adv n s).1 ≡ (ok tt, s)) × (set_rp s.rp (adv n s).1 ≡ (ok tt, s))
unfolding rewind_rp set_rp
unread {s} n v h =
    (ground (arith, adv-eq v n, length-contents v), ground (arith, adv-eq v n, length-contents v))

-- `wadv` fails exactly when the bytes would not fit, and it loses no byte that the buffer holds.
pub record Widened (n : ℕ) (s : SlideBuf) (out : Outcome Error Unit × SlideBuf) : Type 0 where
  pub valid : IsValid out.1
  pub reply : out.0 ≡ room_reply s n
  pub held : take (length (contents s)) (contents out.1) ≡ contents s
  pub more : length (contents out.1) ≡ (
      if leb (length (contents s) + n) (length s.buf)
      then length (contents s) + n
      else length (contents s))

module _ {s : SlideBuf} (n : ℕ) (v : IsValid s) where
  abbrev moved : SlideBuf
  moved = (rewind_if_short n s).1

  moved-Kept : Kept s moved
  moved-Kept = (rewind_if_short-Kept n v).1

  moved-MadeRoom : MadeRoom n s (check_space n moved)
  moved-MadeRoom = check_space-MadeRoom n v moved-Kept (rewind_if_short-room n v)

  length-moved : length (contents s) ≡ moved.wp - moved.rp
  length-moved = ap length (sym moved-Kept.same) ∙ length-contents moved-Kept.valid

  wadv-fits :
      length (contents s) + n ≤ length s.buf
      → wadv n s ≡ (ok tt, record moved { wp = moved.wp + n })
  unfolding wadv check_space cap wcap
  wadv-fits h = ground (
    arith,
    rewind_if_short-Kept n v,
    moved-MadeRoom.room h,
    moved-Kept.size,
    moved-Kept.valid.wp_le_cap,
    v.small,
  )

  wadv-full : length s.buf < length (contents s) + n → wadv n s ≡ (room_reply s n, moved)
  unfolding wadv check_space
  wadv-full h = ground (arith, rewind_if_short-Kept n v, moved-MadeRoom.reply)

  moved_room : length (contents s) + n ≤ length s.buf → moved.wp + n ≤ length s.buf
  unfolding check_space
  moved_room h = ground (arith, moved-MadeRoom.room h)

  Widened-fits : length (contents s) + n ≤ length s.buf → Widened n s (wadv n s)
  Widened-fits h =
      let k = moved-Kept in
      let room = moved_room h in
      let tail : List ℕ = drop moved.rp moved.buf in
      rw (wadv-fits h) record {
        valid = omega (arith, room, k.size, k.valid);
        reply = rw (le→leb _ _ h);
        held =
            take-take (length (contents s)) (moved.wp + n - moved.rp) tail
              (omega (arith, length-moved, k.valid))
            ∙ ap (λ m. take m tail) length-moved
            ∙ k.same;
        more = rw (le→leb _ _ h) (
            omega (
              arith,
              length-moved,
              length-take (moved.wp + n - moved.rp) tail,
              length-drop moved.rp moved.buf,
              k.valid,
              k.size,
              room,
            ));
      }

  Widened-full : length s.buf < length (contents s) + n → Widened n s (wadv n s)
  Widened-full h =
      let k = moved-Kept in
      rw (wadv-full h) record {
        valid = k.valid;
        reply = refl;
        held =
            take-all (length (contents s)) (contents moved) (omega (arith, ap length k.same))
            ∙ k.same;
        more = rw (lt→leb_false _ _ h) (ap length k.same);
      }

  -- On a valid buffer wadv succeeds exactly when the bytes advanced over fit beside those that
  -- the buffer holds, and grows it by so many; the bytes held stay in front, the reply of a
  -- failure names the capacity and the space left, and the buffer stays valid.
  pub wadv_lem : Widened n s (wadv n s)
  wadv_lem = elim (dec_le (length (contents s) + n) (length s.buf)) [
    | yes h ↦ Widened-fits h
    | no h ↦ Widened-full (omega arith)
  ]

-- Taking a range by `write_buf` and copying the bytes into it is `put_slice`.
pub copy_into : List ℕ → Op Unit
copy_into xs = do
  (i, n) ← write_buf (length xs)
  s ← get
  buf ← or_panic (copy_at i xs s.buf)
  modify (λ s. record s { buf = buf })

-- On a valid buffer, taking a range by ___write_buf___ and copying the bytes into it is the same
-- as put_slice, errors included.
pub copy-write_buf : {s : SlideBuf} (xs : List ℕ) → IsValid s → copy_into xs s ≡ put_slice xs s
unfolding copy_into write_buf put_slice
copy-write_buf {s} xs v =
    let room = make_room_lem (length xs) v in
    let t : SlideBuf = (make_room (length xs) s).1 in
    elim (dec_le (length (contents s) + length xs) (length s.buf)) [
      | yes h ↦
          ground (arith, room.reply, room.room h, room.kept.size, copy_at-eq_some t.wp xs t.buf)
      | no h ↦ ground (arith, room.reply)
    ]
