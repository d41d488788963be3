-- ===== src/SlideBuf/Write.antt =====
-- The writes of slidebuf.rs append to the bytes that the buffer holds.
use daqingest.Base.{
  ℕ, ◌-◌, ◌+◌, ◌≤◌, ◌<◌, ◌≡◌, refl, ap, ◌∙◌, List, ◌++◌, arith, le→leb, lt→leb_false, length, take,
  drop, length-take, leb, if◌then◌else◌, ok, err, Outcome, append_assoc, drop-append_le, drop-take,
  length-append, take-append_left, copy_at-eq_some, length-drop,
}
use native.Mathlib.Decide.{dec_le}
use daqingest.SlideBuf.{
  SlideBuf, Error, not_enough_space, make_room, rewind_if_short, check_space, put_slice,
  available_writable_area, wadv, cap, wcap,
}
use daqingest.SlideBuf.Invariant.{IsValid, Kept, contents, length-contents, wcap-eq}
use daqingest.SlideBuf.Room.{room_reply, make_room_lem, make_room-back}

-- Writing `xs` just behind a window extends the window by them.
pub window-copy :
    (rp wp : ℕ) (xs rest buf : List ℕ)
    → rp ≤ wp
    → wp ≤ length buf
    → take (wp + length xs - rp) (drop rp (take wp buf ++ (xs ++ rest)))
      ≡ take (wp - rp) (drop rp buf) ++ xs
window-copy rp wp xs rest buf p q =
    let c = take (wp - rp) (drop rp buf) in
    let cut : drop rp (take wp buf) ≡ c =
      ap (λ n. drop rp (take n buf)) {y = rp + (wp - rp)} (omega arith)
      ∙ drop-take rp (wp - rp) buf in
    let size : length (c ++ xs) ≡ wp + length xs - rp =
      omega (arith, length-append c xs, length-take (wp - rp) (drop rp buf), length-drop rp buf) in
    rw
      (
        drop-append_le rp (take wp buf) (xs ++ rest) (omega (arith, length-take wp buf)),
        cut,
        ← append_assoc c xs rest,
        ← size,
      )
      (take-append_left (c ++ xs) rest)

-- what `put_slice` does
pub record Appended (xs : List ℕ) (s : SlideBuf) (out : Outcome Error Unit × SlideBuf)
    : Type 0 where
  pub valid : IsValid out.1
  pub size : length out.1.buf ≡ length s.buf
  pub reply : out.0 ≡ room_reply s (length xs)
  pub bytes : contents out.1 ≡ (
      if leb (length (contents s) + length xs) (length s.buf) then contents s ++ xs else contents s)

abbrev appended : SlideBuf → List ℕ → SlideBuf
appended t xs = record {
  buf = take t.wp t.buf ++ (xs ++ drop (t.wp + length xs) t.buf);
  wp = t.wp + length xs;
  rp = t.rp;
}

appended-IsValid :
    {t : SlideBuf} (xs : List ℕ)
    → IsValid t
    → t.wp + length xs ≤ length t.buf
    → IsValid (appended t xs) × (length (appended t xs).buf ≡ length t.buf)
appended-IsValid {t} xs v h = omega (
  arith,
  length-append (take t.wp t.buf) (xs ++ drop (t.wp + length xs) t.buf),
  length-append xs (drop (t.wp + length xs) t.buf),
  length-take t.wp t.buf,
  length-drop (t.wp + length xs) t.buf,
)

module _ {s : SlideBuf} (xs : List ℕ) (v : IsValid s) where
  abbrev roomy : SlideBuf
  roomy = (make_room (length xs) s).1

  put_slice-fits :
      length (contents s) + length xs ≤ length s.buf → put_slice xs s ≡ (ok tt, appended roomy xs)
  unfolding put_slice
  put_slice-fits h =
      let room = make_room_lem (length xs) v in
      let t : SlideBuf = roomy in
      ground (
        arith,
        room.room h,
        room.reply,
        room.kept.size,
        room.kept.valid.wp_le_cap,
        room.kept.valid.small,
        copy_at-eq_some t.wp xs t.buf,
      )

  put_slice-full :
      length s.buf < length (contents s) + length xs
      → put_slice xs s ≡ (room_reply s (length xs), roomy)
  unfolding put_slice
  put_slice-full h = let room = make_room_lem (length xs) v in ground (arith, room.reply)

  Appended-fits : length (contents s) + length xs ≤ length s.buf → Appended xs s (put_slice xs s)
  Appended-fits h =
      let room = make_room_lem (length xs) v in
      let t : SlideBuf = roomy in
      let kept = room.kept in
      let e = appended-IsValid xs kept.valid (omega (arith, room.room h)) in
      rw (put_slice-fits h) record {
        valid = e.0;
        size = e.1 ∙ kept.size;
        reply = rw (le→leb _ _ h);
        bytes = rw (le→leb _ _ h) (
            window-copy t.rp t.wp xs (drop (t.wp + length xs) t.buf) t.buf kept.valid.rp_le_wp
              kept.valid.wp_le_cap
            ∙ ap (λ c. c ++ xs) kept.same);
      }

  Appended-full : length s.buf < length (contents s) + length xs → Appended xs s (put_slice xs s)
  Appended-full h =
      let room = make_room_lem (length xs) v in
      rw (put_slice-full h) record {
        valid = room.kept.valid;
        size = room.kept.size;
        reply = refl;
        bytes = rw (lt→leb_false _ _ h) room.kept.same;
      }

  -- `put_slice` appends the given bytes exactly when they fit beside those that the buffer holds.
  pub put_slice_lem : Appended xs s (put_slice xs s)
  put_slice_lem = elim (dec_le (length (contents s) + length xs) (length s.buf)) [
    | yes h ↦ Appended-fits h
    | no h ↦ Appended-full (omega arith)
  ]

  -- A write takes at most its length from the space behind the write position.
  pub put_slice-wcap : length xs ≤ wcap s → wcap s - length xs ≤ wcap (put_slice xs s).1
  put_slice-wcap h =
      let p = put_slice_lem in
      let space = wcap-eq v in
      let fits : length (contents s) + length xs ≤ length s.buf =
        omega (arith, space, length-contents v, v) in
      omega (
        arith,
        space,
        wcap-eq p.valid,
        p.size,
        make_room-back (length xs) v,
        ap (λ r. r.1.wp) (put_slice-fits fits),
        v,
      )

-- A buffer after bytes were put into its writable area, by a read from a socket, say.
unfoldable pub fill_area : List ℕ → SlideBuf → SlideBuf
fill_area xs t = record t { buf = take t.wp t.buf ++ (xs ++ drop (t.wp + length xs) t.buf) }

-- The area is all that stands behind the write position, once there is room.
pub available_writable_area-eq :
    {s : SlideBuf} (n : ℕ)
    → IsValid s
    → length (contents s) + n ≤ length s.buf
    → let t = (make_room n s).1 in
      (available_writable_area n s ≡ (ok (t.wp, length t.buf - t.wp), t))
      × (n ≤ length t.buf - t.wp)
      × Kept s t
unfolding available_writable_area
available_writable_area-eq {s} n v h =
    let room = make_room_lem n v in
    (ground (arith, room.reply), omega (arith, room.room h, room.kept.size), room.kept)

-- After bytes that fit were put into the area behind the write position of a valid buffer, wadv
-- by their number succeeds and appends exactly them.
pub wadv-fill_area :
    {t : SlideBuf} (xs : List ℕ)
    → IsValid t
    → length xs ≤ length t.buf - t.wp
    → let (r, t') = wadv (length xs) (fill_area xs t) in
      (r ≡ ok tt) × IsValid t' × (contents t' ≡ contents t ++ xs) × (length t'.buf ≡ length t.buf)
unfolding wadv rewind_if_short check_space wcap cap fill_area
wadv-fill_area {t} xs v h =
    let e = appended-IsValid xs v (omega arith) in
    let step : wadv (length xs) (fill_area xs t) ≡ (ok tt, appended t xs) = ground (arith, e) in
    rw step (
      refl,
      e.0,
      window-copy t.rp t.wp xs (drop (t.wp + length xs) t.buf) t.buf v.rp_le_wp v.wp_le_cap,
      e.1,
    )

-- Without room there is no area, and the bytes are kept.
pub available_writable_area-full :
    {s : SlideBuf} (n : ℕ)
    → IsValid s
    → length s.buf < length (contents s) + n
    → let t = (make_room n s).1 in
      (available_writable_area n s
        ≡ (err (not_enough_space (length s.buf) (length s.buf - length (contents s)) n), t))
      × Kept s t
unfolding available_writable_area
available_writable_area-full {s} n v h =
    let room = make_room_lem n v in (ground (arith, room.reply), room.kept)
