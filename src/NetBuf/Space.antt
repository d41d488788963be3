-- ===== src/NetBuf/Space.antt =====
-- When a write of netbuf.rs succeeds, and what it does to the bytes held.
use daqingest.Base.{
  ℕ, ◌-◌, ◌+◌, ◌≤◌, ◌<◌, ◌≡◌, refl, ap, ◌∙◌, List, ◌++◌, arith, length, take, drop, slice-eq_some,
  copy_at-eq_some, leb, ltb, Bool, true, false, le→leb, lt→leb_false, length-take, length-drop,
  length-append, take-append_left, isize_max, ok, err, Outcome, if◌then◌else◌,
}
use native.Mathlib.Decide.{dec_le}
use daqingest.SlideBuf.Write.{window-copy}
use daqingest.NetBuf.{
  NetBuf, Error, write_advance_over, rewind_if_needed, make_room, put_slice, to_front, cap, wcap,
}

pub record IsValid (s : NetBuf) : Type 0 where
  pub rp_le_wp : s.rp ≤ s.wp
  pub wp_le_cap : s.wp ≤ length s.buf
  pub small : length s.buf ≤ isize_max

abbrev pub contents : NetBuf → List ℕ
contents s = take (s.wp - s.rp) (drop s.rp s.buf)

pub record Kept (s s' : NetBuf) : Type 0 where
  pub valid : IsValid s'
  pub same : contents s' ≡ contents s
  pub size : length s'.buf ≡ length s.buf

length-contents : {s : NetBuf} → IsValid s → length (contents s) ≡ s.wp - s.rp
length-contents {s} v =
    omega (arith, length-take (s.wp - s.rp) (drop s.rp s.buf), length-drop s.rp s.buf)

abbrev fronted : NetBuf → NetBuf
fronted s = record { buf = contents s ++ drop (s.wp - s.rp) s.buf; wp = s.wp - s.rp; rp = 0 }

to_front-eq : {s : NetBuf} → IsValid s → to_front s ≡ (ok tt, fronted s)
unfolding to_front
to_front-eq {s} v =
    ground (
      arith,
      slice-eq_some s.rp s.wp s.buf,
      copy_at-eq_some 0 (contents s) s.buf,
      length-contents v,
    )

fronted-Kept : {s : NetBuf} → IsValid s → Kept s (fronted s)
fronted-Kept {s} v = record {
  valid = omega (arith, full);
  same =
      ap (λ n. take n (contents s ++ drop (s.wp - s.rp) s.buf)) (omega (arith, length-contents v))
      ∙ take-append_left (contents s) (drop (s.wp - s.rp) s.buf);
  size = omega (arith, full);
}
  where
    full : length (fronted s).buf ≡ length s.buf
    full = omega (
      arith,
      length-append (contents s) (drop (s.wp - s.rp) s.buf),
      length-contents v,
      length-drop (s.wp - s.rp) s.buf,
    )

reset-Kept : {s : NetBuf} → IsValid s → s.rp ≡ s.wp → Kept s (record s { rp = 0; wp = 0 })
reset-Kept {s} v e = record {
  valid = omega arith;
  same = ap (λ n. take n (drop s.rp s.buf)) {x = 0} (omega arith);
  size = refl;
}

Kept-refl : {s : NetBuf} → IsValid s → Kept s s
Kept-refl v = record { valid = v; same = refl; size = refl }

module _ {s : NetBuf} (n : ℕ) (v : IsValid s) where
  -- The bytes are at the front, unless `n` bytes fit behind the read position.
  pub rewind_if_needed-Kept :
      ((rewind_if_needed n s).0 ≡ ok tt)
      × Kept s (rewind_if_needed n s).1
      × ((rewind_if_needed n s).1.rp
          ≡ (if ltb s.rp s.wp then (if leb (s.rp + n) (length s.buf) then s.rp else 0) else 0))
  unfolding rewind_if_needed cap
  rewind_if_needed-Kept = ground (arith, to_front-eq v, fronted-Kept v, reset-Kept v, Kept-refl v)

-- the read position after `rewind_if_needed`
abbrev pub settled : ℕ → NetBuf → ℕ
settled n s = if ltb s.rp s.wp then (if leb (s.rp + n) (length s.buf) then s.rp else 0) else 0

abbrev pub has_room : ℕ → NetBuf → Bool
has_room n s = leb (settled n s + length (contents s) + n) (length s.buf)

-- What `put_slice` does: the bytes are appended when they fit behind the settled bytes.
pub record Put (xs : List ℕ) (s : NetBuf) (out : Outcome Error Unit × NetBuf) : Type 0 where
  pub valid : IsValid out.1
  pub size : length out.1.buf ≡ length s.buf
  pub reply : out.0 ≡ (
      if has_room (length xs) s
      then ok tt
      else err (
          write_advance_over
            (length xs)
            (length s.buf - (settled (length xs) s + length (contents s)))))
  pub bytes : contents out.1 ≡ (if has_room (length xs) s then contents s ++ xs else contents s)

abbrev appended : NetBuf → List ℕ → NetBuf
appended t xs = record {
  buf = take t.wp t.buf ++ (xs ++ drop (t.wp + length xs) t.buf);
  wp = t.wp + length xs;
  rp = t.rp;
}

appended-IsValid :
    {t : NetBuf} (xs : List ℕ)
    → IsValid t
    → t.wp + length xs ≤ length t.buf
    → IsValid (appended t xs) × (length (appended t xs).buf ≡ length t.buf)
appended-IsValid {t} xs v h = omega (
  arith,
  length-append (take t.wp t.buf) (xs ++ drop (t.wp + length xs) t.buf),
  length-append xs (drop (t.wp + length xs) t.buf),
  length-take t.wp t.buf,
  length-drop (t.wp + length xs) t.buf,
)

module _ {s : NetBuf} (xs : List ℕ) (v : IsValid s) where
  abbrev after : NetBuf
  after = (rewind_if_needed (length xs) s).1

  after_held : after.wp ≡ settled (length xs) s + length (contents s)
  after_held =
      let r = rewind_if_needed-Kept (length xs) v in
      let k = r.1 in omega (arith, k.valid, r.2, length-contents k.valid, ap length k.same)

  put_slice-fits : after.wp + length xs ≤ length s.buf → put_slice xs s ≡ (ok tt, appended after xs)
  unfolding put_slice make_room wcap
  put_slice-fits h =
      let r = rewind_if_needed-Kept (length xs) v in
      let k = r.1 in
      ground (
        arith,
        r.0,
        k.valid.wp_le_cap,
        k.valid.small,
        k.size,
        copy_at-eq_some after.wp xs after.buf,
      )

  put_slice-full :
      length s.buf < after.wp + length xs
      → put_slice xs s ≡ (err (write_advance_over (length xs) (length s.buf - after.wp)), after)
  unfolding put_slice make_room wcap
  put_slice-full h =
      let r = rewind_if_needed-Kept (length xs) v in
      let k = r.1 in ground (arith, r.0, k.valid.wp_le_cap, k.valid.small, k.size)

  Put-fits : after.wp + length xs ≤ length s.buf → Put xs s (put_slice xs s)
  Put-fits h =
      let k = (rewind_if_needed-Kept (length xs) v).1 in
      let e = appended-IsValid xs k.valid (omega (arith, k.size)) in
      let room : has_room (length xs) s ≡ true = le→leb _ _ (omega (arith, after_held)) in
      rw (put_slice-fits h) record {
        valid = e.0;
        size = e.1 ∙ k.size;
        reply = rw room;
        bytes = rw room (
            window-copy after.rp after.wp xs (drop (after.wp + length xs) after.buf) after.buf
              k.valid.rp_le_wp k.valid.wp_le_cap
            ∙ ap (λ c. c ++ xs) k.same);
      }

  Put-full : length s.buf < after.wp + length xs → Put xs s (put_slice xs s)
  Put-full h =
      let k = (rewind_if_needed-Kept (length xs) v).1 in
      let room : has_room (length xs) s ≡ false = lt→leb_false _ _ (omega (arith, after_held)) in
      rw (put_slice-full h) record {
        valid = k.valid;
        size = k.size;
        reply =
            rw room (ap (λ w. err (write_advance_over (length xs) (length s.buf - w))) after_held);
        bytes = rw room k.same;
      }

  -- On a valid buffer of netbuf.rs put_slice appends the bytes exactly when they fit behind
  -- those held, which stand at the front after an empty buffer was reset or when the bytes to
  -- write do not fit behind the read position; otherwise it fails with their number and the
  -- space left, and keeps the bytes; the buffer stays valid and of the same size.
  pub put_slice-Put : Put xs s (put_slice xs s)
  put_slice-Put = elim (dec_le (after.wp + length xs) (length s.buf)) [
    | yes h ↦ Put-fits h
    | no h ↦ Put-full (omega arith)
  ]

  -- When a valid buffer of netbuf.rs holds bytes, and the bytes to write fit behind its read
  -- position but not behind its write position, put_slice fails and changes nothing, even if the
  -- bytes held and those to write fit the buffer together.
  pub put_slice-refuses :
      s.rp < s.wp
      → s.rp + length xs ≤ length s.buf
      → length s.buf < s.wp + length xs
      → put_slice xs s ≡ (err (write_advance_over (length xs) (length s.buf - s.wp)), s)
  unfolding put_slice make_room rewind_if_needed wcap cap
  put_slice-refuses held front over = ground (arith, v)
