-- ===== src/SlideBuf/Puts.antt =====
-- Writes of slidebuf.rs that fit, and an empty buffer.
use daqingest.Base.{
  ℕ, ◌+◌, ◌≤◌, ◌≡◌, refl, ap, ◌∙◌, List, [], ◌++◌, length, length-replicate, le→leb, arith,
  isize_max, Outcome, ok,
}
use daqingest.SlideBuf
use daqingest.SlideBuf.{SlideBuf, Error, put_slice}
use daqingest.SlideBuf.Invariant.{IsValid, contents}
use daqingest.SlideBuf.Write.{put_slice_lem}

-- What a write of `xs` leaves.
pub record Puts (xs : List ℕ) (s : SlideBuf) (r : Outcome Error Unit × SlideBuf) : Type 0 where
  pub after : SlideBuf
  pub reply : r ≡ (ok tt, after)
  pub valid : IsValid after
  pub size : length after.buf ≡ length s.buf
  pub bytes : contents after ≡ contents s ++ xs

pub put_slice-Puts :
    (xs : List ℕ) {s : SlideBuf}
    → IsValid s
    → length (contents s) + length xs ≤ length s.buf
    → Puts xs s (put_slice xs s)
put_slice-Puts xs {s} v h =
    let p = put_slice_lem xs v in
    let room = le→leb _ _ h in
    record {
      after = (put_slice xs s).1;
      reply = ap (λ r. (r, (put_slice xs s).1)) (p.reply ∙ rw room);
      valid = p.valid;
      size = p.size;
      bytes = p.bytes ∙ rw room;
    }

-- A new buffer is valid and empty.
pub new-IsValid :
    (n : ℕ)
    → n ≤ isize_max
    → IsValid (SlideBuf.new n)
      × (length (SlideBuf.new n).buf ≡ n)
      × (contents (SlideBuf.new n) ≡ [])
unfolding SlideBuf.new
new-IsValid n h =
    let e = length-replicate {A = ℕ} n 0 in
    (record { rp_le_wp = omega arith; wp_le_cap = omega arith; small = omega (arith, e) }, e, refl)
