-- ===== src/NetBuf.antt =====
-- netfetch/src/netbuf.rs: the older buffer of the protocols, whose writes move the bytes to the
-- front only when the whole buffer behind the read position is too small.
pub mod Space
mod Examples
use mathlib.Core.Bool.{not}
use daqingest.Base.{
  ℕ, ◌-◌, List, ◌==◌, ltb, ◌&&◌, if◌then◌else◌, length, get_elem?, replicate, slice, copy_at,
  add_usize, sub_usize, be_value, be_bytes, Act, ◌>>=◌, ◌>>◌, pure, throw, get, modify, or_panic,
}

pub data Error : Type 0 where
  advance_over write_advance_over : ℕ → ℕ → Error
  slice_error : Error

pub record NetBuf : Type 0 where
  pub buf : List ℕ
  pub wp : ℕ
  pub rp : ℕ

abbrev pub Op : Type 0 → Type 0
Op A = Act NetBuf Error A

unfoldable pub new : ℕ → NetBuf
new cap = record { buf = replicate cap 0; wp = 0; rp = 0 }

unfoldable pub state : NetBuf → ℕ × ℕ
state s = (s.rp, s.wp)

unfoldable pub len : NetBuf → ℕ
len s = sub_usize s.wp s.rp

unfoldable pub cap : NetBuf → ℕ
cap s = length s.buf

unfoldable pub wcap : NetBuf → ℕ
wcap s = sub_usize (length s.buf) s.wp

unfoldable pub data_slice : Op (List ℕ)
data_slice = do s ← get; or_panic (slice s.rp s.wp s.buf)

unfoldable pub adv : ℕ → Op Unit
unfolding len
adv x = do
  s ← get
  if ltb (len s) x
      then throw (advance_over x (len s))
      else modify (λ s. record s { rp = add_usize s.rp x })

unfoldable pub wadv : ℕ → Op Unit
unfolding wcap
wadv x = do
  s ← get
  if ltb (wcap s) x
      then throw (write_advance_over x (wcap s))
      else modify (λ s. record s { wp = add_usize s.wp x })

unfoldable pub read_u8 : Op ℕ
unfolding len
read_u8 = do
  s ← get
  if ltb (len s) 1 then throw (advance_over 1 (len s)) else do
    val ← or_panic (get_elem? s.buf s.rp)
    modify (λ s. record s { rp = add_usize s.rp 1 })
    pure val

unfoldable pub read_bytes : ℕ → Op (List ℕ)
unfolding len
read_bytes n = do
  s ← get
  if ltb (len s) n then throw (advance_over n (len s)) else do
    val ← or_panic (slice s.rp (add_usize s.rp n) s.buf)
    modify (λ s. record s { rp = add_usize s.rp n })
    pure val

-- `T::from_be_bytes` at the width of `T`
unfoldable pub read_be : ℕ → Op ℕ
read_be ts = do val ← read_bytes ts; pure (be_value val)

unfoldable pub read_u16_be : Op ℕ
read_u16_be = read_be 2

unfoldable pub read_u32_be : Op ℕ
read_u32_be = read_be 4

unfoldable pub read_u64 : Op ℕ
read_u64 = read_be 8

-- the move of the bytes to the front
unfoldable pub to_front : Op Unit
to_front = do
  s ← get
  w ← or_panic (slice s.rp s.wp s.buf)
  buf ← or_panic (copy_at 0 w s.buf)
  modify (λ s. record { buf = buf; wp = sub_usize s.wp s.rp; rp = 0 })

unfoldable pub rewind_if_needed : ℕ → Op Unit
unfolding cap
rewind_if_needed need_min = do
  s ← get
  if not (s.rp == 0) && s.rp == s.wp
      then modify (λ s. record s { rp = 0; wp = 0 })
      else if ltb (sub_usize (cap s) s.rp) need_min
      then to_front
      else pure tt

-- The area to fill, by its start and length.
unfoldable pub read_buf_for_fill : ℕ → Op (ℕ × ℕ)
read_buf_for_fill need_min = do rewind_if_needed need_min; s ← get; pure (s.wp, length s.buf - s.wp)

unfoldable pub make_room : ℕ → Op Unit
unfolding wcap
make_room n = do
  rewind_if_needed n
  s ← get
  if ltb (wcap s) n then throw (write_advance_over n (wcap s)) else pure tt

unfoldable pub write_buf : ℕ → Op (ℕ × ℕ)
write_buf n = do
  make_room n
  s ← get
  modify (λ s. record s { wp = add_usize s.wp n })
  pure (s.wp, n)

unfoldable pub put_slice : List ℕ → Op Unit
put_slice bytes = do
  make_room (length bytes)
  s ← get
  buf ← or_panic (copy_at s.wp bytes s.buf)
  modify (λ s. record s { buf = buf; wp = add_usize s.wp (length bytes) })

unfoldable pub put_u8 : ℕ → Op Unit
put_u8 v = put_slice (be_bytes 1 v)

unfoldable pub put_u64 : ℕ → Op Unit
put_u64 v = put_slice (be_bytes 8 v)
