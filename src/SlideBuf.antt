-- ===== src/SlideBuf.antt =====
-- slidebuf/src/slidebuf.rs: a byte buffer with a read and a write position, whose bytes are moved
-- to the front when the space behind the write position runs out.
pub mod Invariant
pub mod Room
pub mod Write
pub mod Puts
pub mod Read
pub mod Queue
pub mod RoundTrip
pub mod Positions
mod Examples
use mathlib.Core.Bool.{not}
use daqingest.Base.{
  ℕ, ◌-◌, List, ◌==◌, ltb, ◌&&◌, if◌then◌else◌, length, get_elem?, replicate, slice, copy_at,
  add_usize, sub_usize, be_value, be_bytes, ℤ, signed, Act, ◌>>=◌, ◌>>◌, pure, throw, get, modify,
  or_panic,
}

pub data Error : Type 0 where
  not_enough_bytes : Error
  not_enough_space : ℕ → ℕ → ℕ → Error
  try_from_slice_error : Error

pub record SlideBuf : Type 0 where
  pub buf : List ℕ
  pub wp : ℕ
  pub rp : ℕ

abbrev pub Op : Type 0 → Type 0
Op A = Act SlideBuf Error A

unfoldable pub new : ℕ → SlideBuf
new cap = record { buf = replicate cap 0; wp = 0; rp = 0 }

unfoldable pub state : SlideBuf → ℕ × ℕ
state s = (s.rp, s.wp)

unfoldable pub len : SlideBuf → ℕ
len s = sub_usize s.wp s.rp

unfoldable pub cap : SlideBuf → ℕ
cap s = length s.buf

unfoldable pub wcap : SlideBuf → ℕ
wcap s = sub_usize (length s.buf) s.wp

-- `data` and `data_mut`: the bytes to read
unfoldable pub data_slice : Op (List ℕ)
data_slice = do s ← get; or_panic (slice s.rp s.wp s.buf)

unfoldable pub reset : SlideBuf → SlideBuf
reset s = record s { wp = 0; rp = 0 }

unfoldable pub adv : ℕ → Op Unit
unfolding len
adv x = do
  s ← get
  if ltb (len s) x then throw not_enough_bytes else modify (λ s. record s { rp = add_usize s.rp x })

unfoldable pub rewind : Op Unit
rewind = do
  s ← get
  w ← or_panic (slice s.rp s.wp s.buf)
  buf ← or_panic (copy_at 0 w s.buf)
  modify (λ s. record { buf = buf; wp = sub_usize s.wp s.rp; rp = 0 })

unfoldable pub rewind_if_needed : ℕ → Op Unit
unfolding cap reset
rewind_if_needed need_min = do
  s ← get
  if not (s.rp == 0) && s.rp == s.wp
      then modify reset
      else if ltb (cap s) (add_usize s.rp need_min)
      then rewind
      else pure tt

-- `if self.wcap() < n { self.rewind(); }`
unfoldable pub rewind_if_short : ℕ → Op Unit
unfolding wcap
rewind_if_short n = do s ← get; if ltb (wcap s) n then rewind else pure tt

-- `if self.wcap() < n { Err(NotEnoughSpace(..)) }`
unfoldable pub check_space : ℕ → Op Unit
unfolding wcap cap
check_space n = do
  s ← get
  if ltb (wcap s) n then throw (not_enough_space (cap s) (wcap s) n) else pure tt

unfoldable pub wadv : ℕ → Op Unit
wadv x = do rewind_if_short x; check_space x; modify (λ s. record s { wp = add_usize s.wp x })

unfoldable pub set_rp : ℕ → Op Unit
set_rp rp = do
  s ← get
  if ltb s.wp rp then throw not_enough_bytes else modify (λ s. record s { rp = rp })

unfoldable pub rewind_rp : ℕ → Op Unit
rewind_rp n = do
  s ← get
  if ltb s.rp n then throw not_enough_bytes else modify (λ s. record s { rp = sub_usize s.rp n })

unfoldable pub read_bytes : ℕ → Op (List ℕ)
unfolding len
read_bytes n = do
  s ← get
  if ltb (len s) n then throw not_enough_bytes else do
    val ← or_panic (slice s.rp (add_usize s.rp n) s.buf)
    modify (λ s. record s { rp = add_usize s.rp n })
    pure val

unfoldable pub read_u8 : Op ℕ
unfolding len
read_u8 = do
  s ← get
  if ltb (len s) 1 then throw not_enough_bytes else do
    val ← or_panic (get_elem? s.buf s.rp)
    modify (λ s. record s { rp = add_usize s.rp 1 })
    pure val

-- `T::from_be_bytes` at the width of `T`
unfoldable pub read_be : ℕ → Op ℕ
read_be ts = do val ← read_bytes ts; pure (be_value val)

unfoldable pub read_u16_be : Op ℕ
read_u16_be = read_be 2

unfoldable pub read_u32_be : Op ℕ
read_u32_be = read_be 4

unfoldable pub read_u64_be : Op ℕ
read_u64_be = read_be 8

unfoldable pub read_i32_be : Op ℤ
read_i32_be = do v ← read_be 4; pure (signed 32 v)

unfoldable pub read_i64_be : Op ℤ
read_i64_be = do v ← read_be 8; pure (signed 64 v)

-- A float is read and written as its bit pattern.
unfoldable pub read_f32_be : Op ℕ
read_f32_be = read_be 4

unfoldable pub read_f64_be : Op ℕ
read_f64_be = read_be 8

-- the steps by which every write finds room for `n` bytes behind the write position
unfoldable pub make_room : ℕ → Op Unit
make_room n = do rewind_if_needed n; rewind_if_short n; check_space n

-- The slice behind the write position, by its start and length.
unfoldable pub available_writable_area : ℕ → Op (ℕ × ℕ)
available_writable_area need_min = do make_room need_min; s ← get; pure (s.wp, length s.buf - s.wp)

unfoldable pub write_buf : ℕ → Op (ℕ × ℕ)
write_buf n = do
  make_room n
  s ← get
  modify (λ s. record s { wp = add_usize s.wp n })
  pure (s.wp, n)

unfoldable pub put_slice : List ℕ → Op Unit
put_slice bytes = do
  make_room (length bytes)
  s ← get
  buf ← or_panic (copy_at s.wp bytes s.buf)
  modify (λ s. record s { buf = buf; wp = add_usize s.wp (length bytes) })

-- `to_be_bytes` at the width of the type
unfoldable pub put_be : ℕ → ℕ → Op Unit
put_be ts v = put_slice (be_bytes ts v)

unfoldable pub put_u8 : ℕ → Op Unit
put_u8 = put_be 1

unfoldable pub put_u16_be : ℕ → Op Unit
put_u16_be = put_be 2

unfoldable pub put_u32_be : ℕ → Op Unit
put_u32_be = put_be 4

unfoldable pub put_u64_be : ℕ → Op Unit
put_u64_be = put_be 8

unfoldable pub put_f32_be : ℕ → Op Unit
put_f32_be = put_be 4

unfoldable pub put_f64_be : ℕ → Op Unit
put_f64_be = put_be 8
