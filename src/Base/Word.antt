-- ===== src/Base/Word.antt =====
-- `usize` of a 64-bit release build: the workspace's release profile turns overflow checks off,
-- so sums and differences wrap.
use Prim.Native.Nat.{ℕ, ◌+◌, ◌-◌, ◌%◌, ◌^◌}

abbrev pub usize_mod : ℕ
usize_mod = 2 ^ 64

abbrev pub add_usize : ℕ → ℕ → ℕ
add_usize a b = (a + b) % usize_mod

abbrev pub sub_usize : ℕ → ℕ → ℕ
sub_usize a b = (a + usize_mod - b) % usize_mod

-- `isize::MAX`, the most bytes that a `Vec` can hold
abbrev pub isize_max : ℕ
isize_max = 2 ^ 63 - 1
