-- ===== src/Base/Int.antt =====
-- Signed integers over the native numbers, and the two's complement reading of a bit pattern.
use Prim.Native.Nat.{ℕ, ◌-◌, ◌^◌, ◌<◌}
use mathlib.Core.Path.{◌≡◌}
use native.Mathlib.Omega.{arith}
use daqingest.Base.Tests.{ltb, if◌then◌else◌}

-- `negsuc n` is -(n + 1).
pub data ℤ : Type 0 where
  pos : ℕ → ℤ
  negsuc : ℕ → ℤ

-- the signed integer of `n` bits that a bit pattern stands for
unfoldable pub signed : ℕ → ℕ → ℤ
signed n v = if ltb v (2 ^ (n - 1)) then pos v else negsuc (2 ^ n - v - 1)

-- its bit pattern
unfoldable pub unsigned : ℕ → ℤ → ℕ
unsigned n (pos v) = v
unsigned n (negsuc v) = 2 ^ n - v - 1

-- Every pattern of `n` bits is that of the integer that it stands for.
pub unsigned-signed : (n v : ℕ) → v < 2 ^ n → unsigned n (signed n v) ≡ v
unfolding signed unsigned
unsigned-signed n v h = ground arith
