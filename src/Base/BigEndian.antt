-- ===== src/Base/BigEndian.antt =====
-- `to_be_bytes` and `from_be_bytes` of the unsigned integers of any width.
use Prim.Native.Nat.{ℕ, zero, suc, ◌+◌, ◌*◌, ◌/◌, ◌%◌, ◌^◌, ◌<◌}
use mathlib.Core.Path.{◌≡◌, refl, ◌∙◌}
use mathlib.Core.List.{List, [], ◌∷◌, ◌++◌}
use native.Mathlib.Nat.{pow-suc}
use native.Mathlib.Omega.{arith}
use daqingest.Base.Lists.{length, length-append}

be_acc : ℕ → List ℕ → ℕ
be_acc acc [] = acc
be_acc acc (b ∷ bs) = be_acc (acc * 256 + b) bs

-- `from_be_bytes`
unfoldable pub be_value : List ℕ → ℕ
unfolding be_acc
be_value bs = be_acc 0 bs

-- `to_be_bytes` of an integer of `n` bytes
unfoldable pub be_bytes : ℕ → ℕ → List ℕ
be_bytes zero v = []
be_bytes (suc n) v = be_bytes n (v / 256) ++ (v % 256 ∷ [])

be_acc-snoc :
    (acc : ℕ) (bs : List ℕ) (b : ℕ) → be_acc acc (bs ++ (b ∷ [])) ≡ be_acc acc bs * 256 + b
unfolding be_acc
be_acc-snoc acc [] b = refl
be_acc-snoc acc (c ∷ bs) b = be_acc-snoc (acc * 256 + c) bs b

pub length-be_bytes : (n v : ℕ) → length (be_bytes n v) ≡ n
unfolding be_bytes
length-be_bytes zero v = refl
length-be_bytes (suc n) v =
    omega (arith, length-append (be_bytes n (v / 256)) (v % 256 ∷ []), length-be_bytes n (v / 256))

-- Reading back what was written, for every integer that fits its width.
pub be_value-be_bytes : (n v : ℕ) → v < 256 ^ n → be_value (be_bytes n v) ≡ v
unfolding be_value be_bytes
be_value-be_bytes zero v h = omega arith
be_value-be_bytes (suc n) v h =
    be_acc-snoc 0 (be_bytes n (v / 256)) (v % 256)
    ∙ omega (arith, be_value-be_bytes n (v / 256) fits)
  where
    fits : v / 256 < 256 ^ n
    fits = omega (arith, pow-suc 256 n)
