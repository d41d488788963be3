-- ===== src/Base/Slices.antt =====
-- Reading and writing a range of a byte buffer; `none` is the panic of an index out of range.
use Prim.Native.Nat.{ℕ, ◌+◌, ◌-◌, ◌≤◌}
use mathlib.Core.Path.{◌≡◌}
use mathlib.Core.Bool.{◌&&◌}
use mathlib.Core.List.{List, ◌++◌}
use mathlib.Core.Option.{Option, none, some}
use daqingest.Base.Tests.{leb, le→leb, if◌then◌else◌}
use daqingest.Base.Lists.{length, take, drop}

module _ {ℓ} {A : Type ℓ} where
  -- `&xs[lo..hi]`
  unfoldable pub slice : ℕ → ℕ → List A → Option (List A)
  slice lo hi xs =
      if leb lo hi && leb hi (length xs) then some (take (hi - lo) (drop lo xs)) else none

  -- `xs[i..i + ys.len()].copy_from_slice(ys)`
  unfoldable pub copy_at : ℕ → List A → List A → Option (List A)
  copy_at i ys xs =
      if leb (i + length ys) (length xs)
      then some (take i xs ++ (ys ++ drop (i + length ys) xs))
      else none

  -- A slice in range is the elements from `lo` up to `hi`.
  pub slice-eq_some :
      (lo hi : ℕ) (xs : List A)
      → lo ≤ hi
      → hi ≤ length xs
      → slice lo hi xs ≡ some (take (hi - lo) (drop lo xs))
  unfolding slice
  slice-eq_some lo hi xs p q = rw (le→leb lo hi p, le→leb hi (length xs) q)

  pub copy_at-eq_some :
      (i : ℕ) (ys xs : List A)
      → i + length ys ≤ length xs
      → copy_at i ys xs ≡ some (take i xs ++ (ys ++ drop (i + length ys) xs))
  unfolding copy_at
  copy_at-eq_some i ys xs p = rw (le→leb (i + length ys) (length xs) p)
