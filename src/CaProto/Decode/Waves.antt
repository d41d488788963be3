-- ===== src/CaProto/Decode/Waves.antt =====
-- Array values of monitor events in proto.rs: elements of a fixed size, one after the other.
use native.Mathlib.Nat.{mul-div_cancel}
use daqingest.Base.{
  ℕ, zero, suc, ◌*◌, ◌/◌, ◌^◌, ◌≤◌, ◌<◌, ◌≡◌, refl, sym, ap, ◌∙◌, min, some, List, [], ◌∷◌, ◌++◌,
  length, take, drop, arith, length-append, length-be_bytes, be_bytes, be_value-be_bytes, slice,
  slice-eq_some, take-append_left, drop-append_left, ok, map, signed,
}
use daqingest.CaProto.Message.{CaDataArrayValue, CaDataValue}
use daqingest.CaProto.DbrType.{CaScalarType}
use daqingest.CaProto.Value.{wave_values, convert_wave_value, ca_wave_value}

-- elements of `stl` bytes each
abbrev pub elements : ℕ → List ℕ → List ℕ
elements stl [] = []
elements stl (v ∷ vs) = be_bytes stl v ++ elements stl vs

abbrev pub AllBelow : ℕ → List ℕ → Type 0
AllBelow k [] = Unit
AllBelow k (v ∷ vs) = (v < k) × AllBelow k vs

length-elements : (stl : ℕ) (vs : List ℕ) → length (elements stl vs) ≡ length vs * stl
length-elements stl [] = omega arith
length-elements stl (v ∷ vs) =
    length-append (be_bytes stl v) (elements stl vs)
    ∙ grind (arith, length-be_bytes stl v, length-elements stl vs)

-- The loop reads the first `n` elements.
wave_values-elements :
    (stl n : ℕ) (vs : List ℕ)
    → AllBelow (256 ^ stl) vs
    → n ≤ length vs
    → wave_values stl n (elements stl vs) ≡ ok (take n vs)
unfolding wave_values
wave_values-elements stl zero vs fits h = refl
wave_values-elements stl (suc n) [] fits h = absurd (omega arith)
wave_values-elements stl (suc n) (v ∷ vs) (fit, fits) h =
    let size = length-be_bytes stl v in
    let rest : List ℕ = elements stl vs in
    let first : slice 0 stl (be_bytes stl v ++ rest) ≡ some (be_bytes stl v) =
      slice-eq_some 0 stl (be_bytes stl v ++ rest) (omega arith)
        (omega (arith, length-append (be_bytes stl v) rest, size))
      ∙ ap (λ k. some (take k (be_bytes stl v ++ rest))) {y = length (be_bytes stl v)}
          (omega (arith, size))
      ∙ ap (λ r. some r) (take-append_left (be_bytes stl v) rest) in
    let back : drop stl (be_bytes stl v ++ rest) ≡ rest =
      ap (λ k. drop k (be_bytes stl v ++ rest)) (sym size)
      ∙ drop-append_left (be_bytes stl v) rest in
    rw (first, back, wave_values-elements stl n vs fits (omega arith), be_value-be_bytes stl v fit)

-- With the count `n` asked for, the array holds the first `n` of the elements that came.
convert_wave_value-elements :
    (stl n : ℕ) (var : List ℕ → CaDataArrayValue) (vs : List ℕ)
    → 0 < stl
    → AllBelow (256 ^ stl) vs
    → convert_wave_value stl var n (elements stl vs)
      ≡ ok (CaDataValue.array (var (take (min n (length vs)) vs)))
unfolding convert_wave_value
convert_wave_value-elements stl n var vs pos fits =
    let count : length (elements stl vs) / stl ≡ length vs =
      ap (λ k. k / stl) (length-elements stl vs) ∙ mul-div_cancel (length vs) pos in
    rw (count, wave_values-elements stl (min n (length vs)) vs fits (omega arith))

-- the element size and the variant of the types whose arrays are decoded
pub data ArrayType : Type 0 where
  i8 i16 i32 f32 f64 : ArrayType

unfoldable pub array_scalar : ArrayType → CaScalarType
array_scalar i8 = CaScalarType.i8
array_scalar i16 = CaScalarType.i16
array_scalar i32 = CaScalarType.i32
array_scalar f32 = CaScalarType.f32
array_scalar f64 = CaScalarType.f64

abbrev pub element_size : ArrayType → ℕ
element_size i8 = 1
element_size i16 = 2
element_size i32 = 4
element_size f32 = 4
element_size f64 = 8

abbrev pub array_of : ArrayType → List ℕ → CaDataArrayValue
array_of i8 vs = CaDataArrayValue.i8 (map (signed 8) vs)
array_of i16 vs = CaDataArrayValue.i16 (map (signed 16) vs)
array_of i32 vs = CaDataArrayValue.i32 (map (signed 32) vs)
array_of f32 vs = CaDataArrayValue.f32 vs
array_of f64 vs = CaDataArrayValue.f64 vs

-- Of an array of big-endian elements of an integer or float type as many are decoded as were
-- asked for and have come, each to the value that its bytes stand for in the type.
pub ca_wave_value-elements :
    (t : ArrayType) (n : ℕ) (vs : List ℕ)
    → AllBelow (256 ^ element_size t) vs
    → ca_wave_value (array_scalar t) n (elements (element_size t) vs)
      ≡ ok (CaDataValue.array (array_of t (take (min n (length vs)) vs)))
unfolding ca_wave_value array_scalar
ca_wave_value-elements i8 n vs fits =
    convert_wave_value-elements 1 n (array_of i8) vs (omega arith) fits
ca_wave_value-elements i16 n vs fits =
    convert_wave_value-elements 2 n (array_of i16) vs (omega arith) fits
ca_wave_value-elements i32 n vs fits =
    convert_wave_value-elements 4 n (array_of i32) vs (omega arith) fits
ca_wave_value-elements f32 n vs fits =
    convert_wave_value-elements 4 n (array_of f32) vs (omega arith) fits
ca_wave_value-elements f64 n vs fits =
    convert_wave_value-elements 8 n (array_of f64) vs (omega arith) fits
