-- ===== src/CaProto/Value.antt =====
-- `CaMsg::ca_scalar_value` and `CaMsg::ca_wave_value` of proto.rs, with their two macros.
use daqingest.Base.{
  ℕ, zero, suc, ◌/◌, min, List, [], ◌∷◌, map, length, take, drop, ltb, ◌==◌, if◌then◌else◌, signed,
  be_value, slice, Outcome, ok, err,
}
use daqingest.Base.Fallible.{◌>>=◌, unwrap}
use daqingest.Base.Text.{utf8_lossy}
use daqingest.CaProto.Message.{CaDataScalarValue, CaDataArrayValue, CaDataValue}
use daqingest.CaProto.DbrType.{CaScalarType}
use daqingest.CaProto.Error.{Error, not_enough_payload, todo_conversion_array}

-- `convert_scalar_value!`, for a type of `stl` bytes and a variant
unfoldable pub convert_scalar_value :
    ℕ → (ℕ → CaDataScalarValue) → List ℕ → Outcome Error CaDataValue
convert_scalar_value stl var buf =
    if ltb (length buf) stl
    then err not_enough_payload
    else ok (CaDataValue.scalar (var (be_value (take stl buf))))

-- the loop of `convert_wave_value!`: `nn` rounds over the rest of the buffer
unfoldable pub wave_values : ℕ → ℕ → List ℕ → Outcome Error (List ℕ)
wave_values stl zero bb = ok []
wave_values stl (suc nn) bb = do
  v ← unwrap (slice 0 stl bb)
  a ← wave_values stl nn (drop stl bb)
  ok (be_value v ∷ a)

unfoldable pub convert_wave_value :
    ℕ → (List ℕ → CaDataArrayValue) → ℕ → List ℕ → Outcome Error CaDataValue
convert_wave_value stl var n buf = do
  a ← wave_values stl (min n (length buf / stl)) buf
  ok (CaDataValue.array (var a))

-- the bytes before the first zero, or all
unfoldable pub until_zero : List ℕ → List ℕ
until_zero [] = []
until_zero (c ∷ cs) = if c == 0 then [] else c ∷ until_zero cs

unfoldable pub ca_scalar_value : CaScalarType → List ℕ → Outcome Error CaDataValue
ca_scalar_value CaScalarType.i8 = convert_scalar_value 1 (λ v. CaDataScalarValue.i8 (signed 8 v))
ca_scalar_value CaScalarType.i16 = convert_scalar_value 2 (λ v. CaDataScalarValue.i16 (signed 16 v))
ca_scalar_value CaScalarType.i32 = convert_scalar_value 4 (λ v. CaDataScalarValue.i32 (signed 32 v))
ca_scalar_value CaScalarType.f32 = convert_scalar_value 4 CaDataScalarValue.f32
ca_scalar_value CaScalarType.f64 = convert_scalar_value 8 CaDataScalarValue.f64
ca_scalar_value CaScalarType.enum =
    convert_scalar_value 2 (λ v. CaDataScalarValue.i16 (signed 16 v))
ca_scalar_value CaScalarType.string =
    λ buf. ok (CaDataValue.scalar (CaDataScalarValue.string (utf8_lossy (until_zero buf))))

-- "todo-array-string"
abbrev pub todo_array_string : List ℕ
todo_array_string =
    b't' ∷ b'o' ∷ b'd' ∷ b'o' ∷ b'-' ∷ b'a' ∷ b'r' ∷ b'r' ∷ b'a' ∷ b'y' ∷ b'-' ∷ b's' ∷ b't' ∷ b'r'
    ∷ b'i' ∷ b'n' ∷ b'g' ∷ []

unfoldable pub ca_wave_value : CaScalarType → ℕ → List ℕ → Outcome Error CaDataValue
ca_wave_value CaScalarType.i8 = convert_wave_value 1 (λ a. CaDataArrayValue.i8 (map (signed 8) a))
ca_wave_value CaScalarType.i16 =
    convert_wave_value 2 (λ a. CaDataArrayValue.i16 (map (signed 16) a))
ca_wave_value CaScalarType.i32 =
    convert_wave_value 4 (λ a. CaDataArrayValue.i32 (map (signed 32) a))
ca_wave_value CaScalarType.f32 = convert_wave_value 4 CaDataArrayValue.f32
ca_wave_value CaScalarType.f64 = convert_wave_value 8 CaDataArrayValue.f64
ca_wave_value CaScalarType.string =
    λ n buf. ok (CaDataValue.scalar (CaDataScalarValue.string todo_array_string))
ca_wave_value CaScalarType.enum = λ n buf. err todo_conversion_array
