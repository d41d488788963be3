-- ===== src/CaProto/Convert.antt =====
-- The readings of a value of proto.rs (`GetValHelp`), and its conversion to a value to insert.
use daqingest.Base.{ℕ, ℤ, ◌≡◌, ◌↔◌, refl, sym, ap, ◌∙◌, Outcome, ok, err, arith}
use daqingest.InsertQueue.{ScalarValue, ArrayValue, DataValue}
use daqingest.CaProto.Message.{CaDataScalarValue, CaDataArrayValue, CaDataValue}
use daqingest.CaProto.Error.{Error, get_val_help_inner_type_mismatch, get_val_help_todo_waveform}

unfoldable pub get_i8 : CaDataValue → Outcome Error ℤ
get_i8 (CaDataValue.scalar (CaDataScalarValue.i8 v)) = ok v
get_i8 (CaDataValue.scalar _) = err get_val_help_inner_type_mismatch
get_i8 (CaDataValue.array _) = err get_val_help_todo_waveform

unfoldable pub get_i16 : CaDataValue → Outcome Error ℤ
get_i16 (CaDataValue.scalar (CaDataScalarValue.i16 v)) = ok v
get_i16 (CaDataValue.scalar _) = err get_val_help_inner_type_mismatch
get_i16 (CaDataValue.array _) = err get_val_help_todo_waveform

unfoldable pub get_i32 : CaDataValue → Outcome Error ℤ
get_i32 (CaDataValue.scalar (CaDataScalarValue.i32 v)) = ok v
get_i32 (CaDataValue.scalar _) = err get_val_help_inner_type_mismatch
get_i32 (CaDataValue.array _) = err get_val_help_todo_waveform

unfoldable pub get_f32 : CaDataValue → Outcome Error ℕ
get_f32 (CaDataValue.scalar (CaDataScalarValue.f32 v)) = ok v
get_f32 (CaDataValue.scalar _) = err get_val_help_inner_type_mismatch
get_f32 (CaDataValue.array _) = err get_val_help_todo_waveform

unfoldable pub get_f64 : CaDataValue → Outcome Error ℕ
get_f64 (CaDataValue.scalar (CaDataScalarValue.f64 v)) = ok v
get_f64 (CaDataValue.scalar _) = err get_val_help_inner_type_mismatch
get_f64 (CaDataValue.array _) = err get_val_help_todo_waveform

unfoldable pub scalar_value_from : CaDataScalarValue → ScalarValue
scalar_value_from (CaDataScalarValue.i8 x) = ScalarValue.i8 x
scalar_value_from (CaDataScalarValue.i16 x) = ScalarValue.i16 x
scalar_value_from (CaDataScalarValue.i32 x) = ScalarValue.i32 x
scalar_value_from (CaDataScalarValue.f32 x) = ScalarValue.f32 x
scalar_value_from (CaDataScalarValue.f64 x) = ScalarValue.f64 x
scalar_value_from (CaDataScalarValue.enum x) = ScalarValue.enum x
scalar_value_from (CaDataScalarValue.string x) = ScalarValue.string x
scalar_value_from (CaDataScalarValue.bool x) = ScalarValue.bool x

unfoldable pub array_value_from : CaDataArrayValue → ArrayValue
array_value_from (CaDataArrayValue.i8 x) = ArrayValue.i8 x
array_value_from (CaDataArrayValue.i16 x) = ArrayValue.i16 x
array_value_from (CaDataArrayValue.i32 x) = ArrayValue.i32 x
array_value_from (CaDataArrayValue.f32 x) = ArrayValue.f32 x
array_value_from (CaDataArrayValue.f64 x) = ArrayValue.f64 x
array_value_from (CaDataArrayValue.bool x) = ArrayValue.bool x

unfoldable pub data_value_from : CaDataValue → DataValue
unfolding scalar_value_from array_value_from
data_value_from (CaDataValue.scalar x) = DataValue.scalar (scalar_value_from x)
data_value_from (CaDataValue.array x) = DataValue.array (array_value_from x)

-- The value that a value to insert came from.
scalar_back : ScalarValue → CaDataScalarValue
scalar_back (ScalarValue.i8 x) = CaDataScalarValue.i8 x
scalar_back (ScalarValue.i16 x) = CaDataScalarValue.i16 x
scalar_back (ScalarValue.i32 x) = CaDataScalarValue.i32 x
scalar_back (ScalarValue.f32 x) = CaDataScalarValue.f32 x
scalar_back (ScalarValue.f64 x) = CaDataScalarValue.f64 x
scalar_back (ScalarValue.enum x) = CaDataScalarValue.enum x
scalar_back (ScalarValue.string x) = CaDataScalarValue.string x
scalar_back (ScalarValue.bool x) = CaDataScalarValue.bool x

array_back : ArrayValue → CaDataArrayValue
array_back (ArrayValue.i8 x) = CaDataArrayValue.i8 x
array_back (ArrayValue.i16 x) = CaDataArrayValue.i16 x
array_back (ArrayValue.i32 x) = CaDataArrayValue.i32 x
array_back (ArrayValue.f32 x) = CaDataArrayValue.f32 x
array_back (ArrayValue.f64 x) = CaDataArrayValue.f64 x
array_back (ArrayValue.bool x) = CaDataArrayValue.bool x

back : DataValue → CaDataValue
unfolding scalar_back array_back
back (DataValue.scalar x) = CaDataValue.scalar (scalar_back x)
back (DataValue.array x) = CaDataValue.array (array_back x)

scalar_back-from : (v : CaDataScalarValue) → scalar_back (scalar_value_from v) ≡ v
unfolding scalar_back scalar_value_from
scalar_back-from (CaDataScalarValue.i8 x) = refl
scalar_back-from _ = refl

array_back-from : (v : CaDataArrayValue) → array_back (array_value_from v) ≡ v
unfolding array_back array_value_from
array_back-from (CaDataArrayValue.i8 x) = refl
array_back-from _ = refl

back-from : (v : CaDataValue) → back (data_value_from v) ≡ v
unfolding back data_value_from
back-from (CaDataValue.scalar x) = ap (λ v. CaDataValue.scalar v) (scalar_back-from x)
back-from (CaDataValue.array x) = ap (λ v. CaDataValue.array v) (array_back-from x)

-- Different values are converted to different values to insert.
pub data_value_from-injective : (v w : CaDataValue) → data_value_from v ≡ data_value_from w → v ≡ w
data_value_from-injective v w e = sym (back-from v) ∙ ap back e ∙ back-from w

-- Each of the five readings of a value returns a number exactly for the scalar of its own type
-- with that number.
pub get-ok :
    (v : CaDataValue)
    → ((x : ℤ) → (get_i8 v ≡ ok x) ↔ (v ≡ CaDataValue.scalar (CaDataScalarValue.i8 x)))
      × ((x : ℤ) → (get_i16 v ≡ ok x) ↔ (v ≡ CaDataValue.scalar (CaDataScalarValue.i16 x)))
      × ((x : ℤ) → (get_i32 v ≡ ok x) ↔ (v ≡ CaDataValue.scalar (CaDataScalarValue.i32 x)))
      × ((x : ℕ) → (get_f32 v ≡ ok x) ↔ (v ≡ CaDataValue.scalar (CaDataScalarValue.f32 x)))
      × ((x : ℕ) → (get_f64 v ≡ ok x) ↔ (v ≡ CaDataValue.scalar (CaDataScalarValue.f64 x)))
unfolding get_i8 get_i16 get_i32 get_f32 get_f64
get-ok v = (
  λ x. (λ e. ground (arith, e), λ e. ap get_i8 e),
  λ x. (λ e. ground (arith, e), λ e. ap get_i16 e),
  λ x. (λ e. ground (arith, e), λ e. ap get_i32 e),
  λ x. (λ e. ground (arith, e), λ e. ap get_f32 e),
  λ x. (λ e. ground (arith, e), λ e. ap get_f64 e),
)
