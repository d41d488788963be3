-- ===== src/CaProto/Decode/Errors.antt =====
-- Decoding a payload in proto.rs never reports an error of the buffer.
use daqingest.Base.{
  drop, ℕ, zero, suc, Bool, true, false, Option, none, some, List, Outcome, ok, err, panic,
  if◌then◌else◌, slice, length, ltb, min,
}
use daqingest.Base.Fallible.{◌>>=◌, ◌>>◌, unwrap}
use daqingest.CaProto.Message.{CaDataScalarValue, CaDataArrayValue}
use daqingest.CaProto.Error.{Error, slide_buf, Shape, Externals}
use daqingest.CaProto.Header.{HeadInfo}
use daqingest.CaProto.DbrType.{CaDbrMetaType, CaScalarType, from_ca_u16}
use daqingest.CaProto.Value.{
  convert_scalar_value, wave_values, convert_wave_value, ca_scalar_value, ca_wave_value,
}
use daqingest.CaProto.Decode.{
  be_at, value_of, require_time, shape_of, event_from_proto, from_proto_infos,
}

abbrev NotBuffer : Error → Type 0
NotBuffer (slide_buf _) = ⊥
NotBuffer _ = Unit

abbrev pub NoBufferError : {A : Type 0} → Outcome Error A → Type 0
NoBufferError (ok _) = Unit
NoBufferError (err e) = NotBuffer e
NoBufferError panic = Unit

bind_rule :
    {A B : Type 0} (m : Outcome Error A) (f : A → Outcome Error B)
    → NoBufferError m
    → ((a : A) → NoBufferError (f a))
    → NoBufferError (m >>= f)
bind_rule (ok a) f h k = k a
bind_rule (err e) f h k = h
bind_rule panic f h k = tt

then_rule :
    {A B : Type 0} (m : Outcome Error A) (n : Outcome Error B)
    → NoBufferError m
    → NoBufferError n
    → NoBufferError (m >> n)
then_rule m n h k = bind_rule m (λ _. n) h (λ _. k)

unwrap_rule : {A : Type 0} (o : Option A) → NoBufferError (unwrap {E = Error} o)
unwrap_rule none = tt
unwrap_rule (some a) = tt

if_rule :
    {A : Type 0} (b : Bool) (m n : Outcome Error A)
    → NoBufferError m
    → NoBufferError n
    → NoBufferError (if b then m else n)
if_rule true m n h k = h
if_rule false m n h k = k

ok_rule : {A : Type 0} (a : A) → NoBufferError {A = A} (ok a)
ok_rule a = tt

be_at_rule : (lo hi : ℕ) (b : List ℕ) → NoBufferError (be_at lo hi b)
unfolding be_at
be_at_rule lo hi b = bind_rule (unwrap (slice lo hi b)) _ (unwrap_rule (slice lo hi b)) (λ a. tt)

ruleset bind_rules = (bind_rule, then_rule, unwrap_rule, if_rule, ok_rule)

wave_rule : (stl n : ℕ) (b : List ℕ) → NoBufferError (wave_values stl n b)
unfolding wave_values
wave_rule stl zero b = tt
wave_rule stl (suc n) b = search (bind_rules, wave_rule stl n (drop stl b))

scalar_rule :
    (stl : ℕ) (var : ℕ → CaDataScalarValue) (b : List ℕ)
    → NoBufferError (convert_scalar_value stl var b)
unfolding convert_scalar_value
scalar_rule stl var b = if_rule (ltb (length b) stl) _ _ tt tt

array_rule :
    (stl : ℕ) (var : List ℕ → CaDataArrayValue) (n : ℕ) (b : List ℕ)
    → NoBufferError (convert_wave_value stl var n b)
unfolding convert_wave_value
array_rule stl var n b = search (bind_rules, wave_rule)

ca_scalar_rule : (t : CaScalarType) (b : List ℕ) → NoBufferError (ca_scalar_value t b)
unfolding ca_scalar_value
ca_scalar_rule CaScalarType.string b = tt
ca_scalar_rule CaScalarType.i8 b = scalar_rule 1 _ b
ca_scalar_rule CaScalarType.i16 b = scalar_rule 2 _ b
ca_scalar_rule CaScalarType.i32 b = scalar_rule 4 _ b
ca_scalar_rule CaScalarType.f32 b = scalar_rule 4 _ b
ca_scalar_rule CaScalarType.f64 b = scalar_rule 8 _ b
ca_scalar_rule CaScalarType.enum b = scalar_rule 2 _ b

ca_wave_rule : (t : CaScalarType) (n : ℕ) (b : List ℕ) → NoBufferError (ca_wave_value t n b)
unfolding ca_wave_value
ca_wave_rule CaScalarType.string n b = tt
ca_wave_rule CaScalarType.i8 n b = array_rule 1 _ n b
ca_wave_rule CaScalarType.i16 n b = array_rule 2 _ n b
ca_wave_rule CaScalarType.i32 n b = array_rule 4 _ n b
ca_wave_rule CaScalarType.f32 n b = array_rule 4 _ n b
ca_wave_rule CaScalarType.f64 n b = array_rule 8 _ n b
ca_wave_rule CaScalarType.enum n b = tt

value_rule :
    (sh : Shape) (t : CaScalarType) (n : ℕ) (b : List ℕ) → NoBufferError (value_of sh t n b)
unfolding value_of
value_rule Shape.scalar t n b = ca_scalar_rule t b
value_rule (Shape.wave k) t n b = ca_wave_rule t (min k n) b
value_rule (Shape.image _ _) t n b = tt

require_rule : (m : CaDbrMetaType) → NoBufferError (require_time m)
unfolding require_time
require_rule CaDbrMetaType.time = tt
require_rule _ = tt

shape_rule : (o : Option Shape) → NoBufferError (shape_of o)
unfolding shape_of
shape_rule none = tt
shape_rule (some sh) = tt

type_rule : (k : ℕ) → NoBufferError (from_ca_u16 k)
unfolding from_ca_u16
type_rule k = search (bind_rules, tt) depth 20

event_rule :
    (ext : Externals) (hi : HeadInfo) (b : List ℕ) (n : ℕ)
    → NoBufferError (event_from_proto ext hi b n)
unfolding event_from_proto
event_rule ext hi b n =
    search (bind_rules, tt, type_rule, require_rule, shape_rule, value_rule) depth 20

-- Decoding never fails with an error of the buffer, whatever the header and the payload.
pub from_proto_infos-NoBufferError :
    (ext : Externals) (hi : HeadInfo) (b : List ℕ) (n : ℕ)
    → NoBufferError (from_proto_infos ext hi b n)
unfolding from_proto_infos
from_proto_infos-NoBufferError ext hi b n = search (bind_rules, tt, event_rule, be_at_rule) depth 20
