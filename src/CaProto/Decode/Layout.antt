-- ===== src/CaProto/Decode/Layout.antt =====
-- The layout of a monitor event in the payload that proto.rs decodes.
use daqingest.Base.{
  ℕ, ◌+◌, ◌*◌, ◌^◌, ◌<◌, ◌≡◌, refl, sym, ap, ◌∙◌, some, List, [], ◌++◌, length, take, arith,
  length-append, length-be_bytes, be_bytes, be_value-be_bytes, slice, slice-eq_some,
  take-append_left, drop-append_left, append-nil, ok, le→ltb_false,
}
use daqingest.Base.Fallible.{◌>>=◌}
use daqingest.CaProto.Message.{epics_epoch_offset, CaMsg, event_add_res, CaDataValue}
use daqingest.CaProto.Error.{Shape, Externals}
use daqingest.CaProto.Header.{HeadInfo}
use daqingest.CaProto.DbrType.{CaDbrMetaType, CaScalarType, from_ca_u16}
use daqingest.CaProto.Decode.{
  be_at, non_zero, meta_padding, value_of, timestamp, event_from_proto, from_proto_infos,
}

-- the type code of the `Time` variant of a scalar type
unfoldable pub time_code : CaScalarType → ℕ
time_code CaScalarType.string = 14
time_code CaScalarType.i16 = 15
time_code CaScalarType.f32 = 16
time_code CaScalarType.enum = 17
time_code CaScalarType.i8 = 18
time_code CaScalarType.i32 = 19
time_code CaScalarType.f64 = 20

pub from_ca_u16-time_code :
    (t : CaScalarType)
    → from_ca_u16 (time_code t) ≡ ok (record { meta = CaDbrMetaType.time; scalar_type = t })
unfolding from_ca_u16 time_code
from_ca_u16-time_code CaScalarType.string = refl
from_ca_u16-time_code _ = refl

-- The bytes between the time and the value in the `Time` layout of a scalar type.
unfoldable pub time_padding : CaScalarType → ℕ
time_padding CaScalarType.string = 0
time_padding CaScalarType.i16 = 2
time_padding CaScalarType.f32 = 0
time_padding CaScalarType.enum = 2
time_padding CaScalarType.i8 = 3
time_padding CaScalarType.i32 = 0
time_padding CaScalarType.f64 = 4

meta_padding-time : (t : CaScalarType) → meta_padding CaDbrMetaType.time t ≡ time_padding t
unfolding meta_padding time_padding
meta_padding-time CaScalarType.string = refl
meta_padding-time _ = refl

-- A slice between two parts of a list.
slice-middle :
    (xs ys zs : List ℕ) (lo hi : ℕ)
    → lo ≡ length xs
    → hi ≡ lo + length ys
    → slice lo hi (xs ++ (ys ++ zs)) ≡ some ys
slice-middle xs ys zs lo hi p q =
    slice-eq_some lo hi (xs ++ (ys ++ zs)) (omega arith)
      (omega (arith, length-append xs (ys ++ zs), length-append ys zs))
    ∙ rw (p, drop-append_left xs (ys ++ zs))
        (ap (λ n. some (take n (ys ++ zs))) {y = length ys} (omega arith)
          ∙ ap (λ r. some r) (take-append_left ys zs))

be_at-middle :
    (xs zs : List ℕ) (n v lo hi : ℕ)
    → v < 256 ^ n
    → lo ≡ length xs
    → hi ≡ lo + n
    → be_at lo hi (xs ++ (be_bytes n v ++ zs)) ≡ ok v
unfolding be_at
be_at-middle xs zs n v lo hi small p q =
    rw (slice-middle xs (be_bytes n v) zs lo hi p (omega (arith, length-be_bytes n v)))
      (ap (λ x. ok x) (be_value-be_bytes n v small))

-- status, severity, seconds and nanoseconds, the padding of the type, and the values
abbrev pub event_payload : ℕ → ℕ → ℕ → ℕ → List ℕ → List ℕ → List ℕ
event_payload status severity secs nanos pad values =
    be_bytes 2 status
    ++ (be_bytes 2 severity ++ (be_bytes 4 secs ++ (be_bytes 4 nanos ++ (pad ++ values))))

module _ (ext : Externals) (hi : HeadInfo) (t : CaScalarType) (sh : Shape)
    (status severity secs nanos : ℕ) (pad values : List ℕ) (array_truncate : ℕ) where
  abbrev whole : List ℕ
  whole = event_payload status severity secs nanos pad values

  fields_read :
      status < 2 ^ 16
      → severity < 2 ^ 16
      → secs < 2 ^ 32
      → nanos < 2 ^ 32
      → (be_at 0 2 whole ≡ ok status)
        × (be_at 2 4 whole ≡ ok severity)
        × (be_at 4 8 whole ≡ ok secs)
        × (be_at 8 12 whole ≡ ok nanos)
  unfolding be_bytes
  fields_read a b c d = (
    be_at-middle []
        (be_bytes 2 severity ++ (be_bytes 4 secs ++ (be_bytes 4 nanos ++ (pad ++ values)))) 2 status
        0 2 a (omega arith) (omega arith),
    be_at-middle (be_bytes 2 status) (be_bytes 4 secs ++ (be_bytes 4 nanos ++ (pad ++ values))) 2
        severity 2 4 b (omega arith) (omega arith),
    be_at-middle (be_bytes 2 status ++ be_bytes 2 severity) (be_bytes 4 nanos ++ (pad ++ values)) 4
        secs 4 8 c (omega arith) (omega arith),
    be_at-middle (be_bytes 2 status ++ (be_bytes 2 severity ++ be_bytes 4 secs)) (pad ++ values) 4
        nanos 8 12 d (omega arith) (omega arith),
  )

  length-whole : length whole ≡ 12 + length pad + length values
  unfolding be_bytes
  length-whole = omega (arith, length-append pad values)

  values_read :
      length pad ≡ meta_padding CaDbrMetaType.time t
      → slice (12 + meta_padding CaDbrMetaType.time t) (length whole) whole ≡ some values
  unfolding be_bytes
  values_read e =
      ap
        (λ w.
          slice (12 + meta_padding CaDbrMetaType.time t) (length whole)
            (event_payload status severity secs nanos pad w))
        (sym (append-nil values))
      ∙ slice-middle
          ((be_bytes 2 status ++ (be_bytes 2 severity ++ (be_bytes 4 secs ++ be_bytes 4 nanos)))
            ++ pad)
          values [] (12 + meta_padding CaDbrMetaType.time t) (length whole) (omega arith)
          (omega (arith, length-whole))

  abbrev pub event_of : CaDataValue → CaMsg
  event_of value = record {
    ty = event_add_res (record {
      data_type = hi.data_type;
      data_count = hi.data_count;
      status = hi.param1;
      subid = hi.param2;
      value = record {
        ts = non_zero (timestamp ext secs nanos);
        status = non_zero status;
        severity = non_zero severity;
        value = value;
      };
    });
  }

  -- A monitor event (command 1) whose payload has status, severity, seconds and nanoseconds of
  -- their widths, the padding of its time type and then values, and whose count has a shape, is
  -- decoded to those fields and that time, with the value decoded from what follows the padding.
  pub from_proto_infos-event :
      status < 2 ^ 16
      → severity < 2 ^ 16
      → secs < 2 ^ 32
      → nanos < 2 ^ 32
      → hi.cmdid ≡ 1
      → hi.data_type ≡ time_code t
      → ext.from_ca_count hi.data_count ≡ some sh
      → length pad ≡ time_padding t
      → from_proto_infos ext hi (event_payload status severity secs nanos pad values) array_truncate
        ≡ (value_of sh t array_truncate values >>= λ value. ok (event_of value))
  unfolding from_proto_infos event_from_proto
  from_proto_infos-event a b c d cmd ty count padded =
      let f = fields_read a b c d in
      rw (
        cmd,
        ty,
        from_ca_u16-time_code t,
        le→ltb_false (length whole) 12 (omega (arith, length-whole)),
        f.0,
        f.1,
        f.2,
        f.3,
        count,
        values_read (padded ∙ sym (meta_padding-time t)),
      )

-- If a second has 10^9 nanoseconds, then for every 32-bit number of seconds and of nanoseconds
-- the time of an event is the sum of them and of the offset of the EPICS epoch, without
-- overflow.
pub timestamp_exact :
    (ext : Externals) (secs nanos : ℕ)
    → ext.sec ≡ 10 ^ 9
    → secs < 2 ^ 32
    → nanos < 2 ^ 32
    → timestamp ext secs nanos ≡ 10 ^ 9 * secs + 10 ^ 9 * epics_epoch_offset + nanos
unfolding timestamp
timestamp_exact ext secs nanos e a b = rw e (omega arith)
