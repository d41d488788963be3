-- ===== src/CaProto/Decode.antt =====
-- `CaMsg::from_proto_infos` of proto.rs.
pub mod Layout
pub mod Waves
pub mod Errors
pub mod Panics
use daqingest.Base.{
  ℕ, ◌+◌, ◌-◌, ◌*◌, ◌%◌, ◌^◌, min, Bool, Option, none, some, List, [], ◌∷◌, ◌++◌, length, take, ltb,
  leb, ◌==◌, if◌then◌else◌, be_value, slice, Outcome, ok, err, panic,
}
use daqingest.Base.Fallible.{◌>>=◌, ◌>>◌, unwrap}
use daqingest.Base.Text.{utf8_lossy, is_utf8, debug_bytes, decimal}
use daqingest.CaProto.Message.{
  epics_epoch_offset, CaMsg, CaMsgTy, CaEventValue, CaDataValue, version_res, error,
  client_name_res, host_name, search_res, create_chan_res, create_chan_fail, access_rights_res,
  event_add_res, read_notify_res, echo,
}
use daqingest.CaProto.Error.{
  Error, Shape, Externals, mismatch_dbr_time_type, not_enough_payload_time_metadata, bad_ca_count,
  ca_proto_version_missing, ca_command_not_supported,
}
use daqingest.CaProto.Header.{HeadInfo}
use daqingest.CaProto.DbrType.{CaDbrType, CaDbrMetaType, CaScalarType, from_ca_u16}
use daqingest.CaProto.Value.{ca_scalar_value, ca_wave_value}

-- `uN::from_be_bytes(payload[lo..hi])`
unfoldable pub be_at : ℕ → ℕ → List ℕ → Outcome Error ℕ
be_at lo hi payload = do b ← unwrap (slice lo hi payload); ok (be_value b)

-- `NonZeroU16::new`, `NonZeroU64::new`
abbrev pub non_zero : ℕ → Option ℕ
non_zero n = if n == 0 then none else some n

unfoldable pub meta_padding : CaDbrMetaType → CaScalarType → ℕ
meta_padding CaDbrMetaType.plain t = 0
meta_padding CaDbrMetaType.status CaScalarType.i8 = 1
meta_padding CaDbrMetaType.status CaScalarType.f64 = 4
meta_padding CaDbrMetaType.status t = 0
meta_padding CaDbrMetaType.time CaScalarType.i8 = 3
meta_padding CaDbrMetaType.time CaScalarType.i16 = 2
meta_padding CaDbrMetaType.time CaScalarType.f64 = 4
meta_padding CaDbrMetaType.time CaScalarType.enum = 2
meta_padding CaDbrMetaType.time t = 0

unfoldable pub require_time : CaDbrMetaType → Outcome Error Unit
require_time CaDbrMetaType.time = ok tt
require_time _ = err mismatch_dbr_time_type

unfoldable pub shape_of : Option Shape → Outcome Error Shape
shape_of none = err bad_ca_count
shape_of (some sh) = ok sh

-- An image is `todoval()`.
unfoldable pub value_of : Shape → CaScalarType → ℕ → List ℕ → Outcome Error CaDataValue
value_of Shape.scalar t array_truncate valbuf = ca_scalar_value t valbuf
value_of (Shape.wave n) t array_truncate valbuf = ca_wave_value t (min n array_truncate) valbuf
value_of (Shape.image _ _) t array_truncate valbuf = panic

-- `format!("{:?}", &payload[..payload.len().min(16)])`, and the text behind it
error_text : List ℕ → Outcome Error (List ℕ)
error_text payload =
    let s = debug_bytes (take (min (length payload) 16) payload) in
    if leb 17 (length payload)
    then (do
      msg ← unwrap (slice 17 (length payload - 1) payload)
      ok (s ++ (b' ' ∷ b' ' ∷ b'm' ∷ b's' ∷ b'g' ∷ b':' ∷ b' ' ∷ []) ++ utf8_lossy msg))
    else ok s

-- the position of the first zero
zero_at : ℕ → List ℕ → Option ℕ
zero_at i [] = none
zero_at i (b ∷ bs) = if b == 0 then some i else zero_at (i + 1) bs

-- "NulError(i, [..])"
nul_error_text : ℕ → List ℕ → List ℕ
nul_error_text i payload =
    (b'N' ∷ b'u' ∷ b'l' ∷ b'E' ∷ b'r' ∷ b'r' ∷ b'o' ∷ b'r' ∷ b'(' ∷ [])
    ++ decimal i
    ++ (b',' ∷ b' ' ∷ [])
    ++ debug_bytes payload
    ++ (b')' ∷ [])

-- "TODOx5288"
abbrev pub host_name_text : List ℕ
host_name_text = b'T' ∷ b'O' ∷ b'D' ∷ b'O' ∷ b'x' ∷ b'5' ∷ b'2' ∷ b'8' ∷ b'8' ∷ []

module _ (ext : Externals) where
  client_name_text : List ℕ → List ℕ
  client_name_text payload = elim (zero_at 0 payload) [
    | some i ↦ nul_error_text i payload
    | none ↦ if is_utf8 payload then payload else ext.into_string_error payload
  ]

  -- SEC * (ca_secs as u64 + EPICS_EPOCH_OFFSET) + ca_nanos as u64
  unfoldable pub timestamp : ℕ → ℕ → ℕ
  timestamp ca_secs ca_nanos = (ext.sec * (ca_secs + epics_epoch_offset) + ca_nanos) % 2 ^ 64

  unfoldable pub event_from_proto : HeadInfo → List ℕ → ℕ → Outcome Error CaMsg
  unfolding timestamp require_time shape_of value_of be_at
  event_from_proto hi payload array_truncate = do
    ca_dbr_ty ← from_ca_u16 hi.data_type
    require_time ca_dbr_ty.meta
    if ltb (length payload) 12 then err (not_enough_payload_time_metadata (length payload)) else do
      ca_status ← be_at 0 2 payload
      ca_severity ← be_at 2 4 payload
      ca_secs ← be_at 4 8 payload
      ca_nanos ← be_at 8 12 payload
      ca_sh ← shape_of (ext.from_ca_count hi.data_count)
      valbuf ←
          unwrap (
            slice (12 + meta_padding ca_dbr_ty.meta ca_dbr_ty.scalar_type) (length payload) payload)
      value ← value_of ca_sh ca_dbr_ty.scalar_type array_truncate valbuf
      ok (record {
        ty = event_add_res (record {
          data_type = hi.data_type;
          data_count = hi.data_count;
          status = hi.param1;
          subid = hi.param2;
          value = record {
            ts = non_zero (timestamp ca_secs ca_nanos);
            status = non_zero ca_status;
            severity = non_zero ca_severity;
            value = value;
          };
        });
      })

  search_from_proto : HeadInfo → List ℕ → Outcome Error CaMsg
  search_from_proto hi payload = if ltb (length payload) 2 then err ca_proto_version_missing else do
    proto_version ← be_at 0 2 payload
    ok (record {
      ty = search_res (record {
        addr = hi.param1;
        tcp_port = hi.data_type;
        id = hi.param2;
        proto_version = proto_version;
      });
    })

  error_from_proto : HeadInfo → List ℕ → Outcome Error CaMsg
  unfolding error_text
  error_from_proto hi payload = do
    s ← error_text payload
    ok (record { ty = error (record { cid = hi.param1; eid = hi.param2; msg = s }) })

  unfoldable pub from_proto_infos : HeadInfo → List ℕ → ℕ → Outcome Error CaMsg
  unfolding search_from_proto error_from_proto client_name_text zero_at nul_error_text
  from_proto_infos hi payload array_truncate =
      if hi.cmdid == 0x00
      then ok (record { ty = version_res hi.data_count })
      else if hi.cmdid == 0x0b
      then error_from_proto hi payload
      else if hi.cmdid == 20
      then ok (record { ty = client_name_res (record { name = client_name_text payload }) })
      else if hi.cmdid == 21
      then ok (record { ty = host_name host_name_text })
      else if hi.cmdid == 6
      then search_from_proto hi payload
      else if hi.cmdid == 18
      then ok (record {
        ty = create_chan_res (record {
          data_type = hi.data_type;
          data_count = hi.data_count;
          cid = hi.param1;
          sid = hi.param2;
        });
      })
      else if hi.cmdid == 22
      then ok (record { ty = access_rights_res (record { cid = hi.param1; rights = hi.param2 }) })
      else if hi.cmdid == 26
      then ok (record { ty = create_chan_fail (record { cid = hi.param1 }) })
      else if hi.cmdid == 1
      then event_from_proto hi payload array_truncate
      else if hi.cmdid == 15
      then ok (record {
        ty = read_notify_res (record {
          data_type = hi.data_type;
          data_count = hi.data_count;
          sid = hi.param1;
          ioid = hi.param2;
        });
      })
      else if hi.cmdid == 0x17
      then ok (record { ty = echo })
      else err (ca_command_not_supported hi.cmdid)
