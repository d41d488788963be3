-- ===== src/CaProto/Error.antt =====
-- The errors of proto.rs, and the library functions that its decoding calls.
use daqingest.Base.{ℕ, Option, List}
use daqingest.SlideBuf

pub data Error : Type 0 where
  slide_buf : SlideBuf.Error → Error
  buffer_too_small_for_need_min : ℕ → ℕ → Error
  io : Error
  bad_slice : Error
  bad_ca_dbr_type_id : ℕ → Error
  bad_ca_scalar_type_id : ℕ → Error
  get_val_help_inner_type_mismatch : Error
  get_val_help_todo_waveform : Error
  not_enough_payload : Error
  todo_conversion_array : Error
  ca_proto_version_missing : Error
  not_enough_payload_time_metadata : ℕ → Error
  mismatch_dbr_time_type : Error
  bad_ca_count : Error
  ca_command_not_supported : ℕ → Error
  parse_attempt_in_done_state : Error

-- `netpod::Shape`
pub data Shape : Type 0 where
  scalar : Shape
  wave : ℕ → Shape
  image : ℕ → ℕ → Shape

-- What proto.rs takes from the crate netpod, and one text of the standard library that only a
-- client name that is not UTF-8 shows.
pub record Externals : Type 0 where
  -- `Shape::from_ca_count`, `none` for its error
  pub from_ca_count : ℕ → Option Shape
  -- `timeunits::SEC`
  pub sec : ℕ
  -- `format!("{:?}", e)` of the `IntoStringError` of a byte string
  pub into_string_error : List ℕ → List ℕ
