-- ===== src/CaProto/Decode/Panics.antt =====
-- Where decoding an error message panics in proto.rs.
use daqingest.Base.{ℕ, ◌≡◌, ◌↔◌, List, length, arith, slice, panic}
use daqingest.CaProto.Error.{Externals}
use daqingest.CaProto.Header.{HeadInfo}
use daqingest.CaProto.Decode.{from_proto_infos, error_from_proto, error_text}

-- The decoding of an error message (command 11) panics exactly when its payload has 17 bytes.
pub error-panics :
    (ext : Externals) (hi : HeadInfo) (payload : List ℕ) (array_truncate : ℕ)
    → hi.cmdid ≡ 0x0b
    → (from_proto_infos ext hi payload array_truncate ≡ panic) ↔ (length payload ≡ 17)
unfolding from_proto_infos error_from_proto error_text slice
error-panics ext hi payload array_truncate cmd =
    rw cmd (λ e. ground (arith, e), λ e. ground (arith, e))
