-- ===== src/CaProto/Header.antt =====
-- `HeadInfo` of proto.rs.
use daqingest.Base.{ℕ, ◌>>=◌, pure}
use daqingest.SlideBuf.{SlideBuf, read_u16_be, read_u32_be}
use daqingest.SlideBuf

pub record HeadInfo : Type 0 where
  pub cmdid : ℕ
  pub payload_size : ℕ
  pub data_type : ℕ
  pub data_count : ℕ
  pub param1 : ℕ
  pub param2 : ℕ

-- The error of the buffer becomes `Error::SlideBuf` where the parser calls this.
unfoldable pub from_netbuf : SlideBuf.Op HeadInfo
from_netbuf = do
  command ← read_u16_be
  payload_size ← read_u16_be
  data_type ← read_u16_be
  data_count ← read_u16_be
  param1 ← read_u32_be
  param2 ← read_u32_be
  pure record {
    cmdid = command;
    payload_size = payload_size;
    data_type = data_type;
    data_count = data_count;
    param1 = param1;
    param2 = param2;
  }
