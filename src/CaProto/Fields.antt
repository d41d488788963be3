-- ===== src/CaProto/Fields.antt =====
-- What a message of proto.rs puts into its 16-byte header, and how long it is.
use mathlib.Core.Option
use daqingest.Base.{ℕ, ◌+◌, ◌*◌, ◌/◌, Option, none, some, length}
use daqingest.CaProto.Message.{
  ca_proto_version, CaMsgTy, version, version_res, error, client_name, client_name_res, host_name,
  search_request, search_res, create_chan, create_chan_res, create_chan_fail, access_rights_res,
  event_add, event_add_res, read_notify, read_notify_res, echo,
}

unfoldable pub cmdid : CaMsgTy → ℕ
cmdid version = 0
cmdid (version_res _) = 0
cmdid (error _) = 0x0b
cmdid client_name = 0x14
cmdid (client_name_res _) = 0x14
cmdid (host_name _) = 0x15
cmdid (search_request _) = 0x06
cmdid (search_res _) = 0x06
cmdid (create_chan _) = 0x12
cmdid (create_chan_res _) = 0x12
cmdid (create_chan_fail _) = 0x1a
cmdid (access_rights_res _) = 0x16
cmdid (event_add _) = 0x01
cmdid (event_add_res _) = 0x01
cmdid (read_notify _) = 0x0f
cmdid (read_notify_res _) = 0x0f
cmdid echo = 0x17

-- a text with its closing zero byte, rounded up to 8 bytes
abbrev pub padded : ℕ → ℕ
padded n = (n + 1 + 7) / 8 * 8

-- `none` is the panic of a message that only a server sends.
unfoldable pub payload_len : CaMsgTy → Option ℕ
payload_len version = some 0
payload_len (version_res _) = some 0
payload_len (error x) = some ((16 + length x.msg + 1 + 7) / 8 * 8)
payload_len client_name = some 0x10
payload_len (client_name_res x) = some (padded (length x.name))
payload_len (host_name _) = some 0x18
payload_len (search_request x) = some (padded (length x.channel))
payload_len (search_res _) = some 8
payload_len (create_chan x) = some (padded (length x.channel))
payload_len (create_chan_res _) = some 0
payload_len (create_chan_fail _) = some 0
payload_len (access_rights_res _) = some 0
payload_len (event_add _) = some 16
payload_len (event_add_res _) = none
payload_len (read_notify _) = some 0
payload_len (read_notify_res _) = none
payload_len echo = some 0

unfoldable pub msg_len : CaMsgTy → Option ℕ
unfolding payload_len
msg_len ty = Option.map (λ n. 16 + n) (payload_len ty)

unfoldable pub data_type : CaMsgTy → ℕ
data_type version = 0
data_type (version_res n) = n
data_type (error _) = 0
data_type client_name = 0
data_type (client_name_res _) = 0
data_type (host_name _) = 0
data_type (search_request _) = 1
data_type (search_res x) = x.tcp_port
data_type (create_chan _) = 0
data_type (create_chan_res x) = x.data_type
data_type (create_chan_fail _) = 0
data_type (access_rights_res _) = 0
data_type (event_add x) = x.data_type
data_type (event_add_res x) = x.data_type
data_type (read_notify x) = x.data_type
data_type (read_notify_res x) = x.data_type
data_type echo = 0

unfoldable pub data_count : CaMsgTy → ℕ
data_count version = ca_proto_version
data_count (version_res _) = 0
data_count (error _) = 0
data_count client_name = 0
data_count (client_name_res _) = 0
data_count (host_name _) = 0
data_count (search_request _) = ca_proto_version
data_count (search_res _) = 0
data_count (create_chan _) = 0
data_count (create_chan_res x) = x.data_count
data_count (create_chan_fail _) = 0
data_count (access_rights_res _) = 0
data_count (event_add x) = x.data_count
data_count (event_add_res x) = x.data_count
data_count (read_notify x) = x.data_count
data_count (read_notify_res x) = x.data_count
data_count echo = 0

unfoldable pub param1 : CaMsgTy → ℕ
param1 version = 0
param1 (version_res _) = 0
param1 (error _) = 0
param1 client_name = 0
param1 (client_name_res _) = 0
param1 (host_name _) = 0
param1 (search_request x) = x.id
param1 (search_res x) = x.addr
param1 (create_chan x) = x.cid
param1 (create_chan_res x) = x.cid
param1 (create_chan_fail x) = x.cid
param1 (access_rights_res x) = x.cid
param1 (event_add x) = x.sid
param1 (event_add_res x) = x.status
param1 (read_notify x) = x.sid
param1 (read_notify_res x) = x.sid
param1 echo = 0

unfoldable pub param2 : CaMsgTy → ℕ
param2 version = 0
param2 (version_res _) = 0
param2 (error _) = 0
param2 client_name = 0
param2 (client_name_res _) = 0
param2 (host_name _) = 0
param2 (search_request x) = x.id
param2 (search_res x) = x.id
param2 (create_chan _) = ca_proto_version
param2 (create_chan_res x) = x.sid
param2 (create_chan_fail _) = 0
param2 (access_rights_res x) = x.rights
param2 (event_add x) = x.subid
param2 (event_add_res x) = x.subid
param2 (read_notify x) = x.ioid
param2 (read_notify_res x) = x.ioid
param2 echo = 0
