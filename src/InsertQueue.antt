-- ===== src/InsertQueue.antt =====
-- scywr/src/iteminsertqueue.rs: the values and the statuses of the items to insert.
pub mod Kinds
pub mod Items
mod Examples
use daqingest.Base.{ℕ, Bool, ◌==◌, if◌then◌else◌, Option, none, some, List, ℤ}

pub data ScalarValue : Type 0 where
  i8 i16 i32 : ℤ → ScalarValue
  f32 f64 : ℕ → ScalarValue
  enum : ℤ → ScalarValue
  string : List ℕ → ScalarValue
  bool : Bool → ScalarValue

pub data ArrayValue : Type 0 where
  i8 i16 i32 : List ℤ → ArrayValue
  f32 f64 : List ℕ → ArrayValue
  bool : List Bool → ArrayValue

pub data DataValue : Type 0 where
  scalar : ScalarValue → DataValue
  array : ArrayValue → DataValue

pub data ConnectionStatus : Type 0 where
  connect_error connect_timeout established closing closed_unexpected connection_handler_done :
      ConnectionStatus

pub data ChannelStatusClosedReason : Type 0 where
  shutdown_command channel_remove protocol_error frequency_quota bandwidth_quota internal_error
        ioc_timeout no_protocol protocol_done :
      ChannelStatusClosedReason

pub data ChannelStatus : Type 0 where
  assigned_to_address opened : ChannelStatus
  closed : ChannelStatusClosedReason → ChannelStatus

unfoldable pub connection_to_kind : ConnectionStatus → ℕ
connection_to_kind connect_error = 1
connection_to_kind connect_timeout = 2
connection_to_kind established = 3
connection_to_kind closing = 4
connection_to_kind closed_unexpected = 5
connection_to_kind connection_handler_done = 6

-- `none` is the error, whose message names the kind.
unfoldable pub connection_from_kind : ℕ → Option ConnectionStatus
connection_from_kind kind =
    if kind == 1
    then some connect_error
    else if kind == 2
    then some connect_timeout
    else if kind == 3
    then some established
    else if kind == 4
    then some closing
    else if kind == 5
    then some closed_unexpected
    else if kind == 6
    then some connection_handler_done
    else none

unfoldable pub channel_to_kind : ChannelStatus → ℕ
channel_to_kind assigned_to_address = 24
channel_to_kind opened = 1
channel_to_kind (closed shutdown_command) = 2
channel_to_kind (closed channel_remove) = 3
channel_to_kind (closed protocol_error) = 4
channel_to_kind (closed frequency_quota) = 5
channel_to_kind (closed bandwidth_quota) = 6
channel_to_kind (closed internal_error) = 7
channel_to_kind (closed ioc_timeout) = 8
channel_to_kind (closed no_protocol) = 9
channel_to_kind (closed protocol_done) = 10

unfoldable pub channel_from_kind : ℕ → Option ChannelStatus
channel_from_kind kind =
    if kind == 1
    then some opened
    else if kind == 2
    then some (closed shutdown_command)
    else if kind == 3
    then some (closed channel_remove)
    else if kind == 4
    then some (closed protocol_error)
    else if kind == 5
    then some (closed frequency_quota)
    else if kind == 6
    then some (closed bandwidth_quota)
    else if kind == 7
    then some (closed internal_error)
    else if kind == 8
    then some (closed ioc_timeout)
    else if kind == 9
    then some (closed no_protocol)
    else if kind == 10
    then some (closed protocol_done)
    else if kind == 24
    then some assigned_to_address
    else none
