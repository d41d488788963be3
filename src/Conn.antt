-- ===== src/Conn.antt =====
-- netfetch/src/ca/conn.rs: a connection to a server, and the channels that it subscribes to.
pub mod Channels
pub mod Starting
pub mod Subscribing
pub mod Ending
pub mod Stamps
pub mod Receiving
pub mod Removing
pub mod Links
pub mod Tables
mod Examples
pub mod Inserts
pub mod Events
pub mod States
pub mod Polling
use daqingest.Ema
use daqingest.CaProto.Error as Proto
use daqingest.Base.{
  ℕ, ◌+◌, ◌/◌, ◌*◌, ◌%◌, ◌^◌, ◌-◌, Bool, true, false, Option, none, some, List, [], ◌∷◌, ◌++◌, ℤ,
  Outcome, ok, err, panic, Act,
}
use daqingest.Base.Maps.{BTreeMap, TextMap}
use daqingest.Socket.{SocketAddrV4}
use daqingest.Ema.{F32, IntervalEma}
use daqingest.CaProto.Error.{Shape}
use daqingest.CaProto.Message.{CaEventValue, CaMsg}
use daqingest.CaProto.Output as Output
use daqingest.InsertQueue.Items.{QueryItem}
use daqingest.SenderPolling as Sending
use daqingest.SenderPolling.{SenderPolling}

-- `err::Error` holds a text: which of the texts it is.
pub data Error : Type 0 where
  proto : Proto.Error → Error
  from_ca_id from_ca_count time_bin time_overflow no_series name_not_known : Error
  bad_state query_closed : Error

-- What conn.rs takes from crates outside the repository, and the bins over time, of the type `B`,
-- which stand on them.
pub record Env (B : Type 0) : Type 0 where
  pub proto : Proto.Externals
  pub f32 : F32
  -- `ScalarType::from_ca_id`, `none` for its error
  pub from_ca_id : ℕ → Option ℕ
  pub to_scylla_i32 : ℕ → ℤ
  pub to_scylla_vec : Shape → List ℤ
  pub hour : ℕ
  pub ts_msp_grid_unit : ℕ
  pub ts_msp_grid_spacing : ℕ
  -- `Instant::checked_add`
  pub checked_add : ℕ → ℕ → Option ℕ
  -- `ConnTimeBin::empty` and `setup_for`, `none` for its error
  pub set_up : ℕ → ℕ → Shape → Option B
  -- `push` and `tick`: whether they return, and the items of `tick`
  pub push : ℕ → CaEventValue → B → Bool × B
  pub tick : B → Bool × List QueryItem × B

-- The time in a call: `Instant::now()` and `SystemTime::now()`, in nanoseconds.
pub record Clock : Type 0 where
  pub instant : ℕ
  pub system : ℕ

pub data MonitoringState : Type 0 where
  fetch_series_id : MonitoringState
  adding_event : ℕ → MonitoringState
  -- the series, and `ts_last` of `EventedState`
  evented : ℕ → ℕ → MonitoringState

pub record CreatedState : Type 0 where
  pub cssid : ℕ
  pub cid : ℕ
  pub sid : ℕ
  pub data_type : ℕ
  pub data_count : ℕ
  pub scalar_type : ℕ
  pub shape : Shape
  pub ts_created : ℕ
  pub ts_alive_last : ℕ
  pub state : MonitoringState
  pub ts_msp_last : ℕ
  pub ts_msp_grid_last : ℕ
  pub inserted_in_ts_msp : ℕ
  pub insert_item_ivl_ema : IntervalEma
  pub item_recv_ivl_ema : IntervalEma
  pub insert_recv_ivl_last : ℕ
  pub insert_next_earliest : ℕ
  pub muted_before : ℕ
  pub info_store_msp_last : ℕ

-- `Error` has one cause, which nothing reads.
pub data ChannelState : Type 0 where
  init : ℕ → ChannelState
  creating : ℕ → ℕ → ℕ → ChannelState
  fetching_series_id : CreatedState → ChannelState
  created : ℕ → CreatedState → ChannelState
  error ended : ChannelState

-- The future of a connect or of a wait is the environment's; a wait has its milliseconds.
pub data CaConnState : Type 0 where
  unconnected : CaConnState
  connecting : SocketAddrV4 → CaConnState
  init listen peer_ready : CaConnState
  wait : ℕ → CaConnState
  shutdown end_of_stream : CaConnState

-- `ConnCommandResultKind` has one kind.
pub record ConnCommandResult : Type 0 where
  pub id : ℕ

pub data CaConnEventValue : Type 0 where
  nothing echo_timeout end_of_stream : CaConnEventValue
  conn_command_result : ConnCommandResult → CaConnEventValue
  query_item : QueryItem → CaConnEventValue

pub record CaConnEvent : Type 0 where
  pub ts : ℕ
  pub value : CaConnEventValue

-- The sender of the answer is that of the connection's own commands.
pub record ChannelInfoQuery : Type 0 where
  pub backend : List ℕ
  pub channel : List ℕ
  pub scalar_type : ℤ
  pub shape_dims : List ℤ

pub data Existence (A : Type 0) : Type 0 where
  created existing : A → Existence A

unfoldable pub into_inner : {A : Type 0} → Existence A → A
into_inner (created x) = x
into_inner (existing x) = x

pub record ChannelInfoResult : Type 0 where
  pub backend : List ℕ
  pub channel : List ℕ
  pub series : Existence ℕ

-- The error of a lookup is only logged.
pub data ConnCommandKind : Type 0 where
  series_lookup_result : Option ChannelInfoResult → ConnCommandKind
  channel_add : List ℕ → ℕ → ConnCommandKind
  channel_remove : List ℕ → ConnCommandKind
  check_health shutdown : ConnCommandKind

-- The counters of `stats` and the ticker are left out. `proto` comes with its socket.
pub record CaConn (B : Type 0) : Type 0 where
  pub insert_queue_max : ℕ
  pub array_truncate : ℕ
  pub backend : List ℕ
  pub state : CaConnState
  pub proto : Option Output.Conn
  pub cid_store : ℕ
  pub subid_store : ℕ
  pub channels : BTreeMap ChannelState
  pub init_state_count : ℕ
  pub cid_by_name : TextMap ℕ
  pub cid_by_subid : BTreeMap ℕ
  pub name_by_cid : BTreeMap (List ℕ)
  pub insert_item_queue : List QueryItem
  pub remote_addr_dbg : SocketAddrV4
  pub local_epics_hostname : List ℕ
  pub insert_ivl_min_mus : ℕ
  pub conn_backoff : ℕ
  pub conn_backoff_beg : ℕ
  pub inserts_counter : ℕ
  pub extra_inserts_conf : List (ℕ × ℕ)
  pub ioc_ping_last : ℕ
  pub ioc_ping_start : Option ℕ
  pub cmd_res_queue : List ConnCommandResult
  pub ca_conn_event_out_queue : List CaConnEvent
  pub channel_info_query_queue : List ChannelInfoQuery
  pub channel_info_query_sending : SenderPolling ChannelInfoQuery
  pub time_binners : BTreeMap B

-- `next` of `CidStore` and of `SubidStore`, on `u32`
unfoldable pub next : ℕ → ℕ
next n = (n + 1) % 2 ^ 32

unfoldable pub info_store_msp_from_time : ℕ → ℕ
info_store_msp_from_time ts = (ts / 10 ^ 9 / 60 * 60) % 2 ^ 32

module _ {B : Type 0} where
  -- `CaConn::new` at time `now`; the channel of queries is empty
  unfoldable pub new : ℕ → ℕ → List ℕ → SocketAddrV4 → List ℕ → ℕ → CaConn B
  new insert_queue_max array_truncate backend remote_addr_dbg local_epics_hostname now = record {
    insert_queue_max = insert_queue_max;
    array_truncate = array_truncate;
    backend = backend;
    state = unconnected;
    proto = none;
    cid_store = 0;
    subid_store = 0;
    channels = [];
    init_state_count = 0;
    cid_by_name = [];
    cid_by_subid = [];
    name_by_cid = [];
    insert_item_queue = [];
    remote_addr_dbg = remote_addr_dbg;
    local_epics_hostname = local_epics_hostname;
    insert_ivl_min_mus = 1000 * 6;
    conn_backoff = 0x3ca3d70a;
    conn_backoff_beg = 0x3ca3d70a;
    inserts_counter = 0;
    extra_inserts_conf = [];
    ioc_ping_last = now;
    ioc_ping_start = none;
    cmd_res_queue = [];
    ca_conn_event_out_queue = [];
    channel_info_query_queue = [];
    channel_info_query_sending = Sending.new [];
    time_binners = [];
  }
