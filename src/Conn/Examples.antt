-- ===== src/Conn/Examples.antt =====
-- Runs of a connection of conn.rs with one channel.
use daqingest.Base.{
  ℕ, ◌+◌, ◌-◌, ◌*◌, ◌^◌, ◌≡◌, refl, true, false, none, some, List, [], ◌∷◌, map, pos, ok, panic,
  inr, arith,
}
use daqingest.Base.Maps.{map_get, text_get, map_insert, text_insert, text_eq}
use daqingest.Base.Maps.Laws.{Distinct, TextDistinct}
use daqingest.Ema as Ema
use daqingest.Socket.{SocketAddrV4}
use daqingest.CaProto.Error.{Shape}
use daqingest.CaProto.Message.{EventAddRes, CreateChanRes, CaDataValue, CaDataScalarValue}
use daqingest.CaProto.Parser as Parser
use daqingest.CaProto.Output as Output
use daqingest.InsertQueue.{shutdown_command}
use daqingest.InsertQueue.Items.{InsertItem, insert}
use daqingest.Conn.{
  Env, Clock, evented, CreatedState, ChannelState, creating, created, CaConnState, existing,
  into_inner, CaConn, shutdown, next,
}
use daqingest.Conn.Channels.{
  add, remove, apply_channel_ops, channel_add, channel_remove, cid_by_name_expl, insert_channel,
  check_channels_state_init,
}
use daqingest.Conn.Inserts.{Insertion, event_add_insert, insert_wait}
use daqingest.Conn.Events.{push_item, push_out, handle_event_add_res, handle_series_lookup_result}
use daqingest.Conn.States.{
  not_connected, connected, report, backoff_reset, set_proto, say_hello, channel_created, set_state,
  on_connect, in_state, handle_conn_state, is_shutdown, loop_inner,
}
use daqingest.Conn.Polling as Polling
use daqingest.Conn.Polling.{
  PollEvents, command, no_command, is_ended, start_send, attempt_flush_channel_info_query,
  poll_command, settle, queues_async_out_flushed, work, pop_insert, pop_event, pop_result,
  handle_own_ticker, poll_round, after, poll_next,
}
use daqingest.SenderPolling as Sending
use daqingest.Conn.Tables.{IsConsistent, Named, init_count}
use daqingest.Conn.Tables.Edits.{channel_add-IsConsistent, apply_channel_ops-IsConsistent}
use daqingest.Conn.Starting.{requests, all_started, check_channels_state_init-Started}
use daqingest.Conn.Subscribing.{IsAnswered, Subscribed, channel_created-Subscribed}
use daqingest.Conn.Stamps.{event_add_insert-wraps}
use daqingest.Conn.Receiving.{
  IsSubscribed, IsDue, Stored, Dropped, handle_event_add_res-Stored, handle_event_add_res-Dropped,
}
use daqingest.Conn.Removing.{handle_event_add_res-removed}
use daqingest.Conn.Ending.{closed_at, created_series, poll_next-loses}
use daqingest.Conn.Links.{IsLinked, Linked, IsCalm}
use daqingest.Conn.Links.Polls.{rounds, rounds-IsLinked}

abbrev env : Env ℕ
env = record {
  proto = record {
    from_ca_count = λ n. some (Shape.wave n);
    sec = 10 ^ 9;
    into_string_error = λ xs. xs;
  };
  f32 = record {
    add = λ a b. a;
    sub = λ a b. a;
    mul = λ a b. a;
    div = λ a b. a;
    max = λ a b. a;
    sqrt = λ a. a;
    tanh = λ a. a;
    secs = λ a. a;
    from_u64 = λ a. a;
    to_u64 = λ a. a;
  };
  from_ca_id = λ n. some n;
  to_scylla_i32 = λ n. pos n;
  to_scylla_vec = λ _. [];
  hour = 3600 * 10 ^ 9;
  ts_msp_grid_unit = 10 ^ 9;
  ts_msp_grid_spacing = 12;
  checked_add = λ a b. some (a + b);
  set_up = λ series _ _. some series;
  push = λ _ _ tb. (true, tb);
  tick = λ tb. (true, [], tb);
}

abbrev clock : Clock
clock = record { instant = 500; system = 10 ^ 18 }

abbrev ioc : SocketAddrV4
ioc = record { ip = 7; port = 5064 }

abbrev fresh : CaConn ℕ
fresh = record {
  insert_queue_max = 20000;
  array_truncate = 2000;
  backend = 98 ∷ [];
  state = CaConnState.unconnected;
  proto = none;
  cid_store = 0;
  subid_store = 0;
  channels = [];
  init_state_count = 0;
  cid_by_name = [];
  cid_by_subid = [];
  name_by_cid = [];
  insert_item_queue = [];
  remote_addr_dbg = ioc;
  local_epics_hostname = 104 ∷ [];
  insert_ivl_min_mus = 6000;
  conn_backoff = 0x3ca3d70a;
  conn_backoff_beg = 0x3ca3d70a;
  inserts_counter = 0;
  extra_inserts_conf = [];
  ioc_ping_last = 0;
  ioc_ping_start = none;
  cmd_res_queue = [];
  ca_conn_event_out_queue = [];
  channel_info_query_queue = [];
  channel_info_query_sending = record { fut = none; channel = [] };
  time_binners = [];
}

fresh-IsConsistent : IsConsistent fresh
unfolding text_get map_get TextDistinct Distinct Named init_count
fresh-IsConsistent = record {
  inverse = record {
    to_name = λ n c h. absurd (ground arith);
    to_cid = λ c n h. absurd (ground arith);
    fresh = λ c n h. absurd (ground arith);
    distinct = tt;
  };
  distinct = tt;
  named = tt;
  counted = omega arith;
}

abbrev name : List ℕ
name = 65 ∷ 66 ∷ []

apply_channel_ops-IsConsistent_example :
    IsConsistent (apply_channel_ops ((name, add 7) ∷ (67 ∷ [], remove) ∷ []) fresh)
apply_channel_ops-IsConsistent_example =
    apply_channel_ops-IsConsistent ((name, add 7) ∷ (67 ∷ [], remove) ∷ []) fresh fresh-IsConsistent
      (omega arith) (omega arith)

-- with the channel
abbrev one : CaConn ℕ
one = record fresh {
  cid_store = 1;
  cid_by_name = (name, 1) ∷ [];
  name_by_cid = (1, name) ∷ [];
  channels = (1, ChannelState.init 7) ∷ [];
  init_state_count = 1;
}

one-IsConsistent : IsConsistent one
unfolding channel_add cid_by_name_expl insert_channel map_get text_get map_insert text_insert next
one-IsConsistent =
    channel_add-IsConsistent name 7 fresh fresh-IsConsistent (omega arith) (omega arith)

check_channels_state_init-Started_example : check_channels_state_init clock one ≡ (
  ok (requests one.name_by_cid one.channels),
  record one {
    channels = all_started clock one.channels;
    init_state_count = 1 - init_count one.channels;
  },
)
check_channels_state_init-Started_example =
    check_channels_state_init-Started clock one one-IsConsistent (omega arith)

abbrev socket : Output.Conn
socket = record { proto = Parser.new 2000; writes = []; sent = [] }

-- asked for
abbrev asked : CaConn ℕ
asked = record one {
  state = CaConnState.peer_ready;
  proto = some socket;
  channels = (1, creating 7 1 100) ∷ [];
  init_state_count = 0;
}

asked-IsConsistent : IsConsistent asked
unfolding Distinct Named map_get init_count
asked-IsConsistent = record {
  inverse = one-IsConsistent.inverse;
  distinct = (refl, tt);
  named = ((name, refl), tt);
  counted = omega arith;
}

abbrev answer : CreateChanRes
answer = record { data_type = 6; data_count = 1; cid = 1; sid = 44 }

answered : IsAnswered env asked answer name 9
unfolding map_get
answered = record {
  cssid = 7;
  cid' = 1;
  ts_beg = 100;
  asked = refl;
  name_of = refl;
  c = socket;
  connected = refl;
  scalar_type = 6;
  typed = refl;
  shape = Shape.wave 1;
  shaped = refl;
  tb = 9;
  binned = refl;
}

channel_created-Subscribed_example :
    let r1 = channel_created env clock answer asked in
    let r2 =
      handle_series_lookup_result env clock
        (some (record { backend = 98 ∷ []; channel = name; series = existing 9 }))
        r1.1 in
    (r1.0 ≡ ok tt) × (r2.0 ≡ ok tt) × Subscribed env clock asked answer name 9 answered r1.1 r2.1
unfolding into_inner
channel_created-Subscribed_example =
    channel_created-Subscribed env clock clock asked answer name (98 ∷ []) (existing 9) answered
      asked-IsConsistent

-- subscribed to
abbrev state : CreatedState
state = record {
  cssid = 7;
  cid = 1;
  sid = 44;
  data_type = 6;
  data_count = 1;
  scalar_type = 6;
  shape = Shape.scalar;
  ts_created = 100;
  ts_alive_last = 100;
  state = evented 9 100;
  ts_msp_last = 10 ^ 10;
  ts_msp_grid_last = 0;
  inserted_in_ts_msp = 1;
  insert_item_ivl_ema = Ema.new;
  item_recv_ivl_ema = Ema.new;
  insert_recv_ivl_last = 100;
  insert_next_earliest = 300;
  muted_before = 0;
  info_store_msp_last = 0;
}

abbrev subscribed : CaConn ℕ
subscribed = record asked {
  channels = (1, created 9 state) ∷ [];
  cid_by_subid = (3, 1) ∷ [];
  time_binners = (1, 9) ∷ [];
}

abbrev event : ℕ → EventAddRes
event ts = record {
  data_type = 20;
  data_count = 1;
  status = 1;
  subid = 3;
  value = record {
    ts = some ts;
    status = none;
    severity = none;
    value = CaDataValue.scalar (CaDataScalarValue.f64 5);
  };
}

is_subscribed : (ts : ℕ) → IsSubscribed env subscribed (event ts) 9
unfolding map_get
is_subscribed ts = record {
  cid = 1;
  of_channel = 9;
  st = state;
  by_subid = refl;
  channel = refl;
  monitored = inr (100, refl);
}

is_due : IsDue env (event (10 ^ 10 + 5)) 400 9 subscribed (is_subscribed (10 ^ 10 + 5))
unfolding map_get is_subscribed insert_wait
is_due = record {
  due = omega arith;
  tb = 9;
  binned = refl;
  taken = refl;
  no_copies = refl;
  some_sec = omega arith;
  wide = omega arith;
  stamped = record { index = 1; on_grid = refl; fits = omega arith };
  ordered = omega arith;
  small = omega arith;
  earliest = _;
  added = refl;
}

handle_event_add_res-Stored_example :
    Stored env
      (event (10 ^ 10 + 5))
      400
      9
      subscribed
      (is_subscribed (10 ^ 10 + 5))
      is_due.earliest
      (handle_event_add_res env (event (10 ^ 10 + 5)) 400 subscribed)
handle_event_add_res-Stored_example =
    handle_event_add_res-Stored env (event (10 ^ 10 + 5)) 400 9 subscribed
      (is_subscribed (10 ^ 10 + 5)) is_due

handle_event_add_res-Dropped_example :
    Dropped env
      (event 8)
      200
      9
      subscribed
      (is_subscribed 8)
      (handle_event_add_res env (event 8) 200 subscribed)
unfolding is_subscribed
handle_event_add_res-Dropped_example =
    handle_event_add_res-Dropped env (event 8) 200 9 subscribed (is_subscribed 8) (omega arith)

handle_event_add_res-removed_example :
    (handle_event_add_res env (event 8) 200 (channel_remove name subscribed)).0 ≡ panic
unfolding map_get text_get text_eq
handle_event_add_res-removed_example =
    handle_event_add_res-removed env (event 8) 200 1 name subscribed refl refl

abbrev insertion : Insertion
insertion = record { st = state; item_queue = []; inserts_counter = 0 }

event_add_insert-wraps_example :
    (item : InsertItem) × ((event_add_insert env 9 6 Shape.scalar 8
        (event 8)
        (10 ^ 10)
        none
        insertion).item_queue
      ≡ insert item ∷ [])
    × (item.ts_msp ≡ 10 ^ 10)
    × (item.ts_lsp ≡ 2 ^ 64 - (10 ^ 10 - 8))
event_add_insert-wraps_example =
    event_add_insert-wraps env 9 6 Shape.scalar 8 (event 8) none insertion (omega arith)
      (omega arith) (omega arith)

-- the shutdown command
abbrev closing : PollEvents
closing = record { clock = clock; tick = false; sends = []; command = command shutdown; steps = [] }

poll_next-loses_example :
    (t : CaConn ℕ) × (poll_next env (closing ∷ []) subscribed ≡ some (ok Polling.ended, t))
    × (t.insert_item_queue
        ≡ map (closed_at (10 ^ 18) shutdown_command) (created_series subscribed.channels))
    × ((ev' : PollEvents) (evs : List PollEvents)
        → poll_next env (ev' ∷ evs) t ≡ some (ok Polling.ended, t))
unfolding is_ended
poll_next-loses_example =
    poll_next-loses env closing subscribed refl
      (record { results = refl; events = refl; items = refl; queries = refl; sending = refl }) refl
      refl

-- a connect that takes longer
abbrev quiet : PollEvents
quiet = record {
  clock = clock;
  tick = false;
  sends = [];
  command = no_command;
  steps = (record { clock = clock; connect = not_connected; reads = []; waited = false }) ∷ [];
}

-- the connect succeeds
abbrev connecting_done : PollEvents
connecting_done = record quiet {
  steps = (record { clock = clock; connect = connected []; reads = []; waited = false }) ∷ [];
}

fresh-IsLinked : IsLinked fresh
unfolding Linked IsCalm
fresh-IsLinked = tt

listening :
    (rounds env (quiet ∷ connecting_done ∷ quiet ∷ quiet ∷ []) fresh).state ≡ CaConnState.listen
unfolding rounds poll_round pop_result pop_event pop_insert handle_own_ticker work settle
    poll_command attempt_flush_channel_info_query start_send Sending.is_sending loop_inner
    is_shutdown is_ended handle_conn_state in_state on_connect set_state after report push_item
    backoff_reset set_proto say_hello push_out Output.push_out queues_async_out_flushed
listening = refl

rounds-IsLinked_example : IsLinked (rounds env (quiet ∷ connecting_done ∷ quiet ∷ quiet ∷ []) fresh)
rounds-IsLinked_example =
    rounds-IsLinked env (quiet ∷ connecting_done ∷ quiet ∷ quiet ∷ []) fresh fresh-IsLinked
