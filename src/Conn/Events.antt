-- ===== src/Conn/Events.antt =====
-- `channel_to_evented`, `handle_event_add_res` and the commands of conn.rs.
use daqingest.Base.{
  ℕ, ◌+◌, ◌*◌, ◌%◌, ◌^◌, ◌-◌, Option, none, some, [], ◌∷◌, ◌++◌, leb, if◌then◌else◌, ok, err, panic,
  Act, ◌>>=◌, ◌>>◌, pure, throw, get, modify, or_panic,
}
use daqingest.Base.Maps.{map_get, map_insert, map_set, text_get}
use daqingest.Ema as Ema
use daqingest.CaProto.Error.{Shape}
use daqingest.CaProto.Message.{CaMsg, EventAddRes, event_add}
use daqingest.CaProto.Output as Output
use daqingest.InsertQueue.{opened, shutdown_command}
use daqingest.InsertQueue.Items.{QueryItem, channel_status, ivl}
use daqingest.Conn.{
  Error, from_ca_id, from_ca_count, time_bin, no_series, bad_state, Env, Clock, MonitoringState,
  fetch_series_id, adding_event, evented, CreatedState, ChannelState, creating, fetching_series_id,
  created, error, ended, ChannelInfoResult, into_inner, ConnCommandKind, series_lookup_result,
  channel_add, channel_remove, check_health, shutdown, CaConn, next, info_store_msp_from_time,
}
use daqingest.Conn.Channels as Channels
use daqingest.Conn.Channels.{trigger_shutdown, cmd_check_health}
use daqingest.Conn.Inserts.{do_event_insert}

-- `?` on a result of a call that has no state
abbrev pub or_throw : {S A : Type 0} → Error → Option A → Act S Error A
or_throw e none = throw e
or_throw e (some a) = pure a

-- The state of a channel that the server has created, or that is subscribed to.
abbrev pub created_state : ℕ → ℕ → ℕ → ℕ → ℕ → ℕ → Shape → MonitoringState → Clock → CreatedState
created_state cssid cid sid data_type data_count scalar_type shape state clock = record {
  cssid = cssid;
  cid = cid;
  sid = sid;
  data_type = data_type;
  data_count = data_count;
  scalar_type = scalar_type;
  shape = shape;
  ts_created = clock.instant;
  ts_alive_last = clock.instant;
  state = state;
  ts_msp_last = 0;
  ts_msp_grid_last = 0;
  inserted_in_ts_msp = 2 ^ 64 - 1;
  insert_item_ivl_ema = Ema.new;
  item_recv_ivl_ema = Ema.new;
  insert_recv_ivl_last = clock.instant;
  insert_next_earliest = clock.instant;
  muted_before = 0;
  info_store_msp_last = info_store_msp_from_time clock.system;
}

module _ {B : Type 0} where
  unfoldable pub push_out : CaMsg → Act (CaConn B) Error Unit
  push_out msg s = elim s.proto [
    | none ↦ (panic, s)
    | some c ↦ (ok tt, record s { proto = some (record c { proto = Output.push_out msg c.proto }) })
  ]

  unfoldable pub set_channel : ℕ → ChannelState → Act (CaConn B) Error Unit
  set_channel cid chst = modify (λ s. record s { channels = map_set cid chst s.channels })

  unfoldable pub push_item : QueryItem → Act (CaConn B) Error Unit
  push_item item = modify (λ s. record s { insert_item_queue = s.insert_item_queue ++ item ∷ [] })

module _ {B : Type 0} (env : Env B) where
  -- the change of the channel
  unfoldable pub to_created :
      Clock → ℕ → ℕ → ℕ → ℕ → ℕ → ℕ → Shape → ChannelState → Act (CaConn B) Error Unit
  to_created clock cid sid data_type data_count series scalar_type shape (fetching_series_id st2) =
      set_channel cid (
        created series (
          created_state st2.cssid cid sid data_type data_count scalar_type shape
            (adding_event series) clock))
  to_created clock cid sid data_type data_count series scalar_type shape (ChannelState.init _) =
      throw bad_state
  to_created clock cid sid data_type data_count series scalar_type shape (creating _ _ _) =
      throw bad_state
  to_created clock cid sid data_type data_count series scalar_type shape (created _ _) =
      throw bad_state
  to_created clock cid sid data_type data_count series scalar_type shape error = throw bad_state
  to_created clock cid sid data_type data_count series scalar_type shape ended = throw bad_state

  unfoldable pub channel_to_evented : Clock → ℕ → ℕ → ℕ → ℕ → ℕ → Act (CaConn B) Error Unit
  channel_to_evented clock cid sid data_type data_count series = do
    scalar_type ← or_throw from_ca_id (env.from_ca_id data_type)
    shape ← or_throw from_ca_count (env.proto.from_ca_count data_count)
    tb ← or_throw time_bin (env.set_up series scalar_type shape)
    s ← get
    let subid = next s.subid_store
    modify (λ s. record s {
      time_binners = map_insert cid tb s.time_binners;
      subid_store = subid;
      cid_by_subid = map_insert subid cid s.cid_by_subid;
    })
    _ ← or_panic (map_get cid s.name_by_cid)
    push_out (record {
      ty = event_add (record {
        sid = sid;
        data_type = (data_type + 14) % 2 ^ 16;
        data_count = data_count;
        subid = subid;
      });
    })
    ch_s ← or_panic (map_get cid s.channels)
    to_created clock cid sid data_type data_count series scalar_type shape ch_s

  -- a failure is only logged
  abbrev pub logged : Act (CaConn B) Error Unit → Act (CaConn B) Error Unit
  logged m s = let (r, s') = m s in (elim r [ ok _ ↦ ok tt | err _ ↦ ok tt | panic ↦ panic ], s')

  -- the channel that waits for its series; in another state it is left
  unfoldable pub found_series : Clock → ℕ → Option ChannelState → Act (CaConn B) Error Unit
  found_series clock series (some (fetching_series_id st2)) =
      logged (channel_to_evented clock st2.cid st2.sid st2.data_type st2.data_count series)
  found_series clock series (some (ChannelState.init _)) = pure tt
  found_series clock series (some (creating _ _ _)) = pure tt
  found_series clock series (some (created _ _)) = pure tt
  found_series clock series (some error) = pure tt
  found_series clock series (some ended) = pure tt
  found_series clock series none = pure tt

  unfoldable pub found_channel : Clock → ℕ → Option ℕ → Act (CaConn B) Error Unit
  found_channel clock series none s = (ok tt, s)
  found_channel clock series (some cid) s = found_series clock series (map_get cid s.channels) s

  unfoldable pub handle_series_lookup_result :
      Clock → Option ChannelInfoResult → Act (CaConn B) Error Unit
  handle_series_lookup_result clock none = pure tt
  handle_series_lookup_result clock (some res) = do
    let series = into_inner res.series
    push_item (channel_status (record { ts = clock.system; series = series; status = opened }))
    s ← get
    found_channel clock series (text_get res.channel s.cid_by_name)

  unfoldable pub handle_conn_command : Clock → ConnCommandKind → Act (CaConn B) Error Unit
  handle_conn_command clock (channel_add name cssid) = modify (Channels.channel_add name cssid)
  handle_conn_command clock (channel_remove name) = modify (Channels.channel_remove name)
  handle_conn_command clock check_health = modify (cmd_check_health clock)
  handle_conn_command clock shutdown = modify (trigger_shutdown clock shutdown_command)
  handle_conn_command clock (series_lookup_result res) = handle_series_lookup_result clock res

  -- the series of the events, and the state with the time of the event
  unfoldable pub received_at : ℕ → MonitoringState → Option ℕ × MonitoringState
  received_at tsnow (adding_event series) = (some series, evented series tsnow)
  received_at tsnow (evented series _) = (some series, evented series tsnow)
  received_at tsnow fetch_series_id = (none, fetch_series_id)

  -- the bins of the channel, when it has some
  unfoldable pub push_to : ℕ → ℕ → EventAddRes → Option B → Act (CaConn B) Error Unit
  push_to cid ts ev none = pure tt
  push_to cid ts ev (some tb) = do
    let (fine, tb') = env.push ts ev.value tb
    modify (λ s. record s { time_binners = map_set cid tb' s.time_binners })
    if fine then pure tt else throw time_bin

  unfoldable pub push_bin : ℕ → ℕ → EventAddRes → Act (CaConn B) Error Unit
  push_bin cid ts ev s = push_to cid ts ev (map_get cid s.time_binners) s

  -- `do_event_insert` on the state of the channel and the queue of the connection
  unfoldable pub insert_event :
      ℕ → ℕ → ℕ → ℕ → EventAddRes → ℕ → CreatedState → Act (CaConn B) Error Unit
  insert_event cid of_channel series ts ev tsnow st s =
      let (r, c) =
        do_event_insert env series st.scalar_type st.shape ts ev tsnow s.insert_ivl_min_mus
          s.extra_inserts_conf
          (record {
            st = st;
            item_queue = s.insert_item_queue;
            inserts_counter = s.inserts_counter;
          }) in
      (
        r,
        record s {
          channels = map_set cid (created of_channel c.st) s.channels;
          insert_item_queue = c.item_queue;
          inserts_counter = c.inserts_counter;
        },
      )

  -- an event that comes too early: at times, its interval is stored
  unfoldable pub drop_event : ℕ → ℕ → ℕ → ℕ → ℕ → CreatedState → Act (CaConn B) Error Unit
  drop_event cid of_channel series ts tsnow st =
      if leb (10000 * 10 ^ 6) (tsnow - st.insert_recv_ivl_last)
      then (do
        let ema = st.insert_item_ivl_ema.avg
        push_item
            (ivl (record { series = series; ts = ts; ema = ema.ema; emd = env.f32.sqrt ema.emv }))
        set_channel cid
            (created of_channel (record st { insert_recv_ivl_last = tsnow; muted_before = 1 })))
      else set_channel cid (created of_channel (record st { muted_before = 1 }))

  unfoldable pub on_event : ℕ → EventAddRes → ℕ → ChannelState → Act (CaConn B) Error Unit
  on_event cid ev tsnow (created of_channel st0) = do
    let (series_2, state) = received_at tsnow st0.state
    let st = record st0 {
      ts_alive_last = tsnow;
      item_recv_ivl_ema = Ema.tick env.f32 tsnow st0.item_recv_ivl_ema;
      state = state;
    }
    set_channel cid (created of_channel st)
    series ← or_throw no_series series_2
    let ts : ℕ = elim ev.value.ts [ none ↦ 0 | some t ↦ t ]
    if leb st.insert_next_earliest tsnow
        then (do push_bin cid ts ev; insert_event cid of_channel series ts ev tsnow st)
        else drop_event cid of_channel series ts tsnow st
  on_event cid ev tsnow (ChannelState.init _) = pure tt
  on_event cid ev tsnow (creating _ _ _) = pure tt
  on_event cid ev tsnow (fetching_series_id _) = pure tt
  on_event cid ev tsnow error = pure tt
  on_event cid ev tsnow ended = pure tt

  unfoldable pub handle_event_add_res : EventAddRes → ℕ → Act (CaConn B) Error Unit
  handle_event_add_res ev tsnow = do
    s ← get
    cid ← or_panic (map_get ev.subid s.cid_by_subid)
    ch_s ← or_panic (map_get cid s.channels)
    on_event cid ev tsnow ch_s
