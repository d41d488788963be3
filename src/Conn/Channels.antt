-- ===== src/Conn/Channels.antt =====
-- The table of channels of conn.rs: channels come, go, are asked for, and end.
use daqingest.Base.{
  ℕ, ◌+◌, ◌*◌, ◌-◌, ◌%◌, ◌^◌, Option, none, some, List, [], ◌∷◌, ◌++◌, ltb, ◌==◌, if◌then◌else◌, ok,
  err, panic, Act, ◌>>=◌, pure, get,
}
use daqingest.Base.Maps.{
  TextMap, BTreeMap, map_get, map_insert, map_remove, map_set, text_get, text_insert,
  text_remove_value,
}
use daqingest.CaProto.Message.{CaMsg, create_chan, echo}
use daqingest.CaProto.Output as Output
use daqingest.InsertQueue.{ChannelStatusClosedReason, closed, ioc_timeout, no_protocol}
use daqingest.InsertQueue.Items.{QueryItem, channel_status, channel_info}
use daqingest.Conn.{
  Error, name_not_known, Clock, ChannelState, creating, fetching_series_id, created, error, ended,
  CaConnState, echo_timeout, CaConn, next, info_store_msp_from_time,
}

module _ {B : Type 0} where
  -- the identifier of a name, a new one when it has none
  unfoldable pub cid_by_name_expl : List ℕ → CaConn B → ℕ × CaConn B
  cid_by_name_expl name s = elim (text_get name s.cid_by_name) [
    | some cid ↦ (cid, s)
    | none ↦
        let cid = next s.cid_store in
        (
          cid,
          record s {
            cid_store = cid;
            cid_by_name = text_insert name cid s.cid_by_name;
            name_by_cid = map_insert cid name s.name_by_cid;
          },
        )
  ]

  -- the channel of a new identifier
  unfoldable pub insert_channel : ℕ → ℕ → CaConn B → CaConn B
  insert_channel cssid cid s = elim (map_get cid s.channels) [
    | some _ ↦ s
    | none ↦ record s {
      channels = map_insert cid (ChannelState.init cssid) s.channels;
      init_state_count = (s.init_state_count + 1) % 2 ^ 64;
    }
  ]

  -- `channel_add_expl`
  unfoldable pub channel_add : List ℕ → ℕ → CaConn B → CaConn B
  channel_add name cssid s = elim (text_get name s.cid_by_name) [
    | some _ ↦ s
    | none ↦ let (cid, s') = cid_by_name_expl name s in insert_channel cssid cid s'
  ]

  -- `channel_remove_expl`
  unfoldable pub channel_remove : List ℕ → CaConn B → CaConn B
  channel_remove name s =
      let (cid, s') = cid_by_name_expl name s in
      record s' {
        cid_by_name = text_remove_value cid s'.cid_by_name;
        channels = map_remove cid s'.channels;
        name_by_cid = map_remove cid s'.name_by_cid;
        time_binners = map_remove cid s'.time_binners;
      }

pub data ChannelSetOp : Type 0 where
  add : ℕ → ChannelSetOp
  remove : ChannelSetOp

module _ {B : Type 0} where
  unfoldable pub apply_op : List ℕ → ChannelSetOp → CaConn B → CaConn B
  apply_op name (add cssid) s = channel_add name cssid s
  apply_op name remove s = channel_remove name s

  -- `apply_channel_ops_with_res`, on the operations that were noted
  unfoldable pub apply_channel_ops : TextMap ChannelSetOp → CaConn B → CaConn B
  apply_channel_ops [] s = s
  apply_channel_ops ((name, op) ∷ ops) s = apply_channel_ops ops (apply_op name op s)

-- What the end of a channel reports.
unfoldable pub closed_items : ℕ → ChannelStatusClosedReason → ChannelState → List QueryItem
closed_items ts reason (created series _) =
    channel_status (record { ts = ts; series = series; status = closed reason }) ∷ []
closed_items ts reason (ChannelState.init _) = []
closed_items ts reason (creating _ _ _) = []
closed_items ts reason (fetching_series_id _) = []
closed_items ts reason error = []
closed_items ts reason ended = []

-- the loop over the channels: the items, and the channels behind it
unfoldable pub end_channels :
    ℕ → ChannelStatusClosedReason → BTreeMap ChannelState → List QueryItem × BTreeMap ChannelState
end_channels ts reason [] = ([], [])
end_channels ts reason ((cid, chst) ∷ m) =
    let (items, rest) = end_channels ts reason m in
    (closed_items ts reason chst ++ items, (cid, ended) ∷ rest)

-- A channel that is created has its information stored once for each minute.
unfoldable pub info_items : ℕ → ChannelState → List QueryItem × ChannelState
info_items timenow (created series st) =
    let msp = info_store_msp_from_time timenow in
    if msp == st.info_store_msp_last then ([], created series st) else (
      channel_info (record {
        ts_msp = msp;
        series = series;
        ivl = st.item_recv_ivl_ema.avg.ema;
        interest = 0;
        evsize = 0;
      })
          ∷ [],
      created series (record st { info_store_msp_last = msp }),
    )
info_items timenow (ChannelState.init c) = ([], ChannelState.init c)
info_items timenow (creating a b c) = ([], creating a b c)
info_items timenow (fetching_series_id st) = ([], fetching_series_id st)
info_items timenow error = ([], error)
info_items timenow ended = ([], ended)

unfoldable pub info_loop : ℕ → BTreeMap ChannelState → List QueryItem × BTreeMap ChannelState
info_loop timenow [] = ([], [])
info_loop timenow ((cid, chst) ∷ m) =
    let (items, chst') = info_items timenow chst in
    let (more, rest) = info_loop timenow m in (items ++ more, (cid, chst') ∷ rest)

abbrev pub keys : {A : Type 0} → BTreeMap A → List ℕ
keys [] = []
keys ((k, _) ∷ m) = k ∷ keys m

module _ {B : Type 0} where
  unfoldable pub channel_state_on_shutdown : Clock → ChannelStatusClosedReason → CaConn B → CaConn B
  channel_state_on_shutdown clock reason s =
      let (items, channels) = end_channels clock.system reason s.channels in
      record s { insert_item_queue = s.insert_item_queue ++ items; channels = channels }

  unfoldable pub trigger_shutdown : Clock → ChannelStatusClosedReason → CaConn B → CaConn B
  trigger_shutdown clock reason s =
      channel_state_on_shutdown clock reason
        (record s { state = CaConnState.shutdown; proto = none })

  unfoldable pub emit_channel_info_insert_items : Clock → CaConn B → CaConn B
  emit_channel_info_insert_items clock s =
      let (items, channels) = info_loop clock.system s.channels in
      record s { insert_item_queue = s.insert_item_queue ++ items; channels = channels }

  -- a ping is sent, when there is a protocol
  unfoldable pub start_ping : Clock → CaConn B → CaConn B
  start_ping clock s = elim s.proto [
    | some c ↦ record s {
      ioc_ping_start = some clock.instant;
      proto = some (record c { proto = Output.push_out (record { ty = echo }) c.proto });
    }
    | none ↦ trigger_shutdown clock no_protocol (record s { ioc_ping_start = some clock.instant })
  ]

  -- the ping; the counts of the channels alive only go to the statistics
  unfoldable pub check_channels_alive : Clock → CaConn B → CaConn B
  check_channels_alive clock s =
      if ltb (20000 * 10 ^ 6) (clock.instant - s.ioc_ping_last)
      then (elim s.ioc_ping_start [
        | some started ↦
            if ltb (4000 * 10 ^ 6) (clock.instant - started)
            then trigger_shutdown clock ioc_timeout (record s {
              ca_conn_event_out_queue =
                  s.ca_conn_event_out_queue
                  ++ (record { ts = clock.instant; value = echo_timeout }) ∷ [];
            })
            else s
        | none ↦ start_ping clock s
      ])
      else s

  unfoldable pub cmd_check_health : Clock → CaConn B → CaConn B
  cmd_check_health clock s =
      let s' = check_channels_alive clock s in
      record s' { cmd_res_queue = s'.cmd_res_queue ++ (record { id = 0 }) ∷ [] }

  -- one channel of `check_channels_state_init`, by its state: the messages with its own
  unfoldable pub start_channel :
      Clock → ℕ → List CaMsg → Option ChannelState → Act (CaConn B) Error (List CaMsg)
  start_channel clock cid msgs none s = (panic, s)
  start_channel clock cid msgs (some (ChannelState.init cssid)) s =
      elim (map_get cid s.name_by_cid) [
        | none ↦ (err name_not_known, s)
        | some name ↦ (
          ok (msgs ++ (record { ty = create_chan (record { cid = cid; channel = name }) }) ∷ []),
          record s {
            channels = map_set cid (creating cssid cid clock.instant) s.channels;
            init_state_count = (s.init_state_count + (2 ^ 64 - 1)) % 2 ^ 64;
          },
        )
      ]
  start_channel clock cid msgs (some (creating _ _ _)) s = (ok msgs, s)
  start_channel clock cid msgs (some (fetching_series_id _)) s = (ok msgs, s)
  start_channel clock cid msgs (some (created _ _)) s = (ok msgs, s)
  start_channel clock cid msgs (some error) s = (ok msgs, s)
  start_channel clock cid msgs (some ended) s = (ok msgs, s)

  unfoldable pub start_channels : Clock → List ℕ → List CaMsg → Act (CaConn B) Error (List CaMsg)
  start_channels clock [] msgs = pure msgs
  start_channels clock (cid ∷ cids) msgs = do
    s ← get
    msgs ← start_channel clock cid msgs (map_get cid s.channels)
    start_channels clock cids msgs

  unfoldable pub check_channels_state_init : Clock → Act (CaConn B) Error (List CaMsg)
  check_channels_state_init clock = do
    s ← get
    if s.init_state_count == 0 then pure [] else start_channels clock (keys s.channels) []
