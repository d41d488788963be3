-- ===== src/Conn/States.antt =====
-- `handle_conn_state` and `loop_inner` of conn.rs: from the connect to the messages of the server.
use daqingest.Base.{
  ℕ, Bool, true, false, ◌||◌, Option, none, some, List, [], ◌∷◌, ◌++◌, length, ltb, leb,
  if◌then◌else◌, Outcome, ok, err, panic, Act, ◌>>=◌, ◌>>◌, pure, throw, get, modify, or_panic,
}
use daqingest.Base.Maps.{map_get}
use daqingest.Socket.{WriteResult, ReadResult, SocketAddrV4}
use daqingest.CaProto.Error as Proto
use daqingest.CaProto.Message as Message
use daqingest.CaProto.Message.{CaMsg, CaMsgTy, CreateChanRes}
use daqingest.CaProto.Parser as Parser
use daqingest.CaProto.Parser.{CaItem}
use daqingest.CaProto.Output as Output
use daqingest.CaProto.Poll as Poll
use daqingest.InsertQueue.{
  ConnectionStatus, connect_error, connect_timeout, established, protocol_error, protocol_done,
}
use daqingest.InsertQueue.Items.{connection_status}
use daqingest.Conn.{
  Error, proto, from_ca_id, from_ca_count, bad_state, Env, Clock, fetch_series_id, ChannelState,
  creating, fetching_series_id, created, error, ended, CaConnState, CaConn,
}
use daqingest.Conn.Channels.{trigger_shutdown, check_channels_state_init}
use daqingest.Conn.Events.{
  or_throw, created_state, push_out, push_item, set_channel, handle_event_add_res,
}

-- What the future of the connect gives; a connection has the answers that its writes will get.
pub data ConnectPoll : Type 0 where
  connected : List WriteResult → ConnectPoll
  connect_failed timed_out not_connected : ConnectPoll

-- The environment in one call of `handle_conn_state`.
pub record StepEvent : Type 0 where
  pub clock : Clock
  pub connect : ConnectPoll
  pub reads : List ReadResult
  pub waited : Bool

-- A call is ready, or ready without a value, or pending; or the answers to its reads have run out.
pub data Handled : Type 0 where
  again finished not_ready no_answers : Handled

module _ {B : Type 0} where
  unfoldable pub set_state : CaConnState → Act (CaConn B) Error Unit
  set_state st = modify (λ s. record s { state = st })

  unfoldable pub set_proto : Option Output.Conn → Act (CaConn B) Error Unit
  set_proto p = modify (λ s. record s { proto = p })

module _ {B : Type 0} (env : Env B) where
  -- `backoff_next`: the milliseconds to wait, and the next backoff
  unfoldable pub backoff_next : Act (CaConn B) Error ℕ
  backoff_next s =
      let f = env.f32 in
      (
        ok (f.to_u64 (f.mul (f.mul s.conn_backoff 0x43960000) 0x447a0000)),
        record s { conn_backoff = f.tanh (f.mul s.conn_backoff 0x40000000) },
      )

  unfoldable pub backoff_reset : Act (CaConn B) Error Unit
  backoff_reset = modify (λ s. record s { conn_backoff = s.conn_backoff_beg })

  unfoldable pub put_back :
      Option (Outcome Proto.Error Poll.Next × Output.Conn) → Act (CaConn B) Error (Option Poll.Next)
  put_back none s = (ok none, s)
  put_back (some (ok x, c)) s = (ok (some x), record s { proto = some c })
  put_back (some (err e, c)) s = (err (proto e), record s { proto = some c })
  put_back (some (panic, c)) s = (panic, record s { proto = some c })

  -- `self.proto.as_mut().unwrap().poll_next_unpin(cx)`
  unfoldable pub poll_proto : List ReadResult → Act (CaConn B) Error (Option Poll.Next)
  poll_proto reads s = elim s.proto [
    | none ↦ (panic, s)
    | some c ↦ put_back (Poll.poll_next env.proto reads c) s
  ]

  -- the state to wait in, without a protocol
  unfoldable pub back_off : Act (CaConn B) Error Unit
  back_off = do dt ← backoff_next; set_state (CaConnState.wait dt); set_proto none

  -- a message before the version of the server
  unfoldable pub listen_msg : CaMsgTy → Act (CaConn B) Error Handled
  listen_msg (Message.version_res n) =
      if ltb n 12 || ltb 13 n then pure again else (do set_state CaConnState.peer_ready; pure again)
  listen_msg _ = pure again

  unfoldable pub listen_answer : Option Poll.Next → Act (CaConn B) Error Handled
  listen_answer none = pure no_answers
  listen_answer (some Poll.not_ready) = pure not_ready
  listen_answer (some (Poll.item Parser.empty)) = pure again
  listen_answer (some (Poll.item (Parser.msg m))) = listen_msg m.ty
  listen_answer (some (Poll.failed e)) = throw (proto e)
  listen_answer (some Poll.ended) = do back_off; pure finished

  unfoldable pub handle_conn_listen : List ReadResult → Act (CaConn B) Error Handled
  handle_conn_listen reads = do x ← poll_proto reads; listen_answer x

  -- the channel that the server has created
  unfoldable pub to_fetching :
      Clock → CreateChanRes → ℕ → Proto.Shape → ChannelState → Act (CaConn B) Error Unit
  to_fetching clock k scalar_type shape (creating cssid _ _) = set_channel k.cid (
      fetching_series_id (
        created_state cssid k.cid k.sid k.data_type k.data_count scalar_type shape fetch_series_id
          clock))
  to_fetching clock k scalar_type shape (ChannelState.init _) = throw bad_state
  to_fetching clock k scalar_type shape (fetching_series_id _) = throw bad_state
  to_fetching clock k scalar_type shape (created _ _) = throw bad_state
  to_fetching clock k scalar_type shape error = throw bad_state
  to_fetching clock k scalar_type shape ended = throw bad_state

  unfoldable pub channel_created : Clock → CreateChanRes → Act (CaConn B) Error Unit
  channel_created clock k = do
    s ← get
    name ← or_panic (map_get k.cid s.name_by_cid)
    scalar_type ← or_throw from_ca_id (env.from_ca_id k.data_type)
    shape ← or_throw from_ca_count (env.proto.from_ca_count k.data_count)
    ch_s ← or_panic (map_get k.cid s.channels)
    to_fetching clock k scalar_type shape ch_s
    modify (λ s. record s {
      channel_info_query_queue =
          s.channel_info_query_queue
          ++ (record {
            backend = s.backend;
            channel = name;
            scalar_type = env.to_scylla_i32 scalar_type;
            shape_dims = env.to_scylla_vec shape;
          })
            ∷ [];
    })

  -- the messages of a server that is ready; the others are logged
  unfoldable pub ready_msg : Clock → CaMsgTy → Act (CaConn B) Error Unit
  ready_msg clock (Message.create_chan_res k) = channel_created clock k
  ready_msg clock (Message.event_add_res k) = handle_event_add_res env k clock.instant
  ready_msg clock Message.echo =
      modify (λ s. record s { ioc_ping_last = clock.instant; ioc_ping_start = none })
  ready_msg clock _ = pure tt

  unfoldable pub ready_answer : Clock → Option Poll.Next → Act (CaConn B) Error Handled
  ready_answer clock none = pure no_answers
  ready_answer clock (some Poll.not_ready) = pure not_ready
  ready_answer clock (some (Poll.item Parser.empty)) = pure again
  ready_answer clock (some (Poll.item (Parser.msg m))) = do ready_msg clock m.ty; pure again
  ready_answer clock (some (Poll.failed e)) = do
    modify (trigger_shutdown clock protocol_error)
    throw (proto e)
  ready_answer clock (some Poll.ended) = do
    modify (trigger_shutdown clock protocol_done)
    pure finished

  -- The messages are pushed one by one; the protocol is there before the first.
  unfoldable pub push_all : List CaMsg → Act (CaConn B) Error Unit
  push_all [] = pure tt
  push_all (m ∷ ms) = do push_out m; push_all ms

  unfoldable pub handle_peer_ready : Clock → List ReadResult → Act (CaConn B) Error Handled
  handle_peer_ready clock reads = do
    msgs ← check_channels_state_init clock
    s ← get
    _ ← or_panic s.proto
    push_all msgs
    x ← poll_proto reads
    ready_answer clock x

  -- a result of the connect is reported
  unfoldable pub report : Clock → SocketAddrV4 → ConnectionStatus → Act (CaConn B) Error Unit
  report clock addr status =
      push_item (connection_status (record { ts = clock.system; addr = addr; status = status }))

  unfoldable pub on_connect : Clock → SocketAddrV4 → ConnectPoll → Act (CaConn B) Error Handled
  on_connect clock addr (connected writes) = do
    report clock addr established
    backoff_reset
    set_state CaConnState.init
    s ← get
    set_proto (some (record { proto = Parser.new s.array_truncate; writes = writes; sent = [] }))
    pure finished
  on_connect clock addr connect_failed = do report clock addr connect_error; back_off; pure finished
  on_connect clock addr timed_out = do report clock addr connect_timeout; back_off; pure finished
  on_connect clock addr not_connected = pure not_ready

  unfoldable pub say_hello : Act (CaConn B) Error Handled
  say_hello = do
    s ← get
    push_out (record { ty = Message.version })
    push_out (record { ty = Message.client_name })
    push_out (record { ty = Message.host_name s.local_epics_hostname })
    set_state CaConnState.listen
    pure finished

  -- `again` is `Ready(())`, which of the states only the listening one gives.
  unfoldable pub in_state : StepEvent → CaConnState → Act (CaConn B) Error Handled
  in_state ev CaConnState.unconnected = do
    s ← get
    set_state (CaConnState.connecting s.remote_addr_dbg)
    pure finished
  in_state ev (CaConnState.connecting addr) = on_connect ev.clock addr ev.connect
  in_state ev CaConnState.init = say_hello
  in_state ev CaConnState.listen = handle_conn_listen ev.reads
  in_state ev CaConnState.peer_ready = do
    x ← handle_peer_ready ev.clock ev.reads
    elim x [
      | again ↦ pure finished
      | finished ↦ pure finished
      | not_ready ↦ pure not_ready
      | no_answers ↦ pure no_answers
    ]
  in_state ev (CaConnState.wait _) =
      if ev.waited
      then (do set_state CaConnState.unconnected; set_proto none; pure finished)
      else pure not_ready
  in_state ev CaConnState.shutdown = pure finished
  in_state ev CaConnState.end_of_stream = pure finished

  unfoldable pub handle_conn_state : StepEvent → Act (CaConn B) Error Handled
  handle_conn_state ev s = in_state ev s.state s

-- `is_shutdown`
unfoldable pub is_shutdown : CaConnState → Bool
is_shutdown CaConnState.shutdown = true
is_shutdown CaConnState.unconnected = false
is_shutdown (CaConnState.connecting _) = false
is_shutdown CaConnState.init = false
is_shutdown CaConnState.listen = false
is_shutdown CaConnState.peer_ready = false
is_shutdown (CaConnState.wait _) = false
is_shutdown CaConnState.end_of_stream = false

module _ {B : Type 0} (env : Env B) where
  -- The loop, over the events of its rounds; it does not give `again`.
  unfoldable pub loop_inner : List StepEvent → Act (CaConn B) Error Handled
  loop_inner [] = pure no_answers
  loop_inner (ev ∷ evs) = do
    s ← get
    if is_shutdown s.state || leb s.insert_queue_max (length s.insert_item_queue)
        then pure finished
        else (do
          x ← handle_conn_state env ev
          elim x [
            | again ↦ loop_inner evs
            | finished ↦ pure finished
            | not_ready ↦ pure not_ready
            | no_answers ↦ pure no_answers
          ])
