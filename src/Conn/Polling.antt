-- ===== src/Conn/Polling.antt =====
-- `poll_next` of the stream of events of a connection in conn.rs.
use daqingest.Base.{
  Bool, true, false, ◌&&◌, Option, none, some, List, [], ◌∷◌, ◌++◌, if◌then◌else◌, is_nil, Outcome,
  ok, err, panic, Act, ◌>>=◌, ◌>>◌, pure, throw, get, modify,
}
use daqingest.Base.Maps.{BTreeMap}
use daqingest.InsertQueue.{internal_error}
use daqingest.InsertQueue.Items.{QueryItem}
use daqingest.SenderPolling as Sending
use daqingest.SenderPolling.{SenderPolling, SendResult}
use daqingest.Conn.{
  Error, time_bin, query_closed, Env, Clock, CaConnState, CaConnEvent, CaConnEventValue,
  ConnCommandResult, conn_command_result, query_item, ChannelInfoQuery, ConnCommandKind, CaConn,
}
use daqingest.Conn.Channels.{trigger_shutdown}
use daqingest.Conn.Events.{handle_conn_command}
use daqingest.Conn.States.{
  StepEvent, Handled, again, finished, not_ready, no_answers, is_shutdown, loop_inner,
}

-- `conn_command_rx.poll_next`; a closed queue is only logged
pub data CommandPoll : Type 0 where
  command : ConnCommandKind → CommandPoll
  queue_closed no_command : CommandPoll

-- The environment in one round of `poll_next`.
pub record PollEvents : Type 0 where
  pub clock : Clock
  pub tick : Bool
  pub sends : List SendResult
  pub command : CommandPoll
  pub steps : List StepEvent

-- What `poll_next` gives.
pub data Next : Type 0 where
  event : CaConnEvent → Next
  failed : Error → Next
  ended waits : Next

-- How a round ends: the loop goes on, or it returns, or the events of its steps have run out.
pub data Round : Type 0 where
  continues out_of_events : Round
  returns : Next → Round

module _ {B : Type 0} (env : Env B) where
  -- the bins in order, up to the first that fails: their items, and whether all return
  unfoldable pub tick_bins : BTreeMap B → (Bool × List QueryItem) × BTreeMap B
  tick_bins [] = ((true, []), [])
  tick_bins ((cid, tb) ∷ m) =
      let (fine, items, tb') = env.tick tb in
      let (later, rest) = tick_bins m in
      if fine
      then ((later.0, items ++ later.1), (cid, tb') ∷ rest)
      else ((false, items), (cid, tb') ∷ m)

  unfoldable pub handle_own_ticker_tick : Act (CaConn B) Error Unit
  handle_own_ticker_tick s =
      let ((fine, items), bins) = tick_bins s.time_binners in
      (
        if fine then ok tt else err time_bin,
        record s { insert_item_queue = s.insert_item_queue ++ items; time_binners = bins },
      )

  -- the shutdown behind a failure
  unfoldable pub ticked : Clock → Outcome Error Unit × CaConn B → Outcome Error Unit × CaConn B
  ticked clock (err e, s) = (err e, trigger_shutdown clock internal_error s)
  ticked clock (ok _, s) = (ok tt, s)
  ticked clock (panic, s) = (panic, s)

  unfoldable pub handle_own_ticker : PollEvents → Act (CaConn B) Error Unit
  handle_own_ticker ev s =
      if ev.tick then ticked ev.clock (handle_own_ticker_tick s) else (ok tt, s)

unfoldable pub is_ended : CaConnState → Bool
is_ended CaConnState.end_of_stream = true
is_ended CaConnState.shutdown = false
is_ended CaConnState.unconnected = false
is_ended (CaConnState.connecting _) = false
is_ended CaConnState.init = false
is_ended CaConnState.listen = false
is_ended CaConnState.peer_ready = false
is_ended (CaConnState.wait _) = false

module _ {B : Type 0} where
  unfoldable pub queues_async_out_flushed : CaConn B → Bool
  queues_async_out_flushed s =
      is_nil s.channel_info_query_queue && Sending.is_idle s.channel_info_query_sending

  -- a query is taken from the queue when no send is in progress
  unfoldable pub start_send : CaConn B → CaConn B
  start_send s =
      if Sending.is_sending s.channel_info_query_sending
      then s
      else elim s.channel_info_query_queue [
        | [] ↦ s
        | item ∷ queue ↦ record s {
          channel_info_query_queue = queue;
          channel_info_query_sending = Sending.send item s.channel_info_query_sending;
        }
      ]

  -- what a poll of the send gives: it goes on, it fails, or it waits
  unfoldable pub sent_or :
      Sending.Reply ChannelInfoQuery → Act (CaConn B) Error Unit → Act (CaConn B) Error Unit
  sent_or Sending.sent go = go
  sent_or Sending.pending go = pure tt
  sent_or (Sending.closed _) go = throw query_closed
  sent_or Sending.no_send_in_progress go = throw query_closed

  -- The loop, over the answers of the channel; without one it is full.
  unfoldable pub attempt_flush_channel_info_query : List SendResult → Act (CaConn B) Error Unit
  attempt_flush_channel_info_query [] s = (ok tt, start_send s)
  attempt_flush_channel_info_query (r ∷ rs) s =
      let s' = start_send s in
      if Sending.is_sending s'.channel_info_query_sending
      then (let (reply, sending) = Sending.poll r s'.channel_info_query_sending in
          sent_or reply (attempt_flush_channel_info_query rs)
            (record s' { channel_info_query_sending = sending }))
      else (ok tt, s')

  -- the last branch of the round
  unfoldable pub settle : Handled → Act (CaConn B) Error Round
  settle x = do
    s ← get
    if is_shutdown s.state && queues_async_out_flushed s
        then (do modify (λ s. record s { state = CaConnState.end_of_stream }); pure (returns ended))
        else elim x [
          | not_ready ↦ pure (returns waits)
          | no_answers ↦ pure out_of_events
          | again ↦ pure continues
          | finished ↦ pure continues
        ]

  -- the channel of queries, the commands, and the connection
  -- A round that fails returns the error.
  unfoldable pub after :
      Outcome Error Round × CaConn B
      → (CaConn B → Option (Outcome Error Next × CaConn B))
      → Option (Outcome Error Next × CaConn B)
  after (ok continues, s) go = go s
  after (ok out_of_events, s) go = none
  after (ok (returns x), s) go = some (ok x, s)
  after (err e, s) go = some (ok (failed e), s)
  after (panic, s) go = some (panic, s)

module _ {B : Type 0} (env : Env B) where
  unfoldable pub poll_command : Clock → CommandPoll → Act (CaConn B) Error Unit
  poll_command clock (command c) = handle_conn_command env clock c
  poll_command clock queue_closed = pure tt
  poll_command clock no_command = pure tt

  unfoldable pub work : PollEvents → Act (CaConn B) Error Round
  work ev = do
    attempt_flush_channel_info_query ev.sends
    poll_command ev.clock ev.command
    x ← loop_inner env ev.steps
    settle x

  abbrev pub event_at : PollEvents → CaConnEventValue → Round
  event_at ev v = returns (event (record { ts = ev.clock.instant; value = v }))

  -- the three queues of what was noted, one element of the first that has one
  unfoldable pub pop_insert : PollEvents → List QueryItem → Act (CaConn B) Error Round
  pop_insert ev [] = work ev
  pop_insert ev (item ∷ queue) = do
    modify (λ s. record s { insert_item_queue = queue })
    pure (event_at ev (query_item item))

  unfoldable pub pop_event : PollEvents → List CaConnEvent → Act (CaConn B) Error Round
  pop_event ev [] s = pop_insert ev s.insert_item_queue s
  pop_event ev (item ∷ queue) s =
      (ok (returns (event item)), record s { ca_conn_event_out_queue = queue })

  unfoldable pub pop_result : PollEvents → List ConnCommandResult → Act (CaConn B) Error Round
  pop_result ev [] s = pop_event ev s.ca_conn_event_out_queue s
  pop_result ev (item ∷ queue) s =
      (ok (event_at ev (conn_command_result item)), record s { cmd_res_queue = queue })

  unfoldable pub poll_round : PollEvents → Act (CaConn B) Error Round
  poll_round ev = do
    s ← get
    if is_ended s.state
        then pure (returns ended)
        else (do handle_own_ticker env ev; s ← get; pop_result ev s.cmd_res_queue)

  -- the loop, over the events of its rounds: `none` when they run out
  unfoldable pub poll_next : List PollEvents → CaConn B → Option (Outcome Error Next × CaConn B)
  poll_next [] s = none
  poll_next (ev ∷ evs) s = after (poll_round ev s) (λ s. poll_next evs s)
