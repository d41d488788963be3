-- ===== src/Conn/Links/Calls.antt =====
-- The states and the commands of a connection of conn.rs keep its links.
use daqingest.Base.{
  ℕ, ◌≡◌, refl, ◌||◌, Bool-cases, inl, inr, Option, none, some, List, [], ◌∷◌, ◌++◌, length, leb,
  Act, pure, arith,
}
use daqingest.Base.Maps.{map_get, text_get}
use daqingest.Socket.{SocketAddrV4}
use daqingest.InsertQueue.{opened}
use daqingest.InsertQueue.Items.{channel_status}
use daqingest.Conn.{
  Error, Env, Clock, ChannelState, creating, fetching_series_id, created, error, ended, CaConnState,
  into_inner, ChannelInfoResult, ConnCommandKind, series_lookup_result, channel_add, channel_remove,
  check_health, shutdown, CaConn,
}
use daqingest.Conn.Events.{
  push_out, push_item, found_channel, found_series, handle_series_lookup_result,
  handle_conn_command, channel_to_evented,
}
use daqingest.Conn.States.{
  ConnectPoll, connected, connect_failed, timed_out, not_connected, StepEvent, Handled, again,
  finished, not_ready, no_answers, set_state, set_proto, backoff_reset, poll_proto, back_off,
  handle_conn_listen, handle_peer_ready, report, on_connect, say_hello, in_state, handle_conn_state,
  is_shutdown, loop_inner,
}
use daqingest.Conn.Links.{
  IsCalm, Linked, IsLinked, get-IsCalm, trigger_shutdown-IsLinked, channel_add-IsLinked,
  channel_remove-IsLinked, cmd_check_health-IsLinked,
}
use daqingest.Conn.Links.Ready.{channel_to_evented-keeps}
use daqingest.Conn.Polling.{CommandPoll, command, queue_closed, no_command, poll_command}
use daqingest.Conn.Links.Rounds.{
  then-leads, then-links, of_ready, of_listen, of_init, handle_peer_ready-IsLinked,
  poll_proto-InState, listen_answer-IsLinked, back_off-IsLinked, push_out-InState, ready_or_IsCalm,
  InState,
}

module _ {B : Type 0} (env : Env B) where
  on_connect-IsLinked :
      (clock : Clock) (addr : SocketAddrV4) (x : ConnectPoll) (s : CaConn B)
      → IsLinked s
      → IsCalm s.channels
      → IsLinked (on_connect env clock addr x s).1
  unfolding on_connect report push_item backoff_reset set_state set_proto Linked
  on_connect-IsLinked clock addr (connected writes) s k h = (ground arith, h)
  on_connect-IsLinked clock addr connect_failed s k h =
      then-links (back_off env _) _ (back_off-IsLinked env _ h) (λ _ t k. k)
  on_connect-IsLinked clock addr timed_out s k h =
      then-links (back_off env _) _ (back_off-IsLinked env _ h) (λ _ t k. k)
  on_connect-IsLinked clock addr not_connected s k h = k

  say_hello-IsLinked : (s : CaConn B) → InState CaConnState.init s → IsLinked (say_hello env s).1
  unfolding say_hello set_state Linked
  say_hello-IsLinked s h =
      let keeps = λ (t : CaConn B) (k : InState CaConnState.init t). of_init env t k in
      then-leads (λ t. InState CaConnState.init t) (λ t. IsLinked t) (push_out _ s) _
        (push_out-InState _ _ s h) keeps
        λ _ t h.
          then-leads (λ t. InState CaConnState.init t) (λ t. IsLinked t) (push_out _ t) _
            (push_out-InState _ _ t h) keeps
            λ _ t h.
              then-leads (λ t. InState CaConnState.init t) (λ t. IsLinked t) (push_out _ t) _
                (push_out-InState _ _ t h) keeps λ _ t h. (h.1, h.2)

  in_state-IsLinked :
      (ev : StepEvent) (x : CaConnState) (s : CaConn B)
      → s.state ≡ x
      → Linked x s.proto s.channels
      → IsLinked s
      → IsLinked (in_state env ev x s).1
  unfolding in_state handle_conn_listen set_state set_proto Linked
  in_state-IsLinked ev CaConnState.unconnected s e h k = h
  in_state-IsLinked ev (CaConnState.connecting addr) s e h k =
      on_connect-IsLinked ev.clock addr ev.connect s k h
  in_state-IsLinked ev CaConnState.init s e h k = say_hello-IsLinked s (e, h.0, h.1)
  in_state-IsLinked ev CaConnState.listen s e h k =
      then-leads (λ t. InState CaConnState.listen t) (λ t. IsLinked t) (poll_proto env ev.reads s) _
        (poll_proto-InState env CaConnState.listen ev.reads s (e, h.0, h.1))
        (λ t k. of_listen env t k) (λ x t k. listen_answer-IsLinked env x t k)
  in_state-IsLinked ev CaConnState.peer_ready s e h k =
      then-links (handle_peer_ready env ev.clock ev.reads s) _
        (handle_peer_ready-IsLinked env ev.clock ev.reads s (e, h)) λ x t k. by_handled x t k
    where
      by_handled :
          (x : Handled) (t : CaConn B)
          → IsLinked t
          → IsLinked
              ((elim x as (λ (_ : Handled). Act (CaConn B) Error Handled) [
                | again ↦ pure finished
                | finished ↦ pure finished
                | not_ready ↦ pure not_ready
                | no_answers ↦ pure no_answers
              ])
                t).1
      by_handled again t k = k
      by_handled finished t k = k
      by_handled not_ready t k = k
      by_handled no_answers t k = k
  in_state-IsLinked ev (CaConnState.wait dt) s e h k = elim (Bool-cases ev.waited) [
    | inl w ↦ simp w h
    | inr w ↦ simp w k
  ]
  in_state-IsLinked ev CaConnState.shutdown s e h k = k
  in_state-IsLinked ev CaConnState.end_of_stream s e h k = k

  handle_conn_state-IsLinked :
      (ev : StepEvent) (s : CaConn B) → IsLinked s → IsLinked (handle_conn_state env ev s).1
  unfolding handle_conn_state
  handle_conn_state-IsLinked ev s h = in_state-IsLinked ev s.state s refl h h

  pub loop_inner-IsLinked :
      (evs : List StepEvent) (s : CaConn B) → IsLinked s → IsLinked (loop_inner env evs s).1
  unfolding loop_inner
  loop_inner-IsLinked [] s h = h
  loop_inner-IsLinked (ev ∷ evs) s h =
      elim (Bool-cases
        (is_shutdown s.state || leb s.insert_queue_max (length s.insert_item_queue))) [
          | inl e ↦ simp e h
          | inr e ↦ simp e (
              then-links (handle_conn_state env ev s) _ (handle_conn_state-IsLinked ev s h)
                (by_handled (λ t k. loop_inner-IsLinked evs t k)))
        ]
    where
      by_handled :
          ((t : CaConn B) → IsLinked t → IsLinked (loop_inner env evs t).1)
          → (x : Handled) (t : CaConn B) → IsLinked t
          → IsLinked
              ((elim x as (λ (_ : Handled). Act (CaConn B) Error Handled) [
                | again ↦ loop_inner env evs
                | finished ↦ pure finished
                | not_ready ↦ pure not_ready
                | no_answers ↦ pure no_answers
              ])
                t).1
      by_handled later again t k = later t k
      by_handled later finished t k = k
      by_handled later not_ready t k = k
      by_handled later no_answers t k = k

  -- a channel that waits is found only when the server is ready
  found_series-IsLinked :
      (clock : Clock) (series cid : ℕ) (x : Option ChannelState) (s : CaConn B)
      → map_get cid s.channels ≡ x
      → IsLinked s
      → IsLinked (found_series env clock series x s).1
  unfolding found_series
  found_series-IsLinked clock series cid (some (fetching_series_id st2)) s e h =
      elim (ready_or_IsCalm s.state s.proto s.channels h) [
        | inl r ↦
            of_ready
              (channel_to_evented env clock st2.cid st2.sid st2.data_type st2.data_count series s).1
              (channel_to_evented-keeps env clock st2.cid st2.sid st2.data_type st2.data_count
                series s r)
        | inr calm ↦
            absurd (ground (arith, get-IsCalm cid (fetching_series_id st2) s.channels calm e))
      ]
  found_series-IsLinked clock series cid (some (ChannelState.init _)) s e h = h
  found_series-IsLinked clock series cid (some (creating _ _ _)) s e h = h
  found_series-IsLinked clock series cid (some (created _ _)) s e h = h
  found_series-IsLinked clock series cid (some error) s e h = h
  found_series-IsLinked clock series cid (some ended) s e h = h
  found_series-IsLinked clock series cid none s e h = h

  found_channel-IsLinked :
      (clock : Clock) (series : ℕ) (x : Option ℕ) (s : CaConn B)
      → IsLinked s
      → IsLinked (found_channel env clock series x s).1
  unfolding found_channel
  found_channel-IsLinked clock series none s h = h
  found_channel-IsLinked clock series (some cid) s h =
      found_series-IsLinked clock series cid (map_get cid s.channels) s refl h

  handle_series_lookup_result-IsLinked :
      (clock : Clock) (res : Option ChannelInfoResult) (s : CaConn B)
      → IsLinked s
      → IsLinked (handle_series_lookup_result env clock res s).1
  unfolding handle_series_lookup_result push_item
  handle_series_lookup_result-IsLinked clock none s h = h
  handle_series_lookup_result-IsLinked clock (some res) s h =
      let item =
        channel_status
          (record { ts = clock.system; series = into_inner res.series; status = opened }) in
      found_channel-IsLinked clock (into_inner res.series) (text_get res.channel s.cid_by_name)
        (record s { insert_item_queue = s.insert_item_queue ++ item ∷ [] }) h

  handle_conn_command-IsLinked :
      (clock : Clock) (c : ConnCommandKind) (s : CaConn B)
      → IsLinked s
      → IsLinked (handle_conn_command env clock c s).1
  unfolding handle_conn_command
  handle_conn_command-IsLinked clock (channel_add name cssid) s h =
      channel_add-IsLinked name cssid s h
  handle_conn_command-IsLinked clock (channel_remove name) s h = channel_remove-IsLinked name s h
  handle_conn_command-IsLinked clock check_health s h = cmd_check_health-IsLinked clock s h
  handle_conn_command-IsLinked clock shutdown s h = trigger_shutdown-IsLinked clock _ s
  handle_conn_command-IsLinked clock (series_lookup_result res) s h =
      handle_series_lookup_result-IsLinked clock res s h

  pub poll_command-IsLinked :
      (clock : Clock) (x : CommandPoll) (s : CaConn B)
      → IsLinked s
      → IsLinked (poll_command env clock x s).1
  unfolding poll_command
  poll_command-IsLinked clock (command c) s h = handle_conn_command-IsLinked clock c s h
  poll_command-IsLinked clock queue_closed s h = h
  poll_command-IsLinked clock no_command s h = h
