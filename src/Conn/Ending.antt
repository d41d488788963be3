-- ===== src/Conn/Ending.antt =====
-- The end of a connection of conn.rs: what is reported of its channels, and what is delivered.
use daqingest.Base.{ℕ, ◌≡◌, refl, ap, true, false, none, some, List, [], ◌∷◌, map, ok}
use daqingest.Base.Maps.{BTreeMap}
use daqingest.InsertQueue.{ChannelStatusClosedReason, closed, shutdown_command}
use daqingest.InsertQueue.Items.{QueryItem, channel_status}
use daqingest.SenderPolling as Sending
use daqingest.SenderPolling.{SendResult}
use daqingest.Conn.{
  Env, Clock, ChannelState, creating, fetching_series_id, created, error, ended, CaConnState,
  shutdown, CaConn,
}
use daqingest.Conn.Channels.{
  keys, closed_items, end_channels, channel_state_on_shutdown, trigger_shutdown,
}
use daqingest.Conn.Events.{handle_conn_command}
use daqingest.Conn.States.{StepEvent, Handled, finished, no_answers, is_shutdown, loop_inner}
use daqingest.Conn.Polling as Polling
use daqingest.Conn.Polling.{
  PollEvents, Next, Round, command, returns, handle_own_ticker, queues_async_out_flushed,
  start_send, attempt_flush_channel_info_query, poll_command, settle, work, pop_insert, pop_event,
  pop_result, is_ended, poll_round, after, poll_next,
}

-- the series of the channels that are created, in order
unfoldable pub created_series : BTreeMap ChannelState → List ℕ
created_series [] = []
created_series ((_, created series _) ∷ m) = series ∷ created_series m
created_series ((_, ChannelState.init _) ∷ m) = created_series m
created_series ((_, creating _ _ _) ∷ m) = created_series m
created_series ((_, fetching_series_id _) ∷ m) = created_series m
created_series ((_, error) ∷ m) = created_series m
created_series ((_, ended) ∷ m) = created_series m

-- what is stored when a channel is closed
abbrev pub closed_at : ℕ → ChannelStatusClosedReason → ℕ → QueryItem
closed_at ts reason series =
    channel_status (record { ts = ts; series = series; status = closed reason })

end_channels-eq :
    (ts : ℕ) (reason : ChannelStatusClosedReason) (m : BTreeMap ChannelState)
    → end_channels ts reason m
      ≡ (map (closed_at ts reason) (created_series m), map (λ k. (k, ended)) (keys m))
unfolding end_channels closed_items created_series
end_channels-eq ts reason [] = refl
end_channels-eq ts reason ((cid, ChannelState.init _) ∷ m) = rw (end_channels-eq ts reason m) refl
end_channels-eq ts reason ((cid, creating _ _ _) ∷ m) = rw (end_channels-eq ts reason m) refl
end_channels-eq ts reason ((cid, fetching_series_id _) ∷ m) = rw (end_channels-eq ts reason m) refl
end_channels-eq ts reason ((cid, created series _) ∷ m) = rw (end_channels-eq ts reason m) refl
end_channels-eq ts reason ((cid, error) ∷ m) = rw (end_channels-eq ts reason m) refl
end_channels-eq ts reason ((cid, ended) ∷ m) = rw (end_channels-eq ts reason m) refl

module _ {B : Type 0} (env : Env B) where
  -- nothing is left to be delivered, and no query is to be sent
  pub record IsQuiet (s : CaConn B) : Type 0 where
    pub results : s.cmd_res_queue ≡ []
    pub events : s.ca_conn_event_out_queue ≡ []
    pub items : s.insert_item_queue ≡ []
    pub queries : s.channel_info_query_queue ≡ []
    pub sending : s.channel_info_query_sending.fut ≡ none

  not_sending : (s : CaConn B) → IsQuiet s → Sending.is_sending s.channel_info_query_sending ≡ false
  unfolding Sending.is_sending
  not_sending s q = rw q.sending refl

  start_send-idle : (s : CaConn B) → IsQuiet s → start_send s ≡ s
  unfolding start_send
  start_send-idle s q = simp (not_sending s q, q.queries) refl

  flush-idle :
      (rs : List SendResult) (s : CaConn B)
      → IsQuiet s
      → attempt_flush_channel_info_query rs s ≡ (ok tt, s)
  unfolding attempt_flush_channel_info_query
  flush-idle [] s q = simp (start_send-idle s q) refl
  flush-idle (r ∷ rs) s q = simp (start_send-idle s q) (simp (not_sending s q) refl)

  loop_inner-shut :
      (steps : List StepEvent) (s : CaConn B)
      → is_shutdown s.state ≡ true
      → (x : Handled) × (loop_inner env steps s ≡ (ok x, s))
  unfolding loop_inner
  loop_inner-shut [] s h = (no_answers, refl)
  loop_inner-shut (ev ∷ evs) s h = (finished, simp h refl)

  settle-shut :
      (x : Handled) (s : CaConn B)
      → is_shutdown s.state ≡ true
      → queues_async_out_flushed s ≡ true
      → settle x s ≡ (ok (returns Polling.ended), record s { state = CaConnState.end_of_stream })
  unfolding settle
  settle-shut x s h f = simp (h, f) refl

  -- the state behind a shutdown and the end
  shut : Clock → CaConn B → CaConn B
  shut clock s = record (trigger_shutdown clock shutdown_command s) {
    state = CaConnState.end_of_stream;
  }

  work-shuts :
      (ev : PollEvents) (s : CaConn B)
      → IsQuiet s
      → ev.command ≡ command shutdown
      → work env ev s ≡ (ok (returns Polling.ended), shut ev.clock s)
  unfolding work poll_command handle_conn_command shut trigger_shutdown channel_state_on_shutdown
      queues_async_out_flushed is_shutdown Sending.is_idle
  work-shuts ev s q c =
      let t = trigger_shutdown ev.clock shutdown_command s in
      let looped = loop_inner-shut ev.steps t refl in
      let flushed : queues_async_out_flushed t ≡ true = rw (q.queries, q.sending) refl in
      rw (flush-idle ev.sends s q, c, looped.1) (settle-shut looped.0 t refl flushed)

  poll_round-shuts :
      (ev : PollEvents) (s : CaConn B)
      → is_ended s.state ≡ false
      → IsQuiet s
      → ev.tick ≡ false
      → ev.command ≡ command shutdown
      → poll_round env ev s ≡ (ok (returns Polling.ended), shut ev.clock s)
  unfolding poll_round pop_result pop_event pop_insert handle_own_ticker
  poll_round-shuts ev s alive q no_tick c =
      simp (alive, no_tick)
        (simp (q.results) (simp (q.events) (simp (q.items) (work-shuts ev s q c))))

  -- When a connection that has not ended has nothing queued and no query to be sent, and its
  -- ticker is not ready, a shutdown command ends the stream at once: the statuses of the
  -- channels that it closes are left in the queue, and every later poll gives the end again.
  pub poll_next-loses :
      (ev : PollEvents) (s : CaConn B)
      → is_ended s.state ≡ false
      → IsQuiet s
      → ev.tick ≡ false
      → ev.command ≡ command shutdown
      → (t : CaConn B) × (poll_next env (ev ∷ []) s ≡ some (ok Polling.ended, t))
        × (t.insert_item_queue
            ≡ map (closed_at ev.clock.system shutdown_command) (created_series s.channels))
        × ((ev' : PollEvents) (evs : List PollEvents)
            → poll_next env (ev' ∷ evs) t ≡ some (ok Polling.ended, t))
  unfolding poll_next poll_round after is_ended shut trigger_shutdown channel_state_on_shutdown
  poll_next-loses ev s alive q no_tick c =
      let t = shut ev.clock s in
      (
        t,
        ap (λ r. after r (λ s. none)) (poll_round-shuts ev s alive q no_tick c),
        simp (q.items)
            (ap (λ r. r.0) (end_channels-eq ev.clock.system shutdown_command s.channels)),
        λ ev' evs. refl,
      )
