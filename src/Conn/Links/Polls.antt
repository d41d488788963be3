-- ===== src/Conn/Links/Polls.antt =====
-- The rounds of `poll_next` of conn.rs keep the links of a connection.
use daqingest.Base.{
  ℕ, ◌≡◌, Bool-cases, inl, inr, Option, none, some, List, [], ◌∷◌, Outcome, ok, err, panic,
}
use daqingest.Socket.{SocketAddrV4}
use daqingest.InsertQueue.Items.{QueryItem}
use daqingest.Conn.{Error, Env, Clock, CaConnEvent, ConnCommandResult, CaConn, new}
use daqingest.Conn.States.{loop_inner}
use daqingest.Conn.Links.{IsCalm, Linked, IsLinked, trigger_shutdown-IsLinked}
use daqingest.Conn.Polling as Polling
use daqingest.Conn.Polling.{
  after, poll_next, PollEvents, CommandPoll, command, queue_closed, no_command, waits, Round,
  continues, out_of_events, returns, tick_bins, handle_own_ticker_tick, ticked, handle_own_ticker,
  start_send, sent_or, attempt_flush_channel_info_query, poll_command, settle,
  queues_async_out_flushed, work, pop_insert, pop_event, pop_result, is_ended, poll_round,
}
use daqingest.Conn.Links.Rounds.{then-links}
use daqingest.Conn.Links.Queries.{flush-IsLinked, settle-IsLinked}
use daqingest.Conn.Links.Calls.{loop_inner-IsLinked, poll_command-IsLinked}

module _ {B : Type 0} (env : Env B) where
  ticked-IsLinked :
      (clock : Clock) (r : Outcome Error Unit × CaConn B)
      → IsLinked r.1
      → IsLinked (ticked env clock r).1
  unfolding ticked
  ticked-IsLinked clock (ok _, s) h = h
  ticked-IsLinked clock (err e, s) h = trigger_shutdown-IsLinked clock _ s
  ticked-IsLinked clock (panic, s) h = h

  handle_own_ticker-IsLinked :
      (ev : PollEvents) (s : CaConn B) → IsLinked s → IsLinked (handle_own_ticker env ev s).1
  unfolding handle_own_ticker handle_own_ticker_tick
  handle_own_ticker-IsLinked ev s h = elim (Bool-cases ev.tick) [
    | inl e ↦ simp e (ticked-IsLinked ev.clock _ h)
    | inr e ↦ simp e h
  ]

  work-IsLinked : (ev : PollEvents) (s : CaConn B) → IsLinked s → IsLinked (work env ev s).1
  unfolding work
  work-IsLinked ev s h =
      then-links (attempt_flush_channel_info_query ev.sends s) _ (flush-IsLinked ev.sends s h)
        λ _ t k.
          then-links (poll_command env ev.clock ev.command t) _
            (poll_command-IsLinked env ev.clock ev.command t k)
            λ _ t k.
              then-links (loop_inner env ev.steps t) _ (loop_inner-IsLinked env ev.steps t k)
                λ x t k. settle-IsLinked x t k

  pop_insert-IsLinked :
      (ev : PollEvents) (q : List QueryItem) (s : CaConn B)
      → IsLinked s
      → IsLinked (pop_insert env ev q s).1
  unfolding pop_insert
  pop_insert-IsLinked ev [] s h = work-IsLinked ev s h
  pop_insert-IsLinked ev (item ∷ queue) s h = h

  pop_event-IsLinked :
      (ev : PollEvents) (q : List CaConnEvent) (s : CaConn B)
      → IsLinked s
      → IsLinked (pop_event env ev q s).1
  unfolding pop_event
  pop_event-IsLinked ev [] s h = pop_insert-IsLinked ev s.insert_item_queue s h
  pop_event-IsLinked ev (item ∷ queue) s h = h

  pop_result-IsLinked :
      (ev : PollEvents) (q : List ConnCommandResult) (s : CaConn B)
      → IsLinked s
      → IsLinked (pop_result env ev q s).1
  unfolding pop_result
  pop_result-IsLinked ev [] s h = pop_event-IsLinked ev s.ca_conn_event_out_queue s h
  pop_result-IsLinked ev (item ∷ queue) s h = h

  pub poll_round-IsLinked :
      (ev : PollEvents) (s : CaConn B) → IsLinked s → IsLinked (poll_round env ev s).1
  unfolding poll_round
  poll_round-IsLinked ev s h = elim (Bool-cases (is_ended s.state)) [
    | inl e ↦ simp e h
    | inr e ↦ simp e (
        then-links (handle_own_ticker env ev s) _ (handle_own_ticker-IsLinked ev s h)
          λ _ t k. pop_result-IsLinked ev t.cmd_res_queue t k)
  ]

  -- the state that a poll leaves
  abbrev LeavesLinked : Option (Outcome Error Polling.Next × CaConn B) → Type 0
  LeavesLinked none = Unit {0}
  LeavesLinked (some r) = IsLinked r.1

  after-LeavesLinked :
      (r : Outcome Error Round × CaConn B)
      (go : CaConn B → Option (Outcome Error Polling.Next × CaConn B))
      → IsLinked r.1
      → ((t : CaConn B) → IsLinked t → LeavesLinked (go t))
      → LeavesLinked (after r go)
  unfolding after
  after-LeavesLinked (ok continues, s) go h k = k s h
  after-LeavesLinked (ok out_of_events, s) go h k = tt
  after-LeavesLinked (ok (returns x), s) go h k = h
  after-LeavesLinked (err e, s) go h k = h
  after-LeavesLinked (panic, s) go h k = h

  poll_next-LeavesLinked :
      (evs : List PollEvents) (s : CaConn B) → IsLinked s → LeavesLinked (poll_next env evs s)
  unfolding poll_next
  poll_next-LeavesLinked [] s h = tt
  poll_next-LeavesLinked (ev ∷ evs) s h =
      after-LeavesLinked (poll_round env ev s) (λ t. poll_next env evs t)
        (poll_round-IsLinked ev s h) (λ t k. poll_next-LeavesLinked evs t k)

  poll_next-IsLinked :
      (evs : List PollEvents) (s : CaConn B) (r : Outcome Error Polling.Next × CaConn B)
      → IsLinked s
      → poll_next env evs s ≡ some r
      → IsLinked r.1
  poll_next-IsLinked evs s r h e = rw e at (poll_next-LeavesLinked evs s h)

  -- the connection behind any rounds of its polls, with errors and panics among them
  unfoldable pub rounds : List PollEvents → CaConn B → CaConn B
  rounds [] s = s
  rounds (ev ∷ evs) s = rounds evs (poll_round env ev s).1

  -- From a connection that has a protocol in the states Init, Listen and PeerReady, and whose
  -- channels wait for a series in the state PeerReady only, any sequence of rounds of its polls
  -- leads to such a connection, whatever the answers of the socket, the commands and the timers,
  -- and also when rounds fail or panic.
  pub rounds-IsLinked :
      (evs : List PollEvents) (s : CaConn B) → IsLinked s → IsLinked (rounds evs s)
  unfolding rounds
  rounds-IsLinked [] s h = h
  rounds-IsLinked (ev ∷ evs) s h =
      rounds-IsLinked evs (poll_round env ev s).1 (poll_round-IsLinked ev s h)

pub new-IsLinked :
    (B : Type 0) (max truncate : ℕ) (backend : List ℕ) (addr : SocketAddrV4) (host : List ℕ)
    (now : ℕ)
    → IsLinked (new {B = B} max truncate backend addr host now)
unfolding new Linked IsCalm
new-IsLinked B max truncate backend addr host now = tt
