-- ===== src/Conn/Links/Queries.antt =====
-- The queries of a connection of conn.rs, and the end of a round, keep its links.
use daqingest.Base.{◌≡◌, true, ◌&&◌, Bool-cases, inl, inr, Option, List, [], ◌∷◌, Act, pure, arith}
use daqingest.Base.Maps.{BTreeMap}
use daqingest.CaProto.Output as Output
use daqingest.SenderPolling as Sending
use daqingest.SenderPolling.{SendResult}
use daqingest.Conn.{Error, ChannelState, CaConnState, ChannelInfoQuery, CaConn}
use daqingest.Conn.States.{Handled, again, finished, not_ready, no_answers, is_shutdown}
use daqingest.Conn.Links.{IsCalm, Linked, IsLinked}
use daqingest.Conn.Polling.{
  waits, Round, continues, out_of_events, returns, start_send, sent_or,
  attempt_flush_channel_info_query, settle, queues_async_out_flushed,
}

shut-IsCalm :
    (x : CaConnState) (p : Option Output.Conn) (m : BTreeMap ChannelState)
    → is_shutdown x ≡ true
    → Linked x p m
    → IsCalm m
unfolding is_shutdown Linked
shut-IsCalm CaConnState.shutdown p m e h = h
shut-IsCalm CaConnState.peer_ready p m e h = absurd (ground arith)
shut-IsCalm CaConnState.init p m e h = h.1
shut-IsCalm CaConnState.listen p m e h = h.1
shut-IsCalm CaConnState.unconnected p m e h = h
shut-IsCalm (CaConnState.connecting _) p m e h = h
shut-IsCalm (CaConnState.wait _) p m e h = h
shut-IsCalm CaConnState.end_of_stream p m e h = h

module _ {B : Type 0} where
  start_send-IsLinked : (s : CaConn B) → IsLinked s → IsLinked (start_send s)
  unfolding start_send
  start_send-IsLinked s h = elim (Bool-cases (Sending.is_sending s.channel_info_query_sending)) [
    | inl e ↦ simp e h
    | inr e ↦
        simp e
          (elim s.channel_info_query_queue
            as (λ q. IsLinked {B = B} (elim q as (λ (_ : List ChannelInfoQuery). CaConn B) [
              | [] ↦ s
              | item ∷ queue ↦ record s {
                channel_info_query_queue = queue;
                channel_info_query_sending = Sending.send item s.channel_info_query_sending;
              }
            ])) [ [] ↦ h | item ∷ queue ↦ h ])
  ]

  sent_or-IsLinked :
      (r : Sending.Reply ChannelInfoQuery) (go : Act (CaConn B) Error Unit) (s : CaConn B)
      → IsLinked s
      → IsLinked (go s).1
      → IsLinked (sent_or r go s).1
  unfolding sent_or
  sent_or-IsLinked Sending.sent go s h k = k
  sent_or-IsLinked Sending.pending go s h k = h
  sent_or-IsLinked (Sending.closed _) go s h k = h
  sent_or-IsLinked Sending.no_send_in_progress go s h k = h

  pub flush-IsLinked :
      (rs : List SendResult) (s : CaConn B)
      → IsLinked s
      → IsLinked (attempt_flush_channel_info_query rs s).1
  unfolding attempt_flush_channel_info_query
  flush-IsLinked [] s h = start_send-IsLinked s h
  flush-IsLinked (r ∷ rs) s h =
      let t = start_send s in
      let k = start_send-IsLinked s h in
      let p = Sending.poll r t.channel_info_query_sending in
      let u : CaConn B = record t { channel_info_query_sending = p.1 } in
      elim (Bool-cases (Sending.is_sending t.channel_info_query_sending)) [
        | inl e ↦
            simp e (
              sent_or-IsLinked p.0 (attempt_flush_channel_info_query rs) u k
                (flush-IsLinked rs u k))
        | inr e ↦ simp e k
      ]

  pub settle-IsLinked : (x : Handled) (s : CaConn B) → IsLinked s → IsLinked (settle x s).1
  unfolding settle Linked
  settle-IsLinked x s h = elim (Bool-cases (is_shutdown s.state && queues_async_out_flushed s)) [
    | inl e ↦ simp e (shut-IsCalm s.state s.proto s.channels (ground arith) h)
    | inr e ↦ simp e (by_handled x)
  ]
    where
      by_handled :
          (x : Handled)
          → IsLinked
              ((elim x as (λ (_ : Handled). Act (CaConn B) Error Round) [
                | not_ready ↦ pure (returns waits)
                | no_answers ↦ pure out_of_events
                | again ↦ pure continues
                | finished ↦ pure continues
              ])
                s).1
      by_handled not_ready = h
      by_handled no_answers = h
      by_handled again = h
      by_handled finished = h
