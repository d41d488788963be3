-- ===== src/Conn/Links/Rounds.antt =====
-- What the handlers of conn.rs leave of the links of a connection that listens or is ready.
use daqingest.Base.{
  ◌≡◌, ◌≢◌, ◌⊎◌, refl, ◌||◌, Bool-cases, inl, inr, Option, none, some, List, ltb, Outcome, ok, err,
  panic, Act, and_then, or_panic, arith,
}
use daqingest.Base.Maps.{BTreeMap}
use daqingest.Socket.{ReadResult}
use daqingest.CaProto.Error as Proto
use daqingest.CaProto.Message as Message
use daqingest.CaProto.Message.{CaMsg, CaMsgTy}
use daqingest.CaProto.Parser as Parser
use daqingest.CaProto.Output as Output
use daqingest.CaProto.Poll as Poll
use daqingest.Conn.{Error, Env, Clock, ChannelState, CaConnState, CaConn}
use daqingest.Conn.Channels.{check_channels_state_init}
use daqingest.Conn.Events.{push_out}
use daqingest.Conn.States.{
  set_state, set_proto, backoff_next, put_back, poll_proto, back_off, listen_msg, listen_answer,
  ready_msg, ready_answer, push_all, handle_peer_ready,
}
use daqingest.Conn.Links.{IsCalm, Linked, IsLinked, trigger_shutdown-IsLinked}
use daqingest.Conn.Links.Ready.{
  IsReady, or_panic-keeps, check_channels_state_init-keeps, push_all-keeps, poll_proto-keeps,
  ready_msg-keeps,
}

ready-Linked :
    (x : CaConnState) (p : Option Output.Conn) (m : BTreeMap ChannelState)
    → x ≡ CaConnState.peer_ready
    → p ≢ none
    → Linked x p m
unfolding Linked
ready-Linked x p m e h = rw e h

pub ready_or_IsCalm :
    (x : CaConnState) (p : Option Output.Conn) (m : BTreeMap ChannelState)
    → Linked x p m
    → ((x ≡ CaConnState.peer_ready) × (p ≢ none)) ⊎ IsCalm m
unfolding Linked
ready_or_IsCalm CaConnState.peer_ready p m h = inl (refl, h)
ready_or_IsCalm CaConnState.init p m h = inr h.1
ready_or_IsCalm CaConnState.listen p m h = inr h.1
ready_or_IsCalm CaConnState.unconnected p m h = inr h
ready_or_IsCalm (CaConnState.connecting _) p m h = inr h
ready_or_IsCalm (CaConnState.wait _) p m h = inr h
ready_or_IsCalm CaConnState.shutdown p m h = inr h
ready_or_IsCalm CaConnState.end_of_stream p m h = inr h

module _ {B : Type 0} where
  -- what holds behind a call and what is behind it
  pub then-leads :
      (P Q : CaConn B → Type 0) {A C : Type 0} (r : Outcome Error A × CaConn B)
      (f : A → Act (CaConn B) Error C)
      → P r.1
      → ((t : CaConn B) → P t → Q t)
      → ((a : A) (t : CaConn B) → P t → Q (f a t).1)
      → Q (and_then r f).1
  then-leads P Q (ok a, s) f h e k = k a s h
  then-leads P Q (err x, s) f h e k = e s h
  then-leads P Q (panic, s) f h e k = e s h

  pub then-links :
      {A C : Type 0} (r : Outcome Error A × CaConn B) (f : A → Act (CaConn B) Error C)
      → IsLinked r.1
      → ((a : A) (t : CaConn B) → IsLinked t → IsLinked (f a t).1)
      → IsLinked (and_then r f).1
  then-links r f h k = then-leads (λ t. IsLinked t) (λ t. IsLinked t) r f h (λ t h. h) k

  pub of_ready : (s : CaConn B) → IsReady s → IsLinked s
  of_ready s h = ready-Linked s.state s.proto s.channels h.0 h.1

  -- a state with a protocol and no channel that waits
  abbrev pub InState : CaConnState → CaConn B → Type 0
  InState x t = (t.state ≡ x) × (t.proto ≢ none) × IsCalm t.channels

  pub push_out-InState :
      (x : CaConnState) (m : CaMsg) (s : CaConn B) → InState x s → InState x (push_out m s).1
  unfolding push_out
  push_out-InState x m s h = by_proto s.proto refl
    where
      by_proto : (p : Option Output.Conn) → s.proto ≡ p → InState x (push_out m s).1
      by_proto none e = rw (push_out, e) h
      by_proto (some c) e = rw (push_out, e) (h.0, (ground arith), h.2)

module _ {B : Type 0} (env : Env B) where
  put_back-InState :
      (x : CaConnState) (r : Option (Outcome Proto.Error Poll.Next × Output.Conn)) (s : CaConn B)
      → InState x s
      → InState x (put_back env r s).1
  unfolding put_back
  put_back-InState x none s h = h
  put_back-InState x (some (ok a, c)) s h = (h.0, (ground arith), h.2)
  put_back-InState x (some (err e, c)) s h = (h.0, (ground arith), h.2)
  put_back-InState x (some (panic, c)) s h = (h.0, (ground arith), h.2)

  pub poll_proto-InState :
      (x : CaConnState) (reads : List ReadResult) (s : CaConn B)
      → InState x s
      → InState x (poll_proto env reads s).1
  unfolding poll_proto
  poll_proto-InState x reads s h = by_proto s.proto refl
    where
      by_proto : (p : Option Output.Conn) → s.proto ≡ p → InState x (poll_proto env reads s).1
      by_proto none e = rw (poll_proto, e) h
      by_proto (some c) e =
          rw (poll_proto, e) (put_back-InState x (Poll.poll_next env.proto reads c) s h)

  pub of_listen : (s : CaConn B) → InState CaConnState.listen s → IsLinked s
  unfolding Linked
  of_listen s h = rw (h.0) (h.1, h.2)

  pub of_init : (s : CaConn B) → InState CaConnState.init s → IsLinked s
  unfolding Linked
  of_init s h = rw (h.0) (h.1, h.2)

  pub back_off-IsLinked : (s : CaConn B) → IsCalm s.channels → IsLinked (back_off env s).1
  unfolding back_off backoff_next set_state set_proto Linked
  back_off-IsLinked s h = h

  listen_msg-IsLinked :
      (m : CaMsgTy) (s : CaConn B) → InState CaConnState.listen s → IsLinked (listen_msg env m s).1
  unfolding listen_msg set_state
  listen_msg-IsLinked (Message.version_res n) s h = elim (Bool-cases (ltb n 12 || ltb 13 n)) [
    | inl e ↦ simp e (of_listen s h)
    | inr e ↦ simp e (ready-Linked CaConnState.peer_ready s.proto s.channels refl h.1)
  ]
  listen_msg-IsLinked (Message.create_chan_res _) s h = of_listen s h
  listen_msg-IsLinked (Message.event_add_res _) s h = of_listen s h
  listen_msg-IsLinked Message.echo s h = of_listen s h
  listen_msg-IsLinked Message.version s h = of_listen s h
  listen_msg-IsLinked (Message.error _) s h = of_listen s h
  listen_msg-IsLinked Message.client_name s h = of_listen s h
  listen_msg-IsLinked (Message.client_name_res _) s h = of_listen s h
  listen_msg-IsLinked (Message.host_name _) s h = of_listen s h
  listen_msg-IsLinked (Message.search_request _) s h = of_listen s h
  listen_msg-IsLinked (Message.search_res _) s h = of_listen s h
  listen_msg-IsLinked (Message.create_chan _) s h = of_listen s h
  listen_msg-IsLinked (Message.create_chan_fail _) s h = of_listen s h
  listen_msg-IsLinked (Message.access_rights_res _) s h = of_listen s h
  listen_msg-IsLinked (Message.event_add _) s h = of_listen s h
  listen_msg-IsLinked (Message.read_notify _) s h = of_listen s h
  listen_msg-IsLinked (Message.read_notify_res _) s h = of_listen s h

  pub listen_answer-IsLinked :
      (x : Option Poll.Next) (s : CaConn B)
      → InState CaConnState.listen s
      → IsLinked (listen_answer env x s).1
  unfolding listen_answer
  listen_answer-IsLinked none s h = of_listen s h
  listen_answer-IsLinked (some Poll.not_ready) s h = of_listen s h
  listen_answer-IsLinked (some (Poll.item Parser.empty)) s h = of_listen s h
  listen_answer-IsLinked (some (Poll.item (Parser.msg m))) s h = listen_msg-IsLinked m.ty s h
  listen_answer-IsLinked (some (Poll.failed e)) s h = of_listen s h
  listen_answer-IsLinked (some Poll.ended) s h =
      then-links (back_off env s) _ (back_off-IsLinked s h.2) (λ _ t k. k)

  ready_answer-IsLinked :
      (clock : Clock) (x : Option Poll.Next) (s : CaConn B)
      → IsReady s
      → IsLinked (ready_answer env clock x s).1
  unfolding ready_answer
  ready_answer-IsLinked clock none s h = of_ready s h
  ready_answer-IsLinked clock (some Poll.not_ready) s h = of_ready s h
  ready_answer-IsLinked clock (some (Poll.item Parser.empty)) s h = of_ready s h
  ready_answer-IsLinked clock (some (Poll.item (Parser.msg m))) s h =
      then-leads (λ t. IsReady t) (λ t. IsLinked t) (ready_msg env clock m.ty s) _
        (ready_msg-keeps env clock m.ty s h) (λ t k. of_ready t k) (λ _ t k. of_ready t k)
  ready_answer-IsLinked clock (some (Poll.failed e)) s h = trigger_shutdown-IsLinked clock _ s
  ready_answer-IsLinked clock (some Poll.ended) s h = trigger_shutdown-IsLinked clock _ s

  pub handle_peer_ready-IsLinked :
      (clock : Clock) (reads : List ReadResult) (s : CaConn B)
      → IsReady s
      → IsLinked (handle_peer_ready env clock reads s).1
  unfolding handle_peer_ready
  handle_peer_ready-IsLinked clock reads s h =
      let leads = λ (t : CaConn B) (k : IsReady t). of_ready t k in
      then-leads (λ t. IsReady t) (λ t. IsLinked t) (check_channels_state_init clock s) _
        (check_channels_state_init-keeps clock s h) leads
        λ msgs t k.
          then-leads (λ t. IsReady t) (λ t. IsLinked t) (or_panic t.proto t) _
            (or_panic-keeps t.proto t k) leads
            λ _ t k.
              then-leads (λ t. IsReady t) (λ t. IsLinked t) (push_all env msgs t) _
                (push_all-keeps env msgs t k) leads
                λ _ t k.
                  then-leads (λ t. IsReady t) (λ t. IsLinked t) (poll_proto env reads t) _
                    (poll_proto-keeps env reads t k) leads
                    λ x t k. ready_answer-IsLinked clock x t k
