-- ===== src/Conn/Links/Ready.antt =====
-- What the handlers of a server that is ready leave as it is, in conn.rs: the state and the protocol.
use daqingest.Base.{
  ℕ, ◌-◌, ◌*◌, ◌^◌, ◌≡◌, ◌≢◌, refl, Bool-cases, inl, inr, Option, none, some, List, [], ◌∷◌, ◌==◌,
  leb, Outcome, ok, err, panic, Act, and_then, or_panic, arith,
}
use daqingest.Base.Maps.{map_get}
use daqingest.Socket.{ReadResult}
use daqingest.CaProto.Error as Proto
use daqingest.CaProto.Message.{
  CaMsg, CaMsgTy, CreateChanRes, EventAddRes, version, version_res, client_name, client_name_res,
  host_name, search_request, search_res, create_chan, create_chan_res, create_chan_fail,
  access_rights_res, event_add, event_add_res, read_notify, read_notify_res, echo,
}
use daqingest.CaProto.Message as Message
use daqingest.CaProto.Output as Output
use daqingest.CaProto.Poll as Poll
use daqingest.Conn.{
  Error, from_ca_id, from_ca_count, time_bin, no_series, Env, Clock, CreatedState, ChannelState,
  creating, fetching_series_id, created, error, ended, CaConnState, CaConn,
}
use daqingest.Conn.Channels.{keys, start_channel, start_channels, check_channels_state_init}
use daqingest.Conn.Events.{
  or_throw, push_out, set_channel, push_item, to_created, channel_to_evented, received_at, push_to,
  push_bin, insert_event, drop_event, on_event, handle_event_add_res,
}
use daqingest.Conn.States.{put_back, poll_proto, to_fetching, channel_created, ready_msg, push_all}

abbrev pub IsReady : {B : Type 0} → CaConn B → Type 0
IsReady s = (s.state ≡ CaConnState.peer_ready) × (s.proto ≢ none)

module _ {B : Type 0} where
  -- a call, and what is behind it
  pub then-keeps :
      {A C : Type 0} (r : Outcome Error A × CaConn B) (f : A → Act (CaConn B) Error C)
      → IsReady r.1
      → ((a : A) (t : CaConn B) → IsReady t → IsReady (f a t).1)
      → IsReady (and_then r f).1
  then-keeps (ok a, s) f h k = k a s h
  then-keeps (err e, s) f h k = h
  then-keeps (panic, s) f h k = h

  pub or_panic-keeps :
      {A : Type 0} (x : Option A) (s : CaConn B) → IsReady s → IsReady (or_panic {E = Error} x s).1
  or_panic-keeps none s h = h
  or_panic-keeps (some a) s h = h

  or_throw-keeps :
      {A : Type 0} (e : Error) (x : Option A) (s : CaConn B)
      → IsReady s
      → IsReady (or_throw e x s).1
  or_throw-keeps e none s h = h
  or_throw-keeps e (some a) s h = h

  pub push_out-keeps : (m : CaMsg) (s : CaConn B) → IsReady s → IsReady (push_out m s).1
  unfolding push_out
  push_out-keeps m s h = by_proto s.proto refl
    where
      by_proto : (p : Option Output.Conn) → s.proto ≡ p → IsReady (push_out m s).1
      by_proto none e = rw (push_out, e) h
      by_proto (some c) e = rw (push_out, e) (h.0, ground arith)

  start_channel-keeps :
      (clock : Clock) (cid : ℕ) (msgs : List CaMsg) (x : Option ChannelState) (s : CaConn B)
      → IsReady s
      → IsReady (start_channel clock cid msgs x s).1
  unfolding start_channel
  start_channel-keeps clock cid msgs none s h = h
  start_channel-keeps clock cid msgs (some (ChannelState.init cssid)) s h =
      by_name (map_get cid s.name_by_cid) refl
    where
      by_name :
          (x : Option (List ℕ))
          → map_get cid s.name_by_cid ≡ x
          → IsReady (start_channel clock cid msgs (some (ChannelState.init cssid)) s).1
      by_name none e = rw (start_channel, e) h
      by_name (some n) e = rw (start_channel, e) h
  start_channel-keeps clock cid msgs (some (creating _ _ _)) s h = h
  start_channel-keeps clock cid msgs (some (fetching_series_id _)) s h = h
  start_channel-keeps clock cid msgs (some (created _ _)) s h = h
  start_channel-keeps clock cid msgs (some error) s h = h
  start_channel-keeps clock cid msgs (some ended) s h = h

  start_channels-keeps :
      (clock : Clock) (cids : List ℕ) (msgs : List CaMsg) (s : CaConn B)
      → IsReady s
      → IsReady (start_channels clock cids msgs s).1
  unfolding start_channels
  start_channels-keeps clock [] msgs s h = h
  start_channels-keeps clock (cid ∷ cids) msgs s h =
      then-keeps (start_channel clock cid msgs (map_get cid s.channels) s) _
        (start_channel-keeps clock cid msgs (map_get cid s.channels) s h)
        (λ msgs t k. start_channels-keeps clock cids msgs t k)

  pub check_channels_state_init-keeps :
      (clock : Clock) (s : CaConn B) → IsReady s → IsReady (check_channels_state_init clock s).1
  unfolding check_channels_state_init
  check_channels_state_init-keeps clock s h = elim (Bool-cases (s.init_state_count == 0)) [
    | inl e ↦ simp e h
    | inr e ↦ simp e (start_channels-keeps clock (keys s.channels) [] s h)
  ]

module _ {B : Type 0} (env : Env B) where
  pub push_all-keeps : (ms : List CaMsg) (s : CaConn B) → IsReady s → IsReady (push_all env ms s).1
  unfolding push_all
  push_all-keeps [] s h = h
  push_all-keeps (m ∷ ms) s h =
      then-keeps (push_out m s) _ (push_out-keeps m s h) (λ _ t k. push_all-keeps ms t k)

  put_back-keeps :
      (x : Option (Outcome Proto.Error Poll.Next × Output.Conn)) (s : CaConn B)
      → IsReady s
      → IsReady (put_back env x s).1
  unfolding put_back
  put_back-keeps none s h = h
  put_back-keeps (some (ok x, c)) s h = (h.0, ground arith)
  put_back-keeps (some (err e, c)) s h = (h.0, ground arith)
  put_back-keeps (some (panic, c)) s h = (h.0, ground arith)

  pub poll_proto-keeps :
      (reads : List ReadResult) (s : CaConn B) → IsReady s → IsReady (poll_proto env reads s).1
  unfolding poll_proto
  poll_proto-keeps reads s h = by_proto s.proto refl
    where
      by_proto : (p : Option Output.Conn) → s.proto ≡ p → IsReady (poll_proto env reads s).1
      by_proto none e = rw (poll_proto, e) h
      by_proto (some c) e =
          rw (poll_proto, e) (put_back-keeps (Poll.poll_next env.proto reads c) s h)

  to_created-keeps :
      (clock : Clock) (cid sid dt dc series scalar_type : ℕ) (shape : Proto.Shape)
      (x : ChannelState) (s : CaConn B)
      → IsReady s
      → IsReady (to_created env clock cid sid dt dc series scalar_type shape x s).1
  unfolding to_created set_channel
  to_created-keeps clock cid sid dt dc series scalar_type shape (fetching_series_id _) s h = h
  to_created-keeps clock cid sid dt dc series scalar_type shape (ChannelState.init _) s h = h
  to_created-keeps clock cid sid dt dc series scalar_type shape (creating _ _ _) s h = h
  to_created-keeps clock cid sid dt dc series scalar_type shape (created _ _) s h = h
  to_created-keeps clock cid sid dt dc series scalar_type shape error s h = h
  to_created-keeps clock cid sid dt dc series scalar_type shape ended s h = h

  pub channel_to_evented-keeps :
      (clock : Clock) (cid sid dt dc series : ℕ) (s : CaConn B)
      → IsReady s
      → IsReady (channel_to_evented env clock cid sid dt dc series s).1
  unfolding channel_to_evented
  channel_to_evented-keeps clock cid sid dt dc series s h =
      then-keeps (or_throw from_ca_id (env.from_ca_id dt) s) _ (or_throw-keeps from_ca_id _ s h)
        λ scalar_type t k.
          then-keeps (or_throw from_ca_count (env.proto.from_ca_count dc) t) _
            (or_throw-keeps from_ca_count _ t k)
            λ shape t k.
              then-keeps (or_throw time_bin (env.set_up series scalar_type shape) t) _
                (or_throw-keeps time_bin _ t k)
                λ tb t k.
                  then-keeps (or_panic (map_get cid t.name_by_cid) _) _
                    (or_panic-keeps (map_get cid t.name_by_cid) _ k)
                    λ _ u k. then-keeps (push_out _ u) _ (push_out-keeps _ u k) λ _ u k.
                      then-keeps (or_panic (map_get cid t.channels) u) _
                        (or_panic-keeps (map_get cid t.channels) u k)
                        λ x u k. to_created-keeps clock cid sid dt dc series scalar_type shape x u k

  to_fetching-keeps :
      (clock : Clock) (k : CreateChanRes) (scalar_type : ℕ) (shape : Proto.Shape) (x : ChannelState)
      (s : CaConn B)
      → IsReady s
      → IsReady (to_fetching env clock k scalar_type shape x s).1
  unfolding to_fetching set_channel
  to_fetching-keeps clock k scalar_type shape (creating _ _ _) s h = h
  to_fetching-keeps clock k scalar_type shape (ChannelState.init _) s h = h
  to_fetching-keeps clock k scalar_type shape (fetching_series_id _) s h = h
  to_fetching-keeps clock k scalar_type shape (created _ _) s h = h
  to_fetching-keeps clock k scalar_type shape error s h = h
  to_fetching-keeps clock k scalar_type shape ended s h = h

  channel_created-keeps :
      (clock : Clock) (k : CreateChanRes) (s : CaConn B)
      → IsReady s
      → IsReady (channel_created env clock k s).1
  unfolding channel_created
  channel_created-keeps clock k s h =
      then-keeps (or_panic (map_get k.cid s.name_by_cid) s) _
        (or_panic-keeps (map_get k.cid s.name_by_cid) s h)
        λ name t h.
          then-keeps (or_throw from_ca_id (env.from_ca_id k.data_type) t) _
            (or_throw-keeps from_ca_id _ t h)
            λ scalar_type t h.
              then-keeps (or_throw from_ca_count (env.proto.from_ca_count k.data_count) t) _
                (or_throw-keeps from_ca_count _ t h)
                λ shape t h.
                  then-keeps (or_panic (map_get k.cid s.channels) t) _
                    (or_panic-keeps (map_get k.cid s.channels) t h)
                    λ x t h.
                      then-keeps (to_fetching env clock k scalar_type shape x t) _
                        (to_fetching-keeps clock k scalar_type shape x t h) λ _ t h. h

  push_to-keeps :
      (cid ts : ℕ) (ev : EventAddRes) (x : Option B) (s : CaConn B)
      → IsReady s
      → IsReady (push_to env cid ts ev x s).1
  unfolding push_to
  push_to-keeps cid ts ev none s h = h
  push_to-keeps cid ts ev (some tb) s h = elim (Bool-cases (env.push ts ev.value tb).0) [
    | inl fine ↦ rw fine h
    | inr fails ↦ rw fails h
  ]

  push_bin-keeps :
      (cid ts : ℕ) (ev : EventAddRes) (s : CaConn B)
      → IsReady s
      → IsReady (push_bin env cid ts ev s).1
  unfolding push_bin
  push_bin-keeps cid ts ev s h = push_to-keeps cid ts ev (map_get cid s.time_binners) s h

  drop_event-keeps :
      (cid of_channel series ts tsnow : ℕ) (st : CreatedState) (s : CaConn B)
      → IsReady s
      → IsReady (drop_event env cid of_channel series ts tsnow st s).1
  unfolding drop_event set_channel push_item
  drop_event-keeps cid of_channel series ts tsnow st s h =
      elim (Bool-cases (leb (10000 * 10 ^ 6) (tsnow - st.insert_recv_ivl_last))) [
        | inl e ↦ simp e h
        | inr e ↦ simp e h
      ]

  on_event-keeps :
      (cid : ℕ) (ev : EventAddRes) (tsnow : ℕ) (x : ChannelState) (s : CaConn B)
      → IsReady s
      → IsReady (on_event env cid ev tsnow x s).1
  unfolding on_event set_channel insert_event
  on_event-keeps cid ev tsnow (created of_channel st0) s h =
      then-keeps (or_throw no_series (received_at env tsnow st0.state).0 _) _
        (or_throw-keeps no_series (received_at env tsnow st0.state).0 _ h)
        λ series t k. elim (Bool-cases (leb st0.insert_next_earliest tsnow)) [
          | inl e ↦
              simp e
                (then-keeps (push_bin env cid _ ev t) _ (push_bin-keeps cid _ ev t k) (λ _ u k. k))
          | inr e ↦ simp e (drop_event-keeps cid of_channel series _ tsnow _ t k)
        ]
  on_event-keeps cid ev tsnow (ChannelState.init _) s h = h
  on_event-keeps cid ev tsnow (creating _ _ _) s h = h
  on_event-keeps cid ev tsnow (fetching_series_id _) s h = h
  on_event-keeps cid ev tsnow error s h = h
  on_event-keeps cid ev tsnow ended s h = h

  handle_event_add_res-keeps :
      (ev : EventAddRes) (tsnow : ℕ) (s : CaConn B)
      → IsReady s
      → IsReady (handle_event_add_res env ev tsnow s).1
  unfolding handle_event_add_res
  handle_event_add_res-keeps ev tsnow s h =
      then-keeps (or_panic (map_get ev.subid s.cid_by_subid) s) _
        (or_panic-keeps (map_get ev.subid s.cid_by_subid) s h)
        λ cid t k.
          then-keeps (or_panic (map_get cid s.channels) t) _
            (or_panic-keeps (map_get cid s.channels) t k) λ x t k. on_event-keeps cid ev tsnow x t k

  pub ready_msg-keeps :
      (clock : Clock) (m : CaMsgTy) (s : CaConn B) → IsReady s → IsReady (ready_msg env clock m s).1
  unfolding ready_msg
  ready_msg-keeps clock (create_chan_res k) s h = channel_created-keeps clock k s h
  ready_msg-keeps clock (event_add_res k) s h = handle_event_add_res-keeps k clock.instant s h
  ready_msg-keeps clock echo s h = h
  ready_msg-keeps clock version s h = h
  ready_msg-keeps clock (version_res _) s h = h
  ready_msg-keeps clock (Message.error _) s h = h
  ready_msg-keeps clock client_name s h = h
  ready_msg-keeps clock (client_name_res _) s h = h
  ready_msg-keeps clock (host_name _) s h = h
  ready_msg-keeps clock (search_request _) s h = h
  ready_msg-keeps clock (search_res _) s h = h
  ready_msg-keeps clock (create_chan _) s h = h
  ready_msg-keeps clock (create_chan_fail _) s h = h
  ready_msg-keeps clock (access_rights_res _) s h = h
  ready_msg-keeps clock (event_add _) s h = h
  ready_msg-keeps clock (read_notify _) s h = h
  ready_msg-keeps clock (read_notify_res _) s h = h
