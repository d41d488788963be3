-- ===== src/Conn/Links.antt =====
-- In which states of a connection of conn.rs there is a protocol, and channels wait for a series.
pub mod Ready
pub mod Rounds
pub mod Calls
pub mod Queries
pub mod Polls
use daqingest.Base.{
  ℕ, ◌-◌, ◌*◌, ◌^◌, ◌≡◌, ◌≢◌, refl, sym, ap, ◌∙◌, Bool, true, false, Bool-cases, inl, inr, Option,
  none, some, List, [], ◌∷◌, ◌==◌, ltb, leb, if◌then◌else◌, Outcome, ok, err, panic, Act, and_then,
  ◌>>=◌, arith,
}
use daqingest.Base.Maps.{BTreeMap, map_get, map_insert, map_remove, text_get}
use daqingest.InsertQueue.{ChannelStatusClosedReason}
use daqingest.CaProto.Output as Output
use daqingest.Conn.{
  Clock, ChannelState, init, creating, fetching_series_id, created, error, ended, CaConnState,
  CaConn,
}
use daqingest.Conn.Channels.{
  cid_by_name_expl, insert_channel, channel_add, channel_remove, end_channels,
  channel_state_on_shutdown, trigger_shutdown, start_ping, check_channels_alive, cmd_check_health,
}

abbrev pub is_fetching : ChannelState → Bool
is_fetching (fetching_series_id _) = true
is_fetching (ChannelState.init _) = false
is_fetching (creating _ _ _) = false
is_fetching (created _ _) = false
is_fetching error = false
is_fetching ended = false

-- No channel waits for its series.
unfoldable pub IsCalm : BTreeMap ChannelState → Type 0
IsCalm [] = Unit {0}
IsCalm ((_, x) ∷ m) = (is_fetching x ≡ false) × IsCalm m

-- A protocol is there from the connect to the end, and channels wait only when the server is ready.
unfoldable pub Linked : CaConnState → Option Output.Conn → BTreeMap ChannelState → Type 0
Linked CaConnState.peer_ready p m = p ≢ none
Linked CaConnState.init p m = (p ≢ none) × IsCalm m
Linked CaConnState.listen p m = (p ≢ none) × IsCalm m
Linked CaConnState.unconnected p m = IsCalm m
Linked (CaConnState.connecting _) p m = IsCalm m
Linked (CaConnState.wait _) p m = IsCalm m
Linked CaConnState.shutdown p m = IsCalm m
Linked CaConnState.end_of_stream p m = IsCalm m

abbrev pub IsLinked : {B : Type 0} → CaConn B → Type 0
IsLinked s = Linked s.state s.proto s.channels

pub Linked-channels :
    (x : CaConnState) (p q : Option Output.Conn) (m m' : BTreeMap ChannelState)
    → (p ≢ none → q ≢ none)
    → (IsCalm m → IsCalm m')
    → Linked x p m
    → Linked x q m'
unfolding Linked
Linked-channels CaConnState.peer_ready p q m m' f g h = f h
Linked-channels CaConnState.init p q m m' f g h = (f h.0, g h.1)
Linked-channels CaConnState.listen p q m m' f g h = (f h.0, g h.1)
Linked-channels CaConnState.unconnected p q m m' f g h = g h
Linked-channels (CaConnState.connecting _) p q m m' f g h = g h
Linked-channels (CaConnState.wait _) p q m m' f g h = g h
Linked-channels CaConnState.shutdown p q m m' f g h = g h
Linked-channels CaConnState.end_of_stream p q m m' f g h = g h

insert-IsCalm :
    (k : ℕ) (x : ChannelState) (m : BTreeMap ChannelState)
    → is_fetching x ≡ false
    → IsCalm m
    → IsCalm (map_insert k x m)
unfolding IsCalm map_insert
insert-IsCalm k x [] e h = (e, tt)
insert-IsCalm k x ((i, y) ∷ m) e h =
    let rest = insert-IsCalm k x m e h.1 in
    elim (Bool-cases (i == k)) [
      | inl same ↦ rw (map_insert, same) (e, h.1)
      | inr other ↦ elim (Bool-cases (ltb k i)) [
        | inl l ↦ rw (map_insert, other, l) (e, h)
        | inr l ↦ rw (map_insert, other, l) (h.0, rest)
      ]
    ]

remove-IsCalm : (k : ℕ) (m : BTreeMap ChannelState) → IsCalm m → IsCalm (map_remove k m)
unfolding IsCalm map_remove
remove-IsCalm k [] h = tt
remove-IsCalm k ((i, y) ∷ m) h =
    let rest = remove-IsCalm k m h.1 in
    elim (Bool-cases (i == k)) [ inl same ↦ rw same rest | inr other ↦ rw other (h.0, rest) ]

pub get-IsCalm :
    (k : ℕ) (x : ChannelState) (m : BTreeMap ChannelState)
    → IsCalm m
    → map_get k m ≡ some x
    → is_fetching x ≡ false
unfolding IsCalm map_get
get-IsCalm k x [] h e = absurd (ground arith)
get-IsCalm k x ((i, y) ∷ m) h e = elim (Bool-cases (i == k)) [
  | inl same ↦
      let hit : some y ≡ some x = rw same at e in
      let it : is_fetching y ≡ is_fetching x =
        ap (λ (o : Option ChannelState). elim o [ none ↦ false | some z ↦ is_fetching z ]) hit in
      sym it ∙ h.0
  | inr other ↦ get-IsCalm k x m h.1 (rw other at e)
]

end_channels-IsCalm :
    (ts : ℕ) (reason : ChannelStatusClosedReason) (m : BTreeMap ChannelState)
    → IsCalm (end_channels ts reason m).1
unfolding IsCalm end_channels
end_channels-IsCalm ts reason [] = tt
end_channels-IsCalm ts reason ((cid, x) ∷ m) = (refl, end_channels-IsCalm ts reason m)

module _ {B : Type 0} where
  pub trigger_shutdown-IsLinked :
      (clock : Clock) (reason : ChannelStatusClosedReason) (s : CaConn B)
      → IsLinked (trigger_shutdown clock reason s)
  unfolding trigger_shutdown channel_state_on_shutdown Linked
  trigger_shutdown-IsLinked clock reason s = end_channels-IsCalm clock.system reason s.channels

  -- the name of a channel leaves the rest
  cid_by_name_expl-keeps :
      (name : List ℕ) (s : CaConn B) → IsLinked s → IsLinked (cid_by_name_expl name s).1
  unfolding cid_by_name_expl
  cid_by_name_expl-keeps name s h = by_get (text_get name s.cid_by_name) refl
    where
      by_get :
          (x : Option ℕ) → text_get name s.cid_by_name ≡ x → IsLinked (cid_by_name_expl name s).1
      by_get (some cid) e = rw (cid_by_name_expl, e) h
      by_get none e = rw (cid_by_name_expl, e) h

  insert_channel-keeps :
      (cssid cid : ℕ) (s : CaConn B) → IsLinked s → IsLinked (insert_channel cssid cid s)
  unfolding insert_channel
  insert_channel-keeps cssid cid s h = by_get (map_get cid s.channels) refl
    where
      by_get :
          (x : Option ChannelState)
          → map_get cid s.channels ≡ x
          → IsLinked (insert_channel cssid cid s)
      by_get (some y) e = rw (insert_channel, e) h
      by_get none e =
          rw (insert_channel, e)
            (Linked-channels s.state s.proto s.proto s.channels _ (λ p. p)
              (insert-IsCalm cid (ChannelState.init cssid) s.channels refl) h)

  pub channel_add-IsLinked :
      (name : List ℕ) (cssid : ℕ) (s : CaConn B) → IsLinked s → IsLinked (channel_add name cssid s)
  unfolding channel_add
  channel_add-IsLinked name cssid s h = by_get (text_get name s.cid_by_name) refl
    where
      by_get :
          (x : Option ℕ) → text_get name s.cid_by_name ≡ x → IsLinked (channel_add name cssid s)
      by_get (some cid) e = rw (channel_add, e) h
      by_get none e =
          let r = cid_by_name_expl name s in
          rw (channel_add, e) (insert_channel-keeps cssid r.0 r.1 (cid_by_name_expl-keeps name s h))

  pub channel_remove-IsLinked :
      (name : List ℕ) (s : CaConn B) → IsLinked s → IsLinked (channel_remove name s)
  unfolding channel_remove
  channel_remove-IsLinked name s h =
      let r = cid_by_name_expl name s in
      Linked-channels r.1.state r.1.proto r.1.proto r.1.channels _ (λ p. p)
        (remove-IsCalm r.0 r.1.channels) (cid_by_name_expl-keeps name s h)

  start_ping-IsLinked : (clock : Clock) (s : CaConn B) → IsLinked s → IsLinked (start_ping clock s)
  unfolding start_ping
  start_ping-IsLinked clock s h = by_proto s.proto refl
    where
      by_proto : (p : Option Output.Conn) → s.proto ≡ p → IsLinked (start_ping clock s)
      by_proto (some c) e =
          rw (start_ping, e)
            (Linked-channels s.state s.proto _ s.channels s.channels (λ p. ground arith) (λ m. m) h)
      by_proto none e = rw (start_ping, e) (trigger_shutdown-IsLinked clock _ _)

  pub cmd_check_health-IsLinked :
      (clock : Clock) (s : CaConn B) → IsLinked s → IsLinked (cmd_check_health clock s)
  unfolding cmd_check_health check_channels_alive
  cmd_check_health-IsLinked clock s h =
      by_time (ltb (20000 * 10 ^ 6) (clock.instant - s.ioc_ping_last)) s.ioc_ping_start refl refl
    where
      by_time :
          (b : Bool) (x : Option ℕ)
          → ltb (20000 * 10 ^ 6) (clock.instant - s.ioc_ping_last) ≡ b
          → s.ioc_ping_start ≡ x
          → IsLinked (check_channels_alive clock s)
      by_time false x e p = rw (check_channels_alive, e) h
      by_time true none e p = rw (check_channels_alive, e, p) (start_ping-IsLinked clock s h)
      by_time true (some t) e p = elim (Bool-cases (ltb (4000 * 10 ^ 6) (clock.instant - t))) [
        | inl late ↦ rw (check_channels_alive, e, p, late) (trigger_shutdown-IsLinked clock _ _)
        | inr soon ↦ rw (check_channels_alive, e, p, soon) h
      ]
