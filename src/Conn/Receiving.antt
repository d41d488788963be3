-- ===== src/Conn/Receiving.antt =====
-- What becomes of the events of a subscription in conn.rs.
use daqingest.Base.{
  ℕ, ◌*◌, ◌^◌, ◌-◌, ◌≤◌, ◌<◌, ◌≡◌, ◌⊎◌, refl, sym, Bool, true, false, inl, inr, none, some, [], ◌∷◌,
  ◌++◌, append-nil, leb, le→leb, lt→leb_false, if◌then◌else◌, Outcome, ok,
}
use daqingest.Base.Maps.{map_get, map_set}
use daqingest.Base.Maps.Laws.{get-set_same}
use daqingest.Ema as Ema
use daqingest.CaProto.Message.{EventAddRes}
use daqingest.InsertQueue.Items.{ivl}
use daqingest.Conn.{
  Error, Env, MonitoringState, adding_event, evented, CreatedState, ChannelState, created, CaConn,
}
use daqingest.Conn.Inserts.{Insertion, insert_wait}
use daqingest.Conn.Events.{
  received_at, push_to, push_bin, insert_event, drop_event, set_channel, push_item, on_event,
  handle_event_add_res,
}
use daqingest.Conn.Stamps.{grid, IsStamped, Inserted, do_event_insert-Inserted}

-- the time of an event, 0 when it has none
abbrev pub event_ts : EventAddRes → ℕ
event_ts ev = elim ev.value.ts [ none ↦ 0 | some t ↦ t ]

module _ {B : Type 0} (env : Env B) where
  -- The event belongs to a channel that is subscribed to.
  pub record IsSubscribed (s : CaConn B) (ev : EventAddRes) (series : ℕ) : Type 0 where
    pub cid : ℕ
    pub of_channel : ℕ
    pub st : CreatedState
    pub by_subid : map_get ev.subid s.cid_by_subid ≡ some cid
    pub channel : map_get cid s.channels ≡ some (created of_channel st)
    pub monitored : (st.state ≡ adding_event series) ⊎ ((t : ℕ) × (st.state ≡ evented series t))

  -- the state of the channel at the event
  abbrev pub at_event : ℕ → ℕ → CreatedState → CreatedState
  at_event tsnow series st = record st {
    ts_alive_last = tsnow;
    item_recv_ivl_ema = Ema.tick env.f32 tsnow st.item_recv_ivl_ema;
    state = evented series tsnow;
  }

  received_at-Monitored :
      (tsnow series : ℕ) (x : MonitoringState)
      → (x ≡ adding_event series) ⊎ ((t : ℕ) × (x ≡ evented series t))
      → received_at env tsnow x ≡ (some series, evented series tsnow)
  unfolding received_at
  received_at-Monitored tsnow series x (inl e) = rw e refl
  received_at-Monitored tsnow series x (inr (t, e)) = rw e refl

  handle-on_event :
      (ev : EventAddRes) (tsnow series : ℕ) (s : CaConn B) (h : IsSubscribed s ev series)
      → handle_event_add_res env ev tsnow s
        ≡ on_event env h.cid ev tsnow (created h.of_channel h.st) s
  unfolding handle_event_add_res
  handle-on_event ev tsnow series s h = simp (h.by_subid, h.channel) refl

  -- What becomes of an event that comes too early.
  pub record Dropped (ev : EventAddRes) (tsnow series : ℕ) (s : CaConn B)
      (h : IsSubscribed s ev series) (r : Outcome Error Unit × CaConn B) : Type 0 where
    pub fine : r.0 ≡ ok tt
    pub queue :
        r.1.insert_item_queue
        ≡ s.insert_item_queue
          ++ (if leb (10000 * 10 ^ 6) (tsnow - h.st.insert_recv_ivl_last)
              then ivl (record {
                series = series;
                ts = event_ts ev;
                ema = h.st.insert_item_ivl_ema.avg.ema;
                emd = env.f32.sqrt h.st.insert_item_ivl_ema.avg.emv;
              })
                ∷ []
              else [])
    pub st : CreatedState
    pub channel : map_get h.cid r.1.channels ≡ some (created h.of_channel st)
    pub muted : st.muted_before ≡ 1
    pub alive : st.ts_alive_last ≡ tsnow
    pub monitored : st.state ≡ evented series tsnow
    pub earliest : st.insert_next_earliest ≡ h.st.insert_next_earliest

  drop_event-Dropped :
      (ev : EventAddRes) (tsnow series : ℕ) (s : CaConn B) (h : IsSubscribed s ev series)
      → let st = at_event tsnow series h.st in
        Dropped ev tsnow series s h (
          drop_event env h.cid h.of_channel series
            (event_ts ev)
            tsnow
            st
            (record s { channels = map_set h.cid (created h.of_channel st) s.channels }))
  unfolding drop_event set_channel push_item
  drop_event-Dropped ev tsnow series s h =
      by_wait (leb (10000 * 10 ^ 6) (tsnow - h.st.insert_recv_ivl_last)) refl
    where
      there :
          (a b : ChannelState)
          → map_get h.cid (map_set h.cid b (map_set h.cid a s.channels)) ≡ some b
      there a b =
          get-set_same h.cid b a (map_set h.cid a s.channels)
            (get-set_same h.cid a _ s.channels h.channel)

      by_wait :
          (b : Bool)
          → leb (10000 * 10 ^ 6) (tsnow - h.st.insert_recv_ivl_last) ≡ b
          → Dropped ev tsnow series s h (
              drop_event env h.cid h.of_channel series
                (event_ts ev)
                tsnow
                (at_event tsnow series h.st)
                (record s {
                  channels =
                      map_set h.cid (created h.of_channel (at_event tsnow series h.st)) s.channels;
                }))
      by_wait true e =
          rw (drop_event, e)
            (record {
              fine = refl;
              queue = rw e refl;
              st = _;
              channel = there _ _;
              muted = refl;
              alive = refl;
              monitored = refl;
              earliest = refl;
            })
      by_wait false e =
          rw (drop_event, e)
            (record {
              fine = refl;
              queue = rw e (sym (append-nil s.insert_item_queue));
              st = _;
              channel = there _ _;
              muted = refl;
              alive = refl;
              monitored = refl;
              earliest = refl;
            })

  -- An event of a subscription that comes before the time of the next insert is not stored: the
  -- channel is noted as alive and muted, and when ten seconds have passed since the last such
  -- report, one item reports its intervals.
  pub handle_event_add_res-Dropped :
      (ev : EventAddRes) (tsnow series : ℕ) (s : CaConn B) (h : IsSubscribed s ev series)
      → tsnow < h.st.insert_next_earliest
      → Dropped ev tsnow series s h (handle_event_add_res env ev tsnow s)
  unfolding on_event set_channel
  handle_event_add_res-Dropped ev tsnow series s h early =
      rw
        (
          handle-on_event ev tsnow series s h,
          received_at-Monitored tsnow series h.st.state h.monitored,
          lt→leb_false h.st.insert_next_earliest tsnow early,
        )
        (drop_event-Dropped ev tsnow series s h)

  -- An event that is due: what the bins take, and a stamp that is behind it.
  pub record IsDue (ev : EventAddRes) (tsnow series : ℕ) (s : CaConn B)
      (h : IsSubscribed s ev series) : Type 0 where
    pub due : h.st.insert_next_earliest ≤ tsnow
    pub tb : B
    pub binned : map_get h.cid s.time_binners ≡ some tb
    pub taken : (env.push (event_ts ev) ev.value tb).0 ≡ true
    pub no_copies : s.extra_inserts_conf ≡ []
    pub some_sec : 0 < env.proto.sec
    pub wide : grid env ≤ env.hour
    pub stamped : IsStamped env h.st.ts_msp_last
    pub ordered : h.st.ts_msp_last ≤ event_ts ev
    pub small : event_ts ev < 2 ^ 64
    pub earliest : ℕ
    pub added :
        env.checked_add tsnow (
          insert_wait env s.insert_ivl_min_mus (record h.st {
            ts_alive_last = tsnow;
            item_recv_ivl_ema = Ema.tick env.f32 tsnow h.st.item_recv_ivl_ema;
            state = evented series tsnow;
            muted_before = 0;
            insert_item_ivl_ema = Ema.tick env.f32 tsnow h.st.insert_item_ivl_ema;
          }))
        ≡ some earliest

  -- What becomes of an event that is due: an item, as `Inserted` says, and the time of the next.
  pub record Stored (ev : EventAddRes) (tsnow series : ℕ) (s : CaConn B)
      (h : IsSubscribed s ev series) (earliest : ℕ) (r : Outcome Error Unit × CaConn B)
      : Type 0 where
    pub fine : r.0 ≡ ok tt
    pub st : CreatedState
    pub channel : map_get h.cid r.1.channels ≡ some (created h.of_channel st)
    pub inserted :
        Inserted env series h.st.scalar_type h.st.shape
          (event_ts ev)
          ev
          (record {
            st = at_event tsnow series h.st;
            item_queue = s.insert_item_queue;
            inserts_counter = s.inserts_counter;
          })
          (record {
            st = st;
            item_queue = r.1.insert_item_queue;
            inserts_counter = r.1.inserts_counter;
          })
    pub next : st.insert_next_earliest ≡ earliest
    pub subids : r.1.cid_by_subid ≡ s.cid_by_subid

  -- the bins and the channel, before the item
  pushed :
      (ev : EventAddRes) (tsnow series : ℕ) (s : CaConn B) → IsSubscribed s ev series → B → CaConn B
  pushed ev tsnow series s h tb = record s {
    channels = map_set h.cid (created h.of_channel (at_event tsnow series h.st)) s.channels;
    time_binners = map_set h.cid (env.push (event_ts ev) ev.value tb).1 s.time_binners;
  }

  on_event-due :
      (ev : EventAddRes) (tsnow series : ℕ) (s : CaConn B) (h : IsSubscribed s ev series) (tb : B)
      → h.st.insert_next_earliest ≤ tsnow
      → map_get h.cid s.time_binners ≡ some tb
      → (env.push (event_ts ev) ev.value tb).0 ≡ true
      → on_event env h.cid ev tsnow (created h.of_channel h.st) s
        ≡ insert_event env h.cid h.of_channel series
            (event_ts ev)
            ev
            tsnow
            (at_event tsnow series h.st)
            (pushed ev tsnow series s h tb)
  unfolding on_event set_channel push_bin push_to pushed map_get insert_event
  on_event-due ev tsnow series s h tb due binned taken =
      simp
        (
          received_at-Monitored tsnow series h.st.state h.monitored,
          le→leb h.st.insert_next_earliest tsnow due,
        )
        (simp (binned) (simp (taken) refl))

  insert_event-Stored :
      (ev : EventAddRes) (tsnow series : ℕ) (s : CaConn B) (h : IsSubscribed s ev series)
      (d : IsDue ev tsnow series s h)
      → Stored ev tsnow series s h d.earliest (
          insert_event env h.cid h.of_channel series
            (event_ts ev)
            ev
            tsnow
            (at_event tsnow series h.st)
            (pushed ev tsnow series s h d.tb))
  unfolding insert_event pushed
  insert_event-Stored ev tsnow series s h d =
      let st = at_event tsnow series h.st in
      let c : Insertion = record {
        st = st;
        item_queue = s.insert_item_queue;
        inserts_counter = s.inserts_counter;
      } in
      let i =
        do_event_insert-Inserted env series st.scalar_type st.shape (event_ts ev) ev tsnow
          s.insert_ivl_min_mus d.earliest c d.some_sec d.wide d.stamped d.ordered d.small d.added in
      simp (d.no_copies) (record {
        fine = i.0;
        st = _;
        channel =
            get-set_same h.cid _ _ _
              (get-set_same h.cid (created h.of_channel st) _ s.channels h.channel);
        inserted = i.2;
        next = i.1;
        subids = refl;
      })

  -- An event of a subscription that is due, not before the partition of the last one and whose
  -- bins take it, with no copies configured, adds one item with its value: the partition is on
  -- the grid of ten seconds and at most an hour before the event, partition and offset add up to
  -- its time, the item says whether the partition is a new one, and the state of the channel
  -- keeps it.
  pub handle_event_add_res-Stored :
      (ev : EventAddRes) (tsnow series : ℕ) (s : CaConn B) (h : IsSubscribed s ev series)
      (d : IsDue ev tsnow series s h)
      → Stored ev tsnow series s h d.earliest (handle_event_add_res env ev tsnow s)
  handle_event_add_res-Stored ev tsnow series s h d =
      rw
        (
          handle-on_event ev tsnow series s h,
          on_event-due ev tsnow series s h d.tb d.due d.binned d.taken,
        )
        (insert_event-Stored ev tsnow series s h d)
