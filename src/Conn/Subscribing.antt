-- ===== src/Conn/Subscribing.antt =====
-- How a channel of conn.rs that the server has created becomes a subscription.
use daqingest.Base.{ℕ, ◌+◌, ◌%◌, ◌^◌, ◌≡◌, refl, ap, some, List, [], ◌∷◌, ◌++◌, ok, arith}
use daqingest.Base.Maps.{map_get, map_insert, map_set, text_get}
use daqingest.Base.Maps.Laws.{get-insert, get-set_same}
use daqingest.CaProto.Error.{Shape}
use daqingest.CaProto.Message.{CaMsg, event_add, CreateChanRes}
use daqingest.CaProto.Output as Output
use daqingest.InsertQueue.{opened}
use daqingest.InsertQueue.Items.{channel_status}
use daqingest.Conn.{
  Env, Clock, fetch_series_id, adding_event, CreatedState, creating, fetching_series_id, created,
  ChannelInfoQuery, Existence, into_inner, CaConn, next,
}
use daqingest.Conn.Events.{
  created_state, push_out, push_item, set_channel, to_created, channel_to_evented, found_channel,
  found_series, handle_series_lookup_result,
}
use daqingest.Conn.States.{to_fetching, channel_created}
use daqingest.Conn.Tables.{IsConsistent}

module _ {B : Type 0} (env : Env B) where
  -- The server has created a channel that was asked for, and its type is known.
  pub record IsAnswered (s : CaConn B) (k : CreateChanRes) (name : List ℕ) (series : ℕ)
      : Type 0 where
    pub cssid : ℕ
    pub cid' : ℕ
    pub ts_beg : ℕ
    pub asked : map_get k.cid s.channels ≡ some (creating cssid cid' ts_beg)
    pub name_of : map_get k.cid s.name_by_cid ≡ some name
    pub c : Output.Conn
    pub connected : s.proto ≡ some c
    pub scalar_type : ℕ
    pub typed : env.from_ca_id k.data_type ≡ some scalar_type
    pub shape : Shape
    pub shaped : env.proto.from_ca_count k.data_count ≡ some shape
    pub tb : B
    pub binned : env.set_up series scalar_type shape ≡ some tb

  query_of :
      (s : CaConn B) (k : CreateChanRes) (name : List ℕ) (series : ℕ)
      → IsAnswered s k name series
      → ChannelInfoQuery
  query_of s k name series h = record {
    backend = s.backend;
    channel = name;
    scalar_type = env.to_scylla_i32 h.scalar_type;
    shape_dims = env.to_scylla_vec h.shape;
  }

  fetching_of :
      (clock : Clock) (s : CaConn B) (k : CreateChanRes) (name : List ℕ) (series : ℕ)
      → IsAnswered s k name series
      → CreatedState
  fetching_of clock s k name series h =
      created_state h.cssid k.cid k.sid k.data_type k.data_count h.scalar_type h.shape
        fetch_series_id clock

  channel_created-eq :
      (clock : Clock) (s : CaConn B) (k : CreateChanRes) (name : List ℕ) (series : ℕ)
      (h : IsAnswered s k name series)
      → channel_created env clock k s ≡ (
        ok tt,
        record s {
          channels =
              map_set k.cid (fetching_series_id (fetching_of clock s k name series h)) s.channels;
          channel_info_query_queue = s.channel_info_query_queue ++ query_of s k name series h ∷ [];
        },
      )
  unfolding channel_created to_fetching set_channel query_of fetching_of
  channel_created-eq clock s k name series h = simp (h.name_of, h.typed, h.shaped, h.asked) refl

  -- the message that subscribes
  abbrev pub subscription : CreateChanRes → ℕ → CaMsg
  subscription k subid = record {
    ty = event_add (record {
      sid = k.sid;
      data_type = (k.data_type + 14) % 2 ^ 16;
      data_count = k.data_count;
      subid = subid;
    });
  }

  -- What becomes of the channel: a query for its series, and with the answer a subscription.
  pub record Subscribed (later : Clock) (s : CaConn B) (k : CreateChanRes) (name : List ℕ)
      (series : ℕ) (h : IsAnswered s k name series) (s1 s2 : CaConn B) : Type 0 where
    pub asked :
        s1.channel_info_query_queue
        ≡ s.channel_info_query_queue
          ++ (record {
            backend = s.backend;
            channel = name;
            scalar_type = env.to_scylla_i32 h.scalar_type;
            shape_dims = env.to_scylla_vec h.shape;
          })
            ∷ []
    pub channel :
        map_get k.cid s2.channels
        ≡ some (
            created series (
              created_state h.cssid k.cid k.sid k.data_type k.data_count h.scalar_type h.shape
                (adding_event series)
                later))
    pub known : map_get (next s.subid_store) s2.cid_by_subid ≡ some k.cid
    pub subscribed :
        s2.proto
        ≡ some
            (record h.c { proto = Output.push_out (subscription k (next s.subid_store)) h.c.proto })
    pub bins : map_get k.cid s2.time_binners ≡ some h.tb
    pub reported :
        s2.insert_item_queue
        ≡ s.insert_item_queue
          ++ channel_status (record { ts = later.system; series = series; status = opened }) ∷ []

  -- the state in which the answer of the lookup finds the channel, and the one behind it
  waiting :
      (clock : Clock) (s : CaConn B) (k : CreateChanRes) (name : List ℕ) (series : ℕ)
      → IsAnswered s k name series
      → CaConn B
  waiting clock s k name series h = record s {
    channels = map_set k.cid (fetching_series_id (fetching_of clock s k name series h)) s.channels;
    channel_info_query_queue = s.channel_info_query_queue ++ query_of s k name series h ∷ [];
  }

  behind :
      (clock later : Clock) (s : CaConn B) (k : CreateChanRes) (name : List ℕ) (series : ℕ)
      → IsAnswered s k name series
      → CaConn B
  behind clock later s k name series h =
      let s1 = waiting clock s k name series h in
      record s1 {
        insert_item_queue =
            s.insert_item_queue
            ++ channel_status (record { ts = later.system; series = series; status = opened }) ∷ [];
        time_binners = map_insert k.cid h.tb s.time_binners;
        subid_store = next s.subid_store;
        cid_by_subid = map_insert (next s.subid_store) k.cid s.cid_by_subid;
        proto = some (record h.c {
          proto = Output.push_out (subscription k (next s.subid_store)) h.c.proto;
        });
        channels =
            map_set k.cid
              (created series (
                created_state h.cssid k.cid k.sid k.data_type k.data_count h.scalar_type h.shape
                  (adding_event series) later))
              s1.channels;
      }

  -- the same from any state
  looked_up :
      (later : Clock) (t : CaConn B) (st2 : CreatedState) (series scalar_type : ℕ)
      → Shape
      → B
      → Output.Conn
      → CaConn B
  looked_up later t st2 series scalar_type shape tb c = record t {
    insert_item_queue =
        t.insert_item_queue
        ++ channel_status (record { ts = later.system; series = series; status = opened }) ∷ [];
    time_binners = map_insert st2.cid tb t.time_binners;
    subid_store = next t.subid_store;
    cid_by_subid = map_insert (next t.subid_store) st2.cid t.cid_by_subid;
    proto = some (record c {
      proto =
          Output.push_out
            (record {
              ty = event_add (record {
                sid = st2.sid;
                data_type = (st2.data_type + 14) % 2 ^ 16;
                data_count = st2.data_count;
                subid = next t.subid_store;
              });
            })
            c.proto;
    });
    channels =
        map_set st2.cid
          (created series (
            created_state st2.cssid st2.cid st2.sid st2.data_type st2.data_count scalar_type shape
              (adding_event series) later))
          t.channels;
  }

  lookup-eq :
      (later : Clock) (t : CaConn B) (st2 : CreatedState) (name n backend : List ℕ)
      (series : Existence ℕ) (scalar_type : ℕ) (shape : Shape) (tb : B) (c : Output.Conn)
      → text_get name t.cid_by_name ≡ some st2.cid
      → map_get st2.cid t.channels ≡ some (fetching_series_id st2)
      → env.from_ca_id st2.data_type ≡ some scalar_type
      → env.proto.from_ca_count st2.data_count ≡ some shape
      → env.set_up (into_inner series) scalar_type shape ≡ some tb
      → map_get st2.cid t.name_by_cid ≡ some n
      → t.proto ≡ some c
      → handle_series_lookup_result env later
          (some (record { backend = backend; channel = name; series = series }))
          t
        ≡ (ok tt, looked_up later t st2 (into_inner series) scalar_type shape tb c)
  unfolding handle_series_lookup_result found_channel found_series channel_to_evented push_item
      push_out set_channel to_created looked_up text_get Output.push_out next map_set map_insert
      into_inner
  lookup-eq later t st2 name n backend series scalar_type shape tb c by_name there typed shaped
        binned named connected =
      simp (by_name, there) (simp (typed, shaped, binned, named, connected, there) refl)

  behind-Subscribed :
      (clock later : Clock) (s : CaConn B) (k : CreateChanRes) (name : List ℕ) (series : ℕ)
      (h : IsAnswered s k name series)
      → Subscribed later s k name series h
          (waiting clock s k name series h)
          (behind clock later s k name series h)
  unfolding waiting behind query_of
  behind-Subscribed clock later s k name series h =
      let there =
        get-set_same k.cid (fetching_series_id (fetching_of clock s k name series h)) _ s.channels
          h.asked in
      record {
        asked = refl;
        channel = get-set_same k.cid _ _ _ there;
        known =
            rw (get-insert (next s.subid_store) (next s.subid_store) k.cid s.cid_by_subid)
              (ground arith);
        subscribed = refl;
        bins = rw (get-insert k.cid k.cid h.tb s.time_binners) (ground arith);
        reported = refl;
      }

  -- When the server has created a channel that was asked for, with a type, a shape and bins that
  -- are known, on a connection with consistent tables and a protocol, a query for its series is
  -- queued; and the answer to it subscribes to the channel under a new identifier, which then
  -- belongs to it, sets up its bins, notes that it is opened, and leaves it in the state
  -- Created.
  pub channel_created-Subscribed :
      (clock later : Clock) (s : CaConn B) (k : CreateChanRes) (name backend : List ℕ)
      (series : Existence ℕ) (h : IsAnswered s k name (into_inner series))
      → IsConsistent s
      → let r1 = channel_created env clock k s in
        let r2 =
          handle_series_lookup_result env later
            (some (record { backend = backend; channel = name; series = series }))
            r1.1 in
        (r1.0 ≡ ok tt) × (r2.0 ≡ ok tt) × Subscribed later s k name (into_inner series) h r1.1 r2.1
  unfolding waiting fetching_of behind looked_up query_of
  channel_created-Subscribed clock later s k name backend series h v =
      let first = channel_created-eq clock s k name (into_inner series) h in
      let second =
        lookup-eq later (waiting clock s k name (into_inner series) h)
          (fetching_of clock s k name (into_inner series) h) name name backend series h.scalar_type
          h.shape h.tb h.c (v.inverse.to_cid k.cid name h.name_of)
          (get-set_same k.cid _ _ s.channels h.asked) h.typed h.shaped h.binned h.name_of
          h.connected in
      rw first (
        refl,
        ap (λ r. r.0) second,
        rw second (behind-Subscribed clock later s k name (into_inner series) h),
      )
