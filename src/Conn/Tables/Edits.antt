-- ===== src/Conn/Tables/Edits.antt =====
-- Channels that are added and removed keep the tables of conn.rs consistent.
use daqingest.Base.{
  ℕ, ◌+◌, ◌%◌, ◌^◌, ◌≤◌, ◌<◌, ◌≡◌, refl, Option, none, some, List, [], ◌∷◌, length, arith,
}
use daqingest.Base.Maps.{TextMap, map_get, text_get}
use daqingest.Base.Maps.Laws.{get-insert, map_insert-Distinct, map_remove-Distinct}
use daqingest.Conn.{ChannelState, CaConn, next}
use daqingest.Conn.Channels.{
  cid_by_name_expl, insert_channel, channel_add, channel_remove, ChannelSetOp, add, remove,
  apply_op, apply_channel_ops,
}
use daqingest.Conn.Tables.{
  IsConsistent, insert-AreInverse, remove-AreInverse, Named-insert_name, Named-insert, Named-remove,
  init_count-insert, init_count-remove,
}

module _ {B : Type 0} where
  -- the identifier of the name, and the state behind it
  record HasCid (name : List ℕ) (s : CaConn B) (r : ℕ × CaConn B) : Type 0 where
    consistent : IsConsistent r.1
    name_of : map_get r.0 r.1.name_by_cid ≡ some name
    same_channels : r.1.channels ≡ s.channels
    same_count : r.1.init_state_count ≡ s.init_state_count

  cid_by_name_expl-HasCid :
      (name : List ℕ) (s : CaConn B) (x : Option ℕ)
      → text_get name s.cid_by_name ≡ x
      → s.cid_store + 1 < 2 ^ 32
      → IsConsistent s
      → HasCid name s (cid_by_name_expl name s)
  unfolding cid_by_name_expl next
  cid_by_name_expl-HasCid name s (some cid) e room v =
      rw (cid_by_name_expl, e)
        (record {
          consistent = v;
          name_of = v.inverse.to_name name cid e;
          same_channels = refl;
          same_count = refl;
        })
  cid_by_name_expl-HasCid name s none e room v =
      let small : (s.cid_store + 1) % 2 ^ 32 ≡ s.cid_store + 1 = omega (arith, room) in
      rw (cid_by_name_expl, e, small)
        (record {
          consistent = record {
            inverse = insert-AreInverse name s.cid_by_name s.name_by_cid s.cid_store e v.inverse;
            distinct = v.distinct;
            named = Named-insert_name (s.cid_store + 1) name s.name_by_cid s.channels v.named;
            counted = v.counted;
          };
          name_of =
              rw (get-insert (s.cid_store + 1) (s.cid_store + 1) name s.name_by_cid) (ground arith);
          same_channels = refl;
          same_count = refl;
        })

  insert_channel-IsConsistent :
      (cssid cid : ℕ) (n : List ℕ) (s : CaConn B) (x : Option ChannelState)
      → map_get cid s.channels ≡ x
      → map_get cid s.name_by_cid ≡ some n
      → s.init_state_count + 1 < 2 ^ 64
      → IsConsistent s
      → IsConsistent (insert_channel cssid cid s)
  unfolding insert_channel
  insert_channel-IsConsistent cssid cid n s (some y) e known room v = rw (insert_channel, e) v
  insert_channel-IsConsistent cssid cid n s none e known room v =
      rw (insert_channel, e)
        (record {
          inverse = v.inverse;
          distinct = map_insert-Distinct cid (ChannelState.init cssid) s.channels e v.distinct;
          named =
              Named-insert cid n (ChannelState.init cssid) s.name_by_cid s.channels known v.named;
          counted =
              omega (
                arith,
                room,
                v.counted,
                init_count-insert cid (ChannelState.init cssid) s.channels,
              );
        })

  pub channel_add-IsConsistent :
      (name : List ℕ) (cssid : ℕ) (s : CaConn B)
      → IsConsistent s
      → s.cid_store + 1 < 2 ^ 32
      → s.init_state_count + 1 < 2 ^ 64
      → IsConsistent (channel_add name cssid s)
  unfolding channel_add
  channel_add-IsConsistent name cssid s v room space = by_get (text_get name s.cid_by_name) refl
    where
      by_get :
          (x : Option ℕ) → text_get name s.cid_by_name ≡ x → IsConsistent (channel_add name cssid s)
      by_get (some cid) e = rw (channel_add, e) v
      by_get none e =
          let h = cid_by_name_expl-HasCid name s none e room v in
          let r = cid_by_name_expl name s in
          rw (channel_add, e)
            (insert_channel-IsConsistent cssid r.0 name r.1 (map_get r.0 r.1.channels) refl
              h.name_of (omega (arith, h.same_count, space)) h.consistent)

  pub channel_remove-IsConsistent :
      (name : List ℕ) (s : CaConn B)
      → IsConsistent s
      → s.cid_store + 1 < 2 ^ 32
      → IsConsistent (channel_remove name s)
  unfolding channel_remove
  channel_remove-IsConsistent name s v room =
      let r = cid_by_name_expl name s in
      let h = cid_by_name_expl-HasCid name s (text_get name s.cid_by_name) refl room v in
      let c = h.consistent in
      record {
        inverse = remove-AreInverse r.0 r.1.cid_by_name r.1.name_by_cid r.1.cid_store c.inverse;
        distinct = map_remove-Distinct r.0 r.1.channels c.distinct;
        named = Named-remove r.0 r.1.name_by_cid r.1.channels c.named;
        counted = omega (arith, c.counted, init_count-remove r.0 r.1.channels);
      }

  cid_by_name_expl-store :
      (name : List ℕ) (s : CaConn B)
      → ((cid_by_name_expl name s).1.cid_store ≤ s.cid_store + 1)
        × ((cid_by_name_expl name s).1.init_state_count ≤ s.init_state_count)
  unfolding cid_by_name_expl next
  cid_by_name_expl-store name s = by_get (text_get name s.cid_by_name) refl
    where
      by_get :
          (x : Option ℕ)
          → text_get name s.cid_by_name ≡ x
          → ((cid_by_name_expl name s).1.cid_store ≤ s.cid_store + 1)
            × ((cid_by_name_expl name s).1.init_state_count ≤ s.init_state_count)
      by_get (some cid) e = rw (cid_by_name_expl, e) (omega arith, omega arith)
      by_get none e = rw (cid_by_name_expl, e) (omega arith, omega arith)

  insert_channel-store :
      (cssid cid : ℕ) (s : CaConn B)
      → ((insert_channel cssid cid s).cid_store ≡ s.cid_store)
        × ((insert_channel cssid cid s).init_state_count ≤ s.init_state_count + 1)
  unfolding insert_channel
  insert_channel-store cssid cid s = by_get (map_get cid s.channels) refl
    where
      by_get :
          (x : Option ChannelState)
          → map_get cid s.channels ≡ x
          → ((insert_channel cssid cid s).cid_store ≡ s.cid_store)
            × ((insert_channel cssid cid s).init_state_count ≤ s.init_state_count + 1)
      by_get (some y) e = rw (insert_channel, e) (refl, omega arith)
      by_get none e = rw (insert_channel, e) (refl, omega arith)

  apply_op-store :
      (name : List ℕ) (op : ChannelSetOp) (s : CaConn B)
      → ((apply_op name op s).cid_store ≤ s.cid_store + 1)
        × ((apply_op name op s).init_state_count ≤ s.init_state_count + 1)
  unfolding apply_op channel_add channel_remove
  apply_op-store name (add cssid) s = by_get (text_get name s.cid_by_name) refl
    where
      by_get :
          (x : Option ℕ)
          → text_get name s.cid_by_name ≡ x
          → ((channel_add name cssid s).cid_store ≤ s.cid_store + 1)
            × ((channel_add name cssid s).init_state_count ≤ s.init_state_count + 1)
      by_get (some cid) e = rw (channel_add, e) (omega arith, omega arith)
      by_get none e =
          let r = cid_by_name_expl name s in
          let a = cid_by_name_expl-store name s in
          let b = insert_channel-store cssid r.0 r.1 in
          rw (channel_add, e) (omega (arith, a, b), omega (arith, a, b))
  apply_op-store name remove s = let a = cid_by_name_expl-store name s in (a.0, omega (arith, a))

  apply_op-IsConsistent :
      (name : List ℕ) (op : ChannelSetOp) (s : CaConn B)
      → IsConsistent s
      → s.cid_store + 1 < 2 ^ 32
      → s.init_state_count + 1 < 2 ^ 64
      → IsConsistent (apply_op name op s)
  unfolding apply_op
  apply_op-IsConsistent name (add cssid) s v room space =
      channel_add-IsConsistent name cssid s v room space
  apply_op-IsConsistent name remove s v room space = channel_remove-IsConsistent name s v room

  -- From a connection whose two tables of names are inverse to each other, with no identifier
  -- above the last one given, whose channels are distinct and named, and whose count covers
  -- those to be asked for, any sequence of channels added and removed leads to such a
  -- connection, as long as the identifiers and the count stay below their limits.
  pub apply_channel_ops-IsConsistent :
      (ops : TextMap ChannelSetOp) (s : CaConn B)
      → IsConsistent s
      → s.cid_store + length ops < 2 ^ 32
      → s.init_state_count + length ops < 2 ^ 64
      → IsConsistent (apply_channel_ops ops s)
  unfolding apply_channel_ops
  apply_channel_ops-IsConsistent [] s v room space = v
  apply_channel_ops-IsConsistent ((name, op) ∷ ops) s v room space =
      let bounds = apply_op-store name op s in
      apply_channel_ops-IsConsistent ops (apply_op name op s)
        (apply_op-IsConsistent name op s v (omega (arith, room)) (omega (arith, space)))
        (omega (arith, room, bounds)) (omega (arith, space, bounds))
