-- ===== src/Conn/Removing.antt =====
-- The events of a channel that was removed, in conn.rs.
use daqingest.Base.{ℕ, ◌≡◌, refl, ap, ◌∙◌, none, some, List, panic, arith}
use daqingest.Base.Maps.{map_get, map_remove, text_get}
use daqingest.Base.Maps.Laws.{get-remove}
use daqingest.CaProto.Message.{EventAddRes}
use daqingest.Conn.{Env, CaConn}
use daqingest.Conn.Channels.{cid_by_name_expl, channel_remove}
use daqingest.Conn.Events.{handle_event_add_res}

module _ {B : Type 0} (env : Env B) where
  found_cid :
      (name : List ℕ) (cid : ℕ) (s : CaConn B)
      → text_get name s.cid_by_name ≡ some cid
      → cid_by_name_expl name s ≡ (cid, s)
  unfolding cid_by_name_expl
  found_cid name cid s h = rw (cid_by_name_expl, h) refl

  removed_tables :
      (name : List ℕ) (cid : ℕ) (s : CaConn B)
      → text_get name s.cid_by_name ≡ some cid
      → ((channel_remove name s).channels ≡ map_remove cid s.channels)
        × ((channel_remove name s).cid_by_subid ≡ s.cid_by_subid)
  unfolding channel_remove
  removed_tables name cid s h =
      let found = found_cid name cid s h in
      (
        ap (λ (r : ℕ × CaConn B). map_remove r.0 r.1.channels) found,
        ap (λ (r : ℕ × CaConn B). r.1.cid_by_subid) found,
      )

  -- an event of a channel that is not there
  absent_channel :
      (ev : EventAddRes) (tsnow cid : ℕ) (s : CaConn B)
      → map_get ev.subid s.cid_by_subid ≡ some cid
      → map_get cid s.channels ≡ none
      → (handle_event_add_res env ev tsnow s).0 ≡ panic
  unfolding handle_event_add_res
  absent_channel ev tsnow cid s by_subid gone = simp (by_subid, gone) refl

  -- When a channel is removed, an event under the identifier of its subscription is a panic.
  pub handle_event_add_res-removed :
      (ev : EventAddRes) (tsnow cid : ℕ) (name : List ℕ) (s : CaConn B)
      → text_get name s.cid_by_name ≡ some cid
      → map_get ev.subid s.cid_by_subid ≡ some cid
      → (handle_event_add_res env ev tsnow (channel_remove name s)).0 ≡ panic
  handle_event_add_res-removed ev tsnow cid name s by_name by_subid =
      let t = removed_tables name cid s by_name in
      absent_channel ev tsnow cid (channel_remove name s) (ap (map_get ev.subid) t.1 ∙ by_subid)
        (ap (map_get cid) t.0 ∙ (get-remove cid cid s.channels ∙ ground arith))
