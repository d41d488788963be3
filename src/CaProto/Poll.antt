-- ===== src/CaProto/Poll.antt =====
-- `CaProto::loop_body` of proto.rs: the output, a read when the parser needs more bytes, and one
-- round of the parser.
pub mod Input
pub mod Waits
pub mod Ends
pub mod Eof
use daqingest.Base.{
  Bool, true, false, [], ◌∷◌, ℕ, ◌==◌, min, Option, none, some, List, length, take, ltb,
  if◌then◌else◌, Outcome, ok, err, panic, Act, ◌>>=◌, ◌>>◌, pure, throw, get, modify,
}
pub use daqingest.Socket.{ReadResult, received, read_error, read_pending}
use daqingest.SlideBuf.{cap, len, wadv, available_writable_area}
use daqingest.SlideBuf.Write.{fill_area}
use daqingest.CaProto.Error.{Error, Externals, buffer_too_small_for_need_min, io}
use daqingest.CaProto.Parser.{
  CaProto, CaItem, empty, CaState, done, need_min, on_buf, set_state, parse_item,
}
use daqingest.CaProto.Output.{Conn, Poll, ready, pending, on_proto, output}

-- The match on the bytes that were filled in.
unfoldable pub take_input : List ℕ → Act CaProto Error (Option (Poll CaItem))
take_input filled =
    if length filled == 0 then (do set_state done; pure (some (ready empty))) else do
      modify (λ s. record s { buf = fill_area filled s.buf })
      on_buf (wadv (length filled))
      pure (some (ready empty))

unfoldable pub poll_read : ReadResult → Act CaProto Error (Option (Poll CaItem))
poll_read rd = do
  s ← get
  area ← on_buf (available_writable_area (need_min s.state))
  elim rd [
    | received xs ↦ take_input (take area.1 xs)
    | read_error ↦ throw io
    | read_pending ↦ pure (some pending)
  ]

-- `read_res`
unfoldable pub read_input : ReadResult → Act CaProto Error (Option (Poll CaItem))
read_input rd = do
  s ← get
  if ltb (cap s.buf) (need_min s.state)
      then (do
        set_state done
        s ← get
        throw (buffer_too_small_for_need_min (cap s.buf) (need_min s.state)))
      else if ltb (len s.buf) (need_min s.state)
      then poll_read rd
      else pure none

-- the final match of `loop_body`
unfoldable pub combine : Poll Unit → Option (Poll CaItem) → Option CaItem → Option (Poll CaItem)
combine out read (some item) = some (ready item)
combine pending read none = some pending
combine (ready _) (some pending) none = some pending
combine (ready _) none none = none
combine (ready _) (some (ready _)) none = none

unfoldable pub loop_body : Externals → ReadResult → Act Conn Error (Option (Poll CaItem))
loop_body ext rd = do
  output_res ← output
  read_res ← on_proto (read_input rd)
  parse_res ← on_proto (parse_item ext)
  pure (combine output_res read_res parse_res)

-- What `poll_next` gives: the end, an item, an error, or that it is not ready.
pub data Next : Type 0 where
  ended : Next
  item : CaItem → Next
  failed : Error → Next
  not_ready : Next

unfoldable pub is_done : CaState → Bool
is_done done = true
is_done _ = false

-- The match on the result of a round; without one the loop goes on.
unfoldable pub answer :
    Outcome Error (Option (Poll CaItem)) × Conn
    → (Conn → Option (Outcome Error Next × Conn))
    → Option (Outcome Error Next × Conn)
answer (ok none, c) go = go c
answer (ok (some (ready i)), c) go = some (ok (item i), c)
answer (ok (some pending), c) go = some (ok not_ready, c)
answer (err e, c) go = some (ok (failed e), c)
answer (panic, c) go = some (panic, c)

-- The rounds of `poll_next`, over the answer that a read gets in each: `none` when they run out.
unfoldable pub poll_next : Externals → List ReadResult → Conn → Option (Outcome Error Next × Conn)
poll_next ext [] c = none
poll_next ext (rd ∷ rds) c =
    if is_done c.proto.state
    then some (ok ended, c)
    else answer (loop_body ext rd c) (λ c. poll_next ext rds c)
