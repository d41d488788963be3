-- ===== src/Zmtp/Round.antt =====
-- `Zmtp::loop_body` and `poll_next` of zmtpproto.rs.
use daqingest.Base.{
  ℕ, ◌+◌, ◌/◌, Bool, true, false, ◌&&◌, ◌||◌, ◌==◌, Option, none, some, List, [], ◌∷◌, length, take,
  ltb, leb, if◌then◌else◌, ◌⊎◌, inl, inr, Outcome, ok, err, panic, Act, ◌>>=◌, ◌>>◌, pure, throw,
  get, modify,
}
use daqingest.Socket.{
  Poll, ready, pending, WriteResult, takes, write_error, write_pending, ReadResult, received,
  read_error, read_pending,
}
use daqingest.SlideBuf.{cap, len, wcap, adv, wadv, available_writable_area, data_slice}
use daqingest.SlideBuf.Write.{fill_area}
use daqingest.Zmtp.{
  Error, buffer_too_small_for_need_min, io, ZmtpEvent, Zmtp, need_min, on_buf, on_outbuf,
}
use daqingest.Zmtp.Parse.{parse_item}

abbrev pub Result : Type 0 → Type 0
Result A = Error ⊎ A

-- `Int` of the source. An item is a `Result`.
pub data IntPoll (A : Type 0) : Type 0 where
  no_work pend empty finished : IntPoll A
  item : Result A → IntPoll A

unfoldable pub item_count : {A : Type 0} → IntPoll A → ℕ
item_count (item _) = 1
item_count _ = 0

-- what the channel of items to send answers
pub data DataPoll : Type 0 where
  data_item data_closed data_pending : DataPoll

-- the answers of the channel and of the socket in one round
pub record Answers : Type 0 where
  pub data_rx : DataPoll
  pub write : WriteResult
  pub read : ReadResult

-- `match` on a `Result`, which lets no error through
abbrev pub as_result : {A : Type 0} → Outcome Error A → Outcome Error (Result A)
as_result (ok a) = ok (inr a)
as_result (err e) = ok (inl e)
as_result panic = panic

unfoldable pub attempt : {A : Type 0} → Act Zmtp Error A → Act Zmtp Error (Result A)
attempt m z = let (r, z') = m z in (as_result r, z')

unfoldable pub serialize : DataPoll → Zmtp → IntPoll Unit
serialize rx z =
    if z.out_enable && leb (cap z.outbuf / 2) (wcap z.outbuf)
    then (elim rx [ data_item ↦ empty | data_closed ↦ finished | data_pending ↦ pend ])
    else no_work

unfoldable pub advance_result : Result Unit → IntPoll Unit
advance_result (inl e) = item (inl e)
advance_result (inr _) = empty

-- the match on the answer of the socket
unfoldable pub take_write : WriteResult → Act Zmtp Error (IntPoll Unit)
take_write (takes k) = do r ← attempt (on_outbuf (adv k)); pure (advance_result r)
take_write write_error = pure (item (inl io))
take_write write_pending = pure pend

unfoldable pub poll_write : WriteResult → Act Zmtp Error (IntPoll Unit)
poll_write w = do on_outbuf data_slice; take_write w

unfoldable pub write_output : ℕ → WriteResult → Act Zmtp Error (IntPoll Unit)
write_output count w = do
  z ← get
  if ltb 0 count then pure no_work else if ltb 0 (len z.outbuf) then poll_write w else pure no_work

unfoldable pub take_input : List ℕ → Act Zmtp Error (IntPoll Unit)
take_input filled =
    if length filled == 0
    then (do modify (λ z. record z { inp_eof = true }); pure finished)
    else (do
      modify (λ z. record z { buf = fill_area filled z.buf })
      r ← attempt (on_buf (wadv (length filled)))
      pure (advance_result r))

-- the match on the answer of the socket, into an area of `size` bytes
unfoldable pub take_read : ℕ → ReadResult → Act Zmtp Error (IntPoll Unit)
take_read size (received xs) = take_input (take size xs)
take_read size read_error = pure (item (inl io))
take_read size read_pending = pure pend

-- An error thrown here, of `inpbuf_conn`, is the one that `loop_body` returns at once.
unfoldable pub poll_read : ReadResult → Act Zmtp Error (IntPoll Unit)
poll_read rd = do
  z ← get
  area ← on_buf (available_writable_area (need_min z.conn_state))
  take_read area.1 rd

unfoldable pub read_input : ℕ → ReadResult → Act Zmtp Error (IntPoll Unit)
read_input count rd = do
  z ← get
  if ltb 0 count || z.inp_eof
      then pure no_work
      else if ltb (cap z.buf) (need_min z.conn_state)
      then (do
        modify (λ z. record z { done = true })
        pure (item (inl (buffer_too_small_for_need_min (need_min z.conn_state) (cap z.buf)))))
      else if ltb (len z.buf) (need_min z.conn_state)
      then poll_read rd
      else pure no_work

unfoldable pub parse_result : Result (Option ZmtpEvent) → IntPoll ZmtpEvent
parse_result (inl e) = item (inl e)
parse_result (inr none) = empty
parse_result (inr (some k)) = item (inr k)

unfoldable pub parse_round : ℕ → Act Zmtp Error (IntPoll ZmtpEvent)
parse_round count = do
  z ← get
  if ltb 0 count || ltb (len z.buf) (need_min z.conn_state)
      then pure no_work
      else (do r ← attempt parse_item; pure (parse_result r))

unfoldable pub is_idle : {A : Type 0} → IntPoll A → Bool
is_idle no_work = true
is_idle finished = true
is_idle _ = false

unfoldable pub is_empty : {A : Type 0} → IntPoll A → Bool
is_empty empty = true
is_empty _ = false

-- the error of an item, or that of what stands behind it
unfoldable pub error_or : {A : Type 0} → IntPoll A → Option Error → Option Error
error_or (item (inl e)) _ = some e
error_or _ later = later

-- The rows behind those of the errors.
unfoldable pub combine :
    IntPoll Unit → IntPoll Unit → IntPoll Unit → IntPoll ZmtpEvent → Option (Poll ZmtpEvent)
combine (item _) _ _ _ = none
combine _ (item _) _ _ = none
combine _ _ (item _) _ = none
combine _ _ _ (item (inr k)) = some (ready k)
combine s w r p =
    if is_empty s || is_empty w || is_empty r || is_empty p then none else some pending

-- the end with an error, or else the given result
unfoldable pub settle :
    Option Error → Option (Poll ZmtpEvent) → Act Zmtp Error (Option (Poll ZmtpEvent))
settle (some e) _ = do modify (λ z. record z { done = true }); throw e
settle none x = pure x

-- The final match. A thrown error is `Some(Ready(Err(e)))`.
unfoldable pub conclude :
    IntPoll Unit
    → IntPoll Unit
    → IntPoll Unit
    → IntPoll ZmtpEvent
    → Act Zmtp Error (Option (Poll ZmtpEvent))
conclude s w r p =
    if is_idle s && is_idle w && is_idle r && is_idle p
    then pure (some pending)
    else settle (error_or s (error_or w (error_or r (error_or p none)))) (combine s w r p)

unfoldable pub loop_body : Answers → Act Zmtp Error (Option (Poll ZmtpEvent))
loop_body a = do
  z ← get
  let s = serialize a.data_rx z
  w ← write_output (item_count s) a.write
  r ← read_input (item_count s + item_count w) a.read
  p ← parse_round (item_count s + item_count w + item_count r)
  conclude s w r p

-- What `poll_next` gives: the end, an event, an error, or that it is not ready.
pub data Next : Type 0 where
  ended : Next
  event : ZmtpEvent → Next
  failed : Error → Next
  not_ready : Next

-- The match on the result of a round; without one the loop goes on.
unfoldable pub answer :
    Outcome Error (Option (Poll ZmtpEvent)) × Zmtp
    → (Zmtp → Option (Outcome Error Next × Zmtp))
    → Option (Outcome Error Next × Zmtp)
answer (ok none, z) go = go z
answer (ok (some (ready k)), z) go = some (ok (event k), z)
answer (ok (some pending), z) go = some (ok not_ready, z)
answer (err e, z) go = some (ok (failed e), z)
answer (panic, z) go = some (panic, z)

-- the loop, over the answers of each round: `none` when they run out
unfoldable pub rounds : List Answers → Zmtp → Option (Outcome Error Next × Zmtp)
unfolding answer
rounds [] z = none
rounds (a ∷ later) z = answer (loop_body a z) (λ z'. rounds later z')

unfoldable pub poll_next : List Answers → Zmtp → Option (Outcome Error Next × Zmtp)
poll_next answers z =
    if z.complete
    then some (panic, z)
    else if z.done
    then some (ok ended, record z { complete = true })
    else rounds answers z
