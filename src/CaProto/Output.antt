-- ===== src/CaProto/Output.antt =====
-- The output half of `CaProto::loop_body` of proto.rs: queued messages are serialized into the
-- output buffer, and its bytes are written to the socket.
pub mod Stream
pub mod Fill
pub mod Flush
pub mod Rounds
pub mod Progress
use daqingest.Base.{
  ℕ, zero, suc, ◌+◌, min, Option, none, some, List, [], ◌∷◌, ◌++◌, length, take, ltb, ◌==◌,
  if◌then◌else◌, slice, copy_at, Outcome, ok, err, panic, Act, ◌>>=◌, ◌>>◌, pure, throw, get,
  modify, or_panic,
}
use daqingest.Base.Fallible.{lift}
use daqingest.SlideBuf
pub use daqingest.Socket.{Poll, ready, pending, WriteResult, takes, write_error, write_pending}
use daqingest.SlideBuf.{SlideBuf, len, data_slice, adv, wadv, available_writable_area}
use daqingest.CaProto.Message.{CaMsg}
use daqingest.CaProto.Error.{Error, slide_buf, io}
use daqingest.CaProto.Fields.{msg_len}
use daqingest.CaProto.Encode.{place_into}
use daqingest.CaProto.Parser.{CaProto}

-- The connection with the socket: the answers to come, after which it is not ready, and the bytes
-- that it has taken.
pub record Conn : Type 0 where
  pub proto : CaProto
  pub writes : List WriteResult
  pub sent : List ℕ

unfoldable pub on_outbuf : {A : Type 0} → SlideBuf.Op A → Act CaProto Error A
on_outbuf m s =
    let (r, b) = m s.outbuf in
    (elim r [ ok a ↦ ok a | err e ↦ err (slide_buf e) | panic ↦ panic ], record s { outbuf = b })

unfoldable pub on_proto : {A : Type 0} → Act CaProto Error A → Act Conn Error A
on_proto m c = let (r, s) = m c.proto in (r, record c { proto = s })

unfoldable pub push_out : CaMsg → CaProto → CaProto
push_out item s = record s { out = s.out ++ (item ∷ []) }

-- `match .. { Ok(buf) => Some(..), Err(_) => None }`
unfoldable pub or_none : {A : Type 0} → Act CaProto Error A → Act CaProto Error (Option A)
or_none m s =
    let (r, s') = m s in (elim r [ ok a ↦ ok (some a) | err _ ↦ ok none | panic ↦ panic ], s')

-- The area for the first message of the queue, by its start and length.
unfoldable pub out_msg_buf : CaMsg → Act CaProto Error (Option (ℕ × ℕ))
out_msg_buf item = do
  n ← or_panic (msg_len item.ty)
  or_none (on_outbuf (available_writable_area n))

-- `msg.place_into(&mut buf[..msglen]); self.outbuf.wadv(msglen)?; self.out.pop_front()`
unfoldable pub place_msg : CaMsg → List CaMsg → ℕ → Act CaProto Error Unit
place_msg m ms i = do
  msglen ← or_panic (msg_len m.ty)
  s ← get
  area ← or_panic (slice i (i + msglen) s.outbuf.buf)
  bytes ← lift (place_into m area)
  buf ← or_panic (copy_at i bytes s.outbuf.buf)
  modify (λ s. record s { outbuf = record s.outbuf { buf = buf } })
  on_outbuf (wadv msglen)
  modify (λ s. record s { out = ms })

-- `while let Some((msg, buf)) = self.out_msg_buf()`, over the queue
unfoldable pub fill_out : List CaMsg → Act CaProto Error Unit
fill_out [] = pure tt
fill_out (m ∷ ms) = do
  msglen ← or_panic (msg_len m.ty)
  found ← out_msg_buf m
  elim found [
    | none ↦ pure tt
    | some (i, n) ↦ if ltb n msglen then pure tt else (do place_msg m ms i; fill_out ms)
  ]

-- `attempt_output`
unfoldable pub attempt_output : WriteResult → List WriteResult → Act Conn Error (Poll Unit)
attempt_output w ws = do
  b ← on_proto (on_outbuf data_slice)
  modify (λ c. record c { writes = ws })
  elim w [
    | takes n ↦ (do
      modify (λ c. record c { sent = c.sent ++ take (min n (length b)) b })
      on_proto (on_outbuf (adv (min n (length b))))
      pure (ready tt))
    | write_error ↦ throw io
    | write_pending ↦ pure pending
  ]

-- `while self.outbuf.len() > 0 { match attempt_output(..)? { .. } }`, by the socket's answers
unfoldable pub flush : List WriteResult → Act Conn Error (Poll Unit)
flush [] = do c ← get; if ltb 0 (len c.proto.outbuf) then pure pending else pure (ready tt)
flush (w ∷ ws) = do
  c ← get
  if ltb 0 (len c.proto.outbuf)
      then (do p ← attempt_output w ws; elim p [ ready _ ↦ flush ws | pending ↦ pure pending ])
      else pure (ready tt)

-- The loop `'ll1`: `ready` is its `None`. Each round but the first takes a message from the queue.
unfoldable pub output_loop : ℕ → Act Conn Error (Poll Unit)
output_loop zero = or_panic none
output_loop (suc fuel) = do
  c ← get
  if length c.proto.out == 0 then pure (ready tt) else do
    on_proto (fill_out c.proto.out)
    c ← get
    p ← flush c.writes
    elim p [ ready _ ↦ output_loop fuel | pending ↦ pure pending ]

-- `output_res_1` and `output_res_2`
unfoldable pub output : Act Conn Error (Poll Unit)
output = do
  c ← get
  p ← output_loop (length c.proto.out + 2)
  c ← get
  elim p [ ready _ ↦ flush c.writes | pending ↦ pure pending ]
