-- ===== src/CaProto/Parser.antt =====
-- `CaState`, `CaProto` and `CaProto::parse_item` of proto.rs.
pub mod Head
pub mod Steps
pub mod Frames
pub mod Extended
pub mod Safety
mod Examples
use daqingest.Base.{
  ℕ, ◌*◌, Bool, true, false, ◌&&◌, ◌||◌, Option, none, some, List, [], ◌∷◌, ltb, leb, ◌==◌,
  if◌then◌else◌, Outcome, ok, err, panic, Act, ◌>>=◌, ◌>>◌, pure, throw, get, modify,
}
use daqingest.Base.Fallible.{lift}
use daqingest.SlideBuf
use daqingest.SlideBuf.{SlideBuf, read_u32_be, read_bytes, len}
use daqingest.CaProto.Message.{CaMsg}
use daqingest.CaProto.Error.{Error, Externals, slide_buf, parse_attempt_in_done_state}
use daqingest.CaProto.Header.{HeadInfo, from_netbuf}
use daqingest.CaProto.Decode.{from_proto_infos}

pub data CaItem : Type 0 where
  empty : CaItem
  msg : CaMsg → CaItem

pub data CaState : Type 0 where
  std_head : CaState
  ext_head payload : HeadInfo → CaState
  done : CaState

unfoldable pub need_min : CaState → ℕ
need_min std_head = 16
need_min (ext_head _) = 8
need_min (payload k) = k.payload_size
need_min done = 123

-- The socket and its address are the environment's. The map is the list of its keys, as every value
-- in it is `true`.
pub record CaProto : Type 0 where
  pub state : CaState
  pub buf : SlideBuf
  pub outbuf : SlideBuf
  pub out : List CaMsg
  pub array_truncate : ℕ
  pub logged_proto_error_for_cid : List ℕ

unfoldable pub new : ℕ → CaProto
new array_truncate = record {
  state = std_head;
  buf = SlideBuf.new (1024 * 128);
  outbuf = SlideBuf.new (1024 * 128);
  out = [];
  array_truncate = array_truncate;
  logged_proto_error_for_cid = [];
}

-- a call on the input buffer, its error wrapped by `From`
unfoldable pub on_buf : {A : Type 0} → SlideBuf.Op A → Act CaProto Error A
on_buf m s =
    let (r, b) = m s.buf in
    (elim r [ ok a ↦ ok a | err e ↦ err (slide_buf e) | panic ↦ panic ], record s { buf = b })

unfoldable pub set_state : CaState → Act CaProto Error Unit
set_state st = modify (λ s. record s { state = st })

unfoldable pub contains_key : ℕ → List ℕ → Bool
contains_key k [] = false
contains_key k (j ∷ js) = k == j || contains_key k js

-- `insert(k, true)`
unfoldable pub insert_key : ℕ → List ℕ → List ℕ
unfolding contains_key
insert_key k js = if contains_key k js then js else k ∷ js

-- the record of an oversized payload
unfoldable pub note_oversize : HeadInfo → Act CaProto Error Unit
note_oversize hi = do
  s ← get
  if (hi.cmdid == 1 || hi.cmdid == 15)
        && (if hi.payload_size == 0xffff && hi.data_count == 0
            then false
            else ltb 16368 hi.payload_size)
        && contains_key hi.param1 s.logged_proto_error_for_cid
      then modify (λ s. record s {
        logged_proto_error_for_cid = insert_key hi.param1 s.logged_proto_error_for_cid;
      })
      else pure tt

module _ (ext : Externals) where
  -- `CaMsg::from_proto_infos(hi, payload, self.array_truncate)?`
  unfoldable pub decode : HeadInfo → List ℕ → Act CaProto Error CaMsg
  decode hi bytes = do s ← get; lift (from_proto_infos ext hi bytes s.array_truncate)

  unfoldable pub parse_std_head : Act CaProto Error (Option CaItem)
  parse_std_head = do
    hi ← on_buf from_netbuf
    note_oversize hi
    if hi.payload_size == 0xffff && hi.data_count == 0
        then (do set_state (ext_head hi); pure none)
        else if hi.payload_size == 0
        then (do set_state std_head; m ← decode hi []; pure (some (msg m)))
        else (do set_state (payload hi); pure none)

  unfoldable pub parse_ext_head : HeadInfo → Act CaProto Error (Option CaItem)
  parse_ext_head hi = do
    payload_size ← on_buf read_u32_be
    data_count ← on_buf read_u32_be
    if leb payload_size 16368
        then (do m ← decode hi []; set_state std_head; pure (some (msg m)))
        else (do set_state (payload hi); pure none)

  unfoldable pub parse_payload : HeadInfo → Act CaProto Error (Option CaItem)
  parse_payload hi = do
    g ← on_buf (read_bytes hi.payload_size)
    m ← decode hi g
    set_state std_head
    pure (some (msg m))

  unfoldable pub parse_state : CaState → Act CaProto Error (Option CaItem)
  parse_state std_head = parse_std_head
  parse_state (ext_head hi) = parse_ext_head hi
  parse_state (payload hi) = parse_payload hi
  parse_state done = throw parse_attempt_in_done_state

  unfoldable pub parse_item : Act CaProto Error (Option CaItem)
  unfolding parse_state
  parse_item = do
    s ← get
    if ltb (len s.buf) (need_min s.state) then pure none else parse_state s.state
