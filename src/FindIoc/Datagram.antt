-- ===== src/FindIoc/Datagram.antt =====
-- The datagrams of findioc.rs: `serialize_batch` and `try_read`.
use daqingest.Base.{
  ℕ, zero, suc, ◌+◌, ◌-◌, ◌*◌, ◌/◌, ◌%◌, ◌^◌, Bool, true, false, Option, none, some, List, [], ◌∷◌,
  ◌++◌, length, take, replicate, be_bytes, ltb, ◌==◌, if◌then◌else◌, Outcome, ok, err, panic, Act,
  ◌>>=◌, ◌>>◌, pure,
}
use daqingest.SlideBuf
use daqingest.SlideBuf.{SlideBuf, put_slice, data_slice, adv}
use daqingest.CaProto.Error.{Externals}
use daqingest.CaProto.Message.{CaMsg, CaMsgTy, version_res, search_res}
use daqingest.CaProto.Header.{HeadInfo, from_netbuf}
use daqingest.CaProto.Decode.{from_proto_infos}
use daqingest.FindIoc.{Error, slide_buf, ca_msg, can_not_read, no_bytes, SocketAddrV4, SearchBatch}

abbrev pub version_frame : List ℕ
version_frame = 0 ∷ 0 ∷ 0 ∷ 0 ∷ 0 ∷ 0 ∷ 0 ∷ 13 ∷ 0 ∷ 0 ∷ 0 ∷ 0 ∷ 0 ∷ 0 ∷ 0 ∷ 0 ∷ []

unfoldable pub search_frame : ℕ → List ℕ → List ℕ
search_frame sid chb =
    let npadded = (length chb + 1 + 7) / 8 * 8 in
    (0 ∷ 6 ∷ [])
    ++ (be_bytes 2 (npadded % 2 ^ 16)
        ++ ((0 ∷ 0 ∷ 0 ∷ 13 ∷ [])
            ++ ((0 ∷ 0 ∷ 0 ∷ 0 ∷ [])
                ++ (be_bytes 4 sid ++ (chb ++ replicate (npadded - length chb) 0)))))

-- `batch.sids.iter().zip(batch.channels.iter())`
unfoldable pub search_frames : List ℕ → List (List ℕ) → List ℕ
search_frames (sid ∷ sids) (ch ∷ channels) = search_frame sid ch ++ search_frames sids channels
search_frames _ _ = []

-- The new content of `buf`.
unfoldable pub serialize_batch : List ℕ → SearchBatch → List ℕ
serialize_batch buf batch = buf ++ (version_frame ++ search_frames batch.sids batch.channels)

-- what `recvfrom` gives
pub data RecvFrom : Type 0 where
  would_block read_failed : RecvFrom
  datagram : SocketAddrV4 → List ℕ → RecvFrom

pub data Poll : Type 0 where
  pending : Poll
  ready : SocketAddrV4 → List (ℕ × SocketAddrV4) → Poll

-- a call on the local buffer, its error as a text
unfoldable pub on_nb : {A : Type 0} → SlideBuf.Op A → Act SlideBuf Error A
on_nb m nb =
    let (r, nb') = m nb in (elim r [ ok a ↦ ok a | err e ↦ err (slide_buf e) | panic ↦ panic ], nb')

unfoldable pub decode : Externals → HeadInfo → List ℕ → Act SlideBuf Error CaMsg
decode ext hi payload nb = (
  elim (from_proto_infos ext hi payload 32) [
    | ok a ↦ ok a
    | err e ↦ err (ca_msg e)
    | panic ↦ panic
  ],
  nb,
)

-- The loop over the messages, with as many rounds as `fuel`: `none` when they run out.
unfoldable pub read_msgs : Externals → ℕ → Act SlideBuf Error (Option (List CaMsg))
read_msgs ext zero = pure none
read_msgs ext (suc fuel) = do
  bytes ← on_nb data_slice
  if ltb (length bytes) 16 then pure (some []) else do
    hi ← on_nb from_netbuf
    payload ← on_nb data_slice
    if ltb (length payload) hi.payload_size then pure (some []) else do
      msg ← decode ext hi payload
      on_nb (adv hi.payload_size)
      later ← read_msgs ext fuel
      pure (elim later [ some msgs ↦ some (msg ∷ msgs) | none ↦ none ])

unfoldable pub is_bad_version : CaMsgTy → Bool
is_bad_version (version_res v) = if v == 13 then false else true
is_bad_version _ = false

unfoldable pub search_results : ℕ → List CaMsg → List (ℕ × SocketAddrV4)
search_results src_ip [] = []
search_results src_ip (msg ∷ msgs) =
    let later = search_results src_ip msgs in
    elim msg.ty [
      | search_res k ↦ (k.id, record { ip = src_ip; port = k.tcp_port }) ∷ later
      | _ ↦ later
    ]

-- `msgs[0]` and what is behind it
unfoldable pub results_of : SocketAddrV4 → List CaMsg → Outcome Error Poll
results_of src [] = panic
results_of src (first ∷ msgs) =
    ok (ready src (if is_bad_version first.ty then [] else search_results src.ip msgs))

unfoldable pub read_datagram : Externals → SocketAddrV4 → List ℕ → Act SlideBuf Error (Option Poll)
read_datagram ext src bytes = do
  on_nb (put_slice bytes)
  msgs ← read_msgs ext (length bytes)
  elim msgs [
    | none ↦ pure none
    | some ms ↦
        λ nb. (elim (results_of src ms) [ ok p ↦ ok (some p) | err e ↦ err e | panic ↦ panic ], nb)
  ]

-- What is behind the first 1024 bytes is cut off. Every round of the loop but the last takes the
-- 16 bytes of a header, so that the rounds do not run out.
unfoldable pub try_read : Externals → RecvFrom → Outcome Error (Option Poll)
try_read ext would_block = ok (some pending)
try_read ext read_failed = err can_not_read
try_read ext (datagram src bytes) =
    let buf = take 1024 bytes in
    if length buf == 0 then err no_bytes else (read_datagram ext src buf (SlideBuf.new 2048)).0
