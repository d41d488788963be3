-- ===== src/FindIoc/Answer.antt =====
-- What `try_read` of findioc.rs makes of a datagram.
use daqingest.Base.{
  ℕ, zero, suc, ◌+◌, ◌≤◌, ◌<◌, ◌≡◌, refl, ap, ◌∙◌, false, some, List, [], ◌∷◌, ◌++◌, map, length,
  take, take-all, length-append, be_value, slice-eq_some, lt→ltb, le→ltb_false, ◌==◌, arith, ok,
  err, panic,
}
use daqingest.SlideBuf
use daqingest.SlideBuf.{SlideBuf, put_slice, data_slice, adv}
use daqingest.SlideBuf.Invariant.{IsValid, contents}
use daqingest.SlideBuf.Read.{advanced, adv-front}
use daqingest.SlideBuf.Puts.{Puts, put_slice-Puts, new-IsValid}
use daqingest.CaProto.Error.{Externals}
use daqingest.CaProto.Message.{CaMsg, version_res, search_res}
use daqingest.CaProto.Header.{HeadInfo, from_netbuf}
use daqingest.CaProto.Parser.Head.{InRange, head_and, length-head_and, from_netbuf-front}
use daqingest.CaProto.Decode.{from_proto_infos, be_at}
use daqingest.FindIoc.{SocketAddrV4}
use daqingest.FindIoc.Datagram.{
  datagram, ready, on_nb, decode, read_msgs, is_bad_version, search_results, results_of,
  read_datagram, try_read,
}

pub data_slice-eq : {s : SlideBuf} → IsValid s → on_nb data_slice s ≡ (ok (contents s), s)
unfolding on_nb data_slice
data_slice-eq {s} v = rw (slice-eq_some s.rp s.wp s.buf v.rp_le_wp v.wp_le_cap)

pub on_nb-ok :
    {A : Type 0} (m : SlideBuf.Op A) (s : SlideBuf) {a : A} {t : SlideBuf}
    → m s ≡ (ok a, t)
    → on_nb m s ≡ (ok a, t)
unfolding on_nb
on_nb-ok m s h = rw h

-- fewer bytes than a header
read_msgs-short :
    (ext : Externals) (fuel : ℕ) {s : SlideBuf}
    → 1 ≤ fuel
    → IsValid s
    → length (contents s) < 16
    → read_msgs ext fuel s ≡ (ok (some []), s)
unfolding read_msgs
read_msgs-short ext zero one v h = absurd (omega arith)
read_msgs-short ext (suc fuel) one v h = rw (data_slice-eq v, lt→ltb _ _ h)

-- one message in front of others
read_msgs-front :
    (ext : Externals) (fuel : ℕ) (hi : HeadInfo) (body rest : List ℕ) (msg : CaMsg)
    (msgs : List CaMsg) {s : SlideBuf}
    → IsValid s
    → InRange hi
    → length body ≡ hi.payload_size
    → contents s ≡ head_and hi (body ++ rest)
    → from_proto_infos ext hi (body ++ rest) 32 ≡ ok msg
    → ((s' : SlideBuf)
        → IsValid s'
        → contents s' ≡ rest
        → (t : SlideBuf) × (read_msgs ext fuel s' ≡ (ok (some msgs), t)))
    → (t : SlideBuf) × (read_msgs ext (suc fuel) s ≡ (ok (some (msg ∷ msgs)), t))
unfolding read_msgs decode
read_msgs-front ext fuel hi body rest msg msgs {s} v r size e d next =
    let f = from_netbuf-front hi (body ++ rest) v r e in
    let g = rw size at (adv-front f.1 body rest f.2) in
    let n = next _ g.1 g.2 in
    (
      n.0,
      rw (
        data_slice-eq v,
        le→ltb_false (length (contents s)) 16
            (omega (arith, ap length e, length-head_and hi (body ++ rest))),
        on_nb-ok from_netbuf s (f.0),
        data_slice-eq f.1,
        f.2,
        le→ltb_false (length (body ++ rest)) hi.payload_size
            (omega (arith, length-append body rest, size)),
        d,
        on_nb-ok (adv hi.payload_size) (advanced 16 s) (g.0),
        n.1,
      ),
    )

-- the local buffer with the datagram
module _ (bytes : List ℕ) (small : length bytes ≤ 1024) where
  pub local_buffer : Puts bytes (SlideBuf.new 2048) (put_slice bytes (SlideBuf.new 2048))
  local_buffer =
      let n = new-IsValid 2048 (omega arith) in
      put_slice-Puts bytes n.0 (omega (arith, n.1, ap length n.2))

  pub local-contents : contents local_buffer.after ≡ bytes
  local-contents = local_buffer.bytes ∙ ap (λ q. q ++ bytes) (new-IsValid 2048 (omega arith)).2

  pub read_datagram-eq :
      (ext : Externals) (src : SocketAddrV4) (msgs : List CaMsg) (t : SlideBuf)
      → read_msgs ext (length bytes) local_buffer.after ≡ (ok (some msgs), t)
      → (read_datagram ext src bytes (SlideBuf.new 2048)).0
        ≡ elim (results_of src msgs) [ ok p ↦ ok (some p) | err e ↦ err e | panic ↦ panic ]
  unfolding read_datagram
  read_datagram-eq ext src msgs t h =
      rw (on_nb-ok (put_slice bytes) (SlideBuf.new 2048) local_buffer.reply, h)

try_read-eq :
    (ext : Externals) (src : SocketAddrV4) (bytes : List ℕ) (msgs : List CaMsg) (t : SlideBuf)
    → 1 ≤ length bytes
    → (small : length bytes ≤ 1024)
    → read_msgs ext (length bytes) (local_buffer bytes small).after ≡ (ok (some msgs), t)
    → try_read ext (datagram src bytes)
      ≡ elim (results_of src msgs) [ ok p ↦ ok (some p) | err e ↦ err e | panic ↦ panic ]
unfolding try_read
try_read-eq ext src bytes msgs t one small h =
    let some_bytes : (length bytes == 0) ≡ false = ground arith in
    rw (take-all 1024 bytes small, some_bytes) (read_datagram-eq bytes small ext src msgs t h)

-- A datagram of 1 to 15 bytes, from whatever sender, is a panic.
pub try_read-short :
    (ext : Externals) (src : SocketAddrV4) (bytes : List ℕ)
    → 1 ≤ length bytes
    → length bytes < 16
    → try_read ext (datagram src bytes) ≡ panic
unfolding results_of
try_read-short ext src bytes one few =
    let small : length bytes ≤ 1024 = omega arith in
    let b = local_buffer bytes small in
    try_read-eq ext src bytes [] b.after one small (
      read_msgs-short ext (length bytes) one b.valid
        (omega (arith, ap length (local-contents bytes small))))

-- an answer of a server to a search, and the version in front of the answers
pub record Reply : Type 0 where
  pub port : ℕ
  pub count : ℕ
  pub addr : ℕ
  pub id : ℕ
  pub body : List ℕ

abbrev pub reply_head : Reply → HeadInfo
reply_head r = record {
  cmdid = 6;
  payload_size = 8;
  data_type = r.port;
  data_count = r.count;
  param1 = r.addr;
  param2 = r.id;
}

abbrev pub version_head : HeadInfo
version_head = record {
  cmdid = 0;
  payload_size = 0;
  data_type = 0;
  data_count = 13;
  param1 = 0;
  param2 = 0;
}

abbrev pub replies_bytes : List Reply → List ℕ
replies_bytes [] = []
replies_bytes (r ∷ rs) = head_and (reply_head r) (r.body ++ replies_bytes rs)

abbrev pub AllReplies : List Reply → Type 0
AllReplies [] = Unit
AllReplies (r ∷ rs) = InRange (reply_head r) × (length r.body ≡ 8) × AllReplies rs

reply_msg : Reply → List ℕ → CaMsg
reply_msg r payload = record {
  ty = search_res (record {
    addr = r.addr;
    tcp_port = r.port;
    id = r.id;
    proto_version = be_value (take 2 payload);
  });
}

reply_msgs : List Reply → List CaMsg
reply_msgs [] = []
reply_msgs (r ∷ rs) = reply_msg r (r.body ++ replies_bytes rs) ∷ reply_msgs rs

from_proto_infos-reply :
    (ext : Externals) (r : Reply) (payload : List ℕ)
    → 2 ≤ length payload
    → from_proto_infos ext (reply_head r) payload 32 ≡ ok (reply_msg r payload)
unfolding from_proto_infos reply_msg be_at
from_proto_infos-reply ext r payload h =
    rw (le→ltb_false (length payload) 2 h, slice-eq_some 0 2 payload (omega arith) h)

read_msgs-replies :
    (ext : Externals) (rs : List Reply) (fuel : ℕ) (s : SlideBuf)
    → AllReplies rs
    → suc (length rs) ≤ fuel
    → IsValid s
    → contents s ≡ replies_bytes rs
    → (t : SlideBuf) × (read_msgs ext fuel s ≡ (ok (some (reply_msgs rs)), t))
unfolding reply_msgs
read_msgs-replies ext [] fuel s a h v e =
    (s, read_msgs-short ext fuel (omega arith) v (omega (arith, ap length e)))
read_msgs-replies ext (r ∷ rs) zero s a h v e = absurd (omega arith)
read_msgs-replies ext (r ∷ rs) (suc fuel) s (range, size, a) h v e =
    read_msgs-front ext fuel (reply_head r) r.body (replies_bytes rs)
      (reply_msg r (r.body ++ replies_bytes rs)) (reply_msgs rs) v range size e
      (from_proto_infos-reply ext r (r.body ++ replies_bytes rs)
        (omega (arith, length-append r.body (replies_bytes rs), size)))
      (λ s' v' e'. read_msgs-replies ext rs fuel s' a (omega (arith, h)) v' e')

-- the identifiers, and where the channels are
abbrev pub found : SocketAddrV4 → List Reply → List (ℕ × SocketAddrV4)
found src rs = map (λ r. (r.id, record { ip = src.ip; port = r.port })) rs

search_results-replies :
    (src : SocketAddrV4) (rs : List Reply) → search_results src.ip (reply_msgs rs) ≡ found src rs
unfolding search_results reply_msgs reply_msg
search_results-replies src [] = refl
search_results-replies src (r ∷ rs) =
    ap (λ xs. (r.id, record { ip = src.ip; port = r.port }) ∷ xs) (search_results-replies src rs)

length-replies_bytes : (rs : List Reply) → length rs ≤ length (replies_bytes rs)
length-replies_bytes [] = omega arith
length-replies_bytes (r ∷ rs) = omega (
  arith,
  length-head_and (reply_head r) (r.body ++ replies_bytes rs),
  length-append r.body (replies_bytes rs),
  length-replies_bytes rs,
)

-- A datagram of a version frame and any number of search replies with 8 bytes of payload, with
-- fields in the ranges of their widths and at most 1024 bytes in all, gives exactly the
-- identifiers of the replies in order, each with the address of the sender and the port of the
-- reply.
pub try_read-replies :
    (ext : Externals) (src : SocketAddrV4) (rs : List Reply)
    → AllReplies rs
    → 16 + length (replies_bytes rs) ≤ 1024
    → try_read ext (datagram src (head_and version_head (replies_bytes rs)))
      ≡ ok (some (ready src (found src rs)))
unfolding results_of is_bad_version from_proto_infos
try_read-replies ext src rs a fits =
    let bytes = head_and version_head (replies_bytes rs) in
    let size : length bytes ≡ 16 + length (replies_bytes rs) =
      length-head_and version_head (replies_bytes rs) in
    let small : length bytes ≤ 1024 = omega (arith, size) in
    let b = local_buffer bytes small in
    let msgs = record { ty = version_res 13 } ∷ reply_msgs rs in
    let read : (t : SlideBuf) × (read_msgs ext (suc (15 + length (replies_bytes rs))) b.after
          ≡ (ok (some msgs), t)) =
      read_msgs-front ext (15 + length (replies_bytes rs)) version_head [] (replies_bytes rs) _
        (reply_msgs rs) b.valid (omega arith) refl (local-contents bytes small) refl
        (λ s v e.
          read_msgs-replies ext rs (15 + length (replies_bytes rs)) s a
            (omega (arith, length-replies_bytes rs)) v e) in
    try_read-eq ext src bytes msgs (read.0) (omega (arith, size)) small (
      ap (λ k. read_msgs ext k b.after) {x = length bytes}
        {y = suc (15 + length (replies_bytes rs))} (omega (arith, size))
      ∙ read.1)
    ∙ ap (λ xs. ok (some (ready src xs))) (search_results-replies src rs)
