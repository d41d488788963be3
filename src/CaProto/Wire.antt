-- ===== src/CaProto/Wire.antt =====
-- The bytes that a client message of proto.rs has on the wire, and that `place_into` writes them.
pub mod RoundTrip
use daqingest.Base.{
  ◌%◌, ◌^◌, ℕ, ◌+◌, ◌-◌, ◌≤◌, ◌≡◌, refl, sym, ap, ◌∙◌, some, List, [], ◌++◌, length, length-nil,
  take, drop, replicate, ltb, if◌then◌else◌, be_bytes, copy_at, ok, panic, arith, length-append,
  length-drop, length-replicate, drop-replicate, copy_at-eq_some, take-append_left,
  drop-append_left, le→ltb_false,
}
use daqingest.Base.Fallible.{unwrap}
use daqingest.CaProto.Message.{
  CaMsg, CaMsgTy, version, error, client_name, client_name_res, host_name, search_request,
  search_res, create_chan, event_add, event_add_res, read_notify_res,
}
use daqingest.CaProto.Error.{Error}
use daqingest.CaProto.Fields.{padded, payload_len, msg_len}
use daqingest.CaProto.Fields.{cmdid, data_type, data_count, param1, param2}
use daqingest.CaProto.Header.{HeadInfo}
use daqingest.CaProto.Parser.Head.{head_and, length-head_and}
use daqingest.CaProto.Encode.{
  client_name_text, event_mask, place_payload_into, head_bytes, place_into,
}

-- a text and zeros up to `n` bytes
abbrev pub zero_padded : List ℕ → ℕ → List ℕ
zero_padded s n = s ++ replicate (n - length s) 0

unfoldable pub payload_bytes : CaMsgTy → List ℕ
payload_bytes client_name = zero_padded client_name_text 16
payload_bytes (host_name name) = zero_padded name 24
payload_bytes (search_request x) = zero_padded x.channel (padded (length x.channel))
payload_bytes (create_chan x) = zero_padded x.channel (padded (length x.channel))
payload_bytes (event_add _) = event_mask
payload_bytes _ = []

-- the fields of the header
abbrev pub sent_head : CaMsg → HeadInfo
sent_head m = record {
  cmdid = cmdid m.ty;
  payload_size = length (payload_bytes m.ty);
  data_type = data_type m.ty;
  data_count = data_count m.ty;
  param1 = param1 m.ty;
  param2 = param2 m.ty;
}

unfoldable pub wire : CaMsg → List ℕ
wire m = head_and (sent_head m) (payload_bytes m.ty)

-- What a client sends: messages with a payload that `place_into` can write.
abbrev pub IsSendable : CaMsgTy → Type 0
IsSendable (error _) = ⊥
IsSendable (client_name_res _) = ⊥
IsSendable (search_res _) = ⊥
IsSendable (event_add_res _) = ⊥
IsSendable (read_notify_res _) = ⊥
IsSendable (host_name name) = length name ≤ 24
IsSendable (search_request x) = padded (length x.channel) ≤ 0x4000 - 16
IsSendable (create_chan x) = padded (length x.channel) ≤ 0x4000 - 16
IsSendable _ = Unit

length-zero_padded : (s : List ℕ) (n : ℕ) → length s ≤ n → length (zero_padded s n) ≡ n
length-zero_padded s n h = omega (
  arith,
  length-append s (replicate (n - length s) 0),
  length-replicate (n - length s) (let z : ℕ = 0 in z),
)

-- The payload has the announced length, at most 16368 bytes.
pub payload_len-length :
    (ty : CaMsgTy)
    → IsSendable ty
    → (payload_len ty ≡ some (length (payload_bytes ty)))
      × (length (payload_bytes ty) ≤ 0x4000 - 16)
unfolding payload_len payload_bytes
payload_len-length version h = (refl, omega arith)
payload_len-length (error _) h = absurd h
payload_len-length (client_name_res _) h = absurd h
payload_len-length (search_res _) h = absurd h
payload_len-length (event_add_res _) h = absurd h
payload_len-length (read_notify_res _) h = absurd h
payload_len-length (host_name name) h = ground (arith, length-zero_padded name 24)
payload_len-length (search_request x) h =
    ground (arith, length-zero_padded x.channel (padded (length x.channel)))
payload_len-length (create_chan x) h =
    ground (arith, length-zero_padded x.channel (padded (length x.channel)))
payload_len-length _ h = (refl, omega arith)

copy_zero :
    (s : List ℕ) (n : ℕ) → length s ≤ n → copy_at 0 s (replicate n 0) ≡ some (zero_padded s n)
copy_zero s n h =
    copy_at-eq_some 0 s (replicate n 0) (omega (arith, length-replicate n (let z : ℕ = 0 in z)))
    ∙ ap (λ r. some (s ++ r))
        (drop-replicate (0 + length s) n 0 ∙ ap (λ k. replicate k 0) (omega arith))

fill-eq :
    (s b : List ℕ) (n : ℕ)
    → length b ≡ n
    → length s ≤ n
    → unwrap {E = Error} (copy_at 0 s (replicate (length b) 0)) ≡ ok (zero_padded s n)
fill-eq s b n e h = rw (e, copy_zero s n h)

fill_c-eq :
    (s b : List ℕ) (n : ℕ)
    → length b ≡ n
    → length s + 1 ≤ n
    → (if ltb (length b) (length s + 1)
        then panic
        else unwrap {E = Error} (copy_at 0 s (replicate (length b) 0)))
      ≡ ok (zero_padded s n)
fill_c-eq s b n e h =
    rw (le→ltb_false (length b) (length s + 1) (omega arith)) (fill-eq s b n e (omega arith))

-- The payload is written over whatever the buffer held.
pub place_payload_into-eq :
    (ty : CaMsgTy) (b : List ℕ)
    → IsSendable ty
    → length b ≡ length (payload_bytes ty)
    → place_payload_into ty b ≡ ok (payload_bytes ty)
unfolding place_payload_into payload_bytes
place_payload_into-eq version b h e = ap (λ x. ok x) (length-nil b e)
place_payload_into-eq (error _) b h e = absurd h
place_payload_into-eq (client_name_res _) b h e = absurd h
place_payload_into-eq (search_res _) b h e = absurd h
place_payload_into-eq (event_add_res _) b h e = absurd h
place_payload_into-eq (read_notify_res _) b h e = absurd h
place_payload_into-eq client_name b h e = fill-eq client_name_text b 16 e (omega arith)
place_payload_into-eq (host_name name) b h e =
    fill-eq name b 24 (e ∙ length-zero_padded name 24 h) h
place_payload_into-eq (search_request x) b h e =
    fill_c-eq x.channel b (padded (length x.channel))
      (e ∙ length-zero_padded x.channel (padded (length x.channel)) (omega arith)) (omega arith)
place_payload_into-eq (create_chan x) b h e =
    fill_c-eq x.channel b (padded (length x.channel))
      (e ∙ length-zero_padded x.channel (padded (length x.channel)) (omega arith)) (omega arith)
place_payload_into-eq (event_add x) b h e = rw e
place_payload_into-eq _ b h e = ap (λ x. ok x) (length-nil b e)

length-head_bytes : (ty : CaMsgTy) (n : ℕ) → length (head_bytes ty n) ≡ 16
unfolding head_bytes be_bytes
length-head_bytes ty n = refl

pub length-wire : (m : CaMsg) → length (wire m) ≡ 16 + length (payload_bytes m.ty)
unfolding wire
length-wire m = length-head_and (sent_head m) (payload_bytes m.ty)

-- The code's header, with the payload length cast to 16 bits, is the header of the fields.
head_bytes-wire :
    (m : CaMsg)
    → length (payload_bytes m.ty) ≤ 0x4000 - 16
    → head_bytes m.ty (length (payload_bytes m.ty)) ++ payload_bytes m.ty ≡ wire m
unfolding head_bytes wire be_bytes
head_bytes-wire m h =
    let ty = m.ty in
    let fields : ℕ → List ℕ = λ k.
      (be_bytes 2 (cmdid ty)
        ++ (be_bytes 2 k
            ++ (be_bytes 2 (data_type ty)
                ++ (be_bytes 2 (data_count ty)
                    ++ (be_bytes 4 (param1 ty) ++ be_bytes 4 (param2 ty))))))
      ++ payload_bytes ty in
    ap fields {x = length (payload_bytes ty) % 2 ^ 16} (omega arith)

-- A message that a client may send is written into a buffer of its length without a panic, as
-- the header of its fields and its payload padded with zeros, whatever the buffer held.
pub place_into-wire :
    (m : CaMsg) (buf : List ℕ)
    → IsSendable m.ty
    → msg_len m.ty ≡ some (length buf)
    → place_into m buf ≡ ok (wire m)
unfolding place_into msg_len
place_into-wire m buf h e =
    let p = payload_len-length m.ty h in
    let n : ℕ = length (payload_bytes m.ty) in
    let head : List ℕ = head_bytes m.ty n in
    let size : length head ≡ 16 = length-head_bytes m.ty n in
    let whole : length buf ≡ 16 + n = ground (arith, p.0, e) in
    let headed : List ℕ = head ++ drop 16 buf in
    let cut : drop 16 headed ≡ drop 16 buf =
      ap (λ k. drop k headed) (sym size) ∙ drop-append_left head (drop 16 buf) in
    let front : take 16 headed ≡ head =
      ap (λ k. take k headed) (sym size) ∙ take-append_left head (drop 16 buf) in
    let copied : copy_at 0 head buf ≡ some headed =
      copy_at-eq_some 0 head buf (omega arith)
      ∙ ap (λ k. some (head ++ drop k buf)) {y = 16} (omega arith) in
    rw
      (
        p.0,
        le→ltb_false (0x4000 - 16) n p.1,
        copied,
        cut,
        place_payload_into-eq m.ty (drop 16 buf) h (omega (arith, length-drop 16 buf)),
        front,
      )
      (ap (λ bytes. ok bytes) (head_bytes-wire m p.1))
