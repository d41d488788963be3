-- ===== src/CaProto/Encode.antt =====
-- `CaMsgTy::place_payload_into` and `CaMsg::place_into` of proto.rs.
use daqingest.Base.{
  ℕ, ◌+◌, ◌-◌, ◌%◌, ◌^◌, ◌==◌, List, [], ◌∷◌, ◌++◌, length, take, drop, replicate, ltb,
  if◌then◌else◌, be_bytes, copy_at, Outcome, ok, panic,
}
use daqingest.Base.Fallible.{◌>>=◌, unwrap}
use daqingest.CaProto.Message.{
  CaMsg, CaMsgTy, version, version_res, error, client_name, client_name_res, host_name,
  search_request, search_res, create_chan, create_chan_res, create_chan_fail, access_rights_res,
  event_add, event_add_res, read_notify, read_notify_res, echo,
}
use daqingest.CaProto.Error.{Error}
use daqingest.CaProto.Fields.{cmdid, payload_len, data_type, data_count, param1, param2}

-- "daqingest"
abbrev pub client_name_text : List ℕ
client_name_text = b'd' ∷ b'a' ∷ b'q' ∷ b'i' ∷ b'n' ∷ b'g' ∷ b'e' ∷ b's' ∷ b't' ∷ []

abbrev pub event_mask : List ℕ
event_mask = 0 ∷ 0 ∷ 0 ∷ 0 ∷ 0 ∷ 0 ∷ 0 ∷ 0 ∷ 0 ∷ 0 ∷ 0 ∷ 0 ∷ 0 ∷ 0x0e ∷ 0 ∷ 0 ∷ []

-- `buf.fill(0); buf[..n].copy_from_slice(s)`
fill_text : List ℕ → List ℕ → Outcome Error (List ℕ)
fill_text s buf = unwrap (copy_at 0 s (replicate (length buf) 0))

-- the same after the test that a zero byte follows the text
fill_c_text : List ℕ → List ℕ → Outcome Error (List ℕ)
unfolding fill_text
fill_c_text d buf = if ltb (length buf) (length d + 1) then panic else fill_text d buf

-- `buf.copy_from_slice(mask)`
fill_mask : List ℕ → Outcome Error (List ℕ)
fill_mask buf = if length buf == length event_mask then ok event_mask else panic

unfoldable pub place_payload_into : CaMsgTy → List ℕ → Outcome Error (List ℕ)
unfolding fill_text fill_c_text fill_mask
place_payload_into version buf = ok buf
place_payload_into (version_res _) buf = ok buf
place_payload_into (error _) buf = panic
place_payload_into client_name buf = fill_text client_name_text buf
place_payload_into (client_name_res _) buf = panic
place_payload_into (host_name name) buf = fill_text name buf
place_payload_into (search_request e) buf = fill_c_text e.channel buf
place_payload_into (search_res _) buf = panic
place_payload_into (create_chan x) buf = fill_c_text x.channel buf
place_payload_into (create_chan_res _) buf = ok buf
place_payload_into (create_chan_fail _) buf = ok buf
place_payload_into (access_rights_res _) buf = ok buf
place_payload_into (event_add _) buf = fill_mask buf
place_payload_into (event_add_res _) buf = ok buf
place_payload_into (read_notify _) buf = ok buf
place_payload_into (read_notify_res _) buf = ok buf
place_payload_into echo buf = ok buf

-- the bytes 0 to 15, with the payload length cast to `u16`
unfoldable pub head_bytes : CaMsgTy → ℕ → List ℕ
head_bytes ty n =
    be_bytes 2 (cmdid ty)
    ++ (be_bytes 2 (n % 2 ^ 16)
        ++ (be_bytes 2 (data_type ty)
            ++ (be_bytes 2 (data_count ty) ++ (be_bytes 4 (param1 ty) ++ be_bytes 4 (param2 ty)))))

-- The new content of `buf`.
unfoldable pub place_into : CaMsg → List ℕ → Outcome Error (List ℕ)
place_into msg buf = do
  n ← unwrap (payload_len msg.ty)
  if ltb (0x4000 - 16) n then panic else do
    headed ← unwrap (copy_at 0 (head_bytes msg.ty n) buf)
    payload ← place_payload_into msg.ty (drop 16 headed)
    ok (take 16 headed ++ payload)
