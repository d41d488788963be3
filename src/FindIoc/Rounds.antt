-- ===== src/FindIoc/Rounds.antt =====
-- The loop of `try_read` of findioc.rs ends.
use daqingest.Base.{
  ℕ, zero, suc, ◌*◌, ◌≤◌, ◌<◌, ◌≡◌, ◌≢◌, refl, ap, ◌∙◌, Bool-cases, inl, inr, Option, none, some,
  List, ◌∷◌, length, take, length-take, length-drop, le→leb, ltb, ltb_false→le, ◌==◌, arith,
  Outcome, ok, err, panic, Act, ◌>>=◌, ◌>>◌, and_then, pure,
}
use daqingest.SlideBuf
use daqingest.SlideBuf.{SlideBuf, put_slice, data_slice, adv}
use daqingest.SlideBuf.Invariant.{IsValid, contents}
use daqingest.SlideBuf.Read.{advanced, advanced-IsValid, adv-eq}
use daqingest.CaProto.Error.{Externals}
use daqingest.CaProto.Message.{CaMsg}
use daqingest.CaProto.Header.{HeadInfo, from_netbuf}
use daqingest.CaProto.Parser.Safety.{from_netbuf-enough}
use daqingest.FindIoc.{Error, SocketAddrV4}
use daqingest.FindIoc.Datagram.{
  RecvFrom, would_block, read_failed, datagram, Poll, on_nb, decode, read_msgs, results_of,
  read_datagram, try_read,
}
use daqingest.FindIoc.Answer.{data_slice-eq, on_nb-ok, local_buffer, local-contents}

-- A result other than that the rounds ran out.
abbrev Ends : {A : Type 0} → Outcome Error (Option A) × SlideBuf → Type 0
Ends r = r.0 ≢ ok none

decode-Ends :
    {A : Type 0} (r : Outcome Error CaMsg) (s : SlideBuf)
    (f : CaMsg → Act SlideBuf Error (Option A))
    → ((msg : CaMsg) → Ends (f msg s))
    → Ends (and_then (r, s) f)
decode-Ends (ok msg) s f h = h msg
decode-Ends (err e) s f h = ground arith
decode-Ends panic s f h = ground arith

-- what the loop does behind a message
abbrev behind : Externals → ℕ → HeadInfo → CaMsg → Act SlideBuf Error (Option (List CaMsg))
behind ext fuel hi msg = do
  on_nb (adv hi.payload_size)
  later ← read_msgs ext fuel
  pure (elim later [ some msgs ↦ some (msg ∷ msgs) | none ↦ none ])

later-Ends :
    (msg : CaMsg) (r : Outcome Error (Option (List CaMsg)) × SlideBuf)
    → Ends r
    → Ends {A = List CaMsg}
        (and_then r (λ later. pure (elim later [ some msgs ↦ some (msg ∷ msgs) | none ↦ none ])))
later-Ends msg (ok (some msgs), s) h = ground arith
later-Ends msg (ok none, s) h = absurd (h refl)
later-Ends msg (err e, s) h = ground arith
later-Ends msg (panic, s) h = ground arith

read_msgs-Ends :
    (ext : Externals) (fuel : ℕ) {s : SlideBuf}
    → IsValid s
    → length (contents s) < 16 * fuel
    → Ends (read_msgs ext fuel s)
unfolding read_msgs decode
read_msgs-Ends ext zero v h = absurd (omega arith)
read_msgs-Ends ext (suc fuel) {s} v h = elim (Bool-cases (ltb (length (contents s)) 16)) [
  | inl short ↦ rw (data_slice-eq v, short) (ground arith)
  | inr long ↦
      let enough : 16 ≤ length (contents s) = ltb_false→le _ _ long in
      let (hi, read) = from_netbuf-enough v enough in
      let a = advanced-IsValid v 16 enough in
      let left = ap length a.1 ∙ length-drop 16 (contents s) in
      rw (data_slice-eq v, long, on_nb-ok from_netbuf s read, data_slice-eq a.0)
        (elim (Bool-cases (ltb (length (contents (advanced 16 s))) hi.payload_size)) [
          | inl short ↦ rw short (ground arith)
          | inr whole ↦
              let fits : hi.payload_size ≤ length (contents (advanced 16 s)) =
                ltb_false→le _ _ whole in
              let b = advanced-IsValid a.0 hi.payload_size fits in
              let moved : on_nb (adv hi.payload_size) (advanced 16 s)
                  ≡ (ok tt, advanced hi.payload_size (advanced 16 s)) =
                on_nb-ok (adv hi.payload_size) (advanced 16 s)
                  (adv-eq a.0 hi.payload_size ∙ rw (le→leb _ _ fits)) in
              let rest = ap length b.1 ∙ length-drop hi.payload_size (contents (advanced 16 s)) in
              rw whole (
                decode-Ends (decode ext hi (contents (advanced 16 s)) (advanced 16 s)).0
                  (advanced 16 s) (behind ext fuel hi)
                  (λ msg. rw moved (
                    later-Ends msg _
                      (read_msgs-Ends ext fuel b.0 (omega (arith, h, left, rest, fits, enough))))))
        ])
]

datagram-Ends :
    (src : SocketAddrV4) (r : Outcome Error (Option (List CaMsg)) × SlideBuf)
    → Ends r
    → Ends {A = Poll} (
        and_then r (λ msgs. elim msgs [
          | none ↦ pure none
          | some ms ↦ λ nb.
              (elim (results_of src ms) [ ok p ↦ ok (some p) | err e ↦ err e | panic ↦ panic ], nb)
        ]))
datagram-Ends src (ok (some msgs), s) h = by_results (results_of src msgs)
  where
    by_results :
        (r : Outcome Error Poll)
        → elim r [ ok p ↦ ok (some p) | err e ↦ err e | panic ↦ panic ] ≢ ok none
    by_results (ok p) = ground arith
    by_results (err e) = ground arith
    by_results panic = ground arith
datagram-Ends src (ok none, s) h = absurd (h refl)
datagram-Ends src (err e, s) h = ground arith
datagram-Ends src (panic, s) h = ground arith

-- Whatever is received, the loop over the messages of a datagram ends within its rounds, so that
-- there is a result, an error or a panic.
pub try_read-ends : (ext : Externals) (received : RecvFrom) → try_read ext received ≢ ok none
unfolding try_read read_datagram
try_read-ends ext would_block = ground arith
try_read-ends ext read_failed = ground arith
try_read-ends ext (datagram src xs) =
    let bytes = take 1024 xs in
    elim (Bool-cases (length bytes == 0)) [
      | inl empty ↦ rw empty (ground arith)
      | inr some_bytes ↦
          let small : length bytes ≤ 1024 = omega (arith, length-take 1024 xs) in
          let b = local_buffer bytes small in
          let one : 1 ≤ length bytes = ground arith in
          rw (some_bytes, on_nb-ok (put_slice bytes) (SlideBuf.new 2048) b.reply)
            (datagram-Ends src _ (
              read_msgs-Ends ext (length bytes) b.valid
                (omega (arith, one, ap length (local-contents bytes small)))))
    ]
