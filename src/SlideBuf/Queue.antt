-- ===== src/SlideBuf/Queue.antt =====
-- A slidebuf.rs buffer against a queue of bytes of bounded size: no sequence of calls tells them
-- apart, wherever the bytes stand in the buffer.
use daqingest.Base.{
  ℕ, ◌-◌, ◌+◌, ◌≡◌, refl, List, [], ◌∷◌, ◌++◌, arith, length, take, drop, leb, if◌then◌else◌,
  Bool-cases, leb→le, inl, inr, ok, err, Outcome, be_value, be_bytes,
}
use daqingest.SlideBuf.{
  SlideBuf, Error, not_enough_bytes, not_enough_space, adv, read_bytes, read_u8, put_slice, put_be,
  rewind, reset, rewind_if_needed, read_u16_be, read_u32_be, read_u64_be, put_u8, put_u16_be,
  put_u32_be, put_u64_be,
}
use daqingest.SlideBuf.Invariant.{IsValid, Kept, contents, rewind-eq, rewound-Kept}
use daqingest.SlideBuf.Room.{rewind_if_needed-Kept}
use daqingest.SlideBuf.Write.{put_slice_lem}
use daqingest.SlideBuf.Read.{
  read_reply, read_bytes-eq, read_be-eq, adv-eq, read_u8-eq, advanced-IsValid,
}

-- the calls of a client, and what it sees of each
pub data Call : Type 0 where
  put_slice_call : List ℕ → Call
  put_u8_call put_u16_call put_u32_call put_u64_call : ℕ → Call
  read_bytes_call adv_call rewind_if_needed_call : ℕ → Call
  read_u8_call read_u16_call read_u32_call read_u64_call rewind_call reset_call : Call

pub data Reply : Type 0 where
  done : Outcome Error Unit → Reply
  bytes : Outcome Error (List ℕ) → Reply
  number : Outcome Error ℕ → Reply

reply_of : {A : Type 0} → (Outcome Error A → Reply) → Outcome Error A × SlideBuf → Reply × SlideBuf
reply_of f (r, s) = (f r, s)

unfoldable pub call : Call → SlideBuf → Reply × SlideBuf
unfolding reply_of reset put_u8 put_u16_be put_u32_be put_u64_be read_u16_be read_u32_be read_u64_be
    put_be
call (put_slice_call xs) s = reply_of done (put_slice xs s)
call (put_u8_call v) s = reply_of done (put_u8 v s)
call (put_u16_call v) s = reply_of done (put_u16_be v s)
call (put_u32_call v) s = reply_of done (put_u32_be v s)
call (put_u64_call v) s = reply_of done (put_u64_be v s)
call (read_bytes_call n) s = reply_of bytes (read_bytes n s)
call (adv_call n) s = reply_of done (adv n s)
call (rewind_if_needed_call n) s = reply_of done (rewind_if_needed n s)
call read_u8_call s = reply_of number (read_u8 s)
call read_u16_call s = reply_of number (read_u16_be s)
call read_u32_call s = reply_of number (read_u32_be s)
call read_u64_call s = reply_of number (read_u64_be s)
call rewind_call s = reply_of done (rewind s)
call reset_call s = (done (ok tt), reset s)

-- The queue.
module _ (cap : ℕ) where
  enqueue : List ℕ → List ℕ → Reply × List ℕ
  enqueue xs q =
      if leb (length q + length xs) cap
      then (done (ok tt), q ++ xs)
      else (done (err (not_enough_space cap (cap - length q) (length xs))), q)

  dequeue : {A : Type 0} → (Outcome Error A → Reply) → ℕ → (List ℕ → A) → List ℕ → Reply × List ℕ
  dequeue reply n f q =
      if leb n (length q)
      then (reply (ok (f (take n q))), drop n q)
      else (reply (err not_enough_bytes), q)

  unfoldable pub queue_call : Call → List ℕ → Reply × List ℕ
  unfolding enqueue dequeue
  queue_call (put_slice_call xs) q = enqueue xs q
  queue_call (put_u8_call v) q = enqueue (be_bytes 1 v) q
  queue_call (put_u16_call v) q = enqueue (be_bytes 2 v) q
  queue_call (put_u32_call v) q = enqueue (be_bytes 4 v) q
  queue_call (put_u64_call v) q = enqueue (be_bytes 8 v) q
  queue_call (read_bytes_call n) q = dequeue bytes n (λ xs. xs) q
  queue_call (adv_call n) q = dequeue done n (λ _. tt) q
  queue_call (rewind_if_needed_call n) q = (done (ok tt), q)
  queue_call read_u8_call q = dequeue number 1 be_value q
  queue_call read_u16_call q = dequeue number 2 be_value q
  queue_call read_u32_call q = dequeue number 4 be_value q
  queue_call read_u64_call q = dequeue number 8 be_value q
  queue_call rewind_call q = (done (ok tt), q)
  queue_call reset_call q = (done (ok tt), [])

  unfoldable pub queue_run : List Call → List ℕ → List Reply
  queue_run [] q = []
  queue_run (c ∷ cs) q = let (r, q') = queue_call c q in r ∷ queue_run cs q'

unfoldable pub run : List Call → SlideBuf → List Reply
run [] s = []
run (c ∷ cs) s = let (r, s') = call c s in r ∷ run cs s'

-- one call of the buffer against one of the queue
record Refines (s : SlideBuf) (out : Reply × SlideBuf) (spec : Reply × List ℕ) : Type 0 where
  valid : IsValid out.1
  size : length out.1.buf ≡ length s.buf
  agrees : (out.0, contents out.1) ≡ spec

module _ {s : SlideBuf} (v : IsValid s) where
  put-Refines :
      (xs : List ℕ)
      → Refines s (reply_of done (put_slice xs s)) (enqueue (length s.buf) xs (contents s))
  unfolding reply_of enqueue
  put-Refines xs =
      let p = put_slice_lem xs v in
      record { valid = p.valid; size = p.size; agrees = ground (arith, p.reply, p.bytes) }

  read-Refines :
      {A : Type 0} (reply : Outcome Error A → Reply) (n : ℕ) (f : List ℕ → A)
      → Refines s
          (reply_of reply (read_reply n f s))
          (dequeue (length s.buf) reply n f (contents s))
  unfolding reply_of dequeue
  read-Refines reply n f = elim (Bool-cases (leb n (length (contents s)))) [
    | inl h ↦
        let a = advanced-IsValid v n (leb→le _ _ h) in
        rw h record { valid = a.0; size = refl; agrees = rw a.1 }
    | inr h ↦ rw h record { valid = v; size = refl; agrees = refl }
  ]

  Kept-Refines : {t : SlideBuf} → Kept s t → Refines s (done (ok tt), t) (done (ok tt), contents s)
  Kept-Refines k = record { valid = k.valid; size = k.size; agrees = rw k.same }

  call-Refines : (c : Call) → Refines s (call c s) (queue_call (length s.buf) c (contents s))
  unfolding call queue_call
  call-Refines (put_slice_call xs) = put-Refines xs
  call-Refines (put_u8_call n) = put-Refines (be_bytes 1 n)
  call-Refines (put_u16_call n) = put-Refines (be_bytes 2 n)
  call-Refines (put_u32_call n) = put-Refines (be_bytes 4 n)
  call-Refines (put_u64_call n) = put-Refines (be_bytes 8 n)
  call-Refines (read_bytes_call n) = rw (read_bytes-eq v n) (read-Refines bytes n (λ xs. xs))
  call-Refines (adv_call n) = rw (adv-eq v n) (read-Refines done n (λ _. tt))
  call-Refines (rewind_if_needed_call n) =
      let k = rewind_if_needed-Kept n v in rw k.0 (Kept-Refines k.1)
  call-Refines read_u8_call = rw (read_u8-eq v) (read-Refines number 1 be_value)
  call-Refines read_u16_call = rw (read_be-eq v 2) (read-Refines number 2 be_value)
  call-Refines read_u32_call = rw (read_be-eq v 4) (read-Refines number 4 be_value)
  call-Refines read_u64_call = rw (read_be-eq v 8) (read-Refines number 8 be_value)
  call-Refines rewind_call = rw (rewind-eq v) (Kept-Refines (rewound-Kept v))
  call-Refines reset_call = record { valid = omega arith; size = refl; agrees = refl }

-- From a valid buffer every sequence of calls gets the replies of a queue of bytes that holds
-- the same bytes and is bounded by the size of the buffer.
pub run_refines :
    (cs : List Call) {s : SlideBuf}
    → IsValid s
    → run cs s ≡ queue_run (length s.buf) cs (contents s)
unfolding run queue_run
run_refines [] v = refl
run_refines (c ∷ cs) v = let h = call-Refines v c in rw (run_refines cs h.valid, ← h.agrees, h.size)

-- Every call on a valid buffer leaves a valid buffer of the same size, on every branch.
pub call-IsValid :
    (c : Call) {s : SlideBuf}
    → IsValid s
    → IsValid (call c s).1 × (length (call c s).1.buf ≡ length s.buf)
call-IsValid c v = let h = call-Refines v c in (h.valid, h.size)
