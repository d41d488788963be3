-- ===== src/Zmtp/Safety/Rounds.antt =====
-- `Zmtp::loop_body` and `poll_next` of zmtpproto.rs: no panic before the end, and an end behind every
-- error.
use daqingest.Base.{
  ℕ, ◌+◌, ◌≡◌, ◌≢◌, refl, Bool, true, false, ◌&&◌, ◌||◌, inl, inr, length-replicate, Option, none,
  some, List, [], ◌∷◌, ltb, arith, Outcome, and_then, ok, Runs, returns, fails, Runs-and_then,
  Runs-if,
}
use daqingest.Socket.{Poll, ready, pending}
use daqingest.SlideBuf
use daqingest.SlideBuf.{
  SlideBuf, cap, len, adv, wadv, make_room, available_writable_area, data_slice,
}
use daqingest.Zmtp.{Error, ZmtpEvent, SocketType, Zmtp, new, need_min}
use daqingest.Zmtp.Parse.{parse_item}
use daqingest.Zmtp.Round.{
  IntPoll, no_work, pend, empty, finished, item, item_count, Answers, attempt, serialize, as_result,
  parse_result, parse_round, is_idle, error_or, settle, conclude, loop_body, Next, ended, event,
  failed, not_ready, answer, rounds, poll_next,
}
use daqingest.Zmtp.Safety.{IsSized, Buffers}
use daqingest.Zmtp.Safety.States.{IsSound, is_scanning, parse_item-Step}
use daqingest.Zmtp.Safety.Sockets.{IsStopped, Sound, write_output-Sound, read_input-Sound}

error_or-some : {A : Type 0} (x : IntPoll A) (o : Option Error) → o ≢ none → error_or x o ≢ none
unfolding error_or
error_or-some x o h = ground arith

and_false : (b : Bool) → (b && false) ≡ false
and_false b = ground arith

-- what a round of the parser leaves
Parsed : ℕ → ℕ → IntPoll ZmtpEvent → Zmtp → Type 0
Parsed n k (item (inl _)) z = Buffers n k z
Parsed n k _ z = IsSound n k z

module _ {n k : ℕ} where
  parse_result-Parsed :
      (r : Outcome Error (Option ZmtpEvent) × Zmtp)
      → Runs (λ z. Buffers n k z) (λ _ z. IsSound n k z) r
      → Runs
          (λ z. IsStopped n k z)
          (λ p z. Parsed n k p z)
          (and_then (as_result r.0, r.1) (λ x z. (ok (parse_result x), z)))
  unfolding parse_result Parsed
  parse_result-Parsed _ (returns {a = some _} s) = returns s
  parse_result-Parsed _ (returns {a = none} s) = returns s
  parse_result-Parsed _ (fails b) = returns b

  parse_round-Parsed :
      (count : ℕ) {z : Zmtp}
      → IsSound n k z
      → Runs (λ z'. IsStopped n k z') (λ p z'. Parsed n k p z') (parse_round count z)
  unfolding parse_round attempt Parsed
  parse_round-Parsed count {z} s =
      Runs-if (ltb 0 count || ltb (len z.buf) (need_min z.conn_state)) _ _ (returns s)
        (parse_result-Parsed (parse_item z) (parse_item-Step s))

  -- the rows of the final match below the first
  settle-Sound :
      (o : Option Error) (x : Option (Poll ZmtpEvent)) {z : Zmtp}
      → Buffers n k z
      → (o ≡ none → IsSound n k z)
      → Sound n k ((settle o x) z)
  unfolding settle
  settle-Sound (some e) x b s =
      fails (record { inp = b.inp; out = b.out; done = refl; complete = b.going.1 })
  settle-Sound none x b s = returns (s refl)

  conclude-IsSound :
      (s w r : IntPoll Unit) (p : IntPoll ZmtpEvent) {z : Zmtp}
      → IsSound n k z
      → Sound n k (conclude s w r p z)
  unfolding conclude
  conclude-IsSound s w r p h =
      Runs-if (is_idle s && is_idle w && is_idle r && is_idle p) _ _ (returns h)
        (settle-Sound _ _ h.buffers (λ _. h))

  conclude-failed :
      (s w r : IntPoll Unit) (e : Error) {z : Zmtp}
      → Buffers n k z
      → Sound n k (conclude s w r (item (inl e)) z)
  unfolding conclude is_idle error_or
  conclude-failed s w r e b = rw (and_false (is_idle s && is_idle w && is_idle r)) (
      settle-Sound _ _ b (λ q.
        absurd (error_or-some s _ (error_or-some w _ (error_or-some r (some e) (ground arith))) q)))

  conclude-Sound :
      (s w r : IntPoll Unit) (p : IntPoll ZmtpEvent) (z : Zmtp)
      → Parsed n k p z
      → Sound n k (conclude s w r p z)
  unfolding Parsed
  conclude-Sound s w r (item (inl e)) z b = conclude-failed s w r e b
  conclude-Sound s w r (item (inr x)) z h = conclude-IsSound s w r (item (inr x)) h
  conclude-Sound s w r no_work z h = conclude-IsSound s w r no_work h
  conclude-Sound s w r pend z h = conclude-IsSound s w r pend h
  conclude-Sound s w r empty z h = conclude-IsSound s w r empty h
  conclude-Sound s w r finished z h = conclude-IsSound s w r finished h

  -- A round from a sound state does not panic. It returns in a sound state, or it fails and ends the
  -- stream.
  pub loop_body-Sound : (a : Answers) {z : Zmtp} → IsSound n k z → Sound n k (loop_body a z)
  unfolding loop_body
  loop_body-Sound a {z} h =
      let s = serialize a.data_rx z in
      Runs-and_then _ (write_output-Sound (item_count s) a.write h) (λ w z h.
        Runs-and_then _ (read_input-Sound (item_count s + item_count w) a.read h) (λ r z h.
          Runs-and_then _ (parse_round-Parsed (item_count s + item_count w + item_count r) h)
            (λ p z h. conclude-Sound s w r p z h)))

-- what a poll leaves: a stream that goes on behind an event, one that ends behind an error
pub data Polled (n k : ℕ) : Option (Outcome Error Next × Zmtp) → Type 0 where
  unanswered : Polled n k none
  goes_on : {x : ZmtpEvent} {z : Zmtp} → IsSound n k z → Polled n k (some (ok (event x), z))
  waits : {z : Zmtp} → IsSound n k z → Polled n k (some (ok not_ready, z))
  stops : {e : Error} {z : Zmtp} → IsStopped n k z → Polled n k (some (ok (failed e), z))

module _ {n k : ℕ} where
  answer-Polled :
      {r : Outcome Error (Option (Poll ZmtpEvent)) × Zmtp}
      (go : Zmtp → Option (Outcome Error Next × Zmtp))
      → Sound n k r
      → ((z : Zmtp) → IsSound n k z → Polled n k (go z))
      → Polled n k (answer r go)
  unfolding answer
  answer-Polled go (returns {a = some (ready x)} s) next = goes_on s
  answer-Polled go (returns {a = some pending} s) next = waits s
  answer-Polled go (returns {a = none} {s} h) next = next s h
  answer-Polled go (fails s) next = stops s

  rounds-Polled :
      (answers : List Answers) {z : Zmtp} → IsSound n k z → Polled n k (rounds answers z)
  unfolding rounds
  rounds-Polled [] s = unanswered
  rounds-Polled (a ∷ later) s = answer-Polled _ (loop_body-Sound a s) (λ z t. rounds-Polled later t)

  -- Whatever the channel and the socket answer, a poll of a stream that has not ended, with
  -- valid buffers of which the input is at least 104 bytes and at least twice what the state
  -- waits for, and that does not scan for a lock, does not panic, and each answer leaves such a
  -- stream, except that an error leaves a stream that is done. When the given answers run out in
  -- the midst of the rounds nothing is said.
  pub poll_next-Polled :
      (answers : List Answers) {z : Zmtp} → IsSound n k z → Polled n k (poll_next answers z)
  unfolding poll_next
  poll_next-Polled answers s = simp (s.buffers.going.1, s.buffers.going.0) (rounds-Polled answers s)

  failed-IsStopped : {e : Error} {z : Zmtp} → Polled n k (some (ok (failed e), z)) → IsStopped n k z
  failed-IsStopped (stops s) = s

  stopped-ended :
      (answers : List Answers) {z : Zmtp}
      → IsStopped n k z
      → poll_next answers z ≡ some (ok ended, record z { complete = true })
  unfolding poll_next
  stopped-ended answers t = simp (t.complete, t.done) refl

  -- After a poll of such a stream that gave an error, of the socket, of the protocol or of a
  -- frame that is too large, the next poll gives the end of the stream, and a poll after that is
  -- one on a complete stream.
  pub failed-ended :
      (answers later : List Answers) (e : Error) {z z' : Zmtp}
      → IsSound n k z
      → poll_next answers z ≡ some (ok (failed e), z')
      → poll_next later z' ≡ some (ok ended, record z' { complete = true })
  failed-ended answers later e s q =
      stopped-ended later (failed-IsStopped (rw q at (poll_next-Polled answers s)))

-- A new connection is sound.
pub new-IsSound : (t : SocketType) → IsSound 131072 131072 (new t)
unfolding new SlideBuf.new need_min is_scanning
new-IsSound t = record {
  buffers = record { inp = size; out = size; going = (refl, refl) };
  roomy = omega arith;
  need = omega arith;
  locked = refl;
}
  where
    size : IsSized 131072 (SlideBuf.new 131072)
    size =
        let e = length-replicate {A = ℕ} 131072 0 in
        (
          record { rp_le_wp = omega arith; wp_le_cap = omega (arith, e); small = omega (arith, e) },
          e,
        )
