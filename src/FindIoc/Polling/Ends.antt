-- ===== src/FindIoc/Polling/Ends.antt =====
-- A round of `poll_next` of findioc.rs ends.
use daqingest.Base.{
  is_nil, ℕ, zero, suc, ◌≤◌, ◌≡◌, ◌≢◌, refl, Bool, true, false, Bool-cases, inl, inr, Option, none,
  some, List, [], ◌∷◌, get_elem?, Outcome, ok, err, panic, if◌then◌else◌, arith,
}
use daqingest.CaProto.Error.{Externals}
use daqingest.FindIoc.{
  Error, poll_failed, SocketAddrV4, map_get, SearchBatch, FindIocRes, FindIocStream,
}
use daqingest.FindIoc.Datagram.{Poll, pending, ready, try_read}
use daqingest.FindIoc.Rounds.{try_read-ends}
use daqingest.FindIoc.Polling.{
  SendPoll, sent, send_would_block, send_pending, ready_failed, send_failed, send_buf, put_target,
  queue_target, queue_batch, fill_buf, create_batches, send_fuel, create_fuel, ReadPoll,
  read_pending, read_ready_failed, read_ready, Events, Round, results, failed, goes_on, returns,
  idle, take_answer, read_answer, work, poll_round,
}
use daqingest.FindIoc.Polling.Loops.{loops-end}

-- how many channels a batch takes, behind a step
per_batch : Option (Bool × FindIocStream) → ℕ → ℕ
per_batch none n = n
per_batch (some r) n = r.1.channels_per_batch

send_buf-per_batch :
    (x : SendPoll) (again : Bool) (s : FindIocStream)
    → (send_buf x (again, s)).1.channels_per_batch ≡ s.channels_per_batch
unfolding send_buf
send_buf-per_batch sent again s = refl
send_buf-per_batch send_would_block again s = refl
send_buf-per_batch send_pending again s = refl
send_buf-per_batch ready_failed again s = refl
send_buf-per_batch send_failed again s = refl

put_target-per_batch :
    (x : Option SocketAddrV4) (bytes : List ℕ) (s : FindIocStream)
    → (put_target x bytes s).channels_per_batch ≡ s.channels_per_batch
unfolding put_target
put_target-per_batch none bytes s = refl
put_target-per_batch (some _) bytes s = refl

queue_target-per_batch :
    (bid : ℕ) (batch : SearchBatch) (tgts : List ℕ) (s : FindIocStream)
    → (queue_target bid batch tgts s).channels_per_batch ≡ s.channels_per_batch
unfolding queue_target
queue_target-per_batch bid batch [] s = refl
queue_target-per_batch bid batch (tgt ∷ tgts) s = put_target-per_batch (get_elem? s.tgts tgt) _ _

queue_batch-per_batch :
    (bid : ℕ) (x : Option SearchBatch) (s : FindIocStream)
    → (queue_batch bid x s).channels_per_batch ≡ s.channels_per_batch
unfolding queue_batch
queue_batch-per_batch bid none s = refl
queue_batch-per_batch bid (some batch) s = queue_target-per_batch bid batch batch.tgts s

fill_buf-per_batch :
    (fuel : ℕ) (again : Bool) (s : FindIocStream)
    → per_batch (fill_buf fuel (again, s)) s.channels_per_batch ≡ s.channels_per_batch
unfolding fill_buf per_batch queue_batch
fill_buf-per_batch zero again s = refl
fill_buf-per_batch (suc fuel) again s = elim (Bool-cases (is_nil s.buf1)) [
  | inl e ↦ rw e (by_queue (λ x t. fill_buf-per_batch fuel x t) s.batch_send_queue)
  | inr e ↦ rw e refl
]
  where
    by_queue :
        ((x : Bool) (t : FindIocStream)
          → per_batch (fill_buf fuel (x, t)) t.channels_per_batch ≡ t.channels_per_batch)
        → (q : List ℕ)
        → per_batch
            (elim q [
              | [] ↦ some (again, s)
              | bid ∷ queue ↦ fill_buf fuel (
                true,
                queue_batch bid (map_get bid s.in_flight) (record s { batch_send_queue = queue }),
              )
            ])
            s.channels_per_batch
          ≡ s.channels_per_batch
    by_queue later [] = refl
    by_queue later (bid ∷ queue) =
        let popped = record s { batch_send_queue = queue } in
        let same = queue_batch-per_batch bid (map_get bid s.in_flight) popped in
        rw same at (later true (queue_batch bid (map_get bid s.in_flight) popped))

take_answer-Ends :
    (now : ℕ) (r : Outcome Error (Option Poll)) (s : FindIocStream)
    → r ≢ ok none
    → take_answer now r s ≢ none
unfolding take_answer
take_answer-Ends now (ok (some (ready src res))) s h = ground arith
take_answer-Ends now (ok (some pending)) s h = ground arith
take_answer-Ends now (ok none) s h = absurd (h refl)
take_answer-Ends now (err e) s h = ground arith
take_answer-Ends now panic s h = ground arith

read_answer-Ends :
    (ext : Externals) (ev : Events) (again : Bool) (s : FindIocStream)
    → read_answer ext ev (again, s) ≢ none
unfolding read_answer
read_answer-Ends ext ev again s = by_read ev.read
  where
    by_read :
        (x : ReadPoll)
        → ◌≢◌ {A = Option Round}
            (elim x [
              | read_ready recv ↦ take_answer ev.now (try_read ext recv) s
              | read_ready_failed ↦ some (returns (failed poll_failed) s)
              | read_pending ↦ some (if again then goes_on s else idle ev.sleeper_ready s)
            ])
            none
    by_read (read_ready recv) =
        take_answer-Ends ev.now (try_read ext recv) s (try_read-ends ext recv)
    by_read read_ready_failed = ground arith
    by_read read_pending = ground arith

-- when the loops end, the round does
work-Ends :
    (ext : Externals) (ev : Events) (filled : Option (Bool × FindIocStream))
    → filled ≢ none
    → ((r : Bool × FindIocStream)
        → filled ≡ some r
        → create_batches (create_fuel r.1) ev.now r ≢ none)
    → ◌≢◌ {A = Option Round}
        (elim filled [
          | none ↦ none
          | some r ↦ elim (create_batches (create_fuel r.1) ev.now r) [
            | none ↦ none
            | some created ↦ read_answer ext ev created
          ]
        ])
        none
work-Ends ext ev none some_filled ends = absurd (some_filled refl)
work-Ends ext ev (some r) some_filled ends =
    by_created (create_batches (create_fuel r.1) ev.now r) (ends r refl)
  where
    by_created :
        (created : Option (Bool × FindIocStream))
        → created ≢ none
        → ◌≢◌ {A = Option Round} (elim created [ none ↦ none | some x ↦ read_answer ext ev x ]) none
    by_created none h = absurd (h refl)
    by_created (some (again, s)) h = read_answer-Ends ext ev again s

-- When a batch takes at least one channel, a round of poll_next ends whatever the socket and the
-- timer answer: enough rounds are given to its loops over the batches to send and over the
-- channels of the queue, and to the loop over the messages of the datagram it reads.
pub poll_round-ends :
    (ext : Externals) (ev : Events) (s : FindIocStream)
    → 1 ≤ s.channels_per_batch
    → poll_round ext ev s ≢ none
unfolding poll_round work per_batch
poll_round-ends ext ev s one = by_out s.out_queue
  where
    ends_from :
        (start : Bool × FindIocStream)
        → start.1.channels_per_batch ≡ s.channels_per_batch
        → (r : Bool × FindIocStream) → fill_buf (send_fuel start.1) start ≡ some r
        → create_batches (create_fuel r.1) ev.now r ≢ none
    ends_from (again, t) same (again', r) e =
        let kept = rw e at (fill_buf-per_batch (send_fuel t) again t) in
        (loops-end ev.now again' r (omega (arith, kept, same, one))).1

    written : Bool × FindIocStream
    written = if is_nil s.buf1 then (false, s) else send_buf ev.send (false, s)

    written-per_batch : written.1.channels_per_batch ≡ s.channels_per_batch
    written-per_batch = elim (Bool-cases (is_nil s.buf1)) [
      | inl e ↦ rw e refl
      | inr e ↦ rw e (send_buf-per_batch ev.send false s)
    ]

    filled-Some :
        (start : Bool × FindIocStream)
        → start.1.channels_per_batch ≡ s.channels_per_batch
        → fill_buf (send_fuel start.1) start ≢ none
    filled-Some (again, t) same = (loops-end ev.now again t (omega (arith, same, one))).0

    by_out :
        (q : List FindIocRes)
        → ◌≢◌ {A = Option Round}
            (elim q [
              | [] ↦ work ext ev s
              | res ∷ more ↦ some (returns (results (res ∷ more)) (record s { out_queue = [] }))
            ])
            none
    by_out [] =
        work-Ends ext ev (fill_buf (send_fuel written.1) written)
          (filled-Some written written-per_batch) (ends_from written written-per_batch)
    by_out (res ∷ more) = ground arith
