-- ===== src/FindIoc/Polling/Ended.antt =====
-- When the stream of `poll_next` in findioc.rs ends.
use daqingest.Base.{
  is_nil, ℕ, ◌≡◌, refl, Bool, true, false, ◌&&◌, Bool-cases, inl, inr, Option, none, some, List, [],
  ◌∷◌, Outcome, ok, err, panic, if◌then◌else◌, arith,
}
use daqingest.CaProto.Error.{Externals}
use daqingest.FindIoc.{Error, poll_failed, FindIocRes, FindIocStream}
use daqingest.FindIoc.Batches.{handle_result, clear_timed_out}
use daqingest.FindIoc.Datagram.{Poll, pending, ready, try_read}
use daqingest.FindIoc.Polling.{
  create_batches, create_fuel, ReadPoll, read_pending, read_ready_failed, read_ready, Events,
  results, failed, ended, not_ready, Round, goes_on, returns, panics, idle, take_answer,
  read_answer, work, poll_round, poll_rounds, poll_next,
}

-- nothing is queued, in flight or to be reported, and the stream was asked to stop then
pub record IsFinished (s : FindIocStream) : Type 0 where
  pub channels_input : s.channels_input ≡ []
  pub in_flight : s.in_flight ≡ []
  pub out_queue : s.out_queue ≡ []
  pub stops : s.stop_on_empty_queue ≡ true

-- what an end of the stream ensures
unfoldable pub AtEnd : Option Round → Type 0
AtEnd (some (returns ended s)) = IsFinished s
AtEnd (some (returns (results _) _)) = Unit {0}
AtEnd (some (returns (failed _) _)) = Unit {0}
AtEnd (some (returns not_ready _)) = Unit {0}
AtEnd (some (goes_on _)) = Unit {0}
AtEnd (some panics) = Unit {0}
AtEnd none = Unit {0}

is_nil-nil : {A : Type 0} (xs : List A) → is_nil xs ≡ true → xs ≡ []
is_nil-nil [] h = refl
is_nil-nil (x ∷ xs) h = absurd (ground arith)

stop-AtEnd :
    (sleeper_ready : Bool) (s : FindIocStream) (b : Bool)
    → s.stop_on_empty_queue ≡ b
    → (is_nil s.channels_input && is_nil s.in_flight && is_nil s.out_queue) ≡ true
    → AtEnd (
        some
          (if b then returns ended s else if sleeper_ready then goes_on s else returns not_ready s))
unfolding AtEnd
stop-AtEnd true s false stop empty = tt
stop-AtEnd false s false stop empty = tt
stop-AtEnd sleeper_ready s true stop empty = record {
  channels_input = is_nil-nil s.channels_input (ground arith);
  in_flight = is_nil-nil s.in_flight (ground arith);
  out_queue = is_nil-nil s.out_queue (ground arith);
  stops = stop;
}

idle-AtEnd : (sleeper_ready : Bool) (s : FindIocStream) → AtEnd (some (idle sleeper_ready s))
unfolding idle AtEnd
idle-AtEnd sleeper_ready s =
    elim (Bool-cases (is_nil s.channels_input && is_nil s.in_flight && is_nil s.out_queue)) [
      | inr c ↦ rw (idle, c) tt
      | inl c ↦ rw (idle, c) (stop-AtEnd sleeper_ready s s.stop_on_empty_queue refl c)
    ]

take_answer-AtEnd :
    (now : ℕ) (r : Outcome Error (Option Poll)) (s : FindIocStream) → AtEnd (take_answer now r s)
unfolding take_answer AtEnd
take_answer-AtEnd now (ok (some (ready src res))) s = by_handled (handle_result now src res s)
  where
    by_handled :
        (h : Outcome Error (Unit {0}) × FindIocStream)
        → AtEnd (
            some
              (elim h.0 [ ok _ ↦ goes_on h.1 | err e ↦ returns (failed e) h.1 | panic ↦ panics ]))
    by_handled (ok _, s') = tt
    by_handled (err e, s') = tt
    by_handled (panic, s') = tt
take_answer-AtEnd now (ok (some pending)) s = tt
take_answer-AtEnd now (ok none) s = tt
take_answer-AtEnd now (err e) s = tt
take_answer-AtEnd now panic s = tt

read_answer-AtEnd :
    (ext : Externals) (ev : Events) (r : Bool × FindIocStream) → AtEnd (read_answer ext ev r)
unfolding read_answer AtEnd
read_answer-AtEnd ext ev (again, s) = by_read ev.read
  where
    by_read :
        (x : ReadPoll)
        → AtEnd (elim x [
          | read_ready recv ↦ take_answer ev.now (try_read ext recv) s
          | read_ready_failed ↦ some (returns (failed poll_failed) s)
          | read_pending ↦ some (if again then goes_on s else idle ev.sleeper_ready s)
        ])
    by_read (read_ready recv) = take_answer-AtEnd ev.now (try_read ext recv) s
    by_read read_ready_failed = tt
    by_read read_pending = by_again again
      where
        by_again : (b : Bool) → AtEnd (some (if b then goes_on s else idle ev.sleeper_ready s))
        by_again true = tt
        by_again false = idle-AtEnd ev.sleeper_ready s

filled-AtEnd :
    (ext : Externals) (ev : Events) (filled : Option (Bool × FindIocStream))
    → AtEnd (elim filled [
      | none ↦ none
      | some r ↦ elim (create_batches (create_fuel r.1) ev.now r) [
        | none ↦ none
        | some created ↦ read_answer ext ev created
      ]
    ])
unfolding AtEnd
filled-AtEnd ext ev none = tt
filled-AtEnd ext ev (some r) = by_created (create_batches (create_fuel r.1) ev.now r)
  where
    by_created :
        (created : Option (Bool × FindIocStream))
        → AtEnd (elim created [ none ↦ none | some x ↦ read_answer ext ev x ])
    by_created none = tt
    by_created (some x) = read_answer-AtEnd ext ev x

poll_round-AtEnd : (ext : Externals) (ev : Events) (s : FindIocStream) → AtEnd (poll_round ext ev s)
unfolding poll_round work AtEnd
poll_round-AtEnd ext ev s = by_out s.out_queue
  where
    by_out :
        (q : List FindIocRes)
        → AtEnd (elim q [
          | [] ↦ work ext ev s
          | res ∷ more ↦ some (returns (results (res ∷ more)) (record s { out_queue = [] }))
        ])
    by_out [] = filled-AtEnd ext ev _
    by_out (res ∷ more) = tt

poll_rounds-AtEnd :
    (ext : Externals) (evs : List Events) (s : FindIocStream) → AtEnd (poll_rounds ext evs s)
unfolding poll_rounds AtEnd
poll_rounds-AtEnd ext [] s = tt
poll_rounds-AtEnd ext (ev ∷ evs) s =
    by_round (λ t. poll_rounds-AtEnd ext evs t) (poll_round ext ev s) (poll_round-AtEnd ext ev s)
  where
    by_round :
        ((t : FindIocStream) → AtEnd (poll_rounds ext evs t))
        → (r : Option Round) → AtEnd r
        → AtEnd (elim r [
          | some (goes_on s') ↦ poll_rounds ext evs s'
          | some (returns x s') ↦ some (returns x s')
          | some panics ↦ some panics
          | none ↦ none
        ])
    by_round later (some (goes_on s')) h = later s'
    by_round later (some (returns x s')) h = h
    by_round later (some panics) h = tt
    by_round later none h = tt

poll_next-AtEnd :
    (ext : Externals) (now : ℕ) (evs : List Events) (s : FindIocStream)
    → AtEnd (poll_next ext now evs s)
unfolding poll_next AtEnd
poll_next-AtEnd ext now evs s = by_cleared (clear_timed_out now s)
  where
    by_cleared :
        (c : Outcome Error (Unit {0}) × FindIocStream)
        → AtEnd (elim c.0 [
          | ok _ ↦ poll_rounds ext evs c.1
          | err e ↦ some (returns (failed e) c.1)
          | panic ↦ some panics
        ])
    by_cleared (ok _, t) = poll_rounds-AtEnd ext evs t
    by_cleared (err e, t) = tt
    by_cleared (panic, t) = tt

-- Whatever the answers of the socket and of the timer, when poll_next ends the stream, no
-- channel is queued, in flight or still to be reported, and the stream is one that stops when
-- the queue is empty.
pub poll_next-ended :
    (ext : Externals) (now : ℕ) (evs : List Events) (s t : FindIocStream)
    → poll_next ext now evs s ≡ some (returns ended t)
    → IsFinished t
unfolding AtEnd
poll_next-ended ext now evs s t h = rw h at (poll_next-AtEnd ext now evs s)
