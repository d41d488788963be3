-- ===== src/FindIoc/Polling.antt =====
-- `FindIocStream::poll_next` of findioc.rs.
pub mod Loops
pub mod Ended
pub mod Ends
use daqingest.Base.{
  ℕ, zero, suc, ◌+◌, Bool, true, false, ◌&&◌, ◌||◌, Option, none, some, List, [], ◌∷◌, ◌++◌, length,
  get_elem?, ltb, ◌==◌, if◌then◌else◌, is_nil, Outcome, ok, err, panic,
}
use daqingest.CaProto.Error.{Externals}
use daqingest.FindIoc.{
  Error, poll_failed, BTreeMap, map_get, map_set, SocketAddrV4, SearchBatch, FindIocRes,
  FindIocStream,
}
use daqingest.FindIoc.Batches.{create_in_flight, handle_result, clear_timed_out}
use daqingest.FindIoc.Datagram.{RecvFrom, Poll, pending, ready, serialize_batch, try_read}

-- what the socket answers to a write: `afd.poll_write_ready` and `try_send`
pub data SendPoll : Type 0 where
  send_pending ready_failed sent send_failed send_would_block : SendPoll

-- The write: errors are logged, and the bytes stay.
unfoldable pub send_buf : SendPoll → Bool × FindIocStream → Bool × FindIocStream
send_buf sent (again, s) = (true, record s { buf1 = [] })
send_buf send_would_block (again, s) = (true, s)
send_buf _ (again, s) = (again, s)

-- the serialized batch for a target
unfoldable pub put_target : Option SocketAddrV4 → List ℕ → FindIocStream → FindIocStream
put_target (some tgt) bytes s = record s { buf1 = bytes; send_addr = tgt }
put_target none bytes s = record s { buf1 = [] }

-- the next target of a batch that was taken from the queue
unfoldable pub queue_target : ℕ → SearchBatch → List ℕ → FindIocStream → FindIocStream
queue_target bid batch [] s = s
queue_target bid batch (tgtix ∷ tgts) s =
    put_target (get_elem? s.tgts tgtix) (serialize_batch s.buf1 batch) (record s {
      in_flight = map_set bid (record batch { tgts = tgts }) s.in_flight;
      batch_send_queue = s.batch_send_queue ++ (bid ∷ []);
    })

unfoldable pub queue_batch : ℕ → Option SearchBatch → FindIocStream → FindIocStream
queue_batch bid none s = s
queue_batch bid (some batch) s = queue_target bid batch batch.tgts s

-- `while self.buf1.is_empty()`, with as many rounds as `fuel`: `none` when they run out
unfoldable pub fill_buf : ℕ → Bool × FindIocStream → Option (Bool × FindIocStream)
fill_buf zero (again, s) = none
fill_buf (suc fuel) (again, s) =
    if is_nil s.buf1
    then (elim s.batch_send_queue [
      | [] ↦ some (again, s)
      | bid ∷ queue ↦
          fill_buf fuel (
            true,
            queue_batch bid (map_get bid s.in_flight) (record s { batch_send_queue = queue }),
          )
    ])
    else some (again, s)

-- `while !self.channels_input.is_empty() && ..`, in the same way
unfoldable pub create_batches : ℕ → ℕ → Bool × FindIocStream → Option (Bool × FindIocStream)
create_batches zero now (again, s) = none
create_batches (suc fuel) now (again, s) =
    elim (is_nil s.channels_input
      || (if ltb (length s.in_flight) s.in_flight_max then false else true)) [
        | true ↦ some (again, s)
        | false ↦ create_batches fuel now (true, create_in_flight now s)
      ]

-- the targets that the batches in flight still have
abbrev pub total_tgts : BTreeMap SearchBatch → ℕ
total_tgts [] = 0
total_tgts ((_, b) ∷ m) = length b.tgts + total_tgts m

-- Every round of the first loop takes a batch from the queue or a target from a batch, every round
-- of the second a channel, when a batch takes one.
unfoldable pub send_fuel : FindIocStream → ℕ
send_fuel s = suc (length s.batch_send_queue + total_tgts s.in_flight)

unfoldable pub create_fuel : FindIocStream → ℕ
create_fuel s = suc (length s.channels_input)

-- what the socket answers to a read: `afd.poll_read_ready` and `recvfrom`
pub data ReadPoll : Type 0 where
  read_pending read_ready_failed : ReadPoll
  read_ready : RecvFrom → ReadPoll

-- The time, and the answers of the socket and of the timer, in one round.
pub record Events : Type 0 where
  pub now : ℕ
  pub send : SendPoll
  pub read : ReadPoll
  pub sleeper_ready : Bool

pub data Next : Type 0 where
  results : List FindIocRes → Next
  failed : Error → Next
  ended not_ready : Next

-- What a round gives: the loop goes on, or it returns.
pub data Round : Type 0 where
  goes_on : FindIocStream → Round
  returns : Next → FindIocStream → Round
  panics : Round

-- nothing is read, and nothing else was done
unfoldable pub idle : Bool → FindIocStream → Round
idle sleeper_ready s =
    if is_nil s.channels_input && is_nil s.in_flight && is_nil s.out_queue
    then (if s.stop_on_empty_queue
        then returns ended s
        else if sleeper_ready
        then goes_on s
        else returns not_ready s)
    else returns not_ready s

-- the match on `try_read`; `none` when the rounds of its loop run out
unfoldable pub take_answer : ℕ → Outcome Error (Option Poll) → FindIocStream → Option Round
take_answer now (ok (some (ready src res))) s =
    let (r, s') = handle_result now src res s in
    some (elim r [ ok _ ↦ goes_on s' | err e ↦ returns (failed e) s' | panic ↦ panics ])
take_answer now (ok (some pending)) s = some (goes_on s)
take_answer now (ok none) s = none
take_answer now (err e) s = some (returns (failed e) s)
take_answer now panic s = some panics

unfoldable pub read_answer : Externals → Events → Bool × FindIocStream → Option Round
read_answer ext ev (again, s) = elim ev.read [
  | read_ready recv ↦ take_answer ev.now (try_read ext recv) s
  | read_ready_failed ↦ some (returns (failed poll_failed) s)
  | read_pending ↦ some (if again then goes_on s else idle ev.sleeper_ready s)
]

-- the write, the two loops, and the read
unfoldable pub work : Externals → Events → FindIocStream → Option Round
work ext ev s =
    let written = if is_nil s.buf1 then (false, s) else send_buf ev.send (false, s) in
    elim (fill_buf (send_fuel written.1) written) [
      | none ↦ none
      | some filled ↦ elim (create_batches (create_fuel filled.1) ev.now filled) [
        | none ↦ none
        | some created ↦ read_answer ext ev created
      ]
    ]

unfoldable pub poll_round : Externals → Events → FindIocStream → Option Round
poll_round ext ev s = elim s.out_queue [
  | [] ↦ work ext ev s
  | res ∷ more ↦ some (returns (results (res ∷ more)) (record s { out_queue = [] }))
]

-- the loop, over the events of its rounds: `none` when they run out
unfoldable pub poll_rounds : Externals → List Events → FindIocStream → Option Round
poll_rounds ext [] s = none
poll_rounds ext (ev ∷ evs) s = elim (poll_round ext ev s) [
  | some (goes_on s') ↦ poll_rounds ext evs s'
  | some (returns x s') ↦ some (returns x s')
  | some panics ↦ some panics
  | none ↦ none
]

-- The ping only wakes the task.
unfoldable pub poll_next : Externals → ℕ → List Events → FindIocStream → Option Round
poll_next ext now evs s =
    let (r, s') = clear_timed_out now s in
    elim r [
      | ok _ ↦ poll_rounds ext evs s'
      | err e ↦ some (returns (failed e) s')
      | panic ↦ some panics
    ]
