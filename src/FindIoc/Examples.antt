-- ===== src/FindIoc/Examples.antt =====
-- Runs of findioc.rs at concrete datagrams and batches.
use daqingest.Base.{
  ℕ, ◌^◌, ◌≡◌, ◌≢◌, refl, true, false, none, some, List, [], ◌∷◌, be_bytes, arith, ok, panic,
}
use daqingest.CaProto.Error.{Externals, Shape}
use daqingest.CaProto.Parser.Head.{head_and}
use daqingest.FindIoc.{map_get, SocketAddrV4, SearchBatch, FindIocStream}
use daqingest.FindIoc.Batches.{
  create_in_flight, clear_timed_out, handle_result, timed_out, remove_keys, insert_keys,
}
use daqingest.FindIoc.Datagram.{datagram, ready, try_read, serialize_batch}
use daqingest.FindIoc.Pending.{Created, create_in_flight-Created}
use daqingest.FindIoc.Timeouts.{Cleared, clear_timed_out-Cleared}
use daqingest.FindIoc.Once.{IsSearched, handle_result-once}
use daqingest.FindIoc.Answer.{
  Reply, version_head, replies_bytes, found, try_read-short, try_read-replies,
}
use daqingest.FindIoc.Polling.{
  Events, read_ready, read_pending, sent, send_pending, returns, ended, poll_round, poll_rounds,
  work, send_fuel, create_fuel, fill_buf, create_batches, read_answer, idle, poll_next,
}
use daqingest.FindIoc.Polling.Ended.{IsFinished, poll_next-ended}
use daqingest.FindIoc.Polling.Ends.{poll_round-ends}
use daqingest.FindIoc.Request.{requests, serialize_batch-requests}

abbrev ext : Externals
ext = record {
  from_ca_count = λ n. some (Shape.wave n);
  sec = 10 ^ 9;
  into_string_error = λ xs. xs;
}

abbrev ioc : SocketAddrV4
ioc = record { ip = 7; port = 5064 }

abbrev gateway : SocketAddrV4
gateway = record { ip = 9; port = 5064 }

abbrev replies : List Reply
replies =
    record { port = 5064; count = 0; addr = 0; id = 3; body = 0 ∷ 13 ∷ 0 ∷ 0 ∷ 0 ∷ 0 ∷ 0 ∷ 0 ∷ [] }
    ∷ record {
      port = 5070;
      count = 0;
      addr = 0;
      id = 4;
      body = 0 ∷ 13 ∷ 0 ∷ 0 ∷ 0 ∷ 0 ∷ 0 ∷ 0 ∷ [];
    }
    ∷ []

try_read-replies_example :
    try_read ext (datagram ioc (head_and version_head (replies_bytes replies)))
    ≡ ok (some (ready ioc (found ioc replies)))
unfolding be_bytes
try_read-replies_example =
    try_read-replies ext ioc replies (omega arith, refl, (omega arith, refl, tt)) (omega arith)

try_read-short_example : try_read ext (datagram ioc (1 ∷ 2 ∷ [])) ≡ panic
try_read-short_example = try_read-short ext ioc (1 ∷ 2 ∷ []) (omega arith) (omega arith)

-- two channels, the first of them found
abbrev half_done : SearchBatch
half_done = record {
  ts_beg = 100;
  tgts = 0 ∷ [];
  channels = (65 ∷ []) ∷ (66 ∷ []) ∷ [];
  sids = 3 ∷ 4 ∷ [];
  done = true ∷ false ∷ [];
}

abbrev stream : FindIocStream
stream = record {
  batch_id = 1;
  search_id2 = 5;
  tgts = ioc ∷ gateway ∷ [];
  channels_input = (67 ∷ []) ∷ (68 ∷ []) ∷ (69 ∷ []) ∷ [];
  in_flight = (0, half_done) ∷ [];
  in_flight_max = 10;
  bid_by_sid = (4, 0) ∷ [];
  batch_send_queue = 0 ∷ [];
  buf1 = [];
  send_addr = ioc;
  out_queue = [];
  channels_per_batch = 2;
  batch_run_max = 50;
  bids_all_done = [];
  bids_timed_out = [];
  sids_done = (3, tt) ∷ [];
  result_for_done_sid_count = 0;
  stop_on_empty_queue = false;
}

serialize_batch-requests_example :
    serialize_batch (9 ∷ []) half_done
    ≡ 9 ∷ head_and version_head (requests half_done.sids half_done.channels)
serialize_batch-requests_example =
    serialize_batch-requests (9 ∷ []) half_done (omega arith, (omega arith, tt))

create_in_flight-Created_example : Created 120 stream (create_in_flight 120 stream)
create_in_flight-Created_example = create_in_flight-Created 120 stream (omega arith, tt)

clear_timed_out-Cleared_example : Cleared 151 stream (clear_timed_out 151 stream)
clear_timed_out-Cleared_example = clear_timed_out-Cleared 151 stream (tt, refl, refl, tt)

searched : IsSearched stream 4 (66 ∷ [])
unfolding map_get
searched = record {
  bid = 0;
  batch = half_done;
  by_sid = refl;
  in_flight = refl;
  before = 3 ∷ [];
  after = [];
  sids = refl;
  others = (((λ e. ground arith), tt), tt);
  channel = refl;
  marked = refl;
}

handle_result-once_example :
    let s1 = (handle_result 120 gateway ((4, ioc) ∷ []) stream).1 in
    let s2 = (handle_result 130 ioc ((4, ioc) ∷ []) s1).1 in
    (dt : ℕ) × (s2.out_queue
      ≡ (record { channel = 66 ∷ []; response_addr = some gateway; addr = some ioc; dt = dt }) ∷ [])
handle_result-once_example =
    handle_result-once 120 130 gateway ioc ioc ioc 4 (66 ∷ []) stream searched

-- what the socket and the timer answer
abbrev events : Events
events = record {
  now = 120;
  send = sent;
  read = read_ready (datagram ioc (head_and version_head (replies_bytes replies)));
  sleeper_ready = false;
}

poll_round-ends_example : poll_round ext events stream ≢ none
poll_round-ends_example = poll_round-ends ext events stream (omega arith)

abbrev finished : FindIocStream
finished = record stream {
  channels_input = [];
  in_flight = [];
  batch_send_queue = [];
  stop_on_empty_queue = true;
}

abbrev quiet : Events
quiet = record { now = 120; send = send_pending; read = read_pending; sleeper_ready = false }

ends : poll_next ext 120 (quiet ∷ []) finished ≡ some (returns ended finished)
unfolding poll_next poll_rounds poll_round work send_fuel create_fuel fill_buf create_batches
    read_answer idle clear_timed_out timed_out remove_keys insert_keys
ends = refl

poll_next-ended_example : IsFinished finished
poll_next-ended_example = poll_next-ended ext 120 (quiet ∷ []) finished finished ends
