-- ===== src/Lib.antt =====
-- daqingest: a verification library of the ingest of the control system's data.
--
-- The program connects to the servers (IOCs) of an EPICS control system, subscribes to channels over
-- the Channel Access protocol, and writes the events to a database. A connection is a socket with an
-- input and an output buffer. Bytes that arrive are put into the input buffer (slidebuf), the parser
-- (netfetch, ca/proto) cuts them to frames and decodes each to a message, which the connection's
-- state machine (ca/conn) turns to items for the insert queue (scywr). Messages to the server stand
-- in a queue, are serialized into the output buffer and written to the socket as it takes them.
--
-- Files and the code that they model:
--   Base          Helpers: Boolean tests, lists by native numbers, slices that can be out of range
--                 (`none`, which the code's index panics on), usize words, big-endian integers, and
--                 two monads: `Act` passes a state on and replies ok, an error or a panic, and keeps
--                 the state when it fails (as a `&mut self` method with `?` does); `Fallible` is the
--                 same without a state. Base.Text is what the code uses of Rust's strings: lossy
--                 UTF-8 and debug formatting. Base.Maps is `BTreeMap`, by its entries.
--   SlideBuf      slidebuf/src/slidebuf.rs, one operation per method, with the code's names. `make_room`
--                 names the three steps with which every write begins, `rewind_if_short` and
--                 `check_space` two of them; `data_slice` is `data` and `data_mut`; `write_buf` is
--                 `___write_buf___`. A slice that is returned for writing is its start and length.
--     Invariant     what `check_invariants` tests, and the bytes that a buffer holds (`contents`)
--     Room, Write, Read, Positions   what the operations do to `contents`
--     Queue         the specification: a bounded queue of bytes
--     RoundTrip     integers written and read back
--   NetBuf        netfetch/src/netbuf.rs, the older buffer; NetBuf.Space says when a write succeeds.
--   CaProto       netfetch/src/ca/proto.rs.
--     Message, Fields, Encode   the messages, their header fields, `place_into`
--     Wire          the specification of their bytes
--     Header, DbrType, Value, Decode   `HeadInfo`, `CaDbrType` and `from_proto_infos`
--     Convert       `GetValHelp` and the conversions to values of the insert queue
--     Parser        `CaState`, `CaProto` and `parse_item`; `parse_items` runs it several times
--     Output        the output half of `loop_body`: `fill_out`, `attempt_output`, `flush`
--     Poll          the input half (`read_input`), `loop_body` and `poll_next`
--   Socket        what the socket answers to a write and to a read.
--   Conn          netfetch/src/ca/conn.rs, a connection and its channels: the types and the state
--                 (`CaConn`), with `ca_conn_event_out_queue`, `insert_item_queue` and the other queues
--                 as lists, and the tables `cid_by_name`, `cid_by_subid` and `channels`. The field
--                 `proto` is the model of `CaProto` with its socket.
--     Channels      adding and removing channels, CREATE_CHAN, health checks, the shutdown
--     Inserts       `event_add_insert` and `do_event_insert`
--     Events        `channel_to_evented`, `handle_event_add_res` and the commands
--     States        `handle_conn_state`: connecting, listening, PeerReady, and `loop_inner`
--     Polling       `poll_next` with its rounds, the ticker and the channel of queries
--     Tables        names and identifiers of channels agree
--     Starting, Subscribing   from a channel that is added to its subscription
--     Stamps, Receiving, Removing   what an event does to the state of its channel
--     Ending, Links   what an end throws away, and that the link stands where it is used
--   Zmtp          ingest-bsread/src/zmtp/zmtpproto.rs, the input from bsread sources: its types and
--                 the state of a stream.
--     Message       `emit_to_buffer`
--     Parse         `parse_item`, one definition for each state; `lock_scan` is `LockScan`
--     Round         `loop_body` and `poll_next`: `serialize`, `write_output`, `read_input` and
--                   `parse_round` give the four values of the final match, `conclude` is the match,
--                   and an error that it throws is `Some(Ready(Err(e)))`
--     Commands      the answers to a PING
--     Frames        the specification of the frames, and that the parser follows it
--     Greeting      the handshake
--     Safety, Eof   what every round keeps, and a stream behind the end of its input
--   FindIoc       netfetch/src/ca/findioc.rs, the search of channels over UDP: its state. A `BTreeMap`
--                 is its entries in order, a time is a number.
--     Batches       `create_in_flight`, `handle_result` and `clear_timed_out`; the time is an argument
--     Datagram      `serialize_batch` and `try_read`
--     Polling       `poll_next`, over what the socket and the timer answer in each round
--     Pending, Timeouts, Once   what becomes of the channels
--     Request, Answer, Rounds   what is sent and what is received
--   InsertQueue   scywr/src/iteminsertqueue.rs: values, statuses and the numbers stored for them;
--                 InsertQueue.Items has the items of the queue.
--   Ema           stats/src/stats.rs: the moving averages of a channel's intervals.
--   Batcher       batchtools/src/batcher.rs: the task, over what its channels and its timer give.
--   SenderPolling netfetch/src/senderpolling.rs: a send in progress, over the channel's answers.
--   The Examples files hold runs at concrete inputs.
--
-- Numbers: a byte, an integer and the bit pattern of a float are natural numbers; arithmetic on usize
-- wraps at 2^64, as the release profile has no overflow checks, and the theorems show where it does
-- not. What the standard library ensures of a `Vec` (at most isize::MAX bytes) is part of IsValid.
--
-- Environment: the socket's answers are values of the model (`WriteResult`, `ReadResult`), and
-- theorems hold for every sequence of them. `Externals` are the functions of the crate netpod that
-- decoding calls: `Shape::from_ca_count`, `timeunits::SEC`, and the debug text of a standard error.
-- A connection has the parameters of `Env`: `Externals`, the operations of `f32`, and the binning of
-- timebin.rs with its bins, of any type. A `ScalarType` of netpod is its number. Each call gets the
-- time that its clocks show, and each round the answers of its timer, its socket and its channels.
--
-- Bounds and fuel: the buffers of a connection have 131072 bytes; the theorems ask only for what
-- they need (16384 bytes for the output, and for a read twice the bytes that the parser waits for,
-- save one, which 131072 satisfies for every 16-bit payload size). The output loop has as fuel two
-- rounds more than there are messages: a round that starts with an empty buffer moves at least one
-- message, and only the first can start with bytes in it. The flush is by recursion on the socket's
-- answers. `poll_next` is by recursion on the answers that a read would get, one in each round, and
-- four rounds are enough when there is nothing to read. The rounds of `parse_items` are counted by
-- the frames. The loop over the messages of a datagram has as fuel the number of its bytes, and
-- each round but the last takes 16 of them or more. In a round of the search, each step of the loop
-- that sends takes a batch from the queue or a target from a batch, and each step of the loop that
-- creates batches takes a channel; each loop has one step more than that as fuel. The polls of the ZMTP
-- stream are by recursion on the answers of each round, and the bounds of its theorems are those of
-- a stream with 104 bytes and more; `new` gives 131072. The polls of a connection are by recursion
-- on the events that their rounds meet, and give `none` when these run out.
--
-- Not modelled: wakers and peer addresses, the counters and the debug output of a connection, the
-- set of connections (ca/connset, ca/statemap), the socket of the search of IOCs (ca/findioc) and
-- its clients (ca/finder, ca/search), the time binning (timebin, on crates outside the repository),
-- the logs of states and the test data of the ZMTP input, the bsread client (ingest-bsread), the
-- database clients (scywr, dbpg), metrics, the command line and logging.
pub mod Base
pub mod SlideBuf
pub mod NetBuf
pub mod CaProto
pub mod Batcher
pub mod Conn
pub mod Ema
pub mod FindIoc
pub mod InsertQueue
pub mod SenderPolling
pub mod Socket
pub mod Zmtp
