-- ===== src/FindIoc.antt =====
-- netfetch/src/ca/findioc.rs: the search of channels by broadcast over UDP, in batches.
pub mod Datagram
pub mod Batches
pub mod Pending
pub mod Request
pub mod Answer
pub mod Polling
pub mod Once
pub mod Timeouts
pub mod Rounds
mod Examples
use daqingest.SlideBuf
use daqingest.CaProto.Error as Proto
use daqingest.Base.{ℕ, Bool, Option, none, some, List, [], ◌∷◌, ltb, ◌==◌, if◌then◌else◌}
unfoldable pub use daqingest.Base.Maps.{BTreeMap, map_get, map_insert, map_remove, map_set}
pub use daqingest.Socket.{SocketAddrV4}

-- `err::Error` holds a text: which of the texts it is.
pub data Error : Type 0 where
  slide_buf : SlideBuf.Error → Error
  ca_msg : Proto.Error → Error
  can_not_read : Error
  poll_failed : Error
  no_bytes : Error

-- A time and a duration are numbers of nanoseconds, a `String` is its bytes.
pub record SearchBatch : Type 0 where
  pub ts_beg : ℕ
  pub tgts : List ℕ
  pub channels : List (List ℕ)
  pub sids : List ℕ
  pub done : List Bool

pub record FindIocRes : Type 0 where
  pub channel : List ℕ
  pub response_addr : Option SocketAddrV4
  pub addr : Option SocketAddrV4
  pub dt : ℕ

-- The socket and the timers are the environment's. `batch_id` and `search_id2` are the two static
-- counters.
pub record FindIocStream : Type 0 where
  pub batch_id : ℕ
  pub search_id2 : ℕ
  pub tgts : List SocketAddrV4
  pub channels_input : List (List ℕ)
  pub in_flight : BTreeMap SearchBatch
  pub in_flight_max : ℕ
  pub bid_by_sid : BTreeMap ℕ
  pub batch_send_queue : List ℕ
  pub buf1 : List ℕ
  pub send_addr : SocketAddrV4
  pub out_queue : List FindIocRes
  pub channels_per_batch : ℕ
  pub batch_run_max : ℕ
  pub bids_all_done : BTreeMap Unit
  pub bids_timed_out : BTreeMap Unit
  pub sids_done : BTreeMap Unit
  pub result_for_done_sid_count : ℕ
  pub stop_on_empty_queue : Bool
