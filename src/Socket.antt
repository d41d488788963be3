-- ===== src/Socket.antt =====
-- What a non-blocking socket answers to the program's polls. The answers are the environment's.
use daqingest.Base.{ℕ, List}

-- `std::task::Poll`
pub data Poll (A : Type 0) : Type 0 where
  ready : A → Poll A
  pending : Poll A

-- What the socket answers to a `poll_write`: it takes at most `n` bytes of those offered, fails, or
-- is not ready.
pub data WriteResult : Type 0 where
  takes : ℕ → WriteResult
  write_error write_pending : WriteResult

-- What the socket answers to a `poll_read`: bytes, of which it fills in at most as many as the area
-- holds and which are none at the end of the stream; a failure; or that it is not ready.
pub data ReadResult : Type 0 where
  received : List ℕ → ReadResult
  read_error read_pending : ReadResult

pub record SocketAddrV4 : Type 0 where
  pub ip : ℕ
  pub port : ℕ
