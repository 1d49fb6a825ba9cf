-- ===== src/Bench/Conn.antt =====
-- client-bench/src/conn.h: a connection. Its slot of the receive slab is the list of the bytes in it.
use io_uring_net_engine.Prelude.{ℕ, ◌*◌, []}
use io_uring_net_engine.Epoll.State.{Bytes}

pub data ConnState : Type 0 where
  none : ConnState
  connecting : ConnState
  ready : ConnState
  dead : ConnState

pub record Conn : Type 0 where
  pub state : ConnState
  pub index : ℕ
  pub seq : ℕ
  pub pending : Bytes
  pub rx : Bytes

-- conn{}; an index of -1 is never read.
abbrev pub empty_conn : Conn
empty_conn = record { state = ConnState.none; index = 0; seq = 0; pending = []; rx = [] }

-- k_rx_cap
unfoldable pub rx_cap : ℕ
rx_cap = 64 * 1024
