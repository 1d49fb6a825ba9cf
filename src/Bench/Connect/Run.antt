-- ===== src/Bench/Connect/Run.antt =====
-- client-bench/src/connect.cpp: run_connect as a whole.
use io_uring_net_engine.Prelude.{ℕ, none, List, []}
use io_uring_net_engine.Epoll.State.{Bytes}
use io_uring_net_engine.Bench.{Proto}
use io_uring_net_engine.Bench.Conn.{Conn, empty_conn}
use io_uring_net_engine.Bench.Socket.{Kernel}
use io_uring_net_engine.Bench.Connect.{Waited, Opened, Phase, run_connect}
use io_uring_net_engine.Bench.Connect.Phases.{Balanced}

-- Before the first connection.
abbrev pub nothing_yet : (ℕ → Kernel) → Phase
nothing_yet kernels = record {
  started = 0;
  established = 0;
  failed = 0;
  inflight = 0;
  fail_reasons = [];
  conns = λ _. empty_conn;
  live = [];
  interest = λ _. none;
  kernels = kernels;
}

module _ (proto : Proto) (to_string : ℕ → Bytes) (node per_room max_conns max_inflight : ℕ) where
  abbrev Holds : Phase → Type 0
  Holds p = Balanced proto to_string node per_room max_conns max_inflight p

  -- run_connect from the start.
  abbrev pub ended : (Phase → Opened) → List Waited → (ℕ → Kernel) → Phase
  ended next ws kernels =
      run_connect proto to_string node per_room max_conns max_inflight next ws (nothing_yet kernels)
