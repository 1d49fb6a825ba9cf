-- ===== src/Bench/Connect/Tests.antt =====
-- The connect phase: runs of the code, and each theorem at an input that meets its hypotheses.
use io_uring_net_engine.Prelude.{ℕ, ◌+◌, ◌≡◌, refl, true, false, List, [], ◌∷◌}
use io_uring_net_engine.Epoll.State.{Bytes, accepted}
use io_uring_net_engine.Bench.{put_frame, put_header}
use io_uring_net_engine.Bench.Conn.{ConnState, connecting, ready, dead}
use io_uring_net_engine.Bench.Server.{study}
use io_uring_net_engine.Bench.Socket.{Kernel, flush_pending, flush_loop}
use io_uring_net_engine.Bench.Connect.{
  Opened, refused, opened, Event, Waited, interrupted, happened, Phase, hello, forget, start_one,
  start_all, greet, on_connecting, by_state, on_event, run_loop, run_connect,
}
use io_uring_net_engine.Bench.Connect.Run.{ended}

-- One digit.
abbrev digit : ℕ → Bytes
digit n = (48 + n) ∷ []

-- The fd after the last one, when it is free; its first send takes nine bytes.
abbrev free_or_refused : ConnState → ℕ → Opened
free_or_refused ConnState.none fd = opened fd (accepted 9 ∷ []) []
free_or_refused connecting fd = refused 99
free_or_refused ready fd = refused 99
free_or_refused dead fd = refused 99

abbrev next_fd : Phase → Opened
next_fd p = free_or_refused (p.conns (p.started + 5)).state (p.started + 5)

abbrev no_kernel : ℕ → Kernel
no_kernel fd = record { sends = []; recvs = []; wire = [] }

abbrev writable_event : ℕ → Event
writable_event fd = record {
  fd = fd;
  readable = false;
  writable = true;
  hung_up = false;
  soerr = 0;
  errno = 0;
}

-- The first connection is made, the second is reset.
abbrev turns : List Waited
turns =
    interrupted ∷ happened (writable_event 5 ∷ record (writable_event 6) { soerr = 104 } ∷ []) ∷ []

made : (ended study digit 3 10 2 2 next_fd turns no_kernel).live ≡ 5 ∷ []
unfolding run_connect run_loop start_all start_one on_event by_state on_connecting greet forget
    hello put_frame put_header flush_pending flush_loop
made = refl
