-- ===== src/Lifecycle.antt =====
-- server-uring/src/thread_ctl.h and thread_ctl.cpp, with start, install_pipes and the trampolines of
-- worker_ctl.cpp and acceptor_ctl.cpp and the tick loops of the engines: one thread's life, and the
-- supervisor that wires, starts, stops and joins it. A pointer is whether it is set. The acceptor
-- differs only in its edges, one pair for each worker, all of which its start checks: for it the two
-- pointers here are all of one direction. Each step makes at most one access to the shared `_state`,
-- as the code's loads, stores and compare_exchange do. The thread's packet pool, whose construction
-- checks only its system calls and whose prewarm checks nothing, and the kernel-visible name touch
-- none of this state and are left out; so is the wait inside pthread_create.
pub mod Invariant
pub mod Safety
pub mod Progress
mod Tests
use io_uring_net_engine.Prelude.{
  ℕ, zero, suc, ◌+◌, ◌≤◌, ◌<◌, ◌≡◌, ◌≢◌, refl, Bool, true, false, not, ◌&&◌, ◌||◌, List, [], ◌∷◌,
  ◌==◌, if◌then◌else◌,
}

pub data State : Type 0 where
  starting running draining stopped : State

-- static_cast<i32>.
abbrev pub code_of : State → ℕ
code_of starting = 0
code_of running = 1
code_of draining = 2
code_of stopped = 3

abbrev pub is : State → State → Bool
is s t = code_of s == code_of t

-- Where the thread stands in `entry` and `run_loop`, before the step named.
pub data WorkerAt : Type 0 where
  unborn : WorkerAt
  install_role publish_tid prepare promote : WorkerAt
  enter_loop loop_test tick : WorkerAt
  check_observed : State → WorkerAt
  publish_stopped gone trapped : WorkerAt

-- Where the supervisor stands in `request_stop` and `join`.
pub data SupervisorAt : Type 0 where
  ready : SupervisorAt
  requesting : (observed : State) → SupervisorAt
  join_wait join_check trapped : SupervisorAt

pub record System : Type 0 where
  pub state : State
  pub kernel_tid : ℕ
  pub heartbeat_seq : ℕ
  pub joinable : Bool
  pub role_installed : Bool
  pub from_acceptor : Bool
  pub to_acceptor : Bool
  -- What pthread_create hands to `entry`, and the engine's `_ctl`.
  pub handed : Bool
  pub attached : Bool
  pub worker : WorkerAt
  pub supervisor : SupervisorAt

-- A control block as constructed.
unfoldable pub init : System
init = record {
  state = starting;
  kernel_tid = 0;
  heartbeat_seq = 0;
  joinable = false;
  role_installed = false;
  from_acceptor = false;
  to_acceptor = false;
  handed = false;
  attached = false;
  worker = unborn;
  supervisor = ready;
}

unfoldable pub install_pipes : Bool → Bool → System → System
install_pipes from to s = record s { from_acceptor = from; to_acceptor = to }

-- What main has before `start`: a control block with its two edges.
unfoldable pub wired : System
unfolding init install_pipes
wired = install_pipes true true init

-- What run_loop checks first.
abbrev pub run_loop_enter : System → System
run_loop_enter s =
    if s.attached then record s { worker = loop_test } else record s { worker = WorkerAt.trapped }

-- The test of run_loop's loop, one turn of it, and its end.
abbrev pub run_loop_test : System → System
run_loop_test s =
    if is s.state running then record s { worker = tick } else record s { worker = publish_stopped }

abbrev pub run_loop_tick : System → System
run_loop_tick s = record s { heartbeat_seq = s.heartbeat_seq + 1; worker = loop_test }

abbrev pub run_loop_end : System → System
run_loop_end s = record s { state = stopped; worker = gone }

-- `entry` and `run_loop`, of a thread whose kernel tid is `tid`. The engine's `instance` checks the
-- role, and its `attach` that nothing is attached yet and that it is given a control block.
unfoldable pub worker_at : ℕ → System → WorkerAt → System
worker_at tid s unborn = s
worker_at tid s install_role = record s { role_installed = true; worker = publish_tid }
worker_at tid s publish_tid = record s { kernel_tid = tid; worker = prepare }
worker_at tid s prepare =
    if s.role_installed && not s.attached && s.handed
    then record s { attached = s.handed; worker = promote }
    else record s { worker = WorkerAt.trapped }
worker_at tid s promote =
    if is s.state starting
    then record s { state = running; worker = enter_loop }
    else record s { worker = check_observed s.state }
worker_at tid s enter_loop = run_loop_enter s
worker_at tid s loop_test = run_loop_test s
worker_at tid s tick = run_loop_tick s
worker_at tid s (check_observed observed) =
    if is observed draining
    then record s { worker = publish_stopped }
    else record s { worker = WorkerAt.trapped }
worker_at tid s publish_stopped = run_loop_end s
worker_at tid s gone = s
worker_at tid s WorkerAt.trapped = s

unfoldable pub worker_step : ℕ → System → System
worker_step tid s = worker_at tid s s.worker

pub data Call : Type 0 where
  starts requests joins : Call

-- The first access of a call: `start` checks the two edges and that there is no thread to join,
-- `request_stop` loads the state.
unfoldable pub call : System → Call → System
call s starts =
    if not s.from_acceptor || not s.to_acceptor
    then record s { supervisor = SupervisorAt.trapped }
    else if s.joinable
    then record s { supervisor = SupervisorAt.trapped }
    else record s { joinable = true; handed = true; worker = install_role }
call s requests = record s { supervisor = requesting s.state }
call s joins =
    if s.joinable then record s { supervisor = join_wait } else record s { supervisor = join_check }

abbrev pub is_gone : WorkerAt → Bool
is_gone unborn = false
is_gone install_role = false
is_gone publish_tid = false
is_gone prepare = false
is_gone promote = false
is_gone enter_loop = false
is_gone loop_test = false
is_gone tick = false
is_gone (check_observed o) = false
is_gone publish_stopped = false
is_gone gone = true
is_gone WorkerAt.trapped = false

unfoldable pub supervisor_at : System → Call → SupervisorAt → System
supervisor_at s c ready = call s c
supervisor_at s c (requesting observed) =
    if is observed starting || is observed running
    then if is s.state observed
      then record s { state = draining; supervisor = ready }
      else record s { supervisor = requesting s.state }
    else record s { supervisor = ready }
supervisor_at s c join_wait =
    if is_gone s.worker then record s { joinable = false; supervisor = join_check } else s
supervisor_at s c join_check =
    if is s.state stopped
    then record s { supervisor = ready }
    else record s { supervisor = SupervisorAt.trapped }
supervisor_at s c SupervisorAt.trapped = s

-- One step of the call under way, or the first of `c` when there is none.
unfoldable pub supervisor_step : System → Call → System
supervisor_step s c = supervisor_at s c s.supervisor

-- What an observer reads.
unfoldable pub kernel_tid : System → ℕ
kernel_tid s = if is s.state running then s.kernel_tid else 0
