-- ===== src/Lifecycle/Invariant.antt =====
-- What holds between any two steps of a thread and its supervisor.
use io_uring_net_engine.Prelude.{
  ℕ, ap, ◌⊎◌, inl, inr, Bool-cases, ◌+◌, ◌≤◌, ◌≡◌, ◌≢◌, refl, arith, Bool, true, false, not, ◌&&◌,
  ◌||◌, ◌==◌, leb, if◌then◌else◌,
}
use io_uring_net_engine.Lifecycle.{
  State, starting, running, draining, stopped, code_of, is, WorkerAt, SupervisorAt, unborn,
  install_role, publish_tid, prepare, promote, enter_loop, loop_test, tick, check_observed,
  publish_stopped, gone, ready, requesting, join_wait, join_check, System, wired, worker_at, Call,
  starts, requests, joins, is_gone,
}

-- The states that go with a place in the thread.
abbrev pub consistent : WorkerAt → State → Bool
consistent unborn st = is st starting || is st draining
consistent install_role st = is st starting || is st draining
consistent publish_tid st = is st starting || is st draining
consistent prepare st = is st starting || is st draining
consistent promote st = is st starting || is st draining
consistent enter_loop st = is st running || is st draining
consistent loop_test st = is st running || is st draining
consistent tick st = is st running || is st draining
consistent (check_observed o) st = is o draining && is st draining
consistent publish_stopped st = is st draining
consistent gone st = is st stopped
consistent WorkerAt.trapped st = false

-- The role is installed and nothing attached when the engine asks.
abbrev pub prepared : WorkerAt → Bool → Bool → Bool
prepared unborn role attached = not attached
prepared install_role role attached = not attached
prepared publish_tid role attached = role && not attached
prepared prepare role attached = role && not attached
prepared promote role attached = attached
prepared enter_loop role attached = attached
prepared loop_test role attached = attached
prepared tick role attached = attached
prepared (check_observed o) role attached = attached
prepared publish_stopped role attached = attached
prepared gone role attached = attached
prepared WorkerAt.trapped role attached = false

-- Whether the thread has published its tid.
abbrev pub published : WorkerAt → Bool
published unborn = false
published install_role = false
published publish_tid = false
published prepare = true
published promote = true
published enter_loop = true
published loop_test = true
published tick = true
published (check_observed o) = true
published publish_stopped = true
published gone = true
published WorkerAt.trapped = false

abbrev pub is_unborn : WorkerAt → Bool
is_unborn unborn = true
is_unborn install_role = false
is_unborn publish_tid = false
is_unborn prepare = false
is_unborn promote = false
is_unborn enter_loop = false
is_unborn loop_test = false
is_unborn tick = false
is_unborn (check_observed o) = false
is_unborn publish_stopped = false
is_unborn gone = false
is_unborn WorkerAt.trapped = false

-- What the supervisor knows: an observed state is not ahead of the real one, and join's last check
-- comes once the thread is gone.
abbrev pub informed : SupervisorAt → State → WorkerAt → Bool
informed ready st w = true
informed (requesting o) st w = leb (code_of o) (code_of st)
informed join_wait st w = not (is_unborn w)
informed join_check st w = is st stopped
informed SupervisorAt.trapped st w = false

pub record Inv (s : System) : Type 0 where
  pub states : consistent s.worker s.state ≡ true
  pub flags : prepared s.worker s.role_installed s.attached ≡ true
  pub given : (if is_unborn s.worker then true else s.handed) ≡ true
  pub edges : (s.from_acceptor && s.to_acceptor) ≡ true
  pub tid : (if published s.worker then s.kernel_tid == 0 else false) ≡ false
  pub thread :
      (if s.joinable then is_unborn s.worker else not (is_unborn s.worker || is_gone s.worker))
      ≡ false
  pub supervisor : informed s.supervisor s.state s.worker ≡ true

-- How the supervisor calls: one start, and a join only after it.
abbrev pub Allowed : System → Call → Type 0
Allowed s starts = is_unborn s.worker ≡ true
Allowed s requests = Unit {0}
Allowed s joins = is_unborn s.worker ≡ false

pub wired-Inv : Inv wired
unfolding wired
wired-Inv = record {
  states = refl;
  flags = refl;
  given = refl;
  edges = refl;
  tid = refl;
  thread = refl;
  supervisor = refl;
}

pub code_of_le : (st : State) → code_of st ≤ 3
code_of_le starting = omega arith
code_of_le running = omega arith
code_of_le draining = omega arith
code_of_le stopped = omega arith

-- The supervisor's knowledge stays true as the state and the thread move on.
pub informed_later :
    (a : SupervisorAt) (st st' : State) (w w' : WorkerAt)
    → code_of st ≤ code_of st'
    → (is_unborn w' ≡ false) ⊎ (is_unborn w ≡ is_unborn w')
    → informed a st w ≡ true
    → informed a st' w' ≡ true
informed_later ready st st' w w' le b h = refl
informed_later (requesting o) st st' w w' le b h = ground (arith, le, h)
informed_later join_wait st st' w w' le b h = ground (arith, b, h)
informed_later join_check st st' w w' le b h = ground (arith, le, h, code_of_le st')
informed_later SupervisorAt.trapped st st' w w' le b h = h

-- A step of the thread to the place `w'`, which is not its birth, and to the state `st'`.
advance :
    (s : System) (st' : State) (w' : WorkerAt)
    → code_of s.state ≤ code_of st'
    → (is_unborn w' ≡ false) × (is_gone w' ≡ false)
    → (tid seq : ℕ) (role att : Bool) → consistent w' st' ≡ true
    → prepared w' role att ≡ true
    → (if published w' then tid == 0 else false) ≡ false
    → is_unborn s.worker ≡ false
    → is_gone s.worker ≡ false
    → Inv s
    → Inv (record s {
      state = st';
      kernel_tid = tid;
      heartbeat_seq = seq;
      role_installed = role;
      attached = att;
      worker = w';
    })
advance s st' w' le born tid seq role att states flags known was ran v = record {
  states = states;
  flags = flags;
  given = ground (arith, v.given, born, was);
  edges = v.edges;
  tid = known;
  thread = ground (arith, v.thread, born, was, ran);
  supervisor = informed_later s.supervisor s.state st' s.worker w' le (inl born.0) v.supervisor;
}

-- A check that passes.
passed : (b : Bool) (s t : System) → b ≡ true → Inv s → Inv (if b then s else t)
passed true s t e v = v
passed false s t e v = absurd (ground (arith, e))

pub worker_at-Inv :
    (tid : ℕ) (s : System) (w : WorkerAt) → tid ≢ 0 → s.worker ≡ w → Inv s → Inv (worker_at tid s w)
unfolding worker_at
worker_at-Inv tid s unborn nz e v = v
worker_at-Inv tid s install_role nz e v =
    advance s s.state publish_tid (omega arith) (refl, refl) s.kernel_tid s.heartbeat_seq true
      s.attached (ground (arith, v.states, e)) (ground (arith, v.flags, e)) refl (ap is_unborn e)
      (ap is_gone e) v
worker_at-Inv tid s publish_tid nz e v =
    advance s s.state prepare (omega arith) (refl, refl) tid s.heartbeat_seq s.role_installed
      s.attached (ground (arith, v.states, e)) (ground (arith, v.flags, e)) (ground (arith, nz))
      (ap is_unborn e) (ap is_gone e) v
worker_at-Inv tid s prepare nz e v = rw (asked) (
    advance s s.state promote (omega arith) (refl, refl) s.kernel_tid s.heartbeat_seq
      s.role_installed s.handed (ground (arith, v.states, e)) (ground (arith, v.given, e))
      (ground (arith, v.tid, e)) (ap is_unborn e) (ap is_gone e) v)
  where
    asked : (s.role_installed && not s.attached && s.handed) ≡ true
    asked = ground (arith, v.flags, v.given, e)
worker_at-Inv tid s promote nz e v = elim (Bool-cases (is s.state starting)) [
  | inl first ↦ rw first (
      advance s running enter_loop (ground (arith, first)) (refl, refl) s.kernel_tid s.heartbeat_seq
        s.role_installed s.attached refl (ground (arith, v.flags, e)) (ground (arith, v.tid, e))
        (ap is_unborn e) (ap is_gone e) v)
  | inr late ↦ rw late (
      advance s s.state (check_observed s.state) (omega arith) (refl, refl) s.kernel_tid
        s.heartbeat_seq s.role_installed s.attached (ground (arith, v.states, e, late))
        (ground (arith, v.flags, e)) (ground (arith, v.tid, e)) (ap is_unborn e) (ap is_gone e) v)
]
worker_at-Inv tid s enter_loop nz e v = passed s.attached _ _ (ground (arith, v.flags, e)) (
    advance s s.state loop_test (omega arith) (refl, refl) s.kernel_tid s.heartbeat_seq
      s.role_installed s.attached (ground (arith, v.states, e)) (ground (arith, v.flags, e))
      (ground (arith, v.tid, e)) (ap is_unborn e) (ap is_gone e) v)
worker_at-Inv tid s loop_test nz e v = elim (Bool-cases (is s.state running)) [
  | inl on ↦ rw on (
      advance s s.state tick (omega arith) (refl, refl) s.kernel_tid s.heartbeat_seq
        s.role_installed s.attached (ground (arith, v.states, e)) (ground (arith, v.flags, e))
        (ground (arith, v.tid, e)) (ap is_unborn e) (ap is_gone e) v)
  | inr off ↦ rw off (
      advance s s.state publish_stopped (omega arith) (refl, refl) s.kernel_tid s.heartbeat_seq
        s.role_installed s.attached (ground (arith, v.states, e, off)) (ground (arith, v.flags, e))
        (ground (arith, v.tid, e)) (ap is_unborn e) (ap is_gone e) v)
]
worker_at-Inv tid s tick nz e v =
    advance s s.state loop_test (omega arith) (refl, refl) s.kernel_tid (s.heartbeat_seq + 1)
      s.role_installed s.attached (ground (arith, v.states, e)) (ground (arith, v.flags, e))
      (ground (arith, v.tid, e)) (ap is_unborn e) (ap is_gone e) v
worker_at-Inv tid s (check_observed o) nz e v = rw asked (
    advance s s.state publish_stopped (omega arith) (refl, refl) s.kernel_tid s.heartbeat_seq
      s.role_installed s.attached (ground (arith, v.states, e)) (ground (arith, v.flags, e))
      (ground (arith, v.tid, e)) (ap is_unborn e) (ap is_gone e) v)
  where
    asked : is o draining ≡ true
    asked = ground (arith, v.states, e)
worker_at-Inv tid s publish_stopped nz e v = record {
  states = refl;
  flags = ground (arith, v.flags, e);
  given = ground (arith, v.given, e);
  edges = v.edges;
  tid = ground (arith, v.tid, e);
  thread = ground (arith, v.thread, e);
  supervisor =
      informed_later s.supervisor s.state stopped s.worker gone (code_of_le s.state) (inl refl)
        v.supervisor;
}
worker_at-Inv tid s gone nz e v = v
worker_at-Inv tid s WorkerAt.trapped nz e v = v
