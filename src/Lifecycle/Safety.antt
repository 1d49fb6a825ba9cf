-- ===== src/Lifecycle/Safety.antt =====
-- Any interleaving of a thread's steps with its supervisor's.
use io_uring_net_engine.Prelude.{
  ℕ, inl, inr, Bool-cases, ◌≤◌, ◌≡◌, ◌≢◌, refl, arith, Bool, true, false, not, ◌||◌, if◌then◌else◌,
}
use io_uring_net_engine.Lifecycle.{
  State, starting, running, draining, stopped, code_of, is, WorkerAt, SupervisorAt, unborn,
  install_role, publish_tid, prepare, promote, enter_loop, loop_test, tick, check_observed,
  publish_stopped, gone, ready, requesting, join_wait, join_check, System, wired, worker_step, Call,
  starts, requests, joins, call, supervisor_at, supervisor_step, is_gone, kernel_tid,
}
use io_uring_net_engine.Lifecycle.Invariant.{
  consistent, published, is_unborn, informed, Inv, Allowed, wired-Inv, worker_at-Inv,
}

pub data Step (s : System) : System → Type 0 where
  worker_moves : (tid : ℕ) → tid ≢ 0 → Step s (worker_step tid s)
  supervisor_moves : (c : Call) → Allowed s c → Step s (supervisor_step s c)

pub data Reach (s : System) : System → Type 0 where
  here : Reach s s
  next : {t u : System} → Reach s t → Step t u → Reach s u

-- The supervisor moves, and the thread's side stays.
watch :
    (s : System) (st' : State) (a' : SupervisorAt) (j : Bool)
    → code_of s.state ≤ code_of st'
    → consistent s.worker st' ≡ true
    → informed a' st' s.worker ≡ true
    → (if j then is_unborn s.worker else not (is_unborn s.worker || is_gone s.worker)) ≡ false
    → Inv s
    → Inv (record s { state = st'; supervisor = a'; joinable = j })
watch s st' a' j le states knows thread v = record {
  states = states;
  flags = v.flags;
  given = v.given;
  edges = v.edges;
  tid = v.tid;
  thread = thread;
  supervisor = knows;
}

unborn_eq : (w : WorkerAt) → is_unborn w ≡ true → w ≡ unborn
unborn_eq unborn h = refl
unborn_eq install_role h = absurd (ground arith)
unborn_eq publish_tid h = absurd (ground arith)
unborn_eq prepare h = absurd (ground arith)
unborn_eq promote h = absurd (ground arith)
unborn_eq enter_loop h = absurd (ground arith)
unborn_eq loop_test h = absurd (ground arith)
unborn_eq tick h = absurd (ground arith)
unborn_eq (check_observed o) h = absurd (ground arith)
unborn_eq publish_stopped h = absurd (ground arith)
unborn_eq gone h = absurd (ground arith)
unborn_eq WorkerAt.trapped h = absurd (ground arith)

start-Inv :
    (s : System)
    → s.worker ≡ unborn
    → s.supervisor ≡ ready
    → Inv s
    → Inv (record s { joinable = true; handed = true; worker = install_role })
start-Inv s w e v = record {
  states = ground (arith, v.states, w);
  flags = ground (arith, v.flags, w);
  given = refl;
  edges = v.edges;
  tid = refl;
  thread = refl;
  supervisor = ground (arith, e);
}

-- A thread that has not gone is not ahead of draining.
drainable :
    (w : WorkerAt) (st : State)
    → consistent w st ≡ true
    → (is st starting || is st running) ≡ true
    → consistent w draining ≡ true
drainable unborn st c h = refl
drainable install_role st c h = refl
drainable publish_tid st c h = refl
drainable prepare st c h = refl
drainable promote st c h = refl
drainable enter_loop st c h = refl
drainable loop_test st c h = refl
drainable tick st c h = refl
drainable (check_observed o) st c h = ground (arith, c, h)
drainable publish_stopped st c h = refl
drainable gone st c h = ground (arith, c, h)
drainable WorkerAt.trapped st c h = c

gone_stopped :
    (w : WorkerAt) (st : State) → consistent w st ≡ true → is_gone w ≡ true → is st stopped ≡ true
gone_stopped unborn st c g = ground (arith, g)
gone_stopped install_role st c g = ground (arith, g)
gone_stopped publish_tid st c g = ground (arith, g)
gone_stopped prepare st c g = ground (arith, g)
gone_stopped promote st c g = ground (arith, g)
gone_stopped enter_loop st c g = ground (arith, g)
gone_stopped loop_test st c g = ground (arith, g)
gone_stopped tick st c g = ground (arith, g)
gone_stopped (check_observed o) st c g = ground (arith, g)
gone_stopped publish_stopped st c g = ground (arith, g)
gone_stopped gone st c g = c
gone_stopped WorkerAt.trapped st c g = ground (arith, g)

call-Inv : (s : System) (c : Call) → Allowed s c → s.supervisor ≡ ready → Inv s → Inv (call s c)
unfolding call
call-Inv s starts h e v = rw (edges, fresh) (start-Inv s (unborn_eq s.worker h) e v)
  where
    edges : (not s.from_acceptor || not s.to_acceptor) ≡ false
    edges = ground (arith, v.edges)

    fresh : s.joinable ≡ false
    fresh = ground (arith, v.thread, h)
call-Inv s requests h e v =
    watch s s.state (requesting s.state) s.joinable (omega arith) v.states (ground arith) v.thread v
call-Inv s joins h e v = elim (Bool-cases s.joinable) [
  | inl j ↦ rw j (watch s s.state join_wait true (omega arith) v.states (ground (arith, h)) h v)
  | inr j ↦ rw j (
      watch s s.state join_check false (omega arith) v.states
        (gone_stopped s.worker s.state v.states (ground (arith, v.thread, j, h)))
        (ground (arith, v.thread, j)) v)
]

supervisor_at-Inv :
    (s : System) (c : Call) (a : SupervisorAt)
    → Allowed s c
    → s.supervisor ≡ a
    → Inv s
    → Inv (supervisor_at s c a)
unfolding supervisor_at
supervisor_at-Inv s c ready h e v = call-Inv s c h e v
supervisor_at-Inv s c (requesting o) h e v = elim (Bool-cases (is o starting || is o running)) [
  | inl pre ↦ elim (Bool-cases (is s.state o)) [
    | inl swap ↦
        rw (pre, swap)
          (watch s draining ready s.joinable (ground (arith, pre, swap))
            (drainable s.worker s.state v.states (ground (arith, pre, swap))) refl v.thread v)
    | inr lost ↦
        rw (pre, lost)
          (watch s s.state (requesting s.state) s.joinable (omega arith) v.states (ground arith)
            v.thread v)
  ]
  | inr past ↦ rw past (watch s s.state ready s.joinable (omega arith) v.states refl v.thread v)
]
supervisor_at-Inv s c join_wait h e v = elim (Bool-cases (is_gone s.worker)) [
  | inl g ↦ rw g (
      watch s s.state join_check false (omega arith) v.states
        (gone_stopped s.worker s.state v.states g) (ground (arith, g)) v)
  | inr alive ↦ rw alive v
]
supervisor_at-Inv s c join_check h e v =
    rw over (watch s s.state ready s.joinable (omega arith) v.states refl v.thread v)
  where
    over : is s.state stopped ≡ true
    over = ground (arith, v.supervisor, e)
supervisor_at-Inv s c SupervisorAt.trapped h e v = v

pub Step-Inv : {s t : System} → Step s t → Inv s → Inv t
unfolding worker_step supervisor_step
Step-Inv {s} (worker_moves tid nz) v = worker_at-Inv tid s s.worker nz refl v
Step-Inv {s} (supervisor_moves c h) v = supervisor_at-Inv s c s.supervisor h refl v

pub Reach-Inv : {s t : System} → Reach s t → Inv s → Inv t
Reach-Inv here v = v
Reach-Inv (next r st) v = Step-Inv st (Reach-Inv r v)

untrapped : (w : WorkerAt) (st : State) → consistent w st ≡ true → w ≢ WorkerAt.trapped
untrapped w st c e = absurd (ground (arith, c, e))

-- In every interleaving of a thread with a supervisor that has installed its pipes, starts it once
-- and joins it after the start, none of these LNX_CHECKs fails: `start`'s on the two edges and on a
-- second start, `instance`'s on the role, `attach`'s two, run_loop's on its control block, the
-- trampoline's on the state that it observes, and join's.
pub no_trap :
    {s : System}
    → Reach wired s
    → (s.worker ≢ WorkerAt.trapped) × (s.supervisor ≢ SupervisorAt.trapped)
no_trap {s} r = (untrapped s.worker s.state v.states, untold s.supervisor v.supervisor)
  where
    v : Inv s
    v = Reach-Inv r wired-Inv

    untold : (a : SupervisorAt) → informed a s.state s.worker ≡ true → a ≢ SupervisorAt.trapped
    untold a h e = absurd (ground (arith, h, e))

published_running : (w : WorkerAt) → consistent w running ≡ true → published w ≡ true
published_running unborn h = absurd (ground arith)
published_running install_role h = absurd (ground arith)
published_running publish_tid h = absurd (ground arith)
published_running prepare h = refl
published_running promote h = refl
published_running enter_loop h = refl
published_running loop_test h = refl
published_running tick h = refl
published_running (check_observed o) h = refl
published_running publish_stopped h = refl
published_running gone h = refl
published_running WorkerAt.trapped h = absurd (ground arith)

-- In every such interleaving, an observer who finds the thread running reads a kernel tid that is
-- not 0.
pub tid_before_running : {s : System} → Reach wired s → s.state ≡ running → kernel_tid s ≢ 0
unfolding kernel_tid
tid_before_running {s} r e z =
    let v = Reach-Inv r wired-Inv in
    absurd (ground (arith, published_running s.worker (rw (← e) v.states), v.tid, e, z))

-- In every such interleaving the state is stopped exactly when the thread has left its
-- trampoline.
pub stopped_when_gone : {s : System} → Reach wired s → is s.state stopped ≡ is_gone s.worker
stopped_when_gone {s} r = last s.worker s.state (Reach-Inv r wired-Inv).states
  where
    last : (w : WorkerAt) (st : State) → consistent w st ≡ true → is st stopped ≡ is_gone w
    last unborn st h = ground (arith, h)
    last install_role st h = ground (arith, h)
    last publish_tid st h = ground (arith, h)
    last prepare st h = ground (arith, h)
    last promote st h = ground (arith, h)
    last enter_loop st h = ground (arith, h)
    last loop_test st h = ground (arith, h)
    last tick st h = ground (arith, h)
    last (check_observed o) st h = ground (arith, h)
    last publish_stopped st h = ground (arith, h)
    last gone st h = h
    last WorkerAt.trapped st h = absurd (ground (arith, h))
