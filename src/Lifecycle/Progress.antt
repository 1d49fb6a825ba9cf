-- ===== src/Lifecycle/Progress.antt =====
-- The state only moves forward, request_stop ends, and so does a thread that drains.
use io_uring_net_engine.Prelude.{
  ℕ, zero, suc, ap, ◌∙◌, sym, subst, ◌⊎◌, inl, inr, Bool-cases, ◌≤◌, ◌<◌, ◌≡◌, ◌≢◌, refl, arith,
  true, false, not, ◌&&◌, ◌||◌,
}
use io_uring_net_engine.Lifecycle.{
  State, starting, running, draining, stopped, code_of, is, WorkerAt, SupervisorAt, unborn,
  install_role, publish_tid, prepare, promote, enter_loop, loop_test, tick, check_observed,
  publish_stopped, gone, ready, requesting, join_wait, join_check, System, wired, worker_at,
  worker_step, Call, starts, requests, joins, call, supervisor_at, supervisor_step, is_gone,
}
use io_uring_net_engine.Lifecycle.Invariant.{is_unborn, Inv, wired-Inv, code_of_le, worker_at-Inv}
use io_uring_net_engine.Lifecycle.Safety.{
  worker_moves, supervisor_moves, Reach, here, next, Reach-Inv, stopped_when_gone,
}

worker_at-later :
    (tid : ℕ) (s : System) (w : WorkerAt) → code_of s.state ≤ code_of (worker_at tid s w).state
unfolding worker_at
worker_at-later tid s unborn = omega arith
worker_at-later tid s install_role = omega arith
worker_at-later tid s publish_tid = omega arith
worker_at-later tid s prepare = ground arith
worker_at-later tid s promote = ground arith
worker_at-later tid s enter_loop = ground arith
worker_at-later tid s loop_test = ground arith
worker_at-later tid s tick = omega arith
worker_at-later tid s (check_observed o) = ground arith
worker_at-later tid s publish_stopped = code_of_le s.state
worker_at-later tid s gone = omega arith
worker_at-later tid s WorkerAt.trapped = omega arith

call-later : (s : System) (c : Call) → code_of s.state ≤ code_of (call s c).state
unfolding call
call-later s starts = ground arith
call-later s requests = omega arith
call-later s joins = ground arith

supervisor_at-later :
    (s : System) (c : Call) (a : SupervisorAt)
    → code_of s.state ≤ code_of (supervisor_at s c a).state
unfolding supervisor_at
supervisor_at-later s c ready = call-later s c
supervisor_at-later s c (requesting o) = ground arith
supervisor_at-later s c join_wait = ground arith
supervisor_at-later s c join_check = ground arith
supervisor_at-later s c SupervisorAt.trapped = omega arith

-- No step of either side takes the state back, in any interleaving: a drain request is never
-- overwritten.
pub state_forward : {s t : System} → Reach s t → code_of s.state ≤ code_of t.state
unfolding worker_step supervisor_step
state_forward here = omega arith
state_forward (next {t} r (worker_moves tid nz)) =
    omega (arith, state_forward r, worker_at-later tid t t.worker)
state_forward (next {t} r (supervisor_moves c h)) =
    omega (arith, state_forward r, supervisor_at-later t c t.supervisor)

-- In every such interleaving, a turn of the loop of `request_stop` either ends the call, with the
-- state at draining or stopped, or has lost to a step that took the state forward, and then looks
-- at that newer state.
pub request_progress :
    {s : System} {o : State} (c : Call)
    → Reach wired s
    → s.supervisor ≡ requesting o
    → let t = supervisor_step s c in
      ((t.supervisor ≡ ready) × (2 ≤ code_of t.state))
      ⊎ ((t.supervisor ≡ requesting s.state) × (code_of o < code_of s.state))
unfolding supervisor_step supervisor_at
request_progress {s} {o} c r e =
    let v = Reach-Inv r wired-Inv in
    rw e (elim (Bool-cases (is o starting || is o running)) [
      | inl pre ↦ elim (Bool-cases (is s.state o)) [
        | inl swap ↦ rw (pre, swap) (inl (refl, omega arith))
        | inr lost ↦ rw (pre, lost) (inr (refl, ground (arith, v.supervisor, e, lost)))
      ]
      | inr past ↦ rw past (inl (refl, ground (arith, v.supervisor, e, past)))
    ])

-- Steps of the thread alone.
unfoldable pub worker_run : ℕ → ℕ → System → System
worker_run tid zero s = s
worker_run tid (suc n) s = worker_run tid n (worker_step tid s)

-- Steps to the end once the state is draining.
abbrev remaining : WorkerAt → ℕ
remaining unborn = 7
remaining install_role = 6
remaining publish_tid = 5
remaining prepare = 4
remaining promote = 3
remaining enter_loop = 3
remaining loop_test = 2
remaining tick = 3
remaining (check_observed o) = 2
remaining publish_stopped = 1
remaining gone = 0
remaining WorkerAt.trapped = 0

drain_step :
    (tid : ℕ) (s : System) (w : WorkerAt)
    → s.worker ≡ w
    → Inv s
    → s.state ≡ draining
    → is_unborn w ≡ false
    → let t = worker_at tid s w in
      (remaining t.worker < remaining w)
      × (is_unborn t.worker ≡ false)
      × ((t.state ≡ draining) ⊎ (t.worker ≡ gone))
unfolding worker_at
drain_step tid s unborn e v d b = absurd (ground arith)
drain_step tid s install_role e v d b = (omega arith, refl, inl d)
drain_step tid s publish_tid e v d b = (omega arith, refl, inl d)
drain_step tid s prepare e v d b = rw asked (omega arith, refl, inl d)
  where
    asked : (s.role_installed && not s.attached && s.handed) ≡ true
    asked = ground (arith, v.flags, v.given, e)
drain_step tid s promote e v d b = rw late (omega arith, refl, inl d)
  where
    late : is s.state starting ≡ false
    late = ground (arith, d)
drain_step tid s enter_loop e v d b = rw on (omega arith, refl, inl d)
  where
    on : s.attached ≡ true
    on = ground (arith, v.flags, e)
drain_step tid s loop_test e v d b = rw off (omega arith, refl, inl d)
  where
    off : is s.state running ≡ false
    off = ground (arith, d)
drain_step tid s tick e v d b = (omega arith, refl, inl d)
drain_step tid s (check_observed o) e v d b = rw seen (omega arith, refl, inl d)
  where
    seen : is o draining ≡ true
    seen = ground (arith, v.states, e)
drain_step tid s publish_stopped e v d b = (omega arith, refl, inr refl)
drain_step tid s gone e v d b = absurd (ground (arith, v.states, e, d))
drain_step tid s WorkerAt.trapped e v d b = absurd (ground (arith, v.states, e, d))

gone_stays : (tid n : ℕ) (s : System) → s.worker ≡ gone → (worker_run tid n s).worker ≡ gone
unfolding worker_run worker_step worker_at
gone_stays tid zero s e = e
gone_stays tid (suc n) s e =
    gone_stays tid n (worker_at tid s s.worker)
      (subst (λ w. (worker_at tid s w).worker ≡ gone) (sym e) e)

run_drains :
    (tid n : ℕ) (s : System)
    → tid ≢ 0
    → Inv s
    → (s.state ≡ draining) ⊎ (s.worker ≡ gone)
    → is_unborn s.worker ≡ false
    → remaining s.worker ≤ n
    → (worker_run tid n s).worker ≡ gone
unfolding worker_run worker_step
run_drains tid n s nz v (inr g) b h = gone_stays tid n s g
run_drains tid zero s nz v (inl d) b h =
    absurd (omega (arith, (drain_step tid s s.worker refl v d b).0))
run_drains tid (suc n) s nz v (inl d) b h =
    let (less, born, on) = drain_step tid s s.worker refl v d b in
    run_drains tid n (worker_at tid s s.worker) nz (worker_at-Inv tid s s.worker nz refl v) on born
      (omega (arith, h, less))

remaining_le : (w : WorkerAt) → remaining w ≤ 7
remaining_le unborn = omega arith
remaining_le install_role = omega arith
remaining_le publish_tid = omega arith
remaining_le prepare = omega arith
remaining_le promote = omega arith
remaining_le enter_loop = omega arith
remaining_le loop_test = omega arith
remaining_le tick = omega arith
remaining_le (check_observed o) = omega arith
remaining_le publish_stopped = omega arith
remaining_le gone = omega arith
remaining_le WorkerAt.trapped = omega arith

run_Reach : (tid n : ℕ) {s t : System} → tid ≢ 0 → Reach s t → Reach s (worker_run tid n t)
unfolding worker_run
run_Reach tid zero nz r = r
run_Reach tid (suc n) nz r = run_Reach tid n nz (next r (worker_moves tid nz))

-- A thread that has been started and asked to drain, wherever it stands in an interleaving with a
-- supervisor that installed its pipes, starts it once and joins it after the start, has published
-- stopped and gone after seven more steps of its own.
pub drains :
    {s : System} (tid : ℕ)
    → tid ≢ 0
    → Reach wired s
    → s.state ≡ draining
    → is_unborn s.worker ≡ false
    → ((worker_run tid 7 s).worker ≡ gone) × (is (worker_run tid 7 s).state stopped ≡ true)
drains {s} tid nz r d b =
    let end = run_drains tid 7 s nz (Reach-Inv r wired-Inv) (inl d) b (remaining_le s.worker) in
    (end, stopped_when_gone (run_Reach tid 7 nz r) ∙ ap is_gone end)
