-- ===== src/Lifecycle/Tests.antt =====
-- One thread from start to join: runs of the code, and each theorem at an input that meets its
-- hypotheses.
use io_uring_net_engine.Prelude.{ℕ, ◌≡◌, ◌≢◌, refl, arith, true, false}
use io_uring_net_engine.Lifecycle.{
  running, draining, stopped, is, WorkerAt, SupervisorAt, System, wired, worker_step, worker_at,
  starts, requests, call, supervisor_step, supervisor_at, requesting, gone,
}
use io_uring_net_engine.Lifecycle.Invariant.{is_unborn}
use io_uring_net_engine.Lifecycle.Safety.{
  worker_moves, supervisor_moves, Reach, here, next, no_trap,
}
use io_uring_net_engine.Lifecycle.Progress.{worker_run, drains}

abbrev tid : ℕ
tid = 77

tid_nonzero : tid ≢ 0
tid_nonzero e = absurd (omega (arith, e))

abbrev born : System
born = supervisor_step wired starts

born-Reach : Reach wired born
unfolding wired
born-Reach = next here (supervisor_moves starts refl)

-- The thread in its loop.
abbrev live : System
live = worker_step 77 (worker_step 77 (worker_step 77 (worker_step 77 (worker_step 77 born))))

move : {s t : System} → Reach s t → Reach s (worker_step 77 t)
move r = next r (worker_moves 77 tid_nonzero)

live-Reach : Reach wired live
live-Reach = move (move (move (move (move born-Reach))))

-- The supervisor has loaded the state.
abbrev asking : System
asking = supervisor_step live requests

asking-Reach : Reach wired asking
asking-Reach = next live-Reach (supervisor_moves requests tt)

abbrev asked : System
asked = supervisor_step asking requests

asked-Reach : Reach wired asked
asked-Reach = next asking-Reach (supervisor_moves requests tt)

live_running : live.state ≡ running
unfolding worker_step worker_at supervisor_step supervisor_at call wired
live_running = refl

asking_requesting : asking.supervisor ≡ requesting running
unfolding worker_step worker_at supervisor_step supervisor_at call wired
asking_requesting = refl

asked_draining : asked.state ≡ draining
unfolding worker_step worker_at supervisor_step supervisor_at call wired
asked_draining = refl

asked_born : is_unborn asked.worker ≡ false
unfolding worker_step worker_at supervisor_step supervisor_at call wired
asked_born = refl

no_trap_example : (asked.worker ≢ WorkerAt.trapped) × (asked.supervisor ≢ SupervisorAt.trapped)
no_trap_example = no_trap asked-Reach

drains_example :
    ((worker_run 77 7 asked).worker ≡ gone) × (is (worker_run 77 7 asked).state stopped ≡ true)
drains_example = drains 77 tid_nonzero asked-Reach asked_draining asked_born
