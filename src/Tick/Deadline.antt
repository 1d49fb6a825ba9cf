-- ===== src/Tick/Deadline.antt =====
-- server-epoll/tick_logic.h: maybe_tick's deadline and the wait that main computes from it.
use io_uring_net_engine.Prelude.{
  ℕ, ◌+◌, ◌-◌, ◌≤◌, ◌<◌, ◌≡◌, ◌⊎◌, refl, arith, Bool, true, false, some, ltb, if◌then◌else◌,
  Bool-cases, inl, inr,
}
use io_uring_net_engine.Tick.{Tick, due, settle, maybe_tick, timeout_ns}

due_now : (g : Tick) (t0 : ℕ) → g.enabled ≡ true → g.deadline ≤ t0 → due g t0 ≡ true
due_now g t0 on h = rw on (ground (arith, h))

-- The clock does not go back while a tick that is due runs. Then the next deadline is not in the past
-- and at most one period ahead, and it is a whole period after the old one unless the tick ended more
-- than one period late, which is counted.
pub maybe_tick_deadline :
    (g : Tick) (t0 t1 : ℕ)
    → g.enabled ≡ true
    → g.deadline ≤ t0
    → t0 ≤ t1
    → let g' = maybe_tick g t0 t1 in
      (t1 ≤ g'.deadline)
      × ((g'.deadline ≤ t1 + g.period)
          × ((g'.ticks ≡ g.ticks + 1)
              × ((g'.deadline ≡ g.deadline + g.period) × (g'.overruns ≡ g.overruns)
                  ⊎ (g.deadline + g.period < t1) × (g'.overruns ≡ g.overruns + 1))))
unfolding maybe_tick settle
maybe_tick_deadline g t0 t1 on was later =
    rw (due_now g t0 on was) (elim (Bool-cases (ltb (g.deadline + g.period) t1)) [
      | inl e ↦ rw e (ground arith, (ground arith, (refl, inr (ground (arith, e), refl))))
      | inr e ↦ rw e (ground (arith, e), (ground (arith, was, later), (refl, inl (refl, refl))))
    ])

wait_of :
    (g : Tick) (now period : ℕ)
    → g.enabled ≡ true
    → g.deadline ≤ now + period
    → (wait : ℕ) × ((timeout_ns g now ≡ some wait) × (wait ≤ period))
unfolding timeout_ns
wait_of g now period on h = (g.deadline - now, (rw on refl, omega (arith, h)))

-- A deadline that was at most one period ahead before maybe_tick still is after it, so that the wait
-- for the next events is never longer than one period.
pub maybe_tick-timeout_ns :
    (g : Tick) (t0 t1 : ℕ)
    → g.enabled ≡ true
    → g.deadline ≤ t0 + g.period
    → t0 ≤ t1
    → (wait : ℕ) × ((timeout_ns (maybe_tick g t0 t1) t1 ≡ some wait) × (wait ≤ g.period))
unfolding maybe_tick settle
maybe_tick-timeout_ns g t0 t1 on ahead later =
    let a =
      soon (due g t0) (settle g t0 t1) g (λ d. (on, late d)) (on, omega (arith, ahead, later)) in
    wait_of (maybe_tick g t0 t1) t1 g.period a.0 a.1
  where
    late :
        due g t0 ≡ true
        → (if ltb (g.deadline + g.period) t1 then t1 + g.period else g.deadline + g.period)
          ≤ t1 + g.period
    late d = ground (arith, on, d, later)

    soon :
        (b : Bool) (x y : Tick)
        → (b ≡ true → (x.enabled ≡ true) × (x.deadline ≤ t1 + g.period))
        → (y.enabled ≡ true) × (y.deadline ≤ t1 + g.period)
        → ((if b then x else y).enabled ≡ true) × ((if b then x else y).deadline ≤ t1 + g.period)
    soon true x y u v = u refl
    soon false x y u v = v
