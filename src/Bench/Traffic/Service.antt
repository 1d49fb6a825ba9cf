-- ===== src/Bench/Traffic/Service.antt =====
-- client-bench/src/traffic.cpp: the service of a socket that is ready, and a send that fails.
use io_uring_net_engine.Prelude.{
  ℕ, ◌+◌, ◌≡◌, refl, ◌∙◌, ap, arith, Bool, true, false, not, ◌&&◌, ◌||◌, some, if◌then◌else◌,
  Bool-cases, inl, inr,
}
use io_uring_net_engine.Epoll.State.{Bytes, is_empty, at}
use io_uring_net_engine.Bench.{Stats, consume_frames}
use io_uring_net_engine.Bench.Conn.{Conn, dead}
use io_uring_net_engine.Bench.Connect.{Event}
use io_uring_net_engine.Bench.Connect.Counts.{one_if}
use io_uring_net_engine.Prelude.At.{at_same}
use io_uring_net_engine.Bench.Socket.{Kernel, flush_pending, read_available}
use io_uring_net_engine.Bench.Socket.Keeps.{flush_pending-Kept, read_available-SameBut}
use io_uring_net_engine.Bench.Traffic.{
  Plan, Traffic, is_live, service_write, service_read, service_end, service,
}

-- No connection has been lost, and this one's state is what it was.
abbrev Unlost : Traffic → ℕ → Traffic → Type 0
Unlost t fd u = (u.lost_conns ≡ t.lost_conns) × ((u.conns fd).state ≡ (t.conns fd).state)

choose :
    (b : Bool) (x y : Bool × Traffic) (t : Traffic) (fd : ℕ)
    → Unlost t fd x.1
    → Unlost t fd y.1
    → Unlost t fd (if b then x else y).1
choose true x y t fd p q = p
choose false x y t fd p q = q

module _ (p : Plan) where
  service_write-Unlost : (t : Traffic) (e : Event) → Unlost t e.fd (service_write p t e).1
  unfolding service_write
  service_write-Unlost t e =
      choose (not e.writable) (true, t)
        (if r.0 && is_empty r.1.0.pending
          then (true, record t' { interest = at t.interest e.fd (some (true, false)) })
          else (r.0, t'))
        t e.fd (refl, refl)
        (choose (r.0 && is_empty r.1.0.pending)
          (true, record t' { interest = at t.interest e.fd (some (true, false)) }) (r.0, t') t e.fd
          (refl, same) (refl, same))
    where
      r : Bool × (Conn × Kernel)
      r = flush_pending (t.conns e.fd) (t.kernels e.fd)

      t' : Traffic
      t' = record t { conns = at t.conns e.fd r.1.0; kernels = at t.kernels e.fd r.1.1 }

      same : (at t.conns e.fd r.1.0 e.fd).state ≡ (t.conns e.fd).state
      same =
          ap (λ c. c.state) (at_same t.conns e.fd r.1.0)
          ∙ (flush_pending-Kept (t.conns e.fd) (t.kernels e.fd)).0

  service_read-Unlost :
      (now : ℕ) (alive : Bool) (t : Traffic) (e : Event)
      → Unlost t e.fd (service_read p now (alive, t) e).1
  unfolding service_read
  service_read-Unlost now alive t e =
      choose (not (alive && e.readable)) (alive, t)
        (
          r.0,
          record t {
            conns = at t.conns e.fd (record r.1.0 { rx = f.1 });
            kernels = at t.kernels e.fd r.1.1.1;
            bytes_in = r.1.1.0;
            received = f.0;
          },
        )
        t e.fd (refl, refl)
        (
          refl,
          ap (λ c. c.state) (at_same t.conns e.fd (record r.1.0 { rx = f.1 }))
              ∙ ap (λ c. c.state)
                  (read_available-SameBut (t.conns e.fd) t.bytes_in (t.kernels e.fd)).0,
        )
    where
      r : Bool × (Conn × (ℕ × Kernel))
      r = read_available (t.conns e.fd) t.bytes_in (t.kernels e.fd)

      f : Stats × Bytes
      f = consume_frames p.proto p.node now r.1.0.rx t.received

  service_end-Lost :
      (alive : Bool) (t : Traffic) (e : Event)
      → is_live p (t.conns e.fd).state ≡ true
      → (service_end p (alive, t) e).lost_conns
          + one_if (is_live p ((service_end p (alive, t) e).conns e.fd).state)
        ≡ t.lost_conns + 1
  unfolding service_end
  service_end-Lost alive t e live = elim (Bool-cases (not alive || e.hung_up)) [
    | inl x ↦
        rw (x, service_end, at_same t.conns e.fd (record (t.conns e.fd) { state = dead }))
          (omega arith)
    | inr x ↦ rw (x, service_end, live) refl
  ]

  -- In the walk over the events, a connection that was ready and is so no longer is counted as lost,
  -- exactly once, and no other is.
  pub lost_conns-service :
      (now : ℕ) (t : Traffic) (e : Event)
      → (service p now t e).lost_conns + one_if (is_live p ((service p now t e).conns e.fd).state)
        ≡ t.lost_conns + one_if (is_live p (t.conns e.fd).state)
  unfolding service
  lost_conns-service now t e = elim (Bool-cases (is_live p (t.conns e.fd).state)) [
    | inr x ↦ rw (x, service, x) refl
    | inl x ↦
        rw (x, service)
          (service_end-Lost r.0 r.1 e (ap (λ s. is_live p s) (rs.1 ∙ ws.1) ∙ x)
            ∙ ap (λ n. n + 1) (rs.0 ∙ ws.0))
  ]
    where
      w : Bool × Traffic
      w = service_write p t e

      r : Bool × Traffic
      r = service_read p now w e

      ws : Unlost t e.fd w.1
      ws = service_write-Unlost t e

      rs : Unlost w.1 e.fd r.1
      rs = service_read-Unlost now w.0 w.1 e
