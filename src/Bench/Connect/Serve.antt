-- ===== src/Bench/Connect/Serve.antt =====
-- client-bench/src/connect.cpp: an event on a connection that is ready.
use io_uring_net_engine.Prelude.{
  ℕ, ◌-◌, ◌<◌, ◌≡◌, refl, sym, ◌∙◌, ap, ap₂, subst, arith, Bool, true, false, not, ◌&&◌, ◌||◌, some,
  [], ◌++◌, ◌-◌, ◌==◌, if◌then◌else◌, Bool-cases, inl, inr,
}
use io_uring_net_engine.Epoll.State.{Bytes, is_empty, at}
use io_uring_net_engine.Bench.{Proto}
use io_uring_net_engine.Bench.Conn.{ready, Conn}
use io_uring_net_engine.Bench.Socket.{Kernel, flush_pending, read_available}
use io_uring_net_engine.Bench.Socket.Keeps.{
  Kept, flush_pending-Kept, SameBut, read_available-SameBut,
}
use io_uring_net_engine.Bench.Socket.Stream.{outgoing, outgoing-flush_pending}
use io_uring_net_engine.Bench.Connect.{
  Event, Phase, econnreset, forget, hello, ready_write, ready_read, ready_end, on_ready,
  erase_first,
}
use io_uring_net_engine.Prelude.At.{at_self, at_same}
use io_uring_net_engine.Bench.Connect.Phases.{SettledIn, Balanced}
use io_uring_net_engine.Bench.Connect.Steps.{either_way, settled_in, forget_ready, ready_edit}

module _ (proto : Proto) (to_string : ℕ → Bytes) (node per_room max_conns max_inflight : ℕ) where
  abbrev Holds : Phase → Type 0
  Holds p = Balanced proto to_string node per_room max_conns max_inflight p

  -- A phase that still has this connection.
  abbrev Ready : Phase → ℕ → Type 0
  Ready p fd = Holds p × ((p.conns fd).state ≡ ready)

  one_or_other :
      (b : Bool) (x y : Bool × Phase) (fd : ℕ)
      → (b ≡ true → Ready x.1 fd)
      → (b ≡ false → Ready y.1 fd)
      → Ready (if b then x else y).1 fd
  one_or_other true x y fd p q = p refl
  one_or_other false x y fd p q = q refl

  ready_write-Ready : (p : Phase) (e : Event) → Ready p e.fd → Ready (ready_write p e).1 e.fd
  unfolding ready_write
  ready_write-Ready p e h =
      one_or_other (not e.writable) (true, p)
        (if r.0 && is_empty r.1.0.pending then (true, armless) else (r.0, p')) e.fd (λ _. h)
        (λ _.
          one_or_other (r.0 && is_empty r.1.0.pending) (true, armless) (r.0, p') e.fd
            (λ both. (
              ready_edit proto to_string node per_room max_conns max_inflight p e.fd r.1.0 r.1.1
                  (some (true, false)) h.0 h.1 is_ready_still
                  (
                    streams,
                    (
                      ap (λ b. some (true, not b)) (sym (snd_of r.0 (is_empty r.1.0.pending) both)),
                      below,
                    ),
                  ),
              ap (λ c. c.state) (at_same p.conns e.fd r.1.0) ∙ is_ready_still,
            ))
            (λ one. (
              subst (λ i. Holds (record p' { interest = i })) (at_self p.interest e.fd)
                  (ready_edit proto to_string node per_room max_conns max_inflight p e.fd r.1.0
                    r.1.1 (p.interest e.fd) h.0 h.1 is_ready_still
                    (streams, (old.1.0 ∙ ap (λ b. some (true, not b)) (same_wait one), below))),
              ap (λ c. c.state) (at_same p.conns e.fd r.1.0) ∙ is_ready_still,
            )))
    where
      r : Bool × (Conn × Kernel)
      r = flush_pending (p.conns e.fd) (p.kernels e.fd)

      p' : Phase
      p' = record p { conns = at p.conns e.fd r.1.0; kernels = at p.kernels e.fd r.1.1 }

      armless : Phase
      armless = record p' { interest = at p.interest e.fd (some (true, false)) }

      kept : Kept (p.conns e.fd) r
      kept = flush_pending-Kept (p.conns e.fd) (p.kernels e.fd)

      is_ready_still : r.1.0.state ≡ ready
      is_ready_still = kept.0 ∙ h.1

      old :
          SettledIn proto to_string node per_room ready p.started
            (p.conns e.fd)
            (p.kernels e.fd)
            (p.interest e.fd)
      old = settled_in proto to_string node per_room max_conns max_inflight ready p e.fd h.0 h.1

      streams : outgoing r.1.0 r.1.1 ≡ hello proto to_string node per_room [] r.1.0.index
      streams =
          outgoing-flush_pending (p.conns e.fd) (p.kernels e.fd)
          ∙ old.0
          ∙ ap (λ i. hello proto to_string node per_room [] i) (sym kept.1.0)

      below : r.1.0.index < p.started
      below = subst (λ i. i < p.started) (sym kept.1.0) old.1.1

      snd_of : (a b : Bool) → (a && b) ≡ true → b ≡ true
      snd_of true b e = e
      snd_of false b e = absurd (ground (arith, e))

      same_wait :
          (r.0 && is_empty r.1.0.pending) ≡ false
          → is_empty (p.conns e.fd).pending ≡ is_empty r.1.0.pending
      same_wait one = elim (Bool-cases (is_empty (p.conns e.fd).pending)) [
        | inl y ↦ y ∙ sym ((kept.1.1.0 y).1)
        | inr n ↦ elim (Bool-cases r.0) [
          | inl a ↦ n ∙ sym (subst (λ b. (b && is_empty r.1.0.pending) ≡ false) a one)
          | inr a ↦ n ∙ sym (kept.1.1.1 a)
        ]
      ]

  ready_read-Ready :
      (a : Bool) (p : Phase) (e : Event) → Ready p e.fd → Ready (ready_read (a, p) e).1 e.fd
  unfolding ready_read
  ready_read-Ready a p e h =
      one_or_other (not (a && e.readable)) (a, p)
        (
          r.0,
          record p {
            conns = at p.conns e.fd (record r.1.0 { rx = [] });
            kernels = at p.kernels e.fd r.1.1.1;
          },
        )
        e.fd (λ _. h)
        (λ _. (
          subst
              (λ i. Holds (record p {
                conns = at p.conns e.fd (record r.1.0 { rx = [] });
                kernels = at p.kernels e.fd r.1.1.1;
                interest = i;
              }))
              (at_self p.interest e.fd)
              (ready_edit proto to_string node per_room max_conns max_inflight p e.fd
                (record r.1.0 { rx = [] }) r.1.1.1 (p.interest e.fd) h.0 h.1 still
                (
                  streams,
                  (old.1.0 ∙ ap (λ c. some (true, not (is_empty c.pending))) (sym same.0), below),
                )),
          ap (λ c. c.state) (at_same p.conns e.fd (record r.1.0 { rx = [] })) ∙ still,
        ))
    where
      r : Bool × (Conn × (ℕ × Kernel))
      r = read_available (p.conns e.fd) 0 (p.kernels e.fd)

      same : SameBut (p.conns e.fd) (p.kernels e.fd) r
      same = read_available-SameBut (p.conns e.fd) 0 (p.kernels e.fd)

      still : r.1.0.state ≡ ready
      still = ap (λ c. c.state) same.0 ∙ h.1

      old :
          SettledIn proto to_string node per_room ready p.started
            (p.conns e.fd)
            (p.kernels e.fd)
            (p.interest e.fd)
      old = settled_in proto to_string node per_room max_conns max_inflight ready p e.fd h.0 h.1

      streams : r.1.1.1.wire ++ r.1.0.pending ≡ hello proto to_string node per_room [] r.1.0.index
      streams =
          ap₂ (λ w c. w ++ c.pending) same.1 same.0
          ∙ old.0
          ∙ ap (λ c. hello proto to_string node per_room [] c.index) (sym same.0)

      below : r.1.0.index < p.started
      below = subst (λ c. c.index < p.started) (sym same.0) old.1.1

  ready_end-Balanced :
      (a : Bool) (p : Phase) (e : Event) → Ready p e.fd → Holds (ready_end (a, p) e)
  unfolding ready_end
  ready_end-Balanced a p e h =
      either_way proto to_string node per_room max_conns max_inflight (not a || e.hung_up)
        (forget (record p { established = p.established - 1; live = erase_first p.live e.fd }) e.fd
          (if e.errno == 0 then econnreset else e.errno))
        p
        (λ _.
          forget_ready proto to_string node per_room max_conns max_inflight p e.fd
            (if e.errno == 0 then econnreset else e.errno) h.0 h.1)
        (λ _. h.0)

  pub on_ready-Balanced : (p : Phase) (e : Event) → Ready p e.fd → Holds (on_ready p e)
  unfolding on_ready
  on_ready-Balanced p e h =
      let w = ready_write p e in
      let r = ready_read w e in
      ready_end-Balanced r.0 r.1 e (ready_read-Ready w.0 w.1 e (ready_write-Ready p e h))
