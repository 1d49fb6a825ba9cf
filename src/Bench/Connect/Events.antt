-- ===== src/Bench/Connect/Events.antt =====
-- client-bench/src/connect.cpp: what an event makes of a phase.
use io_uring_net_engine.Prelude.{
  ℕ, ◌+◌, ◌-◌, ◌≤◌, ◌<◌, ◌≡◌, refl, sym, ◌∙◌, ap, subst, arith, Bool, true, not, ◌||◌, none, some,
  List, [], ◌∷◌, ◌++◌, append_assoc, ◌-◌, ◌==◌, if◌then◌else◌,
}
use io_uring_net_engine.Epoll.State.{Bytes, is_empty, at}
use io_uring_net_engine.Bench.{Proto, put_frame}
use io_uring_net_engine.Bench.Conn.{ConnState, connecting, ready, dead, Conn, empty_conn}
use io_uring_net_engine.Bench.Socket.{Kernel, flush_pending}
use io_uring_net_engine.Bench.Socket.Keeps.{Kept, flush_pending-Kept}
use io_uring_net_engine.Bench.Socket.Stream.{outgoing, outgoing-flush_pending}
use io_uring_net_engine.Bench.Connect.{
  Event, Phase, econnreset, forget, hello, greet, on_connecting, by_state, on_event, on_events,
  pop_back, erase_first,
}
use io_uring_net_engine.Bench.Connect.Counts.{one_if, pop_back-append}
use io_uring_net_engine.Prelude.At.{at_twice}
use io_uring_net_engine.Bench.Connect.Phases.{
  is_connecting, is_ready, Tracks, track_add, track_remove, Settled, SettledIn, Balanced, settle,
}
use io_uring_net_engine.Bench.Connect.Steps.{either_way, settled_in, forget_connecting}
use io_uring_net_engine.Bench.Connect.Serve.{on_ready-Balanced}

module _ (proto : Proto) (to_string : ℕ → Bytes) (node per_room max_conns max_inflight : ℕ) where
  abbrev Holds : Phase → Type 0
  Holds p = Balanced proto to_string node per_room max_conns max_inflight p

  hello_behind :
      (pending : Bytes) (index : ℕ)
      → hello proto to_string node per_room pending index
        ≡ pending ++ hello proto to_string node per_room [] index
  unfolding hello put_frame
  hello_behind pending index = append_assoc pending _ _

  -- A connection that is ready for no longer than its first send.
  forget_greeted :
      (p : Phase) (fd err : ℕ) (c : Conn) (k : Kernel)
      → Holds p
      → (p.conns fd).state ≡ connecting
      → Holds (
          forget
            (record p {
              established = p.established + 1 - 1;
              inflight = p.inflight - 1;
              conns = at p.conns fd c;
              live = pop_back (p.live ++ (fd ∷ []));
              kernels = at p.kernels fd k;
            })
            fd
            err)
  unfolding forget
  forget_greeted p fd err c k b e =
      let f = forget_connecting proto to_string node per_room max_conns max_inflight p fd err b e in
      record {
        sum = omega (arith, f.sum);
        capped = f.capped;
        paced = f.paced;
        reasons = f.reasons;
        opening = (
          f.opening.0,
          (
            f.opening.1.0,
            λ x. f.opening.1.1 x ∙ ap (λ g. one_if (is_connecting (g x).state)) (sym twice),
          ),
        );
        listed = (
          rw (pop_back-append p.live fd) (f.listed.0 ∙ omega arith),
          λ x.
              rw (pop_back-append p.live fd)
                (f.listed.1 x ∙ ap (λ g. one_if (is_ready (g x).state)) (sym twice)),
        );
        each =
            subst
              (λ g.
                (x : ℕ)
                → Settled proto to_string node per_room p.started (g x) (at p.kernels fd k x)
                    (at p.interest fd none x))
              (sym twice)
              (settle proto to_string node per_room p fd p.started empty_conn k none (omega arith)
                (refl, refl) b.each);
      }
    where
      twice : at (at p.conns fd c) fd empty_conn ≡ at p.conns fd empty_conn
      twice = at_twice p.conns fd c empty_conn

  greet-Balanced :
      (p : Phase) (e : Event)
      → Holds p
      → (p.conns e.fd).state ≡ connecting
      → Holds (greet proto to_string node per_room p e)
  unfolding greet
  greet-Balanced p e b was =
      either_way proto to_string node per_room max_conns max_inflight (not r.0)
        (forget
          (record p' {
            established = p.established + 1 - 1;
            live = pop_back (p.live ++ (e.fd ∷ []));
          })
          e.fd e.errno)
        (record p' { interest = at p.interest e.fd (some (true, not (is_empty r.1.0.pending))) })
        (λ _. forget_greeted p e.fd e.errno r.1.0 r.1.1 b was)
        (λ _. record {
          sum = omega (arith, b.sum, removed.0);
          capped = b.capped;
          paced = omega (arith, b.paced);
          reasons = b.reasons;
          opening = (erase_first b.opening.0 e.fd, removed.1);
          listed =
              track_add is_ready p.established p.live p.conns e.fd r.1.0 (ap is_ready was)
                (ap is_ready kept.0) b.listed;
          each =
              settle proto to_string node per_room p e.fd p.started r.1.0 r.1.1
                (some (true, not (is_empty r.1.0.pending))) (omega arith)
                (subst
                  (λ s.
                    SettledIn proto to_string node per_room s p.started r.1.0 r.1.1
                      (some (true, not (is_empty r.1.0.pending))))
                  (sym kept.0) (streams, (refl, subst (λ i. i < p.started) (sym kept.1.0) old.1.1)))
                b.each;
        })
    where
      c : Conn
      c = record (p.conns e.fd) {
        pending = hello proto to_string node per_room (p.conns e.fd).pending (p.conns e.fd).index;
        state = ready;
      }

      r : Bool × (Conn × Kernel)
      r = flush_pending c (p.kernels e.fd)

      p' : Phase
      p' = record p {
        inflight = p.inflight - 1;
        established = p.established + 1;
        live = p.live ++ (e.fd ∷ []);
        conns = at p.conns e.fd r.1.0;
        kernels = at p.kernels e.fd r.1.1;
      }

      kept : Kept c r
      kept = flush_pending-Kept c (p.kernels e.fd)

      old :
          SettledIn proto to_string node per_room connecting p.started
            (p.conns e.fd)
            (p.kernels e.fd)
            (p.interest e.fd)
      old = settled_in proto to_string node per_room max_conns max_inflight connecting p e.fd b was

      removed :
          (1 ≤ p.inflight)
          × Tracks is_connecting
              (p.inflight - 1)
              (erase_first b.opening.0 e.fd)
              (at p.conns e.fd r.1.0)
      removed =
          track_remove is_connecting p.inflight b.opening.0 p.conns e.fd r.1.0
            (ap is_connecting was) (ap is_connecting kept.0) b.opening.1

      streams : outgoing r.1.0 r.1.1 ≡ hello proto to_string node per_room [] r.1.0.index
      streams =
          outgoing-flush_pending c (p.kernels e.fd)
          ∙ ap (λ b. (p.kernels e.fd).wire ++ b)
              (hello_behind (p.conns e.fd).pending (p.conns e.fd).index)
          ∙ sym (
              append_assoc (p.kernels e.fd).wire (p.conns e.fd).pending
                (hello proto to_string node per_room [] (p.conns e.fd).index))
          ∙ ap (λ b. b ++ hello proto to_string node per_room [] (p.conns e.fd).index) old.0
          ∙ ap (λ i. hello proto to_string node per_room [] i) (sym kept.1.0)

  on_connecting-Balanced :
      (p : Phase) (e : Event)
      → Holds p
      → (p.conns e.fd).state ≡ connecting
      → Holds (on_connecting proto to_string node per_room p e)
  unfolding on_connecting
  on_connecting-Balanced p e b was =
      either_way proto to_string node per_room max_conns max_inflight
        (not (e.soerr == 0) || e.hung_up)
        (forget (record p { inflight = p.inflight - 1 }) e.fd
          (if e.soerr == 0 then econnreset else e.soerr))
        (greet proto to_string node per_room p e)
        (λ _.
          forget_connecting proto to_string node per_room max_conns max_inflight p e.fd
            (if e.soerr == 0 then econnreset else e.soerr) b was)
        (λ _. greet-Balanced p e b was)

  by_state-Balanced :
      (st : ConnState) (p : Phase) (e : Event)
      → Holds p
      → (p.conns e.fd).state ≡ st
      → Holds (by_state proto to_string node per_room st p e)
  unfolding by_state
  by_state-Balanced ConnState.none p e b was = b
  by_state-Balanced connecting p e b was = on_connecting-Balanced p e b was
  by_state-Balanced ready p e b was =
      on_ready-Balanced proto to_string node per_room max_conns max_inflight p e (b, was)
  by_state-Balanced dead p e b was = b

  pub on_events-Balanced :
      (es : List Event) (p : Phase) → Holds p → Holds (on_events proto to_string node per_room p es)
  unfolding on_event
  on_events-Balanced [] p b = b
  on_events-Balanced (e ∷ es) p b =
      on_events-Balanced es (on_event proto to_string node per_room p e)
        (by_state-Balanced (p.conns e.fd).state p e b refl)
