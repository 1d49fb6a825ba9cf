-- ===== src/Bench/Connect/Steps.antt =====
-- client-bench/src/connect.cpp: a connection is given up, or goes on.
use io_uring_net_engine.Prelude.{
  ℕ, ◌-◌, ◌≡◌, refl, sym, ◌∙◌, ap, subst, arith, Bool, true, false, Option, none, ◌-◌,
  if◌then◌else◌,
}
use io_uring_net_engine.Epoll.State.{Bytes, at}
use io_uring_net_engine.Bench.{Proto}
use io_uring_net_engine.Bench.Conn.{ConnState, connecting, ready, Conn, empty_conn}
use io_uring_net_engine.Bench.Socket.{Kernel}
use io_uring_net_engine.Bench.Connect.{Phase, forget, erase_first}
use io_uring_net_engine.Bench.Connect.Counts.{total-bump}
use io_uring_net_engine.Bench.Connect.Phases.{
  is_connecting, is_ready, track_same, track_remove, SettledIn, Balanced, settle, settle_conn,
}

module _ (proto : Proto) (to_string : ℕ → Bytes) (node per_room max_conns max_inflight : ℕ) where
  abbrev Holds : Phase → Type 0
  Holds p = Balanced proto to_string node per_room max_conns max_inflight p

  pub either_way :
      (b : Bool) (x y : Phase)
      → (b ≡ true → Holds x)
      → (b ≡ false → Holds y)
      → Holds (if b then x else y)
  either_way true x y p q = p refl
  either_way false x y p q = q refl

  -- A connection in this state.
  pub settled_in :
      (st : ConnState) (p : Phase) (fd : ℕ)
      → Holds p
      → (p.conns fd).state ≡ st
      → SettledIn proto to_string node per_room st p.started
          (p.conns fd)
          (p.kernels fd)
          (p.interest fd)
  settled_in st p fd b e =
      subst
        (λ s.
          SettledIn proto to_string node per_room s p.started (p.conns fd) (p.kernels fd)
            (p.interest fd))
        e (b.each fd)

  pub forget_connecting :
      (p : Phase) (fd err : ℕ)
      → Holds p
      → (p.conns fd).state ≡ connecting
      → Holds (forget (record p { inflight = p.inflight - 1 }) fd err)
  unfolding forget
  forget_connecting p fd err b e =
      let t =
        track_remove is_connecting p.inflight b.opening.0 p.conns fd empty_conn (ap is_connecting e)
          refl b.opening.1 in
      record {
        sum = omega (arith, b.sum, t.0);
        capped = b.capped;
        paced = omega (arith, b.paced);
        reasons = omega (arith, total-bump err p.fail_reasons, b.reasons);
        opening = (erase_first b.opening.0 fd, t.1);
        listed =
            track_same is_ready p.established p.live p.conns fd empty_conn (sym (ap is_ready e))
              b.listed;
        each =
            settle_conn proto to_string node per_room p fd p.started empty_conn none (omega arith)
              (refl, refl) b.each;
      }

  pub forget_ready :
      (p : Phase) (fd err : ℕ)
      → Holds p
      → (p.conns fd).state ≡ ready
      → Holds (
          forget
            (record p { established = p.established - 1; live = erase_first p.live fd })
            fd
            err)
  unfolding forget
  forget_ready p fd err b e =
      let t =
        track_remove is_ready p.established p.live p.conns fd empty_conn (ap is_ready e) refl
          b.listed in
      record {
        sum = omega (arith, b.sum, t.0);
        capped = b.capped;
        paced = b.paced;
        reasons = omega (arith, total-bump err p.fail_reasons, b.reasons);
        opening = (
          b.opening.0,
          track_same is_connecting p.inflight b.opening.0 p.conns fd empty_conn
              (sym (ap is_connecting e)) b.opening.1,
        );
        listed = t.1;
        each =
            settle_conn proto to_string node per_room p fd p.started empty_conn none (omega arith)
              (refl, refl) b.each;
      }

  -- One connection whose state stays what it is.
  pub ready_edit :
      (p : Phase) (fd : ℕ) (c : Conn) (k : Kernel) (i : Option (Bool × Bool))
      → Holds p
      → (p.conns fd).state ≡ ready
      → c.state ≡ ready
      → SettledIn proto to_string node per_room ready p.started c k i
      → Holds (record p {
        conns = at p.conns fd c;
        kernels = at p.kernels fd k;
        interest = at p.interest fd i;
      })
  ready_edit p fd c k i b was is new = record {
    sum = b.sum;
    capped = b.capped;
    paced = b.paced;
    reasons = b.reasons;
    opening = (
      b.opening.0,
      track_same is_connecting p.inflight b.opening.0 p.conns fd c (ap is_connecting (is ∙ sym was))
          b.opening.1,
    );
    listed =
        track_same is_ready p.established p.live p.conns fd c (ap is_ready (is ∙ sym was)) b.listed;
    each =
        settle proto to_string node per_room p fd p.started c k i (omega arith)
          (subst (λ s. SettledIn proto to_string node per_room s p.started c k i) (sym is) new)
          b.each;
  }
