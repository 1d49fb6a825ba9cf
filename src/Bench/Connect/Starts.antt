-- ===== src/Bench/Connect/Starts.antt =====
-- client-bench/src/connect.cpp: the loop that starts connections.
use io_uring_net_engine.Prelude.{
  ℕ, zero, suc, ◌+◌, ◌≤◌, ◌<◌, ◌≡◌, refl, sym, ap, subst, arith, Bool, true, false, ◌&&◌, none,
  some, [], ◌∷◌, ◌++◌, ltb, Bool-cases, inl, inr,
}
use io_uring_net_engine.Epoll.State.{Bytes, at}
use io_uring_net_engine.Bench.{Proto}
use io_uring_net_engine.Bench.Conn.{ConnState, connecting, empty_conn}
use io_uring_net_engine.Bench.Connect.{
  Opened, refused, unwatched, opened, Phase, start_one, start_all,
}
use io_uring_net_engine.Bench.Connect.Counts.{total-bump}
use io_uring_net_engine.Prelude.At.{at_self}
use io_uring_net_engine.Bench.Connect.Phases.{
  is_connecting, is_ready, track_same, track_add, Settled, SettledIn, Balanced, later, settle,
  settle_conn,
}

-- A new socket's fd is none of those that are open.
abbrev pub Fresh : Phase → Opened → Type 0
Fresh p (refused err) = Unit {0}
Fresh p (unwatched fd err) = (p.conns fd).state ≡ ConnState.none
Fresh p (opened fd sends recvs) = (p.conns fd).state ≡ ConnState.none

module _ (proto : Proto) (to_string : ℕ → Bytes) (node per_room max_conns max_inflight : ℕ) where
  abbrev Holds : Phase → Type 0
  Holds p = Balanced proto to_string node per_room max_conns max_inflight p

  pub unused :
      (p : Phase) (fd : ℕ)
      → Holds p
      → (p.conns fd).state ≡ ConnState.none
      → (p.conns fd ≡ empty_conn) × (p.interest fd ≡ none)
  unused p fd b e =
      subst
        (λ st.
          SettledIn proto to_string node per_room st p.started (p.conns fd) (p.kernels fd)
            (p.interest fd))
        e (b.each fd)

  start_one-Balanced :
      (p : Phase) (o : Opened)
      → Holds p
      → Fresh p o
      → p.inflight < max_inflight
      → p.started < max_conns
      → Holds (start_one o p)
  unfolding start_one
  start_one-Balanced p (refused err) b f few more = record {
    sum = omega (arith, b.sum);
    capped = omega (arith, more);
    paced = b.paced;
    reasons = omega (arith, total-bump err p.fail_reasons, b.reasons);
    opening = b.opening;
    listed = b.listed;
    each = λ fd.
        later proto to_string node per_room (p.conns fd).state p.started (p.started + 1)
          (p.conns fd) (p.kernels fd) (p.interest fd) (omega arith) (b.each fd);
  }
  start_one-Balanced p (unwatched fd err) b f few more = record {
    sum = omega (arith, b.sum);
    capped = omega (arith, more);
    paced = b.paced;
    reasons = omega (arith, total-bump err p.fail_reasons, b.reasons);
    opening = (
      b.opening.0,
      track_same is_connecting p.inflight b.opening.0 p.conns fd empty_conn
          (sym (ap is_connecting f)) b.opening.1,
    );
    listed =
        track_same is_ready p.established p.live p.conns fd empty_conn (sym (ap is_ready f))
          b.listed;
    each =
        subst
          (λ i.
            (x : ℕ)
            → Settled proto to_string node per_room (p.started + 1) (at p.conns fd empty_conn x)
                (p.kernels x) (i x))
          (at_self p.interest fd)
          (settle_conn proto to_string node per_room p fd (p.started + 1) empty_conn (p.interest fd)
            (omega arith) (refl, (unused p fd b f).1) b.each);
  }
  start_one-Balanced p (opened fd sends recvs) b f few more =
      let c = record (p.conns fd) { state = connecting; index = p.started } in
      record {
        sum = omega (arith, b.sum);
        capped = omega (arith, more);
        paced = omega (arith, few);
        reasons = b.reasons;
        opening = (
          b.opening.0 ++ (fd ∷ []),
          track_add is_connecting p.inflight b.opening.0 p.conns fd c (ap is_connecting f) refl
              b.opening.1,
        );
        listed =
            track_same is_ready p.established p.live p.conns fd c (sym (ap is_ready f)) b.listed;
        each =
            settle proto to_string node per_room p fd (p.started + 1) c
              (record { sends = sends; recvs = recvs; wire = [] }) (some (false, true))
              (omega arith) (ap (λ k. k.pending) ((unused p fd b f).0), (refl, omega arith)) b.each;
      }

  module _ (next : Phase → Opened) (fresh : (p : Phase) → Fresh p (next p)) where
    pub start_all-Balanced :
        (fuel : ℕ) (p : Phase) → Holds p → Holds (start_all max_conns max_inflight next fuel p)
    unfolding start_all
    start_all-Balanced zero p b = b
    start_all-Balanced (suc fuel) p b = elim (Bool-cases (ltb p.inflight max_inflight)) [
      | inl x ↦ elim (Bool-cases (ltb p.started max_conns)) [
        | inl y ↦
            rw (x, y, start_all)
              (start_all-Balanced fuel (start_one (next p) p)
                (start_one-Balanced p (next p) b (fresh p) (ground (arith, x)) (ground (arith, y))))
        | inr y ↦ rw (x, y, start_all) b
      ]
      | inr x ↦ rw (x, start_all) b
    ]

started-start_one : (o : Opened) (p : Phase) → (start_one o p).started ≡ p.started + 1
unfolding start_one
started-start_one (refused err) p = refl
started-start_one (unwatched fd err) p = refl
started-start_one (opened fd sends recvs) p = refl

-- The inner loop ends when as many connections are in flight as may be, or all have been started.
pub start_all_enough :
    (max_conns max_inflight : ℕ) (next : Phase → Opened) (fuel : ℕ) (p : Phase)
    → max_conns ≤ p.started + fuel
    → (ltb (start_all max_conns max_inflight next fuel p).inflight max_inflight
        && ltb (start_all max_conns max_inflight next fuel p).started max_conns)
      ≡ false
unfolding start_all
start_all_enough max_conns max_inflight next zero p h =
    both_false (ltb p.inflight max_inflight) (ltb p.started max_conns) (ground (arith, h))
  where
    both_false : (a b : Bool) → b ≡ false → (a && b) ≡ false
    both_false true b e = e
    both_false false b e = refl
start_all_enough max_conns max_inflight next (suc fuel) p h =
    elim (Bool-cases (ltb p.inflight max_inflight && ltb p.started max_conns)) [
      | inl e ↦
          rw (e, start_all)
            (start_all_enough max_conns max_inflight next fuel (start_one (next p) p)
              (omega (arith, h, started-start_one (next p) p)))
      | inr e ↦ rw (e, start_all) e
    ]
