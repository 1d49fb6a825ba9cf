-- ===== src/Bench/Traffic/Schedule.antt =====
-- client-bench/src/traffic.cpp: which messages a turn of run_traffic's loop issues.
use io_uring_net_engine.Prelude.{
  ℕ, zero, suc, ◌+◌, ◌-◌, ◌*◌, ◌%◌, ◌≤◌, ◌<◌, ◌≡◌, ◌⊎◌, refl, ◌∙◌, ap, subst, arith, Bool, ◌/◌,
  length, get_or, ltb, leb, Bool-cases, inl, inr,
}
use io_uring_net_engine.Tick.Histogram.{Hist, add, buckets, bucket_ns}
use io_uring_net_engine.Epoll.State.{is_empty}
use io_uring_net_engine.Bench.Conn.{Conn}
use io_uring_net_engine.Bench.Socket.{Kernel}
use io_uring_net_engine.Bench.Traffic.{
  Plan, Traffic, due, next_text, after_send, send_one, is_live, issue_one, issue,
}
use io_uring_net_engine.Bench.Traffic.Messages.{Message, Messages, issue_one-Message}

-- What a turn counts.
pub record Counted (turns : ℕ) (t u : Traffic) : Type 0 where
  pub messages : u.m ≡ t.m + turns
  pub tried :
      u.self_lag.total + (t.sent + t.backpressed) ≡ t.self_lag.total + (u.sent + u.backpressed)
  pub few : u.self_lag.total ≤ t.self_lag.total + turns
  pub more : t.sent ≤ u.sent
  pub lost : u.lost_conns ≡ t.lost_conns

total-add : (h : Hist) (ns : ℕ) → (add h ns).total ≡ h.total + 1
unfolding add
total-add h ns = elim (Bool-cases (leb buckets (ns / bucket_ns))) [
  | inl e ↦ rw (e, add) refl
  | inr e ↦ rw (e, add) refl
]

no_more : (m : ℕ) → m ≡ m + 0
no_more m = omega arith

-- The counters of a run.
abbrev Same : Traffic → Traffic → Type 0
Same t u =
    (u.m ≡ t.m)
    × ((u.self_lag ≡ t.self_lag)
        × ((u.sent ≡ t.sent) × ((u.backpressed ≡ t.backpressed) × (u.lost_conns ≡ t.lost_conns))))

module _ (p : Plan) where
  next_text-Same : (t : Traffic) → Same t (next_text p t).1
  unfolding next_text
  next_text-Same t = elim (Bool-cases p.use_corpus) [
    | inl e ↦ rw (e, next_text) (refl, (refl, (refl, (refl, refl))))
    | inr e ↦ elim (Bool-cases p.size_mix) [
      | inl f ↦ rw (e, f, next_text) (refl, (refl, (refl, (refl, refl))))
      | inr f ↦ rw (e, f, next_text) (refl, (refl, (refl, (refl, refl))))
    ]
  ]

  after_send-Same :
      (fd : ℕ) (r : Bool × (Conn × Kernel)) (t : Traffic) → Same t (after_send p fd r t)
  unfolding after_send
  after_send-Same fd r t = elim (Bool-cases r.0) [
    | inr e ↦ rw (e, after_send) (refl, (refl, (refl, (refl, refl))))
    | inl e ↦ elim (Bool-cases (is_empty r.1.0.pending)) [
      | inl f ↦ rw (e, f, after_send) (refl, (refl, (refl, (refl, refl))))
      | inr f ↦ rw (e, f, after_send) (refl, (refl, (refl, (refl, refl))))
    ]
  ]

  send_one-Same :
      (fd intended : ℕ) (t : Traffic)
      → ((send_one p fd intended t).m ≡ t.m)
        × (((send_one p fd intended t).self_lag ≡ t.self_lag)
            × (((send_one p fd intended t).sent ≡ t.sent + 1)
                × (((send_one p fd intended t).backpressed ≡ t.backpressed)
                    × ((send_one p fd intended t).lost_conns ≡ t.lost_conns))))
  unfolding send_one
  send_one-Same fd intended t =
      let a = after_send-Same fd _ (record (next_text p t).1 { sent = t.sent + 1 }) in
      let n = next_text-Same t in
      (a.0 ∙ n.0, (a.1.0 ∙ n.1.0, (a.1.1.0, (a.1.1.1.0 ∙ n.1.1.1.0, a.1.1.1.1 ∙ n.1.1.1.1))))

  issue_one-Counted : (loop_ts : ℕ) (t : Traffic) → Counted 1 t (issue_one p loop_ts t)
  unfolding issue_one
  issue_one-Counted loop_ts t =
      let fd = get_or p.live (t.m % length p.live) 0 in
      let late = record t { m = t.m + 1; self_lag = add t.self_lag (loop_ts - due p t.m) } in
      elim (Bool-cases (is_live p (t.conns fd).state)) [
        | inr e ↦
            rw (e, issue_one)
              record {
                messages = refl;
                tried = refl;
                few = omega arith;
                more = omega arith;
                lost = refl;
              }
        | inl e ↦ elim (Bool-cases (ltb (64 * 1024) (length (t.conns fd).pending))) [
          | inl f ↦
              rw (e, f, issue_one)
                record {
                  messages = refl;
                  tried = omega (arith, total-add t.self_lag (loop_ts - due p t.m));
                  few = omega (arith, total-add t.self_lag (loop_ts - due p t.m));
                  more = omega arith;
                  lost = refl;
                }
          | inr f ↦
              rw (e, f, issue_one)
                (sent_one (send_one p fd (due p t.m) late) (send_one-Same fd (due p t.m) late))
        ]
      ]
    where
      sent_one :
          (u : Traffic)
          → (u.m ≡ t.m + 1)
            × ((u.self_lag ≡ add t.self_lag (loop_ts - due p t.m))
                × ((u.sent ≡ t.sent + 1)
                    × ((u.backpressed ≡ t.backpressed) × (u.lost_conns ≡ t.lost_conns))))
          → Counted 1 t u
      sent_one u s =
          let n = ap (λ h. h.total) s.1.0 ∙ total-add t.self_lag (loop_ts - due p t.m) in
          record {
            messages = s.0;
            tried = omega (arith, n, s.1.1.0, s.1.1.1.0);
            few = omega (arith, n);
            more = omega (arith, s.1.1.0);
            lost = s.1.1.1.1;
          }

  -- The turns of one burst of at most `left`.
  pub record Issued (left loop_ts : ℕ) (t u : Traffic) : Type 0 where
    pub turns : ℕ
    pub each : Messages p loop_ts turns t u
    pub counted : Counted turns t u
    pub bounded : turns ≤ left
    pub were_due : (j : ℕ) → j < turns → due p (t.m + j) ≤ loop_ts
    pub ended : (turns ≡ left) ⊎ (loop_ts < due p (t.m + turns))

  -- A turn of run_traffic's loop issues the messages that are due at its reading of the clock,
  -- one after the other and none of them twice, and stops only at the first that is not due or
  -- when the burst is used up. A message whose connection is not ready changes only the number of
  -- the next. Any other adds its lateness to the samples. With more than 64 KiB waiting it is
  -- counted as backpressured, and nothing else changes. Otherwise it is counted as sent, its
  -- connection takes the next number, and a front of its frame stands behind the connection's
  -- bytes: all of it unless send_frame fails, and then, only, the connection is dead. Should
  -- bytes wait on a connection that is not dead, EPOLLOUT is watched, and no other connection is
  -- touched. No connection is counted as lost, not even when its send fails.
  pub issue-Issued :
      (left loop_ts : ℕ) (t : Traffic) → Issued left loop_ts t (issue p left loop_ts t)
  unfolding issue
  issue-Issued zero loop_ts t = record {
    turns = 0;
    each = refl;
    counted = record {
      messages = omega arith;
      tried = refl;
      few = omega arith;
      more = omega arith;
      lost = refl;
    };
    bounded = omega arith;
    were_due = λ j h. absurd (omega (arith, h));
    ended = inl refl;
  }
  issue-Issued (suc left) loop_ts t = elim (Bool-cases (ltb loop_ts (due p t.m))) [
    | inl e ↦
        rw (e, issue)
          record {
            turns = 0;
            each = refl;
            counted = record {
              messages = omega arith;
              tried = refl;
              few = omega arith;
              more = omega arith;
              lost = refl;
            };
            bounded = omega arith;
            were_due = λ j h. absurd (omega (arith, h));
            ended = inr (subst (λ k. loop_ts < due p k) (no_more t.m) (ground (arith, e)));
          }
    | inr e ↦
        let t' = issue_one p loop_ts t in
        rw (e, issue)
          (one_more t' (issue p left loop_ts t') (issue_one-Message p loop_ts t)
            (issue_one-Counted loop_ts t) (issue-Issued left loop_ts t') (ground (arith, e)))
  ]
    where
      one_more :
          (t' u : Traffic)
          → Message p loop_ts t t'
          → Counted 1 t t'
          → Issued left loop_ts t' u
          → due p t.m ≤ loop_ts
          → Issued (suc left) loop_ts t u
      one_more t' u one c i now = record {
        turns = suc i.turns;
        each = (t', (one, i.each));
        counted = record {
          messages = omega (arith, c.messages, i.counted.messages);
          tried = omega (arith, c.tried, i.counted.tried);
          few = omega (arith, c.few, i.counted.few);
          more = omega (arith, c.more, i.counted.more);
          lost = i.counted.lost ∙ c.lost;
        };
        bounded = omega (arith, i.bounded);
        were_due = all;
        ended = stop i.ended;
      }
        where
          next_m : (j : ℕ) → t'.m + j ≡ t.m + suc j
          next_m j = omega (arith, c.messages)

          all : (j : ℕ) → j < suc i.turns → due p (t.m + j) ≤ loop_ts
          all zero h = subst (λ k. due p k ≤ loop_ts) (no_more t.m) now
          all (suc j) h =
              subst (λ k. due p k ≤ loop_ts) (next_m j) (i.were_due j (omega (arith, h)))

          stop :
              (i.turns ≡ left) ⊎ (loop_ts < due p (t'.m + i.turns))
              → (suc i.turns ≡ suc left) ⊎ (loop_ts < due p (t.m + suc i.turns))
          stop (inl e) = inl (ap suc e)
          stop (inr h) = inr (subst (λ k. loop_ts < due p k) (next_m i.turns) h)
