-- ===== src/Bench/Traffic/Messages.antt =====
-- client-bench/src/traffic.cpp: what becomes of one message of run_traffic's loop, told without the
-- code of its turn.
use io_uring_net_engine.Prelude.{
  ℕ, zero, suc, ◌+◌, ◌-◌, ◌*◌, ◌%◌, ◌≤◌, ◌<◌, ◌≡◌, ◌≢◌, refl, ◌∙◌, ap, subst, arith, Bool, true,
  false, some, [], ◌++◌, length, get_or, ltb, ◌==◌, if◌then◌else◌, Bool-cases, inl, inr,
}
use io_uring_net_engine.Prelude.Word.{u32_mod}
use io_uring_net_engine.Tick.Histogram.{Hist, add}
use io_uring_net_engine.Epoll.State.{Bytes, is_empty}
use io_uring_net_engine.Bench.Conn.{ConnState, ready, dead, Conn}
use io_uring_net_engine.Bench.Socket.{Kernel, send_frame}
use io_uring_net_engine.Bench.Socket.Keeps.{send_frame-keeps}
use io_uring_net_engine.Bench.Socket.Stream.{outgoing, Accounted, send_frame-Accounted}
use io_uring_net_engine.Bench.Traffic.{
  Plan, Traffic, due, next_text, chat_frame, after_send, send_one, is_live, issue_one,
}

-- The connection whose turn message `t.m` is, and the message's frame, with the time at which it is
-- due.
module _ (p : Plan) (t : Traffic) where
  abbrev pub turn_fd : ℕ
  turn_fd = get_or p.live (t.m % length p.live) 0

  abbrev pub turn_frame : Bytes
  turn_frame = chat_frame p (due p t.m) (t.conns turn_fd) (next_text p t).0

-- What becomes of the message, whose turn at the clock's reading `loop_ts` takes `t` to `u`.
module _ (p : Plan) (loop_ts : ℕ) (t u : Traffic) where
  -- It is sent: a front of its frame stands behind the connection's bytes, the whole frame unless the
  -- connection is dead, and no other connection is touched.
  pub record Delivered : Type 0 where
    pub messages : u.m ≡ t.m + 1
    pub sampled : u.self_lag ≡ add t.self_lag (loop_ts - due p t.m)
    pub sent : u.sent ≡ t.sent + 1
    pub backpressed : u.backpressed ≡ t.backpressed
    pub numbered : (u.conns (turn_fd p t)).seq ≡ ((t.conns (turn_fd p t)).seq + 1) % u32_mod
    pub bytes :
        (kept : Bytes) × ((lost : Bytes) × ((kept ++ lost ≡ turn_frame p t)
            × ((outgoing (u.conns (turn_fd p t)) (u.kernels (turn_fd p t))
                  ≡ outgoing (t.conns (turn_fd p t)) (t.kernels (turn_fd p t)) ++ kept)
                × ((u.conns (turn_fd p t)).state ≢ dead → lost ≡ []))))
    -- It is dead exactly when send_frame fails.
    pub state : (u.conns (turn_fd p t)).state ≡ (
        let c = t.conns (turn_fd p t) in
        if (send_frame
          (record c { seq = (c.seq + 1) % u32_mod })
          (turn_frame p t)
          (t.kernels (turn_fd p t))).0
        then c.state
        else dead)
    pub cursors :
        (u.class_cursor ≡ (next_text p t).1.class_cursor) × (u.body ≡ (next_text p t).1.body)
    -- What waits is watched for.
    pub watched :
        is_empty (u.conns (turn_fd p t)).pending ≡ false
        → (u.conns (turn_fd p t)).state ≢ dead
        → u.interest (turn_fd p t) ≡ some (true, true)
    pub others :
        (fd : ℕ)
        → (fd == turn_fd p t) ≡ false
        → (u.conns fd ≡ t.conns fd) × (u.kernels fd ≡ t.kernels fd)

  pub data Message : Type 0 where
    skipped : (t.conns (turn_fd p t)).state ≢ ready → u ≡ record t { m = t.m + 1 } → Message
    held :
        (t.conns (turn_fd p t)).state ≡ ready
        → 64 * 1024 < length (t.conns (turn_fd p t)).pending
        → u ≡ record t {
          m = t.m + 1;
          self_lag = add t.self_lag (loop_ts - due p t.m);
          backpressed = t.backpressed + 1;
        }
        → Message
    delivered :
        (t.conns (turn_fd p t)).state ≡ ready
        → length (t.conns (turn_fd p t)).pending ≤ 64 * 1024
        → Delivered
        → Message

module _ (p : Plan) where
  live_ready : (st : ConnState) → is_live p st ≡ true → st ≡ ready
  live_ready ConnState.none h = absurd (ground (arith, h))
  live_ready ConnState.connecting h = absurd (ground (arith, h))
  live_ready ready h = refl
  live_ready dead h = absurd (ground (arith, h))

  -- The next text and its cursors depend on nothing that the turn has counted.
  next_text-counted :
      (t : Traffic) (m' : ℕ) (h : Hist)
      → let n = next_text p (record t { m = m'; self_lag = h }) in
        (n.0 ≡ (next_text p t).0)
        × (n.1.class_cursor ≡ (next_text p t).1.class_cursor)
        × (n.1.body ≡ (next_text p t).1.body)
  unfolding next_text
  next_text-counted t m' h = ground arith

  next_text-conns :
      (t : Traffic) → ((next_text p t).1.conns ≡ t.conns) × ((next_text p t).1.kernels ≡ t.kernels)
  unfolding next_text
  next_text-conns t = ground arith

  module _ (fd : ℕ) (r : Bool × (Conn × Kernel)) (t : Traffic) where
    after_send-bytes :
        (before frame : Bytes)
        → Accounted before frame r
        → let u = after_send p fd r t in
          (kept : Bytes) × ((lost : Bytes) × ((kept ++ lost ≡ frame)
              × ((outgoing (u.conns fd) (u.kernels fd) ≡ before ++ kept)
                  × ((u.conns fd).state ≢ dead → lost ≡ []))))
    unfolding after_send
    after_send-bytes before frame (kept, (lost, (whole, (is, all)))) =
        (kept, (lost, (whole, (stands, gone))))
      where
        same : (fd == fd) ≡ true
        same = ground arith

        stands :
            outgoing ((after_send p fd r t).conns fd) ((after_send p fd r t).kernels fd)
            ≡ before ++ kept
        stands = elim (Bool-cases r.0) [
          | inr e ↦ rw (e, same, after_send) is
          | inl e ↦ elim (Bool-cases (is_empty r.1.0.pending)) [
            | inl f ↦ rw (e, f, same, after_send) is
            | inr f ↦ rw (e, f, same, after_send) is
          ]
        ]

        gone : ((after_send p fd r t).conns fd).state ≢ dead → lost ≡ []
        gone h = elim (Bool-cases r.0) [
          | inr e ↦ absurd (h (rw (e, same, after_send) refl))
          | inl e ↦ all e
        ]

    after_send-seq : ((after_send p fd r t).conns fd).seq ≡ r.1.0.seq
    unfolding after_send
    after_send-seq = ground arith

    after_send-state : ((after_send p fd r t).conns fd).state ≡ (if r.0 then r.1.0.state else dead)
    unfolding after_send
    after_send-state = ground arith

    after_send-cursors :
        ((after_send p fd r t).class_cursor ≡ t.class_cursor)
        × ((after_send p fd r t).body ≡ t.body)
    unfolding after_send
    after_send-cursors = ground arith

    after_send-watched :
        let u = after_send p fd r t in
        is_empty (u.conns fd).pending ≡ false
        → (u.conns fd).state ≢ dead
        → u.interest fd ≡ some (true, true)
    unfolding after_send
    after_send-watched = ground arith

    after_send-others :
        (k : ℕ)
        → (k == fd) ≡ false
        → ((after_send p fd r t).conns k ≡ t.conns k)
          × ((after_send p fd r t).kernels k ≡ t.kernels k)
    unfolding after_send
    after_send-others k ne = ground arith

  next_text-counts :
      (t : Traffic)
      → ((next_text p t).1.m ≡ t.m)
        × ((next_text p t).1.self_lag ≡ t.self_lag)
        × ((next_text p t).1.backpressed ≡ t.backpressed)
  unfolding next_text
  next_text-counts t = ground arith

  after_send-counts :
      (fd : ℕ) (r : Bool × (Conn × Kernel)) (t : Traffic)
      → let u = after_send p fd r t in
        (u.m ≡ t.m)
        × (u.self_lag ≡ t.self_lag)
        × (u.sent ≡ t.sent)
        × (u.backpressed ≡ t.backpressed)
  unfolding after_send
  after_send-counts fd r t = ground arith

  -- The turn of a message that is sent.
  module _ (loop_ts : ℕ) (t : Traffic) where
    late : Traffic
    late = record t { m = t.m + 1; self_lag = add t.self_lag (loop_ts - due p t.m) }

    given : Traffic
    given = record (next_text p late).1 { sent = t.sent + 1 }

    result : Bool × (Conn × Kernel)
    result =
        let c = t.conns (turn_fd p t) in
        send_frame (record c { seq = (c.seq + 1) % u32_mod })
          (chat_frame p (due p t.m) c (next_text p late).0) (t.kernels (turn_fd p t))

    send_one-Delivered : Delivered p loop_ts t (send_one p (turn_fd p t) (due p t.m) late)
    unfolding send_one late given result
    send_one-Delivered =
        let fd = turn_fd p t in
        let c = t.conns fd in
        let numbered : Conn = record c { seq = (c.seq + 1) % u32_mod } in
        let n = next_text-counts late in
        let k = next_text-conns late in
        let a = after_send-counts fd result given in
        let d = after_send-cursors fd result given in
        let same = next_text-counted t (t.m + 1) (add t.self_lag (loop_ts - due p t.m)) in
        let frame = chat_frame p (due p t.m) c (next_text p late).0 in
        let kept = send_frame-keeps numbered frame (t.kernels fd) in
        record {
          messages = a.0 ∙ n.0;
          sampled = a.1 ∙ n.1;
          sent = a.2;
          backpressed = a.3 ∙ n.2;
          numbered = after_send-seq fd result given ∙ kept.0;
          bytes = after_send-bytes fd result given (outgoing c (t.kernels fd)) (turn_frame p t) (
              subst
                (λ b. Accounted (outgoing c (t.kernels fd)) (chat_frame p (due p t.m) c b) result)
                same.0 (send_frame-Accounted numbered frame (t.kernels fd)));
          state =
              after_send-state fd result given
              ∙ ap (λ st. if result.0 then st else dead) kept.1
              ∙ ap
                  (λ b.
                    if (send_frame numbered (chat_frame p (due p t.m) c b) (t.kernels fd)).0
                    then c.state
                    else dead)
                  same.0;
          cursors = (d.0 ∙ same.1, d.1 ∙ same.2);
          watched = after_send-watched fd result given;
          others = λ i ne.
              let o = after_send-others fd result given i ne in
              (o.0 ∙ ap (λ g. g i) k.0, o.1 ∙ ap (λ g. g i) k.1);
        }

    pub issue_one-Message : Message p loop_ts t (issue_one p loop_ts t)
    unfolding issue_one late
    issue_one-Message =
        let c = t.conns (turn_fd p t) in
        elim (Bool-cases (is_live p c.state)) [
          | inr e ↦ rw (e, issue_one) (skipped (λ r. absurd (ground (arith, e, r))) refl)
          | inl e ↦ elim (Bool-cases (ltb (64 * 1024) (length c.pending))) [
            | inl f ↦ rw (e, f, issue_one) (held (live_ready c.state e) (ground (arith, f)) refl)
            | inr f ↦
                rw (e, f, issue_one)
                  (delivered (live_ready c.state e) (ground (arith, f)) send_one-Delivered)
          ]
        ]

-- So many messages, one after the other.
abbrev pub Messages : Plan → ℕ → ℕ → Traffic → Traffic → Type 0
Messages p loop_ts zero t u = u ≡ t
Messages p loop_ts (suc n) t u =
    (t' : Traffic) × (Message p loop_ts t t' × Messages p loop_ts n t' u)
