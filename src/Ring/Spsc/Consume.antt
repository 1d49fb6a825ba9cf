-- ===== src/Ring/Spsc/Consume.antt =====
-- The consumer's steps keep the invariant.
use io_uring_net_engine.Prelude.{
  ℕ, ◌+◌, ◌-◌, ◌≤◌, ◌<◌, ◌≡◌, arith, List, [], ◌∷◌, ◌++◌, length, get_or, length-append, dec_lt,
}
use io_uring_net_engine.Prelude.Memory.{get_or-append}
use io_uring_net_engine.Ring.{IsCapacity, offset}
use io_uring_net_engine.Ring.Spsc.{Producer, Consumer, writing, reading, System}
use io_uring_net_engine.Ring.Spsc.Invariant.{Writes, Reads, Inv}

module _ {cap : ℕ} (v : IsCapacity cap) where
  pub begin_dequeue-Inv :
      {s : System} (m : ℕ)
      → Inv cap s
      → s.dequeue_cursor + m ≤ s.enqueue_cursor
      → Inv cap (record s { consumer = reading m [] })
  begin_dequeue-Inv {s} m inv h = record {
    valid = inv.valid;
    enqueued = inv.enqueued;
    dequeued = inv.dequeued;
    held = inv.held;
    in_order = inv.in_order;
    writes = inv.writes;
    reads = (h, omega arith, λ j l. absurd (omega arith));
  }

  pub read_byte-Inv :
      {s : System} (n : ℕ) (out : List ℕ)
      → Inv cap s
      → Reads s.enqueue_cursor s.dequeue_cursor s.sent (reading n out)
      → length out < n
      → Inv cap (record s {
        consumer =
            reading n (out ++ get_or s.buffer (offset cap (s.dequeue_cursor + length out)) 0 ∷ []);
      })
  read_byte-Inv {s} n out inv r lt = record {
    valid = inv.valid;
    enqueued = inv.enqueued;
    dequeued = inv.dequeued;
    held = inv.held;
    in_order = inv.in_order;
    writes = inv.writes;
    reads = (
      r.0,
      omega (arith, length-append out (x ∷ [])),
      λ j h. elim (dec_lt j (length out)) [
        | yes old ↦ ground (arith, get_or-append 0 out (x ∷ []) j, r.2 j old)
        | no new ↦
            let same : j ≡ length out = omega (arith, length-append out (x ∷ [])) in
            rw same (
              ground (
                arith,
                get_or-append 0 out (x ∷ []) (length out),
                inv.held (s.dequeue_cursor + length out) (omega arith) (omega (arith, r.0)),
                get_or_head x (length out),
              ))
      ],
    );
  }
    where
      x : ℕ
      x = get_or s.buffer (offset cap (s.dequeue_cursor + length out)) 0

      get_or_head : (y k : ℕ) → get_or (y ∷ []) (k - k) 0 ≡ y
      get_or_head y k = let none_left : k - k ≡ 0 = omega arith in rw none_left

  pub publish_dequeue-Inv :
      {s : System} (out : List ℕ)
      → Inv cap s
      → Reads s.enqueue_cursor s.dequeue_cursor s.sent (reading (length out) out)
      → Inv cap (record s {
        ring = record (s.ring) { dequeue_cursor = s.dequeue_cursor + length out };
        consumer = Consumer.idle;
        received = s.received ++ out;
      })
  publish_dequeue-Inv {s} out inv r = record {
    valid = omega (arith, inv.valid, r.0);
    enqueued = inv.enqueued;
    dequeued = omega (arith, length-append s.received out, inv.dequeued);
    held = λ p lo hi. inv.held p (omega arith) hi;
    in_order = λ p h. elim (dec_lt p s.dequeue_cursor) [
      | yes old ↦ ground (arith, get_or-append 0 s.received out p, inv.in_order p old, inv.dequeued)
      | no new ↦
          let same : s.dequeue_cursor + (p - s.dequeue_cursor) ≡ p = omega arith in
          ground (
            arith,
            get_or-append 0 s.received out p,
            inv.dequeued,
            r.2 (p - s.dequeue_cursor) (omega arith),
            same,
          )
    ];
    writes = relax s.producer inv.writes;
    reads = tt;
  }
    where
      relax :
          (p : Producer)
          → Writes cap s.buffer s.enqueue_cursor s.dequeue_cursor p
          → Writes cap s.buffer s.enqueue_cursor (s.dequeue_cursor + length out) p
      relax Producer.idle h = tt
      relax (writing src i) h = (h.0, omega arith, h.2, h.3)
