-- ===== src/Ring/Spsc/Order.antt =====
-- What the two threads may rely on, whatever their steps' order.
use io_uring_net_engine.Prelude.{
  ℕ, ◌+◌, ◌-◌, ◌%◌, ◌≤◌, ◌<◌, ◌≡◌, ap, ◌∙◌, arith, List, ◌++◌, length, get_or, take, length-append,
  length-take,
}
use io_uring_net_engine.Prelude.Memory.{eq_of_get_or, get_or-append, get_or-take}
use io_uring_net_engine.Ring.{IsCapacity}
use io_uring_net_engine.Ring.Storage.{offset-eq-mod}
use io_uring_net_engine.Ring.Contents.{contents, length-bytes_from, get_or-bytes_from}
use io_uring_net_engine.Ring.Spsc.{reading, System, Reach, here, next, init}
use io_uring_net_engine.Ring.Spsc.Invariant.{Reads, Inv, init-Inv}
use io_uring_net_engine.Ring.Spsc.Steps.{Step-Inv}

Reach-Inv : {cap : ℕ} {s t : System} → IsCapacity cap → Inv cap s → Reach cap s t → Inv cap t
Reach-Inv v inv here = inv
Reach-Inv v inv (next r st) = Step-Inv v st (Reach-Inv v inv r)

module _ {cap : ℕ} (v : IsCapacity cap) where
  module _ {s : System} (inv : Inv cap s) where
    length-sent : length s.sent ≡ length (s.received ++ contents cap s.ring)
    length-sent = omega (
      arith,
      length-append s.received (contents cap s.ring),
      length-bytes_from cap s.buffer s.dequeue_cursor (s.enqueue_cursor - s.dequeue_cursor),
      inv,
      inv.valid,
    )

    -- A byte of the stream that the ring holds.
    get_or-contents :
        (p : ℕ)
        → s.dequeue_cursor ≤ p
        → p < s.enqueue_cursor
        → get_or (contents cap s.ring) (p - s.dequeue_cursor) 0 ≡ get_or s.sent p 0
    get_or-contents p lo hi =
        get_or-bytes_from cap s.buffer s.dequeue_cursor (s.enqueue_cursor - s.dequeue_cursor)
          (p - s.dequeue_cursor) (omega arith)
        ∙ ap (λ k. get_or s.buffer (k % cap) 0) there
        ∙ rw (← offset-eq-mod v p) (inv.held p lo hi)
      where
        there : s.dequeue_cursor + (p - s.dequeue_cursor) ≡ p
        there = omega arith

    sent-eq : s.sent ≡ s.received ++ contents cap s.ring
    sent-eq = eq_of_get_or _ _ 0 length-sent λ p h. ground (
      arith,
      inv.enqueued,
      inv.dequeued,
      inv.in_order p,
      get_or-contents p,
      get_or-append 0 s.received (contents cap s.ring) p,
    )

    -- What a call of dequeue has copied out so far are the next bytes of the stream.
    out-eq :
        (n : ℕ) (out : List ℕ)
        → Reads s.enqueue_cursor s.dequeue_cursor s.sent (reading n out)
        → s.received ++ out ≡ take (length (s.received ++ out)) s.sent
    out-eq n out r = eq_of_get_or _ _ 0 same_length λ p h. ground (
      arith,
      length-append s.received out,
      get_or-take 0 (length (s.received ++ out)) s.sent p,
      get_or-append 0 s.received out p,
      inv.dequeued,
      inv.in_order p,
      r.2 (p - s.dequeue_cursor),
      there p,
    )
      where
        same_length : length (s.received ++ out) ≡ length (take (length (s.received ++ out)) s.sent)
        same_length = omega (
          arith,
          length-append s.received out,
          length-take (length (s.received ++ out)) s.sent,
          inv,
          r.0,
          r.1,
        )

        there : (p : ℕ) → s.dequeue_cursor ≤ p → s.dequeue_cursor + (p - s.dequeue_cursor) ≡ p
        there p h = omega arith

-- From a ring as constructed, in every interleaving of one producer with one consumer whose
-- cursors stay below 2^63, the bytes that the producer has published are, in order, those that
-- the consumer has received followed by the bytes that the ring holds: none is lost, doubled or
-- changed.
pub fifo :
    {cap : ℕ} (buffer : List ℕ) {s : System}
    → IsCapacity cap
    → length buffer ≡ cap
    → Reach cap (init buffer) s
    → s.sent ≡ s.received ++ contents cap s.ring
fifo buffer v h r = sent-eq v (Reach-Inv v (init-Inv _ h) r)

-- From a ring as constructed, in every such interleaving, what a dequeue under way has copied out
-- is a run of published bytes, those that follow the bytes received before: no call sees part of
-- a run that is still being written.
pub no_torn_reads :
    {cap : ℕ} (buffer : List ℕ) {s : System} (n : ℕ) (out : List ℕ)
    → IsCapacity cap
    → length buffer ≡ cap
    → Reach cap (init buffer) s
    → s.consumer ≡ reading n out
    → s.received ++ out ≡ take (length (s.received ++ out)) s.sent
no_torn_reads buffer n out v h r e =
    let inv = Reach-Inv v (init-Inv _ h) r in out-eq v inv n out (rw e at inv.reads)
