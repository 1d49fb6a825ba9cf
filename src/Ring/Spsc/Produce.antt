-- ===== src/Ring/Spsc/Produce.antt =====
-- The producer's steps keep the invariant.
use native.Mathlib.Nat.{mod-lt}
use io_uring_net_engine.Prelude.{
  ℕ, suc, ◌+◌, ◌-◌, ◌≤◌, ◌<◌, ◌≡◌, ◌≢◌, arith, List, ◌++◌, length, get_or, set, length-append,
  length-set, ltb, false, dec_lt, ◌∙◌,
}
use io_uring_net_engine.Prelude.Memory.{get_or-set, get_or-append}
use io_uring_net_engine.Prelude.Word.{i64_limit, add_usize, sub_usize}
use io_uring_net_engine.Ring.Storage.{offset-eq-mod, mod-around}
use io_uring_net_engine.Ring.{IsCapacity, offset}
use io_uring_net_engine.Ring.Spsc.{Producer, Consumer, writing, reading, System}
use io_uring_net_engine.Ring.Spsc.Invariant.{Writes, Reads, Inv}

ltb-false : (a b : ℕ) → ltb a b ≡ false → b ≤ a
ltb-false a b h = ground arith

module _ {cap : ℕ} (v : IsCapacity cap) where
  offset-lt : (c : ℕ) → offset cap c < cap
  offset-lt c = omega (arith, offset-eq-mod v c, mod-lt c {m = cap} (omega (arith, v)))

  -- Two positions less than a round apart stand at different indices.
  offset-ne : (p q : ℕ) → p < q → q < p + cap → offset cap p ≢ offset cap q
  offset-ne p q lt near e = ground (
    arith,
    offset-eq-mod v p,
    offset-eq-mod v q,
    mod-around cap p q,
    mod-lt p {m = cap},
    v.at_least,
  )

  -- The room that an old view of the consumer's cursor shows is there.
  room-of_seen :
      (e d seen n : ℕ)
      → seen ≤ d
      → d ≤ e
      → e + n < i64_limit
      → ltb cap (add_usize (sub_usize e seen) n) ≡ false
      → e + n ≤ d + cap
  room-of_seen e d seen n le lt fit room =
      omega (arith, ltb-false cap (add_usize (sub_usize e seen) n))

  pub begin-Writes :
      {s : System} (src : List ℕ) (seen : ℕ)
      → Inv cap s
      → seen ≤ s.dequeue_cursor
      → s.enqueue_cursor + length src < i64_limit
      → ltb cap (add_usize (sub_usize s.enqueue_cursor seen) (length src)) ≡ false
      → Writes cap s.buffer s.enqueue_cursor s.dequeue_cursor (writing src 0)
  begin-Writes {s} src seen inv le fit room = (
    omega arith,
    room-of_seen s.enqueue_cursor s.dequeue_cursor seen (length src) le inv.valid.behind fit room,
    fit,
    λ j h. absurd (omega arith),
  )

  -- A byte written behind the published ones changes none of those.
  write-other :
      (buffer : List ℕ) (p q x : ℕ)
      → length buffer ≡ cap
      → p < q
      → q < p + cap
      → get_or (set buffer (offset cap q) x) (offset cap p) 0 ≡ get_or buffer (offset cap p) 0
  write-other buffer p q x size lt near = ground (
    arith,
    get_or-set 0 buffer (offset cap q) (offset cap p) x,
    offset-lt q,
    offset-ne p q lt near,
  )

  write-here :
      (buffer : List ℕ) (q x : ℕ)
      → length buffer ≡ cap
      → get_or (set buffer (offset cap q) x) (offset cap q) 0 ≡ x
  write-here buffer q x size =
      ground (arith, get_or-set 0 buffer (offset cap q) (offset cap q) x, offset-lt q)

  pub write_byte-Inv :
      {s : System} (src : List ℕ) (i : ℕ)
      → Inv cap s
      → Writes cap s.buffer s.enqueue_cursor s.dequeue_cursor (writing src i)
      → i < length src
      → Inv cap (record s {
        ring = record (s.ring) {
          buffer = set s.buffer (offset cap (s.enqueue_cursor + i)) (get_or src i 0);
        };
        producer = writing src (suc i);
      })
  write_byte-Inv {s} src i inv w lt = record {
    valid = omega (arith, length-set s.buffer (offset cap (e + i)) (get_or src i 0), inv.valid);
    enqueued = inv.enqueued;
    dequeued = inv.dequeued;
    held = λ p lo hi.
        write-other s.buffer p (e + i) _ size (omega arith) (omega (arith, w.1)) ∙ inv.held p lo hi;
    in_order = inv.in_order;
    writes = (
      lt,
      w.1,
      w.2,
      λ j h. elim (dec_lt j i) [
        | yes old ↦
            write-other s.buffer (e + j) (e + i) _ size (omega arith) (omega (arith, w.1))
            ∙ w.3 j old
        | no new ↦ let same : j ≡ i = omega arith in rw same (write-here s.buffer (e + i) _ size)
      ],
    );
    reads = inv.reads;
  }
    where
      e : ℕ
      e = s.enqueue_cursor

      size : length s.buffer ≡ cap
      size = inv.valid.size

  pub publish_enqueue-Inv :
      {s : System} (src : List ℕ)
      → Inv cap s
      → Writes cap s.buffer s.enqueue_cursor s.dequeue_cursor (writing src (length src))
      → Inv cap (record s {
        ring = record (s.ring) { enqueue_cursor = s.enqueue_cursor + length src };
        producer = Producer.idle;
        sent = s.sent ++ src;
      })
  publish_enqueue-Inv {s} src inv w = record {
    valid = omega (arith, inv.valid, w.1, w.2);
    enqueued = omega (arith, length-append s.sent src, inv.enqueued);
    dequeued = inv.dequeued;
    held = λ p lo hi. elim (dec_lt p s.enqueue_cursor) [
      | yes old ↦ ground (arith, inv.held p lo old, get_or-append 0 s.sent src p, inv.enqueued)
      | no new ↦
          let same : s.enqueue_cursor + (p - s.enqueue_cursor) ≡ p = omega arith in
          ground (
            arith,
            get_or-append 0 s.sent src p,
            inv.enqueued,
            w.3 (p - s.enqueue_cursor) (omega arith),
            same,
          )
    ];
    in_order = λ p h.
        ground
          (arith, inv.in_order p h, get_or-append 0 s.sent src p, inv.enqueued, inv.valid.behind);
    writes = tt;
    reads = extend s.consumer inv.reads;
  }
    where
      extend :
          (c : Consumer)
          → Reads s.enqueue_cursor s.dequeue_cursor s.sent c
          → Reads (s.enqueue_cursor + length src) s.dequeue_cursor (s.sent ++ src) c
      extend Consumer.idle h = tt
      extend (reading n out) h = (
        omega arith,
        h.1,
        λ j l. ground (
          arith,
          h.2 j l,
          get_or-append 0 s.sent src (s.dequeue_cursor + j),
          inv.enqueued,
          h.0,
          h.1,
        ),
      )
