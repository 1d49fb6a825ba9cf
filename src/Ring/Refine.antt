-- ===== src/Ring/Refine.antt =====
-- Each call of ring_buffer.h does to the stream of a valid ring what the stream's operation does.
use io_uring_net_engine.Prelude.{
  ℕ, ◌≤◌, ◌+◌, ◌-◌, ◌<◌, ◌≡◌, refl, ap, arith, List, ◌++◌, length, take, ltb, length-append,
  Bool-cases, inl, inr, min, append_assoc, take-min, drop-min,
}
use io_uring_net_engine.Prelude.Word.{i64_limit, add_usize, sub_usize}
use io_uring_net_engine.Ring.Storage.{length-write_at}
use io_uring_net_engine.Ring.Stream
use io_uring_net_engine.Ring.Stream.{Stream}
use io_uring_net_engine.Ring.{
  Ring, IsCapacity, IsValid, write_at, read_at, free_size, used_size, enqueue, enqueue2, dequeue,
  peek,
}
use io_uring_net_engine.Ring.Contents.{
  contents, bytes_from, length-bytes_from, bytes_from-write_at, read_at-eq, drop-bytes_from,
}

module _ {cap : ℕ} (v : IsCapacity cap) where
  -- No `usize` difference of a valid ring wraps.
  pub used_size-eq :
      {r : Ring} → IsValid cap r → used_size cap r ≡ r.enqueue_cursor - r.dequeue_cursor
  unfolding used_size
  used_size-eq w = omega arith

  -- On a valid ring `used_size` is the length of the stream, and `free_size` the room that is
  -- left.
  pub sizes_refine :
      {r : Ring}
      → IsValid cap r
      → (used_size cap r ≡ length (contents cap r))
        × (free_size cap r ≡ Stream.free cap (contents cap r))
  unfolding used_size free_size Stream.free
  sizes_refine {r} w = omega (
    arith,
    length-bytes_from cap r.buffer r.dequeue_cursor (r.enqueue_cursor - r.dequeue_cursor),
    v.fits,
  )

  -- On a valid ring whose cursor stays below 2^63, `enqueue` is the stream's push: the whole run
  -- or nothing, and the ring stays valid.
  pub enqueue_refines :
      {r : Ring} (src : List ℕ)
      → IsValid cap r
      → r.enqueue_cursor + length src < i64_limit
      → let (n, r') = enqueue cap r src in
        ((n, contents cap r') ≡ Stream.push cap (contents cap r) src) × IsValid cap r'
  unfolding enqueue Stream.push
  enqueue_refines {r} src w h =
      rw
        (
          used,
          length-bytes_from cap r.buffer r.dequeue_cursor (r.enqueue_cursor - r.dequeue_cursor),
        )
        (elim (Bool-cases (ltb cap (r.enqueue_cursor - r.dequeue_cursor + length src))) [
          | inl full ↦ rw full (refl, w)
          | inr room ↦ rw room (
            ground (
              arith,
              bytes_from-write_at v r.buffer r.dequeue_cursor r.enqueue_cursor src w.size w.behind,
            ),
            ground (arith, length-write_at v r.buffer r.enqueue_cursor src),
          )
        ])
    where
      used :
          add_usize (sub_usize r.enqueue_cursor r.dequeue_cursor) (length src)
          ≡ r.enqueue_cursor - r.dequeue_cursor + length src
      used = omega (arith, w)

  -- On a valid ring whose cursor stays below 2^63, `enqueue2` pushes its two runs as one, or
  -- neither, and the ring stays valid.
  pub enqueue2_refines :
      {r : Ring} (a b : List ℕ)
      → IsValid cap r
      → r.enqueue_cursor + length a + length b < i64_limit
      → let (n, r') = enqueue2 cap r a b in
        ((n, contents cap r') ≡ Stream.push cap (contents cap r) (a ++ b)) × IsValid cap r'
  unfolding enqueue2 Stream.push
  enqueue2_refines {r} a b w h =
      rw (both, used, length-bytes_from cap r.buffer d (e - d), length-append a b)
        (elim (Bool-cases (ltb cap (e - d + (length a + length b)))) [
          | inl full ↦ rw full (refl, w)
          | inr room ↦ rw room (
            ground (
              arith,
              bytes_from-write_at v r.buffer d e a w.size w.behind,
              bytes_from-write_at v (write_at cap r.buffer e a) d (e + length a) b,
              length-write_at v r.buffer e a,
              append_assoc (bytes_from cap r.buffer d (e - d)) a b,
              ap (bytes_from cap (write_at cap (write_at cap r.buffer e a) (e + length a) b) d) end,
            ),
            ground (
              arith,
              length-write_at v r.buffer e a,
              length-write_at v (write_at cap r.buffer e a) (e + length a) b,
            ),
          )
        ])
    where
      open r use {enqueue_cursor as e, dequeue_cursor as d}

      both : add_usize (length a) (length b) ≡ length a + length b
      both = omega arith

      used : add_usize (sub_usize e d) (length a + length b) ≡ e - d + (length a + length b)
      used = omega (arith, w)

      end : e + length a + length b - d ≡ e + (length a + length b) - d
      end = omega arith

  used_size-sub :
      {r : Ring}
      → IsValid cap r
      → sub_usize r.enqueue_cursor r.dequeue_cursor ≡ r.enqueue_cursor - r.dequeue_cursor
  used_size-sub w = omega (arith, w)

  -- What `peek` and `dequeue` copy out.
  read_used :
      {r : Ring} (n : ℕ)
      → IsValid cap r
      → read_at cap r.buffer r.dequeue_cursor (min n (r.enqueue_cursor - r.dequeue_cursor))
        ≡ take n (contents cap r)
  read_used {r} n w = ground (
    arith,
    read_at-eq v r.buffer r.dequeue_cursor (r.enqueue_cursor - r.dequeue_cursor)
        (min n (r.enqueue_cursor - r.dequeue_cursor)) w.size (omega arith) (omega arith),
    length-bytes_from cap r.buffer r.dequeue_cursor (r.enqueue_cursor - r.dequeue_cursor),
    take-min n (contents cap r),
  )

  -- On a valid ring `dequeue` is the stream's pop, and the ring stays valid.
  pub dequeue_refines :
      {r : Ring} (n : ℕ)
      → IsValid cap r
      → let (out, r') = dequeue cap r n in
        ((out, contents cap r') ≡ Stream.pop (contents cap r) n) × IsValid cap r'
  unfolding dequeue Stream.pop
  dequeue_refines {r} n w = rw (used_size-sub w) (
    ground (
      arith,
      read_used n w,
      drop-bytes_from v r.buffer (min n (r.enqueue_cursor - r.dequeue_cursor)) r.dequeue_cursor
          (r.enqueue_cursor - r.dequeue_cursor),
      length-bytes_from cap r.buffer r.dequeue_cursor (r.enqueue_cursor - r.dequeue_cursor),
      drop-min n (contents cap r),
      ap (bytes_from cap r.buffer (r.dequeue_cursor + min n (r.enqueue_cursor - r.dequeue_cursor)))
          left,
    ),
    ground arith,
  )
    where
      left :
          r.enqueue_cursor - r.dequeue_cursor - min n (r.enqueue_cursor - r.dequeue_cursor)
          ≡ r.enqueue_cursor - (r.dequeue_cursor + min n (r.enqueue_cursor - r.dequeue_cursor))
      left = omega arith

  -- On a valid ring `peek` hands out the bytes that the stream's pop would.
  pub peek_refines :
      {r : Ring} (n : ℕ) → IsValid cap r → peek cap r n ≡ (Stream.pop (contents cap r) n).0
  unfolding peek Stream.pop
  peek_refines {r} n w = rw (used_size-sub w) (read_used n w)

-- Each side's call moves its own cursor alone, and a writer's by no more than it is given.
pub cursor-enqueue2 :
    (cap : ℕ) (r : Ring) (x y : List ℕ)
    → (enqueue2 cap r x y).1.enqueue_cursor ≤ r.enqueue_cursor + length x + length y
unfolding enqueue2
cursor-enqueue2 cap r x y =
    elim (Bool-cases (
      ltb cap (
        add_usize (sub_usize r.enqueue_cursor r.dequeue_cursor)
          (add_usize (length x) (length y))))) [
            | inl full ↦ rw full (omega arith)
            | inr room ↦ rw room (omega arith)
          ]

pub cursor-dequeue :
    (cap : ℕ) (r : Ring) (n : ℕ) → (dequeue cap r n).1.enqueue_cursor ≡ r.enqueue_cursor
unfolding dequeue
cursor-dequeue cap r n = refl
