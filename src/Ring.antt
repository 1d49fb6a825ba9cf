-- ===== src/Ring.antt =====
-- engine-uring/src/sds/ring_buffer.h: the byte ring with a producer and a consumer cursor, as one
-- thread sees it (ring_sync::single, or ring_sync::spsc between two steps of the other thread).
-- engine-uring/src/sds/pipe.h names the same ring for the thread mesh.
--
-- `cap` is the template parameter N. A cursor is an `i64` that only grows: it is a number, and the
-- lemmas ask that it stay below 2^63. A difference of cursors is a `usize` and wraps. A buffer that
-- a call copies from is the list of its bytes; one that it copies to is what the call returns.
pub mod Stream
pub mod Storage
pub mod Contents
pub mod Refine
pub mod Direct
pub mod Spsc
mod Tests
use Prim.Native.Nat.{bit_and}
use io_uring_net_engine.Prelude.{
  ℕ, ◌+◌, ◌-◌, ◌≤◌, ◌<◌, ◌^◌, min, ◌≡◌, Bool, List, ◌++◌, length, take, drop, ltb, leb, ◌==◌,
  if◌then◌else◌,
}
use io_uring_net_engine.Prelude.Memory.{copy, slice}
use io_uring_net_engine.Prelude.Word.{add_usize, sub_usize, i64_limit}

pub record Ring : Type 0 where
  pub buffer : List ℕ
  pub enqueue_cursor : ℕ
  pub dequeue_cursor : ℕ

-- The two static_asserts on N; an object of the program is smaller than half the address space.
pub record IsCapacity (cap : ℕ) : Type 0 where
  pub at_least : 2 ≤ cap
  pub power : (k : ℕ) × (cap ≡ 2 ^ k)
  pub fits : cap < i64_limit

pub record IsValid (cap : ℕ) (r : Ring) : Type 0 where
  pub size : length r.buffer ≡ cap
  pub behind : r.dequeue_cursor ≤ r.enqueue_cursor
  pub within : r.enqueue_cursor ≤ r.dequeue_cursor + cap
  pub fits : r.enqueue_cursor < i64_limit

module _ (cap : ℕ) where
  -- `static_cast<usize>(cursor) & MASK`
  unfoldable pub offset : ℕ → ℕ
  offset cursor = bit_and cursor (cap - 1)

  -- The bytes go to the end of the storage, and what is left from its start on.
  unfoldable pub write_at : List ℕ → ℕ → List ℕ → List ℕ
  write_at buffer cursor src =
      let off = offset cursor in
      let first = min (length src) (sub_usize cap off) in
      copy (copy buffer off (take first src)) 0 (drop first src)

  -- The two copies out of `dequeue` and `peek`: to the end of the storage, then from its start.
  unfoldable pub read_at : List ℕ → ℕ → ℕ → List ℕ
  read_at buffer cursor n =
      let off = offset cursor in
      let first = min n (sub_usize cap off) in slice buffer off first ++ slice buffer 0 (n - first)

  unfoldable pub free_size : Ring → ℕ
  free_size r = sub_usize cap (sub_usize r.enqueue_cursor r.dequeue_cursor)

  unfoldable pub is_full : Ring → Bool
  unfolding free_size
  is_full r = free_size r == 0

  -- The count returned, and the ring after the call.
  unfoldable pub enqueue : Ring → List ℕ → ℕ × Ring
  enqueue r src =
      let w = r.enqueue_cursor in
      let n = length src in
      if ltb cap (add_usize (sub_usize w r.dequeue_cursor) n)
      then (0, r)
      else (n, record r { buffer = write_at r.buffer w src; enqueue_cursor = w + n })

  unfoldable pub enqueue2 : Ring → List ℕ → List ℕ → ℕ × Ring
  enqueue2 r a b =
      let w = r.enqueue_cursor in
      let n = add_usize (length a) (length b) in
      if ltb cap (add_usize (sub_usize w r.dequeue_cursor) n) then (0, r) else (
        n,
        record r {
          buffer = write_at (write_at r.buffer w a) (w + length a) b;
          enqueue_cursor = w + n;
        },
      )

  -- The pointer is the offset into the storage.
  unfoldable pub direct_enqueue_ptr : Ring → ℕ
  direct_enqueue_ptr r = offset r.enqueue_cursor

  unfoldable pub direct_enqueue_size : Ring → ℕ
  direct_enqueue_size r =
      let w = r.enqueue_cursor in
      let free = sub_usize cap (sub_usize w r.dequeue_cursor) in
      let to_end = sub_usize cap (offset w) in min free to_end

  unfoldable pub used_size : Ring → ℕ
  used_size r = sub_usize r.enqueue_cursor r.dequeue_cursor

  unfoldable pub is_empty : Ring → Bool
  unfolding used_size
  is_empty r = used_size r == 0

  -- The bytes copied out (the count returned is their number), and the ring after the call.
  unfoldable pub dequeue : Ring → ℕ → List ℕ × Ring
  dequeue r n =
      let c = r.dequeue_cursor in
      let m = min n (sub_usize r.enqueue_cursor c) in
      (read_at r.buffer c m, record r { dequeue_cursor = c + m })

  unfoldable pub peek : Ring → ℕ → List ℕ
  peek r n = let c = r.dequeue_cursor in read_at r.buffer c (min n (sub_usize r.enqueue_cursor c))

  unfoldable pub direct_dequeue_ptr : Ring → ℕ
  direct_dequeue_ptr r = offset r.dequeue_cursor

  unfoldable pub direct_dequeue_size : Ring → ℕ
  direct_dequeue_size r =
      let c = r.dequeue_cursor in
      let avail = sub_usize r.enqueue_cursor c in
      let to_end = sub_usize cap (offset c) in min avail to_end

unfoldable pub commit_enqueue : Ring → ℕ → Ring
commit_enqueue r k = record r { enqueue_cursor = r.enqueue_cursor + k }

unfoldable pub commit_dequeue : Ring → ℕ → Ring
commit_dequeue r k = record r { dequeue_cursor = r.dequeue_cursor + k }
