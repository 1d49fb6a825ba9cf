-- ===== src/Ring/Direct.antt =====
-- The zero-copy hooks of ring_buffer.h: the kernel fills the region that `direct_enqueue_ptr` and
-- `direct_enqueue_size` name, or sends from the one of `direct_dequeue_ptr`, and a commit follows.
use native.Mathlib.Nat.{mod-lt}
use io_uring_net_engine.Prelude.{
  ℕ, ◌+◌, ◌-◌, ◌≤◌, ◌<◌, ◌≡◌, ap, arith, List, ◌++◌, length, take, drop, min, append-nil, take_all,
  drop_all, ◌↔◌,
}
use io_uring_net_engine.Prelude.Memory.{copy, slice, length-copy}
use io_uring_net_engine.Prelude.Word.{i64_limit, sub_usize}
use io_uring_net_engine.Ring.Storage.{offset-eq-mod}
use io_uring_net_engine.Ring.Contents.{
  contents, bytes_from, bytes_from-write_at, read_at-eq, drop-bytes_from, length-bytes_from,
}
use io_uring_net_engine.Ring.{
  Ring, IsCapacity, IsValid, offset, write_at, read_at, direct_enqueue_ptr, direct_enqueue_size,
  commit_enqueue, direct_dequeue_ptr, direct_dequeue_size, commit_dequeue,
}

-- What the kernel does with a receive: `src` lands at the pointer, and the count is committed.
abbrev pub receive : ℕ → Ring → List ℕ → Ring
receive cap r src =
    commit_enqueue (record r { buffer = copy r.buffer (direct_enqueue_ptr cap r) src }) (length src)

module _ {cap : ℕ} (v : IsCapacity cap) where
  open v use {at_least, fits}

  offset-lt : (c : ℕ) → offset cap c < cap
  offset-lt c = omega (arith, offset-eq-mod v c, mod-lt c {m = cap} (omega arith))

  to_end-eq : (c : ℕ) → sub_usize cap (offset cap c) ≡ cap - offset cap c
  to_end-eq c = omega (arith, offset-lt c)

  -- A write that stays before the end of the storage is one copy.
  write_at-contiguous :
      (buffer : List ℕ) (c : ℕ) (src : List ℕ)
      → length src ≤ cap - offset cap c
      → write_at cap buffer c src ≡ copy buffer (offset cap c) src
  unfolding write_at copy
  write_at-contiguous buffer c src h = rw (
    to_end-eq c,
    first,
    take_all (length src) src (omega arith),
    drop_all (length src) src (omega arith),
  )
    where
      first : min (length src) (cap - offset cap c) ≡ length src
      first = omega arith

  read_at-contiguous :
      (buffer : List ℕ) (c n : ℕ)
      → n ≤ cap - offset cap c
      → read_at cap buffer c n ≡ slice buffer (offset cap c) n
  unfolding read_at
  read_at-contiguous buffer c n h = rw (to_end-eq c, first, rest) (append-nil _)
    where
      first : min n (cap - offset cap c) ≡ n
      first = omega arith

      rest : n - n ≡ 0
      rest = omega arith

  -- On a valid ring whose cursor stays below 2^63, bytes received into the direct enqueue region
  -- and committed follow the stream, none lands outside the storage, and the ring stays valid.
  pub receive_refines :
      {r : Ring} (src : List ℕ)
      → IsValid cap r
      → r.enqueue_cursor + length src < i64_limit
      → length src ≤ direct_enqueue_size cap r
      → (contents cap (receive cap r src) ≡ contents cap r ++ src)
        × IsValid cap (receive cap r src)
        × (direct_enqueue_ptr cap r + length src ≤ cap)
  unfolding direct_enqueue_ptr direct_enqueue_size commit_enqueue
  receive_refines {r} src w h room = (
    rw (← write_at-contiguous r.buffer r.enqueue_cursor src fit) (
        bytes_from-write_at v r.buffer r.dequeue_cursor r.enqueue_cursor src w.size w.behind
          (omega arith)),
    ground (arith, length-copy r.buffer (offset cap r.enqueue_cursor) src),
    omega (arith, offset-lt r.enqueue_cursor),
  )
    where
      fit : length src ≤ cap - offset cap r.enqueue_cursor
      fit = omega (arith, to_end-eq r.enqueue_cursor)

  -- On a valid ring the direct dequeue region holds the first bytes of the stream inside the
  -- storage, and a commit drops those sent and keeps the ring valid.
  pub send_refines :
      {r : Ring} (k : ℕ)
      → IsValid cap r
      → k ≤ direct_dequeue_size cap r
      → (slice r.buffer (direct_dequeue_ptr cap r) k ≡ take k (contents cap r))
        × (contents cap (commit_dequeue r k) ≡ drop k (contents cap r))
        × IsValid cap (commit_dequeue r k)
        × (direct_dequeue_ptr cap r + k ≤ cap)
  unfolding direct_dequeue_ptr direct_dequeue_size commit_dequeue
  send_refines {r} k w room = (
    rw (← read_at-contiguous r.buffer r.dequeue_cursor k fit) (
        read_at-eq v r.buffer r.dequeue_cursor (r.enqueue_cursor - r.dequeue_cursor) k w.size
          (omega arith) (omega arith)),
    ground (
      arith,
      drop-bytes_from v r.buffer k r.dequeue_cursor (r.enqueue_cursor - r.dequeue_cursor),
      ap (bytes_from cap r.buffer (r.dequeue_cursor + k)) left,
    ),
    omega arith,
    omega (arith, offset-lt r.dequeue_cursor),
  )
    where
      fit : k ≤ cap - offset cap r.dequeue_cursor
      fit = omega (arith, to_end-eq r.dequeue_cursor)

      left : r.enqueue_cursor - r.dequeue_cursor - k ≡ r.enqueue_cursor - (r.dequeue_cursor + k)
      left = omega arith

  -- On a valid ring the direct enqueue region is empty exactly when the ring is full, and the
  -- direct dequeue region exactly when the ring is empty: the direct hooks never stall a ring.
  pub direct_progress :
      {r : Ring}
      → IsValid cap r
      → ((direct_enqueue_size cap r ≡ 0) ↔ (length (contents cap r) ≡ cap))
        × ((direct_dequeue_size cap r ≡ 0) ↔ (length (contents cap r) ≡ 0))
  unfolding direct_enqueue_size direct_dequeue_size
  direct_progress {r} w = (
    (
      λ h. omega (
        arith,
        offset-lt r.enqueue_cursor,
        offset-lt r.dequeue_cursor,
        length-bytes_from cap r.buffer r.dequeue_cursor (r.enqueue_cursor - r.dequeue_cursor),
      ),
      λ h. omega (
        arith,
        offset-lt r.enqueue_cursor,
        offset-lt r.dequeue_cursor,
        length-bytes_from cap r.buffer r.dequeue_cursor (r.enqueue_cursor - r.dequeue_cursor),
      ),
    ),
    (
      λ h. omega (
        arith,
        offset-lt r.enqueue_cursor,
        offset-lt r.dequeue_cursor,
        length-bytes_from cap r.buffer r.dequeue_cursor (r.enqueue_cursor - r.dequeue_cursor),
      ),
      λ h. omega (
        arith,
        offset-lt r.enqueue_cursor,
        offset-lt r.dequeue_cursor,
        length-bytes_from cap r.buffer r.dequeue_cursor (r.enqueue_cursor - r.dequeue_cursor),
      ),
    ),
  )
