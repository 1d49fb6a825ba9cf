-- ===== src/PacketPool/Acquire.antt =====
-- acquire pops the stack of the bucket that serves the size.
use io_uring_net_engine.Prelude.{
  ℕ, ◌+◌, ◌≤◌, ◌<◌, ◌≡◌, ◌⊎◌, inl, inr, false, List, [], ◌∷◌, refl, arith, ◌==◌,
}
use io_uring_net_engine.Prelude.Checked.{ok, trap}
use io_uring_net_engine.PacketPool.{
  BucketIndex, prewarm_count, PacketPool, set_bucket, bucket_for, acquire,
}
use io_uring_net_engine.PacketPool.Layout.{address, blocks_within}
use io_uring_net_engine.PacketPool.Chains.{Absent}
use io_uring_net_engine.PacketPool.Invariant.{Stacks, set_stack, BucketHolds, Holds, set_each}

-- An address of a block is not null.
pub address_pos :
    (r : ℕ) (i : BucketIndex) (j : ℕ) → 1 ≤ r → j < prewarm_count i → (address r i j == 0) ≡ false
address_pos r i j h l = ground (arith, blocks_within r i j l)

-- The pool after a pop from bucket `i`.
abbrev pub popped : PacketPool → BucketIndex → PacketPool
popped p i =
    let b = p.buckets i in
    record p {
      buckets =
          set_bucket p.buckets i
            (record b { free_list = p.heap b.free_list; in_use = b.in_use + 1 });
    }

pub popped-Holds :
    {p : PacketPool} {free : Stacks} (i : BucketIndex) (j : ℕ) (js : List ℕ)
    → Holds p free
    → free i ≡ j ∷ js
    → Holds (popped p i) (set_stack free i js)
popped-Holds {p} {free} i j js v e =
    let now : BucketHolds p.heap p.region i (p.buckets i) (j ∷ js) = rw (← e) (v.each i) in
    record {
      mapped = v.mapped;
      ready = v.ready;
      each =
          set_each (λ k b l. BucketHolds p.heap p.region k b l) i
            (record {
              placed = record {
                block_size = now.placed.block_size;
                capacity = now.placed.capacity;
                region_begin = now.placed.region_begin;
                region_end = now.placed.region_end;
              };
              chain = rw (now.chain.0) (now.chain.2);
              distinct = now.distinct.1;
              counted = omega (arith, now.counted);
            })
            (λ k _. v.each k);
    }

-- On a pool in use, acquire traps when the bucket that serves the size has no free block.
-- Otherwise it returns the address of the block on top of the bucket's stack, which is taken off
-- it, and the block was at no other place of the stack.
pub acquire_refines :
    {p : PacketPool} {free : Stacks} (size : ℕ) {i : BucketIndex}
    → Holds p free
    → bucket_for size ≡ ok i
    → ((free i ≡ []) × (acquire p size ≡ trap))
      ⊎ ((j : ℕ) × (js : List ℕ) × (free i ≡ j ∷ js)
          × Absent j js
          × (p' : PacketPool) × (acquire p size ≡ ok (address p.region i j, p'))
          × Holds p' (set_stack free i js))
unfolding acquire
acquire_refines {p} {free} size {i} v e = go (free i) refl
  where
    go :
        (js : List ℕ)
        → free i ≡ js
        → ((free i ≡ []) × (acquire p size ≡ trap))
          ⊎ ((j : ℕ) × (js : List ℕ) × (free i ≡ j ∷ js)
              × Absent j js
              × (p' : PacketPool) × (acquire p size ≡ ok (address p.region i j, p'))
              × Holds p' (set_stack free i js))
    go [] f =
        let now : BucketHolds p.heap p.region i (p.buckets i) [] = rw (← f) (v.each i) in
        inl (f, rw (acquire, e, v.ready, now.chain) refl)
    go (j ∷ js) f =
        let now : BucketHolds p.heap p.region i (p.buckets i) (j ∷ js) = rw (← f) (v.each i) in
        inr (
          j,
          js,
          f,
          now.distinct.0,
          popped p i,
          rw (acquire, e, v.ready, now.chain.0, address_pos p.region i j v.mapped now.chain.1) refl,
          popped-Holds i j js v f,
        )
