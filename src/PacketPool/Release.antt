-- ===== src/PacketPool/Release.antt =====
-- release pushes the block back; what the owner of a block writes into it changes no stack.
use io_uring_net_engine.Prelude.{
  ℕ, ◌+◌, ◌-◌, ◌≤◌, ◌<◌, ◌≡◌, inl, inr, true, ◌&&◌, ◌∷◌, refl, sym, subst, arith, ltb, leb,
  Bool-cases,
}
use io_uring_net_engine.Prelude.Checked.{ok}
use io_uring_net_engine.PacketPool.{
  BucketIndex, same, bucket_size, prewarm_count, Heap, PacketPool, set_bucket, bucket_for, release,
  write,
}
use io_uring_net_engine.PacketPool.Layout.{address, blocks_within, same_eq}
use io_uring_net_engine.PacketPool.Chains.{
  NoDup-bound, Absent, Chain, Chain-AllLt, stored, write-Chain_other, write-Chain-Absent, size_pos,
}
use io_uring_net_engine.PacketPool.Invariant.{Stacks, set_stack, BucketHolds, Holds, set_each}
use io_uring_net_engine.PacketPool.Acquire.{address_pos}

-- A block that is not on its bucket's stack: one that some caller of acquire has.
pub record Outstanding (free : Stacks) (i : BucketIndex) (j : ℕ) : Type 0 where
  pub block : j < prewarm_count i
  pub absent : Absent j (free i)

written-Chain :
    {p : PacketPool} {free : Stacks} {i : BucketIndex} {j : ℕ} (o w : ℕ)
    → Holds p free
    → Outstanding free i j
    → o < bucket_size i
    → (k : BucketIndex)
    → Chain (stored p.heap p.region i j o w) p.region k (free k) (p.buckets k).free_list
written-Chain {p} {free} {i} {j} o w v out fits k = elim (Bool-cases (same i k)) [
  | inr e ↦ write-Chain_other p.heap p.region i j o w k (free k) _ out.block fits e (v.each k).chain
  | inl e ↦ rw (← same_eq i k e) (
      write-Chain-Absent p.heap p.region i j o w (free i) _ out.block fits out.absent
        (v.each i).chain)
]

-- A word that the owner of a block writes anywhere inside it leaves every stack of the pool as it
-- was.
pub owner_write-Holds :
    {p : PacketPool} {free : Stacks} {i : BucketIndex} {j : ℕ} (o w : ℕ)
    → Holds p free
    → Outstanding free i j
    → o + 8 ≤ bucket_size i
    → Holds (record p { heap = write p.heap (address p.region i j + o) w }) free
owner_write-Holds {p} {free} {i} {j} o w v out fits = record {
  mapped = v.mapped;
  ready = v.ready;
  each = λ k. record {
    placed = (v.each k).placed;
    chain = written-Chain o w v out (omega arith) k;
    distinct = (v.each k).distinct;
    counted = (v.each k).counted;
  };
}

-- The pool after a push of block `block` on bucket `i`.
abbrev pub pushed : PacketPool → BucketIndex → ℕ → PacketPool
pushed p i block =
    let b = p.buckets i in
    record p {
      heap = write p.heap block b.free_list;
      buckets = set_bucket p.buckets i (record b { free_list = block; in_use = b.in_use - 1 });
    }

-- Some block of the bucket is in use.
in_use_pos :
    {p : PacketPool} {free : Stacks} {i : BucketIndex} {j : ℕ}
    → Holds p free
    → Outstanding free i j
    → 0 < (p.buckets i).in_use
in_use_pos {p} {free} {i} {j} v out =
    let now = v.each i in
    omega (
      arith,
      now.counted,
      NoDup-bound (prewarm_count i) (j ∷ free i) (out.absent, now.distinct)
          (out.block, Chain-AllLt p.heap p.region i (free i) _ now.chain),
    )

pub write_here : (h : Heap) (a w : ℕ) → write h a w a ≡ w
unfolding write
write_here h a w = ground arith

head-Chain :
    {p : PacketPool} {free : Stacks} {i : BucketIndex} {j : ℕ}
    → Holds p free
    → Outstanding free i j
    → Chain
        (write p.heap (address p.region i j) (p.buckets i).free_list)
        p.region
        i
        (j ∷ free i)
        (address p.region i j)
head-Chain {p} {free} {i} {j} v out =
    let w = (p.buckets i).free_list in
    let a = address p.region i j in
    (
      refl,
      out.block,
      subst (λ head. Chain (write p.heap a w) p.region i (free i) head)
          (sym (write_here p.heap a w))
          (subst (λ x. Chain (write p.heap x w) p.region i (free i) w) (omega arith)
            (written-Chain 0 w v out (omega (arith, size_pos i)) i)),
    )

pushed-Holds :
    {p : PacketPool} {free : Stacks} {i : BucketIndex} {j : ℕ}
    → Holds p free
    → Outstanding free i j
    → Holds (pushed p i (address p.region i j)) (set_stack free i (j ∷ free i))
pushed-Holds {p} {free} {i} {j} v out =
    let now = v.each i in
    let a = address p.region i j in
    record {
      mapped = v.mapped;
      ready = v.ready;
      each =
          set_each (λ k b l. BucketHolds (write p.heap a (p.buckets i).free_list) p.region k b l) i
            (record {
              placed = record {
                block_size = now.placed.block_size;
                capacity = now.placed.capacity;
                region_begin = now.placed.region_begin;
                region_end = now.placed.region_end;
              };
              chain = head-Chain v out;
              distinct = (out.absent, now.distinct);
              counted = omega (arith, now.counted, in_use_pos v out);
            })
            (λ k _. record {
              placed = (v.each k).placed;
              chain =
                  subst
                    (λ x.
                      Chain (write p.heap x (p.buckets i).free_list) p.region k (free k)
                        (p.buckets k).free_list)
                    (omega arith)
                    (written-Chain 0 (p.buckets i).free_list v out (omega (arith, size_pos i)) k);
              distinct = (v.each k).distinct;
              counted = (v.each k).counted;
            });
    }

in_range :
    {p : PacketPool} {free : Stacks} {i : BucketIndex} {j : ℕ}
    → Holds p free
    → Outstanding free i j
    → let b = p.buckets i in
      (leb b.region_begin (address p.region i j) && ltb (address p.region i j) b.region_end) ≡ true
in_range {p} {free} {i} {j} v out =
    let now = v.each i in
    ground (
      arith,
      now.placed.region_begin,
      now.placed.region_end,
      blocks_within p.region i j out.block,
      size_pos i,
    )

-- On a pool in use, a block that is not on its bucket's stack goes back on top of it when it is
-- released with a size that its bucket serves: none of the checks fails.
pub release_refines :
    {p : PacketPool} {free : Stacks} (size : ℕ) {i : BucketIndex} {j : ℕ}
    → Holds p free
    → bucket_for size ≡ ok i
    → Outstanding free i j
    → (p' : PacketPool) × (release p (address p.region i j) size ≡ ok p')
      × Holds p' (set_stack free i (j ∷ free i))
unfolding release
release_refines {p} {free} size {i} {j} v e out = (
  pushed p i (address p.region i j),
  rw (release, address_pos p.region i j v.mapped out.block, e, in_range v out, used) refl,
  pushed-Holds v out,
)
  where
    used : ltb 0 (p.buckets i).in_use ≡ true
    used = ground (arith, in_use_pos v out)
