-- ===== src/PacketPool/Prewarm.antt =====
-- prewarm puts every block of the pool on its bucket's stack, the lowest address on top.
use io_uring_net_engine.Prelude.{
  ℕ, zero, suc, ◌+◌, ◌*◌, ◌≤◌, ◌<◌, ◌≡◌, some, List, [], ◌∷◌, length, refl, sym, subst, arith, ap,
  false,
}
use io_uring_net_engine.Prelude.Checked.{ok}
use io_uring_net_engine.PacketPool.{
  BucketIndex, b64, b256, b1024, same, prewarm_count, Heap, Bucket, PacketPool, write, fill,
  prewarm_bucket, prewarm, new_pool, fresh_pool, init_buckets, init_bucket,
}
use io_uring_net_engine.PacketPool.Layout.{Placed, address, init_buckets-Placed}
use io_uring_net_engine.PacketPool.Chains.{
  NoDup, Absent, Chain, write-Chain_other, write-Chain-Absent, size_pos,
}
use io_uring_net_engine.PacketPool.Invariant.{Stacks, set_stack, BucketHolds, Holds, set_each}
use io_uring_net_engine.PacketPool.Release.{write_here}

-- n, n + 1, and so on, `m` numbers.
unfoldable pub from : ℕ → ℕ → List ℕ
from n zero = []
from n (suc m) = n ∷ from (suc n) m

pub from-Absent : (k n m : ℕ) → k < n → Absent k (from n m)
unfolding from
from-Absent k n zero h = tt
from-Absent k n (suc m) h = (λ e. omega (arith, e, h), from-Absent k (suc n) m (omega (arith, h)))

from-NoDup : (n m : ℕ) → NoDup (from n m)
unfolding from
from-NoDup n zero = tt
from-NoDup n (suc m) = (from-Absent n (suc n) m (omega arith), from-NoDup (suc n) m)

length-from : (n m : ℕ) → length (from n m) ≡ m
unfolding from
length-from n zero = refl
length-from n (suc m) = ap suc (length-from (suc n) m)

-- A bucket before it is full.
record Stage (h : Heap) (r : ℕ) (i : BucketIndex) (b : Bucket) (js : List ℕ) : Type 0 where
  placed : Placed r i b
  chain : Chain h r i js b.free_list
  unused : b.in_use ≡ 0

moved :
    {r : ℕ} {i : BucketIndex} {b : Bucket} (head : ℕ)
    → Placed r i b
    → Placed r i (record b { free_list = head })
moved head w = record {
  block_size = w.block_size;
  capacity = w.capacity;
  region_begin = w.region_begin;
  region_end = w.region_end;
}

block_eq :
    {r : ℕ} {i : BucketIndex} {b : Bucket} (j : ℕ)
    → Placed r i b
    → b.region_begin + j * b.block_size ≡ address r i j
unfolding address
block_eq j w = rw (w.region_begin, w.block_size) refl

module _ (r : ℕ) (i : BucketIndex) where
  push-Chain :
      (h : Heap) (j : ℕ) (js : List ℕ) (head : ℕ)
      → j < prewarm_count i
      → Absent j js
      → Chain h r i js head
      → Chain (write h (address r i j) head) r i (j ∷ js) (address r i j)
  push-Chain h j js head l a ch = (
    refl,
    l,
    subst (λ x. Chain (write h (address r i j) head) r i js x)
        (sym (write_here h (address r i j) head))
        (subst (λ x. Chain (write h x head) r i js head) (omega arith)
          (write-Chain-Absent h r i j 0 head js head l (omega (arith, size_pos i)) a ch)),
  )

  fill-Stage :
      (idx m : ℕ) (h : Heap) (b : Bucket)
      → idx + m ≡ prewarm_count i
      → Stage h r i b (from idx m)
      → let (h', b') = fill idx h b in Stage h' r i b' (from 0 (prewarm_count i))
  unfolding fill from
  fill-Stage zero m h b e s = subst (λ n. Stage h r i b (from 0 n)) (omega (arith, e)) s
  fill-Stage (suc idx) m h b e s =
      rw (block_eq idx s.placed, fill)
        (fill-Stage idx (suc m) (write h (address r i idx) b.free_list)
          (record b { free_list = address r i idx }) (omega (arith, e))
          (record {
            placed = moved (address r i idx) s.placed;
            chain =
                push-Chain h idx (from (suc idx) m) b.free_list (omega (arith, e))
                  (from-Absent idx (suc idx) m (omega arith)) s.chain;
            unused = s.unused;
          }))

  -- The loop over one bucket keeps the lists of the others.
  fill-other :
      (idx : ℕ) (h : Heap) (b : Bucket) (k : BucketIndex) (js : List ℕ) (head : ℕ)
      → idx ≤ prewarm_count i
      → Placed r i b
      → same i k ≡ false
      → Chain h r k js head
      → Chain (fill idx h b).0 r k js head
  unfolding fill
  fill-other zero h b k js head l w e ch = ch
  fill-other (suc idx) h b k js head l w e ch =
      rw (block_eq idx w, fill)
        (fill-other idx (write h (address r i idx) b.free_list)
          (record b { free_list = address r i idx }) k js head (omega (arith, l))
          (moved (address r i idx) w) e
          (subst (λ x. Chain (write h x b.free_list) r k js head) (omega arith)
            (write-Chain_other h r i idx 0 b.free_list k js head (omega (arith, l))
              (omega (arith, size_pos i)) e ch)))

abbrev StageAll : PacketPool → Stacks → Type 0
StageAll p free = (k : BucketIndex) → Stage p.heap p.region k (p.buckets k) (free k)

prewarm_bucket-StageAll :
    (p : PacketPool) {free : Stacks} (i : BucketIndex)
    → StageAll p free
    → free i ≡ []
    → StageAll (prewarm_bucket p i) (set_stack free i (from 0 (prewarm_count i)))
unfolding prewarm_bucket from
prewarm_bucket-StageAll p {free} i s e =
    let (h', b') = fill (p.buckets i).capacity p.heap (p.buckets i) in
    set_each (λ k b l. Stage h' p.region k b l) i
      (subst
        (λ n.
          let (h', b') = fill n p.heap (p.buckets i) in
          Stage h' p.region i b' (from 0 (prewarm_count i)))
        (sym (s i).placed.capacity)
        (fill-Stage p.region i (prewarm_count i) 0 p.heap (p.buckets i) (omega arith)
          (subst (λ l. Stage p.heap p.region i (p.buckets i) l) e (s i))))
      (λ k apart. record {
        placed = (s k).placed;
        chain =
            fill-other p.region i (p.buckets i).capacity p.heap (p.buckets i) k (free k) _
              (omega (arith, (s i).placed.capacity)) (s i).placed apart (s k).chain;
        unused = (s k).unused;
      })

abbrev pub all_free : Stacks
all_free i = from 0 (prewarm_count i)

fresh_pool-StageAll : (region : ℕ) (h : Heap) → StageAll (fresh_pool region h) (λ _. [])
unfolding fresh_pool init_buckets init_bucket
fresh_pool-StageAll region h b64 = record {
  placed = init_buckets-Placed region b64;
  chain = refl;
  unused = refl;
}
fresh_pool-StageAll region h b256 = record {
  placed = init_buckets-Placed region b256;
  chain = refl;
  unused = refl;
}
fresh_pool-StageAll region h b1024 = record {
  placed = init_buckets-Placed region b1024;
  chain = refl;
  unused = refl;
}

full-BucketHolds :
    {h : Heap} {r : ℕ} {i : BucketIndex} {b : Bucket}
    → Stage h r i b (all_free i)
    → BucketHolds h r i b (all_free i)
full-BucketHolds {h} {r} {i} {b} s = record {
  placed = s.placed;
  chain = s.chain;
  distinct = from-NoDup 0 (prewarm_count i);
  counted = omega (arith, s.unused, length-from 0 (prewarm_count i));
}

stacks_full :
    (k : BucketIndex)
    → set_stack
        (set_stack (set_stack (λ _. []) b64 (all_free b64)) b256 (all_free b256))
        b1024
        (all_free b1024)
        k
      ≡ all_free k
unfolding set_stack same
stacks_full b64 = refl
stacks_full b256 = refl
stacks_full b1024 = refl

prewarmed-StageAll : (region : ℕ) (h : Heap) → StageAll (prewarm (fresh_pool region h)) all_free
unfolding prewarm fresh_pool set_stack same
prewarmed-StageAll region h k =
    let p = fresh_pool region h in
    let one = prewarm_bucket p b64 in
    let two = prewarm_bucket one b256 in
    let first_full = prewarm_bucket-StageAll p b64 (fresh_pool-StageAll region h) refl in
    let all_full =
      prewarm_bucket-StageAll two b1024 (prewarm_bucket-StageAll one b256 first_full refl) refl in
    subst
      (λ l.
        Stage (prewarm_bucket two b1024).heap (prewarm_bucket two b1024).region k
          ((prewarm_bucket two b1024).buckets k) l)
      (stacks_full k) (all_full k)

pub prewarmed-Holds :
    (region : ℕ) (h : Heap) → 1 ≤ region → Holds (prewarm (fresh_pool region h)) all_free
unfolding prewarm fresh_pool prewarm_bucket
prewarmed-Holds region h l = record {
  mapped = l;
  ready = refl;
  each = λ k. full-BucketHolds (prewarmed-StageAll region h k);
}

-- A pool that the constructor returns, on a mapping at an address that is not null, holds every
-- block on its bucket's stack once prewarm has run, the lowest address on top, and a second
-- prewarm changes nothing.
pub prewarm_refines :
    (region : ℕ) (h : Heap)
    → 1 ≤ region
    → (p : PacketPool) × (new_pool (some region) h ≡ ok p)
      × Holds (prewarm p) all_free
      × (prewarm (prewarm p) ≡ prewarm p)
unfolding new_pool prewarm fresh_pool
prewarm_refines region h l = (fresh_pool region h, refl, prewarmed-Holds region h l, refl)
