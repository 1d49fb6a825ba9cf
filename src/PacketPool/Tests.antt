-- ===== src/PacketPool/Tests.antt =====
-- The pool on a mapping at 4096: runs of the code, and each theorem at an input that meets its
-- hypotheses.
use io_uring_net_engine.Prelude.{ℕ, ◌+◌, ◌*◌, ◌≤◌, ◌≡◌, ◌⊎◌, inl, refl, arith, some, List, [], ◌∷◌}
use io_uring_net_engine.Prelude.Checked.{ok, trap}
use io_uring_net_engine.PacketPool.{
  b64, b256, same, PacketPool, Heap, fresh_pool, new_pool, prewarm, bucket_for, acquire, release,
  align_up,
}
use io_uring_net_engine.PacketPool.Layout.{address, blocks_disjoint}
use io_uring_net_engine.PacketPool.Chains.{Absent}
use io_uring_net_engine.PacketPool.Invariant.{Holds, Stacks, set_stack}
use io_uring_net_engine.PacketPool.Prewarm.{
  all_free, from, from-Absent, prewarmed-Holds, prewarm_refines,
}
use io_uring_net_engine.PacketPool.Acquire.{popped, popped-Holds, acquire_refines}
use io_uring_net_engine.PacketPool.Release.{Outstanding, release_refines}

abbrev zeros : Heap
zeros a = 0

abbrev pool : PacketPool
pool = prewarm (fresh_pool 4096 zeros)

pool-Holds : Holds pool all_free
pool-Holds = prewarmed-Holds 4096 zeros (omega arith)

middle : bucket_for 100 ≡ ok b256
unfolding bucket_for
middle = refl

rounds_up : align_up 100 16 ≡ 112
unfolding align_up
rounds_up = refl

all_free_256 : all_free b256 ≡ 0 ∷ from 1 255
unfolding from
all_free_256 = refl

-- One block of 256 bytes taken.
abbrev taken : PacketPool
taken = popped pool b256

abbrev taken_stacks : Stacks
taken_stacks = set_stack all_free b256 (from 1 255)

taken-Holds : Holds taken taken_stacks
taken-Holds = popped-Holds b256 0 (from 1 255) pool-Holds all_free_256

lent : Outstanding taken_stacks b256 0
unfolding set_stack same
lent = record { block = omega arith; absent = from-Absent 0 1 255 (omega arith) }

prewarm_refines_example :
    (p : PacketPool) × (new_pool (some 4096) zeros ≡ ok p)
    × Holds (prewarm p) all_free
    × (prewarm (prewarm p) ≡ prewarm p)
prewarm_refines_example = prewarm_refines 4096 zeros (omega arith)

acquire_refines_example :
    ((all_free b256 ≡ []) × (acquire pool 100 ≡ trap))
    ⊎ ((j : ℕ) × (js : List ℕ) × (all_free b256 ≡ j ∷ js)
        × Absent j js
        × (p' : PacketPool) × (acquire pool 100 ≡ ok (address pool.region b256 j, p'))
        × Holds p' (set_stack all_free b256 js))
acquire_refines_example = acquire_refines 100 pool-Holds middle

release_refines_example :
    (p' : PacketPool) × (release taken (address taken.region b256 0) 100 ≡ ok p')
    × Holds p' (set_stack taken_stacks b256 (0 ∷ taken_stacks b256))
release_refines_example = release_refines 100 taken-Holds middle lent

blocks_disjoint_example :
    let p = fresh_pool 4096 (λ _. 0) in
    let b = p.buckets b64 in
    let c = p.buckets b256 in
    let x = b.region_begin + 255 * b.block_size in
    let y = c.region_begin + 0 * c.block_size in
    ((x + b.block_size ≤ y) ⊎ (y + c.block_size ≤ x))
    × (4096 ≤ x)
    × (x + b.block_size ≤ 4096 + p.region_size)
unfolding same
blocks_disjoint_example = blocks_disjoint 4096 b64 b256 255 0 (inl refl) (omega arith) (omega arith)
