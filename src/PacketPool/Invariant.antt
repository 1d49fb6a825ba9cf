-- ===== src/PacketPool/Invariant.antt =====
-- What the pool promises: three stacks of free block numbers; and when memory and buckets hold them.
use io_uring_net_engine.Prelude.{ℕ, ◌+◌, ◌≤◌, ◌≡◌, true, false, List, length, if◌then◌else◌, refl}
use io_uring_net_engine.PacketPool.{
  BucketIndex, b64, b256, b1024, same, prewarm_count, Heap, Bucket, PacketPool, set_bucket,
}
use io_uring_net_engine.PacketPool.Layout.{Placed}
use io_uring_net_engine.PacketPool.Chains.{NoDup, Chain}

abbrev pub Stacks : Type 0
Stacks = BucketIndex → List ℕ

unfoldable pub set_stack : Stacks → BucketIndex → List ℕ → Stacks
set_stack free i js k = if same k i then js else free k

pub record BucketHolds (h : Heap) (r : ℕ) (i : BucketIndex) (b : Bucket) (js : List ℕ)
    : Type 0 where
  pub placed : Placed r i b
  pub chain : Chain h r i js b.free_list
  pub distinct : NoDup js
  pub counted : b.in_use + length js ≡ prewarm_count i

pub record Holds (p : PacketPool) (free : Stacks) : Type 0 where
  pub mapped : 1 ≤ p.region
  pub ready : p.prewarmed ≡ true
  pub each : (i : BucketIndex) → BucketHolds p.heap p.region i (p.buckets i) (free i)

-- What holds of the bucket changed and of the others holds of all.
pub set_each :
    {bs : BucketIndex → Bucket} {free : Stacks} (P : BucketIndex → Bucket → List ℕ → Type 0)
    (i : BucketIndex) {b : Bucket} {js : List ℕ}
    → P i b js
    → ((k : BucketIndex) → same i k ≡ false → P k (bs k) (free k))
    → (k : BucketIndex) → P k (set_bucket bs i b k) (set_stack free i js k)
unfolding set_bucket set_stack same
set_each P b64 hit miss b64 = hit
set_each P b64 hit miss b256 = miss b256 refl
set_each P b64 hit miss b1024 = miss b1024 refl
set_each P b256 hit miss b64 = miss b64 refl
set_each P b256 hit miss b256 = hit
set_each P b256 hit miss b1024 = miss b1024 refl
set_each P b1024 hit miss b64 = miss b64 refl
set_each P b1024 hit miss b256 = miss b256 refl
set_each P b1024 hit miss b1024 = hit
