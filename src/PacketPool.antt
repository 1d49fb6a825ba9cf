-- ===== src/PacketPool.antt =====
-- engine-uring/src/memory/packet_pool.h and packet_pool.cpp: a thread's pool of blocks in three sizes,
-- carved from one mapping, with free lists that run through the free blocks themselves. An address is
-- a number, 0 the null pointer; `heap` is the memory as words at their addresses, where a free block's
-- first word is its `next`. mmap's result is a parameter: `none` for MAP_FAILED. The messages printed
-- before a trap are left out.
pub mod Layout
pub mod Chains
pub mod Invariant
pub mod Prewarm
pub mod Acquire
pub mod Release
mod Tests
use io_uring_net_engine.Prelude.{
  ℕ, zero, suc, ◌+◌, ◌-◌, ◌*◌, ◌^◌, Bool, true, false, not, ◌&&◌, Option, none, some, List, [], ◌∷◌,
  ltb, leb, ◌==◌, if◌then◌else◌,
}
use io_uring_net_engine.Prelude.Checked.{Checked, ok, trap, ◌>>=◌, ◌>>◌, check}
use Prim.Native.Nat.{bit_and}

abbrev pub region_align : ℕ
region_align = 16

abbrev pub region_slack : ℕ
region_slack = 4096

-- The indices 0, 1 and 2 of `_buckets`.
pub data BucketIndex : Type 0 where
  b64 b256 b1024 : BucketIndex

unfoldable pub same : BucketIndex → BucketIndex → Bool
same b64 b64 = true
same b64 b256 = false
same b64 b1024 = false
same b256 b64 = false
same b256 b256 = true
same b256 b1024 = false
same b1024 b64 = false
same b1024 b256 = false
same b1024 b1024 = true

-- `k_bucket_size_*` and `k_prewarm_*`.
abbrev pub bucket_size : BucketIndex → ℕ
bucket_size b64 = 64
bucket_size b256 = 256
bucket_size b1024 = 1024

abbrev pub prewarm_count : BucketIndex → ℕ
prewarm_count b64 = 256
prewarm_count b256 = 256
prewarm_count b1024 = 512

-- On 64 bits: ~(align - 1) is 2 ^ 64 - align.
unfoldable pub align_up : ℕ → ℕ → ℕ
align_up n align = bit_and (n + align - 1) (2 ^ 64 - align)

abbrev pub Heap : Type 0
Heap = ℕ → ℕ

unfoldable pub write : Heap → ℕ → ℕ → Heap
write h a w x = if x == a then w else h x

pub record Bucket : Type 0 where
  pub block_size : ℕ
  pub capacity : ℕ
  pub in_use : ℕ
  pub free_list : ℕ
  pub region_begin : ℕ
  pub region_end : ℕ

pub record PacketPool : Type 0 where
  pub heap : Heap
  pub region : ℕ
  pub region_size : ℕ
  pub buckets : BucketIndex → Bucket
  pub prewarmed : Bool

unfoldable pub set_bucket : (BucketIndex → Bucket) → BucketIndex → Bucket → BucketIndex → Bucket
set_bucket bs i b j = if same j i then b else bs j

unfoldable pub bytes_of : BucketIndex → ℕ
bytes_of i = align_up (bucket_size i * prewarm_count i) region_align

-- The buckets stand behind one another from the start of the region.
unfoldable pub init_bucket : BucketIndex → ℕ → Bucket
init_bucket i cursor = record {
  block_size = bucket_size i;
  capacity = prewarm_count i;
  in_use = 0;
  free_list = 0;
  region_begin = cursor;
  region_end = cursor + bytes_of i;
}

unfoldable pub init_buckets : ℕ → BucketIndex → Bucket
init_buckets region b64 = init_bucket b64 region
init_buckets region b256 = init_bucket b256 (region + bytes_of b64)
init_buckets region b1024 = init_bucket b1024 (region + bytes_of b64 + bytes_of b256)

unfoldable pub fresh_pool : ℕ → Heap → PacketPool
fresh_pool p h = record {
  heap = h;
  region = p;
  region_size = bytes_of b64 + bytes_of b256 + bytes_of b1024 + region_slack;
  buckets = init_buckets p;
  prewarmed = false;
}

-- The constructor, on the memory as mmap left it.
unfoldable pub new_pool : Option ℕ → Heap → Checked PacketPool
new_pool none h = trap
new_pool (some p) h = ok (fresh_pool p h)

-- The inner loop of prewarm, for `idx` down to 1.
unfoldable pub fill : ℕ → Heap → Bucket → Heap × Bucket
fill zero h b = (h, b)
fill (suc idx) h b =
    let block = b.region_begin + idx * b.block_size in
    fill idx (write h block b.free_list) (record b { free_list = block })

unfoldable pub prewarm_bucket : PacketPool → BucketIndex → PacketPool
prewarm_bucket p i =
    let (h, b) = fill (p.buckets i).capacity p.heap (p.buckets i) in
    record p { heap = h; buckets = set_bucket p.buckets i b }

unfoldable pub prewarm : PacketPool → PacketPool
prewarm p =
    if p.prewarmed
    then p
    else record (prewarm_bucket (prewarm_bucket (prewarm_bucket p b64) b256) b1024) {
      prewarmed = true;
    }

unfoldable pub bucket_for : ℕ → Checked BucketIndex
bucket_for size =
    if leb size (bucket_size b64)
    then ok b64
    else if leb size (bucket_size b256)
    then ok b256
    else do check (leb size (bucket_size b1024)); ok b1024

unfoldable pub acquire : PacketPool → ℕ → Checked (ℕ × PacketPool)
acquire p size = do
  i ← bucket_for size
  check p.prewarmed
  check (not ((p.buckets i).free_list == 0))
  let b = p.buckets i
  let node = b.free_list
  ok (
    node,
    record p {
      buckets =
          set_bucket p.buckets i (record b { free_list = p.heap node; in_use = b.in_use + 1 });
    },
  )

unfoldable pub release : PacketPool → ℕ → ℕ → Checked PacketPool
release p block size = do
  check (not (block == 0))
  i ← bucket_for size
  let b = p.buckets i
  check (leb b.region_begin block && ltb block b.region_end)
  check (ltb 0 b.in_use)
  ok (record p {
    heap = write p.heap block b.free_list;
    buckets = set_bucket p.buckets i (record b { free_list = block; in_use = b.in_use - 1 });
  })

unfoldable pub in_use : PacketPool → ℕ → Checked ℕ
in_use p size = do i ← bucket_for size; ok (p.buckets i).in_use
