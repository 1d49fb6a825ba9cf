-- ===== src/PacketPool/Layout.antt =====
-- Where the blocks of the pool stand, and which bucket serves a size.
use io_uring_net_engine.Prelude.{
  ℕ, ◌+◌, ◌*◌, ◌≤◌, ◌<◌, ◌≡◌, ◌≢◌, ◌⊎◌, inl, inr, refl, arith, true, false, leb, Bool-cases,
}
use io_uring_net_engine.Prelude.Checked.{ok, trap}
use io_uring_net_engine.PacketPool.{
  BucketIndex, b64, b256, b1024, same, bucket_size, prewarm_count, bytes_of, align_up, region_slack,
  Bucket, init_bucket, init_buckets, bucket_for, fresh_pool,
}

-- The start of a bucket, and the address of its block `j`.
unfoldable pub start : ℕ → BucketIndex → ℕ
start r b64 = r
start r b256 = r + 16384
start r b1024 = r + 81920

unfoldable pub address : ℕ → BucketIndex → ℕ → ℕ
address r i j = start r i + j * bucket_size i

-- A bucket as the constructor places it.
pub record Placed (r : ℕ) (i : BucketIndex) (b : Bucket) : Type 0 where
  pub block_size : b.block_size ≡ bucket_size i
  pub capacity : b.capacity ≡ prewarm_count i
  pub region_begin : b.region_begin ≡ start r i
  pub region_end : b.region_end ≡ start r i + bucket_size i * prewarm_count i

pub init_buckets-Placed : (r : ℕ) (i : BucketIndex) → Placed r i (init_buckets r i)
unfolding start init_buckets init_bucket bytes_of align_up
init_buckets-Placed r b64 = record {
  block_size = refl;
  capacity = refl;
  region_begin = refl;
  region_end = refl;
}
init_buckets-Placed r b256 = record {
  block_size = refl;
  capacity = refl;
  region_begin = refl;
  region_end = refl;
}
init_buckets-Placed r b1024 = record {
  block_size = refl;
  capacity = refl;
  region_begin = omega arith;
  region_end = omega arith;
}

-- Every block lies inside its bucket, and the bucket inside the mapping.
pub blocks_within :
    (r : ℕ) (i : BucketIndex) (j : ℕ)
    → j < prewarm_count i
    → (start r i ≤ address r i j)
      × (address r i j + bucket_size i ≤ start r i + bucket_size i * prewarm_count i)
      × (r ≤ start r i)
      × (start r i + bucket_size i * prewarm_count i
          ≤ r + (bytes_of b64 + bytes_of b256 + bytes_of b1024 + region_slack))
unfolding start address bytes_of align_up
blocks_within r b64 j h = (omega arith, omega arith, omega arith, omega arith)
blocks_within r b256 j h = (omega arith, omega arith, omega arith, omega arith)
blocks_within r b1024 j h = (omega arith, omega arith, omega arith, omega arith)

pub same_self : (i : BucketIndex) → same i i ≡ true
unfolding same
same_self b64 = refl
same_self b256 = refl
same_self b1024 = refl

-- Blocks of two buckets.
buckets_apart :
    (r : ℕ) (i k : BucketIndex) (j l : ℕ)
    → same i k ≡ false
    → j < prewarm_count i
    → l < prewarm_count k
    → (address r i j + bucket_size i ≤ address r k l)
      ⊎ (address r k l + bucket_size k ≤ address r i j)
unfolding same start address
buckets_apart r b64 b64 j l e h m = absurd (ground arith)
buckets_apart r b64 b256 j l e h m = inl (omega arith)
buckets_apart r b64 b1024 j l e h m = inl (omega arith)
buckets_apart r b256 b64 j l e h m = inr (omega arith)
buckets_apart r b256 b256 j l e h m = absurd (ground arith)
buckets_apart r b256 b1024 j l e h m = inl (omega arith)
buckets_apart r b1024 b64 j l e h m = inr (omega arith)
buckets_apart r b1024 b256 j l e h m = inr (omega arith)
buckets_apart r b1024 b1024 j l e h m = absurd (ground arith)

-- Blocks of one bucket.
neighbours_apart :
    (r : ℕ) (i : BucketIndex) (j l : ℕ)
    → j ≢ l
    → (address r i j + bucket_size i ≤ address r i l)
      ⊎ (address r i l + bucket_size i ≤ address r i j)
unfolding start address
neighbours_apart r b64 j l ne = ground arith
neighbours_apart r b256 j l ne = ground arith
neighbours_apart r b1024 j l ne = ground arith

pub same_eq : (i k : BucketIndex) → same i k ≡ true → i ≡ k
unfolding same
same_eq b64 b64 e = refl
same_eq b64 b256 e = absurd (ground arith)
same_eq b64 b1024 e = absurd (ground arith)
same_eq b256 b64 e = absurd (ground arith)
same_eq b256 b256 e = refl
same_eq b256 b1024 e = absurd (ground arith)
same_eq b1024 b64 e = absurd (ground arith)
same_eq b1024 b256 e = absurd (ground arith)
same_eq b1024 b1024 e = refl

-- Two blocks of the pool do not overlap, whether they are of one bucket or of two.
pub blocks_apart :
    (r : ℕ) (i k : BucketIndex) (j l : ℕ)
    → (same i k ≡ false) ⊎ (j ≢ l)
    → j < prewarm_count i
    → l < prewarm_count k
    → (address r i j + bucket_size i ≤ address r k l)
      ⊎ (address r k l + bucket_size k ≤ address r i j)
blocks_apart r i k j l (inl e) h m = buckets_apart r i k j l e h m
blocks_apart r i k j l (inr ne) h m = elim (Bool-cases (same i k)) [
  | inl e ↦ rw (← same_eq i k e) (neighbours_apart r i j l ne)
  | inr e ↦ buckets_apart r i k j l e h m
]

unfoldable pub Smallest : ℕ → BucketIndex → Type 0
Smallest size i =
    (size ≤ bucket_size i)
    × ((k : BucketIndex) → size ≤ bucket_size k → bucket_size i ≤ bucket_size k)

Smallest-64 : (size : ℕ) → size ≤ 64 → Smallest size b64
unfolding Smallest
Smallest-64 size h =
    (h, elim [ b64 ↦ λ f. omega arith | b256 ↦ λ f. omega arith | b1024 ↦ λ f. omega arith ])

Smallest-256 : (size : ℕ) → 64 < size → size ≤ 256 → Smallest size b256
unfolding Smallest
Smallest-256 size l h =
    (h, elim [ b64 ↦ λ f. omega arith | b256 ↦ λ f. omega arith | b1024 ↦ λ f. omega arith ])

Smallest-1024 : (size : ℕ) → 256 < size → size ≤ 1024 → Smallest size b1024
unfolding Smallest
Smallest-1024 size l h =
    (h, elim [ b64 ↦ λ f. omega arith | b256 ↦ λ f. omega arith | b1024 ↦ λ f. omega arith ])

-- A request of up to 1024 bytes goes to the smallest bucket whose blocks hold it; a larger one traps.
pub bucket_for_lem :
    (size : ℕ)
    → ((i : BucketIndex) × (bucket_for size ≡ ok i) × Smallest size i)
      ⊎ ((1024 < size) × (bucket_for size ≡ trap))
unfolding bucket_for
bucket_for_lem size = elim (Bool-cases (leb size 64)) [
  | inl small ↦ inl (b64, ground arith, Smallest-64 size (ground arith))
  | inr over64 ↦ elim (Bool-cases (leb size 256)) [
    | inl middle ↦ inl (b256, ground arith, Smallest-256 size (ground arith) (ground arith))
    | inr over256 ↦ elim (Bool-cases (leb size 1024)) [
      | inl large ↦ inl (b1024, ground arith, Smallest-1024 size (ground arith) (ground arith))
      | inr huge ↦ inr (ground arith, ground arith)
    ]
  ]
]

-- Two different blocks of the pool as constructed, of one bucket or of two, do not overlap, and
-- the first lies inside the mapping.
pub blocks_disjoint :
    (r : ℕ) (i k : BucketIndex) (j l : ℕ)
    → (same i k ≡ false) ⊎ (j ≢ l)
    → j < prewarm_count i
    → l < prewarm_count k
    → let p = fresh_pool r (λ _. 0) in
      let b = p.buckets i in
      let c = p.buckets k in
      let x = b.region_begin + j * b.block_size in
      let y = c.region_begin + l * c.block_size in
      ((x + b.block_size ≤ y) ⊎ (y + c.block_size ≤ x))
      × (r ≤ x)
      × (x + b.block_size ≤ r + p.region_size)
unfolding address fresh_pool
blocks_disjoint r i k j l apart h m =
    let b = init_buckets-Placed r i in
    let c = init_buckets-Placed r k in
    rw (b.region_begin, b.block_size, c.region_begin, c.block_size)
      (
        blocks_apart r i k j l apart h m,
        omega (arith, blocks_within r i j h),
        omega (arith, blocks_within r i j h),
      )
