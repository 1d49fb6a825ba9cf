-- ===== src/PacketPool/Chains.antt =====
-- A free list as the numbers of its blocks, in order, and what a write to memory leaves of it.
use io_uring_net_engine.Prelude.{
  ℕ, zero, suc, ◌+◌, ◌≤◌, ◌<◌, ◌≡◌, ◌≢◌, ◌⊎◌, inl, inr, sym, arith, true, false, List, [], ◌∷◌,
  length, if◌then◌else◌, ◌==◌, Bool-cases,
}
use io_uring_net_engine.PacketPool.{
  BucketIndex, b64, b256, b1024, same, bucket_size, prewarm_count, Heap, write,
}
use io_uring_net_engine.PacketPool.Layout.{address, blocks_apart}

abbrev pub Absent : ℕ → List ℕ → Type 0
Absent k [] = Unit {0}
Absent k (j ∷ js) = (j ≢ k) × Absent k js

abbrev pub NoDup : List ℕ → Type 0
NoDup [] = Unit {0}
NoDup (j ∷ js) = Absent j js × NoDup js

-- The list at `head` runs through the blocks `js` of bucket `i`, and ends in a null pointer.
abbrev pub Chain : Heap → ℕ → BucketIndex → List ℕ → ℕ → Type 0
Chain h r i [] head = head ≡ 0
Chain h r i (j ∷ js) head =
    (head ≡ address r i j) × (j < prewarm_count i) × Chain h r i js (h (address r i j))

pub size_pos : (i : BucketIndex) → 64 ≤ bucket_size i
size_pos b64 = omega arith
size_pos b256 = omega arith
size_pos b1024 = omega arith

-- A write into block `k` of bucket `c`.
module _ (h : Heap) (r : ℕ) (c : BucketIndex) (k o w : ℕ) where
  abbrev pub stored : Heap
  stored = write h (address r c k + o) w

  write_else :
      (i : BucketIndex) (j : ℕ)
      → k < prewarm_count c
      → j < prewarm_count i
      → o < bucket_size c
      → (same c i ≡ false) ⊎ (k ≢ j)
      → stored (address r i j) ≡ h (address r i j)
  unfolding write
  write_else i j hk hj ho apart = ground (arith, blocks_apart r c i k j apart hk hj, size_pos i)

  pub write-Chain_other :
      (i : BucketIndex) (js : List ℕ) (head : ℕ)
      → k < prewarm_count c
      → o < bucket_size c
      → same c i ≡ false
      → Chain h r i js head
      → Chain stored r i js head
  write-Chain_other i [] head hk ho e ch = ch
  write-Chain_other i (j ∷ js) head hk ho e ch =
      (ch.0, ch.1, rw (write_else i j hk ch.1 ho (inl e)) (write-Chain_other i js _ hk ho e ch.2))

  pub write-Chain-Absent :
      (js : List ℕ) (head : ℕ)
      → k < prewarm_count c
      → o < bucket_size c
      → Absent k js
      → Chain h r c js head
      → Chain stored r c js head
  write-Chain-Absent [] head hk ho a ch = ch
  write-Chain-Absent (j ∷ js) head hk ho a ch = (
    ch.0,
    ch.1,
    rw (write_else c j hk ch.1 ho (inr (λ e. a.0 (sym e))))
        (write-Chain-Absent js _ hk ho a.1 ch.2),
  )

-- Distinct numbers below `n` are at most `n`.
without : ℕ → List ℕ → List ℕ
without k [] = []
without k (j ∷ js) = if j == k then js else j ∷ without k js

abbrev pub AllLt : ℕ → List ℕ → Type 0
AllLt n [] = Unit {0}
AllLt n (j ∷ js) = (j < n) × AllLt n js

without-Absent : (k m : ℕ) (js : List ℕ) → Absent m js → Absent m (without k js)
unfolding without
without-Absent k m [] a = tt
without-Absent k m (j ∷ js) a = elim (Bool-cases (j == k)) [
  | inl e ↦ rw e a.1
  | inr e ↦ rw e (a.0, without-Absent k m js a.1)
]

without-NoDup : (k : ℕ) (js : List ℕ) → NoDup js → NoDup (without k js)
unfolding without
without-NoDup k [] d = tt
without-NoDup k (j ∷ js) d = elim (Bool-cases (j == k)) [
  | inl e ↦ rw e d.1
  | inr e ↦ rw e (without-Absent k j js d.0, without-NoDup k js d.1)
]

-- Numbers up to `n` that are not `n`.
Absent-AllLt : (n : ℕ) (js : List ℕ) → Absent n js → AllLt (suc n) js → AllLt n js
Absent-AllLt n [] a h = tt
Absent-AllLt n (j ∷ js) a h = (ground (arith, a.0, h.0), Absent-AllLt n js a.1 h.1)

is_eq : (j n : ℕ) → (j == n) ≡ true → j ≡ n
is_eq j n e = ground arith

without-AllLt : (n : ℕ) (js : List ℕ) → NoDup js → AllLt (suc n) js → AllLt n (without n js)
unfolding without
without-AllLt n [] d h = tt
without-AllLt n (j ∷ js) d h = elim (Bool-cases (j == n)) [
  | inl e ↦ rw e (Absent-AllLt n js (rw (← is_eq j n e) d.0) h.1)
  | inr e ↦ rw e (ground (arith, h.0), without-AllLt n js d.1 h.1)
]

length-without : (k : ℕ) (js : List ℕ) → length js ≤ suc (length (without k js))
unfolding without
length-without k [] = omega arith
length-without k (j ∷ js) = ground (arith, length-without k js)

pub NoDup-bound : (n : ℕ) (js : List ℕ) → NoDup js → AllLt n js → length js ≤ n
NoDup-bound zero [] d h = omega arith
NoDup-bound zero (j ∷ js) d h = absurd (omega (arith, h.0))
NoDup-bound (suc n) js d h = omega (
  arith,
  length-without n js,
  NoDup-bound n (without n js) (without-NoDup n js d) (without-AllLt n js d h),
)

pub Chain-AllLt :
    (h : Heap) (r : ℕ) (i : BucketIndex) (js : List ℕ) (head : ℕ)
    → Chain h r i js head
    → AllLt (prewarm_count i) js
Chain-AllLt h r i [] head ch = tt
Chain-AllLt h r i (j ∷ js) head ch = (ch.1, Chain-AllLt h r i js _ ch.2)
