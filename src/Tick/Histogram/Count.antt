-- ===== src/Tick/Histogram/Count.antt =====
-- server-epoll/tick_logic.h, `hist`: every sample is counted once, and what a percentile is.
use io_uring_net_engine.Prelude.{
  ℕ, zero, suc, ◌+◌, ◌*◌, ◌/◌, ◌%◌, ◌≤◌, ◌<◌, ◌≡◌, ◌⊎◌, refl, ap, ◌∙◌, arith, Bool, true, false,
  List, [], ◌∷◌, length, length-set, take, get_or, set, replicate, length-replicate, leb, ◌==◌,
  Bool-cases, inl, inr,
}
use io_uring_net_engine.Prelude.Word.{u32_mod}
use io_uring_net_engine.Tick.Histogram.{Hist, bucket_ns, buckets, new_hist, add, pct, pct_from}

abbrev pub sum : List ℕ → ℕ
sum [] = 0
sum (n ∷ ns) = n + sum ns

pub record Counted (h : Hist) : Type 0 where
  pub sized : length h.counts ≡ buckets
  pub complete : h.total ≡ sum h.counts + h.overflow

sum-set :
    (ns : List ℕ) (i : ℕ)
    → i < length ns
    → sum ns + 1 < u32_mod
    → sum (set ns i ((get_or ns i 0 + 1) % u32_mod)) ≡ sum ns + 1
sum-set [] i h few = elim h [ ]
sum-set (n ∷ ns) zero h few = omega (arith, few)
sum-set (n ∷ ns) (suc i) h few = omega (arith, sum-set ns i (omega (arith, h)) (omega (arith, few)))

sum-replicate : (n : ℕ) → sum (replicate n 0) ≡ 0
sum-replicate zero = refl
sum-replicate (suc n) = omega (arith, sum-replicate n)

pub new_hist-Counted : Counted new_hist
unfolding new_hist
new_hist-Counted = record {
  sized = length-replicate buckets 0;
  complete = omega (arith, sum-replicate buckets);
}

-- A histogram whose total is the sum of its buckets and of the samples beyond them stays one when a
-- sample is added, wherever the sample falls, and its total grows by one, as long as there are fewer
-- samples than a bucket can count.
pub add-Counted :
    (h : Hist) (ns : ℕ)
    → Counted h
    → h.total + 1 < u32_mod
    → Counted (add h ns) × ((add h ns).total ≡ h.total + 1)
unfolding add
add-Counted h ns v few = elim (Bool-cases (leb buckets (ns / bucket_ns))) [
  | inl e ↦ rw e (record { sized = v.sized; complete = omega (arith, v.complete) }, refl)
  | inr e ↦ rw e (
    record {
      sized = length-set h.counts (ns / bucket_ns) _ ∙ v.sized;
      complete = omega (
        arith,
        v.complete,
        sum-set h.counts (ns / bucket_ns) (ground (arith, e, v.sized))
            (omega (arith, few, v.complete)),
      );
    },
    refl,
  )
]

-- The bucket where the count of samples first reaches `want`, or none.
abbrev pub Reaches : ℕ → List ℕ → ℕ → ℕ → ℕ × Bool → Type 0
Reaches want ns b seen r =
    ((k : ℕ) × ((r ≡ ((b + k) * bucket_ns, false))
        × ((seen + sum (take k ns) < want) × (want ≤ seen + sum (take (suc k) ns)))))
    ⊎ ((r.1 ≡ true) × (seen + sum ns < want))

pct_from-Reaches :
    (want : ℕ) (ns : List ℕ) (b seen : ℕ)
    → seen < want
    → Reaches want ns b seen (pct_from want ns b seen)
unfolding pct_from
pct_from-Reaches want [] b seen h = inr (refl, omega (arith, h))
pct_from-Reaches want (n ∷ ns) b seen h = elim (Bool-cases (leb want (seen + n))) [
  | inl e ↦ rw e (inl (0, (refl_at, (omega (arith, h), ground (arith, e)))))
  | inr e ↦ rw e (later (pct_from-Reaches want ns (b + 1) (seen + n) (ground (arith, e))))
]
  where
    answer : ℕ → ℕ × Bool
    answer x = (x * bucket_ns, false)

    refl_at : answer b ≡ answer (b + 0)
    refl_at = ap answer (omega arith)

    later : {r : ℕ × Bool} → Reaches want ns (b + 1) (seen + n) r → Reaches want (n ∷ ns) b seen r
    later (inl (k, (is, (before, upto)))) =
        inl (suc k, (is ∙ ap answer (omega arith), (omega (arith, before), omega (arith, upto))))
    later (inr (past, few)) = inr (past, omega (arith, few))

-- For a histogram with samples and a wanted count of at least one, pct answers the start of the first
-- bucket up to which that many samples have been counted; it says that the time is beyond the range
-- exactly when the buckets together hold fewer.
pub pct-Reaches :
    (h : Hist) (want : ℕ) → 0 < want → 0 < h.total → Reaches want h.counts 0 0 (pct h want)
unfolding pct
pct-Reaches h want some_wanted some_there =
    rw no_zero (pct_from-Reaches want h.counts 0 0 some_wanted)
  where
    no_zero : (h.total == 0) ≡ false
    no_zero = ground (arith, some_there)
