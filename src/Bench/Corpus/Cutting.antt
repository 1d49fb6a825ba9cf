-- ===== src/Bench/Corpus/Cutting.antt =====
-- client-bench/src/corpus.cpp: a line is cut where a character ends.
use io_uring_net_engine.Prelude.{
  ℕ, zero, suc, ◌≤◌, ◌<◌, ◌≡◌, ◌⊎◌, refl, sym, subst, arith, true, false, length, length-take, take,
  get_or, ltb, ◌==◌, Bool-cases, inl, inr,
}
use io_uring_net_engine.Epoll.State.{Bytes}
use io_uring_net_engine.Bench.Corpus.{is_continuation, cut_back, truncate}

-- A front of the text that fits, and the next byte starts a character. No longer front within the
-- budget does.
pub record Cut (max_bytes : ℕ) (s line : Bytes) : Type 0 where
  pub cut : ℕ
  pub front : line ≡ take cut s
  pub fits : cut ≤ max_bytes
  pub whole : (cut ≡ 0) ⊎ (is_continuation (get_or s cut 0) ≡ false)
  pub longest : (n : ℕ) → cut < n → n ≤ max_bytes → is_continuation (get_or s n 0) ≡ true

cut_back-Cut : (max_bytes : ℕ) (s : Bytes) → Cut max_bytes s (take (cut_back max_bytes s) s)
unfolding cut_back
cut_back-Cut zero s = record {
  cut = 0;
  front = refl;
  fits = omega arith;
  whole = inl refl;
  longest = λ n a b. absurd (omega (arith, a, b));
}
cut_back-Cut (suc m) s = elim (Bool-cases (is_continuation (get_or s (suc m) 0))) [
  | inl e ↦
      let c = cut_back-Cut m s in
      rw (e, cut_back)
        record {
          cut = c.cut;
          front = c.front;
          fits = omega (arith, c.fits);
          whole = c.whole;
          longest = λ n a b. last c.longest e n a b;
        }
  | inr e ↦
      rw (e, cut_back)
        record {
          cut = suc m;
          front = refl;
          fits = omega arith;
          whole = inr e;
          longest = λ n a b. absurd (omega (arith, a, b));
        }
]
  where
    last :
        {cut : ℕ}
        → ((n : ℕ) → cut < n → n ≤ m → is_continuation (get_or s n 0) ≡ true)
        → is_continuation (get_or s (suc m) 0) ≡ true
        → (n : ℕ) → cut < n
        → n ≤ suc m
        → is_continuation (get_or s n 0) ≡ true
    last h e n a b = elim (Bool-cases (n == suc m)) [
      | inl same ↦ subst (λ k. is_continuation (get_or s k 0) ≡ true) (ground (arith, same)) e
      | inr other ↦ h n a (ground (arith, other, b))
    ]

-- A text beyond the budget is cut to the longest front that fits and ends where a character does; any
-- other stays whole.
pub truncate-Cut :
    (max_bytes : ℕ) (s : Bytes)
    → (Cut max_bytes s (truncate max_bytes s) × (max_bytes < length s))
      ⊎ ((truncate max_bytes s ≡ s) × (length s ≤ max_bytes))
unfolding truncate
truncate-Cut max_bytes s = elim (Bool-cases (ltb max_bytes (length s))) [
  | inl e ↦ rw (e, truncate) (inl (cut_back-Cut max_bytes s, ground (arith, e)))
  | inr e ↦ rw (e, truncate) (inr (refl, ground (arith, e)))
]

pub truncate_fits : (max_bytes : ℕ) (s : Bytes) → length (truncate max_bytes s) ≤ max_bytes
truncate_fits max_bytes s = go (truncate-Cut max_bytes s)
  where
    go :
        (Cut max_bytes s (truncate max_bytes s) × (max_bytes < length s))
          ⊎ ((truncate max_bytes s ≡ s) × (length s ≤ max_bytes))
        → length (truncate max_bytes s) ≤ max_bytes
    go (inl (c, long)) =
        subst (λ l. length l ≤ max_bytes) (sym c.front) (omega (arith, length-take c.cut s, c.fits))
    go (inr (same, short)) = subst (λ l. length l ≤ max_bytes) (sym same) short
