-- ===== src/Bench/Corpus/Lines.antt =====
-- client-bench/src/corpus.cpp: the lines that build makes, and what it counts of them.
use io_uring_net_engine.Prelude.{
  ℕ, zero, suc, ◌+◌, ◌-◌, ◌≤◌, ◌≡◌, refl, arith, List, [], ◌∷◌, ◌++◌, length, length-append, min,
  if◌then◌else◌, Bool-cases, inl, inr,
}
use Prim.Native.Nat.{max}
use io_uring_net_engine.Prelude.Word.{u64_mod}
use io_uring_net_engine.Epoll.State.{Bytes}
use io_uring_net_engine.Bench.Corpus.{
  Corpus, Tables, new_lcg, draw, truncate, add_line, build_loop, no_lines, build,
}
use io_uring_net_engine.Bench.Corpus.Cutting.{truncate_fits}

abbrev pub total_length : List Bytes → ℕ
total_length [] = 0
total_length (l ∷ ls) = length l + total_length ls

-- Every line is this long at least and at most.
abbrev pub Between : ℕ → ℕ → List Bytes → Type 0
Between low high [] = Unit {0}
Between low high (l ∷ ls) = ((low ≤ length l) × (length l ≤ high)) × Between low high ls

total-append :
    (ls : List Bytes) (l : Bytes) → total_length (ls ++ (l ∷ [])) ≡ total_length ls + length l
total-append [] l = omega arith
total-append (x ∷ xs) l = omega (arith, total-append xs l)

widened :
    (ls : List Bytes) (l : Bytes) (low high : ℕ)
    → Between low high ls
    → Between (min low (length l)) (max high (length l)) (ls ++ (l ∷ []))
widened [] l low high b = ((omega arith, omega arith), tt)
widened (x ∷ xs) l low high b =
    ((omega (arith, b.0.0), omega (arith, b.0.1)), widened xs l low high b.1)

pub record Measured (max_bytes : ℕ) (c : Corpus) : Type 0 where
  pub total : c.total ≡ total_length c.lines
  pub between : Between c.min_bytes c.max_bytes c.lines
  pub budget : c.max_bytes ≤ max_bytes

add_line-Measured :
    (max_bytes : ℕ) (c : Corpus) (l : Bytes)
    → Measured max_bytes c
    → length l ≤ max_bytes
    → Measured max_bytes (add_line c l)
unfolding add_line
add_line-Measured max_bytes c l m h = record {
  total = omega (arith, m.total, total-append c.lines l);
  between = widened c.lines l c.min_bytes c.max_bytes m.between;
  budget = omega (arith, m.budget, h);
}

module _ (t : Tables) (max_bytes : ℕ) where
  build_loop-Measured :
      (entries s : ℕ) (c : Corpus)
      → Measured max_bytes c
      → Measured max_bytes (build_loop t max_bytes entries s c)
        × (length (build_loop t max_bytes entries s c).lines ≡ length c.lines + entries)
  unfolding build_loop add_line
  build_loop-Measured zero s c m = (m, omega arith)
  build_loop-Measured (suc entries) s c m =
      let line = truncate max_bytes (draw t s).0 in
      let rest =
        build_loop-Measured entries (draw t s).1 (add_line c line)
          (add_line-Measured max_bytes c line m (truncate_fits max_bytes (draw t s).0)) in
      (rest.0, omega (arith, rest.1, length-append c.lines (line ∷ [])))

  -- build makes as many lines as it is asked for, whatever the seed and the tables; the total is the
  -- sum of their lengths, each is as long as the minimum and the maximum say, and none is longer than
  -- the budget.
  pub build-Measured :
      (seed entries : ℕ) (c : Corpus)
      → Measured max_bytes (build t max_bytes seed entries c)
        × (length (build t max_bytes seed entries c).lines ≡ entries)
  unfolding build
  build-Measured seed entries c =
      go
        (build_loop t max_bytes entries (new_lcg seed)
          (record c { lines = []; total = 0; min_bytes = u64_mod - 1; max_bytes = 0 }))
        (built.0) (omega (arith, built.1))
    where
      built :
          Measured max_bytes (
            build_loop t max_bytes entries
              (new_lcg seed)
              (record c { lines = []; total = 0; min_bytes = u64_mod - 1; max_bytes = 0 }))
          × (length
                (build_loop t max_bytes entries (new_lcg seed) (record c {
                  lines = [];
                  total = 0;
                  min_bytes = u64_mod - 1;
                  max_bytes = 0;
                })).lines
              ≡ 0 + entries)
      built =
          build_loop-Measured entries (new_lcg seed)
            (record c { lines = []; total = 0; min_bytes = u64_mod - 1; max_bytes = 0 })
            record { total = refl; between = tt; budget = omega arith }

      go :
          (b : Corpus)
          → Measured max_bytes b
          → length b.lines ≡ entries
          → Measured max_bytes (if no_lines b.lines then record b { min_bytes = 0 } else b)
            × (length (if no_lines b.lines then record b { min_bytes = 0 } else b).lines ≡ entries)
      go b m n = elim (Bool-cases (no_lines b.lines)) [
        | inl e ↦
            rw e (
              record { total = m.total; between = lowered b.lines m.between; budget = m.budget },
              n,
            )
        | inr e ↦ rw e (m, n)
      ]
        where
          lowered :
              (ls : List Bytes) → Between b.min_bytes b.max_bytes ls → Between 0 b.max_bytes ls
          lowered [] x = tt
          lowered (l ∷ ls) x = ((omega arith, x.0.1), lowered ls x.1)
