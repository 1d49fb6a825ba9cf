-- ===== src/Bench/Connect/Counts.antt =====
-- client-bench/src/connect.cpp: how often an fd stands in a list, and the sum of the reasons.
use io_uring_net_engine.Prelude.{
  ℕ, ◌+◌, ◌≤◌, ◌≡◌, refl, ap, arith, Bool, true, false, List, [], ◌∷◌, ◌++◌, length, ◌==◌,
  Bool-cases, inl, inr,
}
use io_uring_net_engine.Bench.Connect.{bump, pop_back, erase_first}

abbrev pub one_if : Bool → ℕ
one_if true = 1
one_if false = 0

abbrev pub occurrences : ℕ → List ℕ → ℕ
occurrences fd [] = 0
occurrences fd (x ∷ xs) = one_if (x == fd) + occurrences fd xs

abbrev pub total : List (ℕ × ℕ) → ℕ
total [] = 0
total (r ∷ rs) = r.1 + total rs

pub total-bump : (err : ℕ) (rs : List (ℕ × ℕ)) → total (bump err rs) ≡ total rs + 1
total-bump err [] = refl
total-bump err (r ∷ rs) = elim (Bool-cases (r.0 == err)) [
  | inl e ↦ rw e (omega arith)
  | inr e ↦ rw e (omega (arith, total-bump err rs))
]

pub pop_back-append : (xs : List ℕ) (x : ℕ) → pop_back (xs ++ (x ∷ [])) ≡ xs
pop_back-append [] x = refl
pop_back-append (a ∷ []) x = refl
pop_back-append (a ∷ (b ∷ ys)) x = ap (λ t. a ∷ t) (pop_back-append (b ∷ ys) x)

pub occurrences-append :
    (fd x : ℕ) (xs : List ℕ)
    → occurrences fd (xs ++ (x ∷ [])) ≡ occurrences fd xs + one_if (x == fd)
occurrences-append fd x [] = omega arith
occurrences-append fd x (y ∷ ys) = omega (arith, occurrences-append fd x ys)

self : (x : ℕ) → (x == x) ≡ true
self x = ground arith

elsewhere : (b : Bool) (n : ℕ) → b ≡ false → 1 ≤ one_if b + n → 1 ≤ n
elsewhere true n e h = absurd (ground (arith, e))
elsewhere false n e h = omega (arith, h)

-- For an fd that stands in the list.
pub occurrences-erase_first :
    (fd x : ℕ) (xs : List ℕ)
    → 1 ≤ occurrences x xs
    → occurrences fd (erase_first xs x) + one_if (x == fd) ≡ occurrences fd xs
occurrences-erase_first fd x [] h = elim h [ ]
occurrences-erase_first fd x (y ∷ ys) h = elim (Bool-cases (y == x)) [
  | inl e ↦ rw e (rw (same y x e) (omega arith))
  | inr e ↦
      rw e
        (omega (arith, occurrences-erase_first fd x ys (elsewhere (y == x) (occurrences x ys) e h)))
]
  where
    same : (a b : ℕ) → (a == b) ≡ true → a ≡ b
    same a b e = ground arith

pub length-erase_first :
    (x : ℕ) (xs : List ℕ) → 1 ≤ occurrences x xs → length (erase_first xs x) + 1 ≡ length xs
length-erase_first x [] h = elim h [ ]
length-erase_first x (y ∷ ys) h = elim (Bool-cases (y == x)) [
  | inl e ↦ rw e (omega arith)
  | inr e ↦
      rw e (omega (arith, length-erase_first x ys (elsewhere (y == x) (occurrences x ys) e h)))
]
