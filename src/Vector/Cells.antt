-- ===== src/Vector/Cells.antt =====
-- The first elements of storage that has been copied, written to, or moved by one.
use io_uring_net_engine.Prelude.{
  ℕ, zero, suc, ◌+◌, ◌-◌, ◌≤◌, ◌<◌, ◌≡◌, refl, ap, arith, List, [], ◌∷◌, ◌++◌, length, length-set,
  length-take, length-drop, length-append, set, get_or, take, drop,
}
use io_uring_net_engine.Prelude.Memory.{
  copy, length-copy, eq_of_get_or, get_or-set, get_or-copy, get_or-take, get_or-drop, get_or-append,
}
use io_uring_net_engine.Vector.{shift_down, shift_up}
use io_uring_net_engine.Vector.Shift.{
  length-shift_down, length-shift_up, get_or-shift_down, get_or-shift_up,
}

module _ {A : Type 0} (d : A) where
  pub take-copy :
      (fresh xs : List A) (n : ℕ)
      → n ≤ length xs
      → n ≤ length fresh
      → take n (copy fresh 0 (take n xs)) ≡ take n xs
  take-copy fresh xs n h l =
      eq_of_get_or (take n (copy fresh 0 (take n xs))) (take n xs) d
        (omega (
          arith,
          length-take n (copy fresh 0 (take n xs)),
          length-copy fresh 0 (take n xs),
          length-take n xs,
        ))
        (λ i j. ground (
          arith,
          get_or-take d n (copy fresh 0 (take n xs)) i,
          get_or-copy d fresh 0 (take n xs) i,
          get_or-take d n xs i,
          length-take n xs,
        ))

  pub take-set :
      (xs : List A) (n : ℕ) (x : A)
      → n < length xs
      → take (suc n) (set xs n x) ≡ take n xs ++ x ∷ []
  take-set [] n x h = absurd (omega arith)
  take-set (y ∷ ys) zero x h = refl
  take-set (y ∷ ys) (suc n) x h = ap (λ l. y ∷ l) (take-set ys n x (omega arith))

  -- The elements without the one at `index`.
  pub take-shift_down :
      (xs : List A) (index size : ℕ)
      → index < size
      → size ≤ length xs
      → take (size - 1) (shift_down d xs index (size - 1 - index))
        ≡ take index (take size xs) ++ drop (index + 1) (take size xs)
  take-shift_down xs index size h l =
      eq_of_get_or (take (size - 1) (shift_down d xs index (size - 1 - index)))
        (take index (take size xs) ++ drop (index + 1) (take size xs)) d
        (omega (
          arith,
          length-take (size - 1) (shift_down d xs index (size - 1 - index)),
          length-shift_down d xs index (size - 1 - index),
          length-append (take index (take size xs)) (drop (index + 1) (take size xs)),
          length-take index (take size xs),
          length-drop (index + 1) (take size xs),
          length-take size xs,
        ))
        (λ i j. ground (
          arith,
          get_or-take d (size - 1) (shift_down d xs index (size - 1 - index)) i,
          get_or-shift_down d xs index (size - 1 - index) i,
          get_or-append d (take index (take size xs)) (drop (index + 1) (take size xs)) i,
          length-take index (take size xs),
          length-take size xs,
          length-shift_down d xs index (size - 1 - index),
          length-take (size - 1) (shift_down d xs index (size - 1 - index)),
          get_or-take d index (take size xs) i,
          get_or-take d size xs i,
          get_or-drop d (index + 1) (take size xs) (i - index),
          get_or-take d size xs (index + 1 + (i - index)),
          shift i,
        ))
    where
      shift : (i : ℕ) → index ≤ i → index + 1 + (i - index) ≡ i + 1
      shift i le = omega arith

  get_or-cons : (x : A) (ys : List A) (k : ℕ) → 1 ≤ k → get_or (x ∷ ys) k d ≡ get_or ys (k - 1) d
  get_or-cons x ys zero h = absurd (omega arith)
  get_or-cons x ys (suc k) h = ap (λ i. get_or ys i d) (omega arith)

  get_or-cons_zero : (x : A) (ys : List A) (k : ℕ) → k ≡ 0 → get_or (x ∷ ys) k d ≡ x
  get_or-cons_zero x ys zero h = refl
  get_or-cons_zero x ys (suc k) h = absurd (omega (arith, h))

  -- The elements with `x` put in at `index`.
  pub take-shift_up :
      (xs : List A) (index size : ℕ) (x : A)
      → index ≤ size
      → size < length xs
      → take (size + 1) (set (shift_up d xs index (size - index)) index x)
        ≡ take index (take size xs) ++ x ∷ drop index (take size xs)
  take-shift_up xs index size x h l =
      eq_of_get_or (take (size + 1) (set (shift_up d xs index (size - index)) index x))
        (take index (take size xs) ++ x ∷ drop index (take size xs)) d
        (omega (
          arith,
          length-take (size + 1) (set (shift_up d xs index (size - index)) index x),
          length-set (shift_up d xs index (size - index)) index x,
          length-shift_up d xs index (size - index),
          length-append (take index (take size xs)) (x ∷ drop index (take size xs)),
          length-take index (take size xs),
          length-drop index (take size xs),
          length-take size xs,
        ))
        (λ i j. ground (
          arith,
          get_or-take d (size + 1) (set (shift_up d xs index (size - index)) index x) i,
          get_or-set d (shift_up d xs index (size - index)) index i x,
          get_or-shift_up d xs index (size - index) i,
          length-shift_up d xs index (size - index),
          length-take (size + 1) (set (shift_up d xs index (size - index)) index x),
          get_or-append d (take index (take size xs)) (x ∷ drop index (take size xs)) i,
          length-take index (take size xs),
          length-take size xs,
          get_or-take d index (take size xs) i,
          get_or-take d size xs i,
          get_or-cons x (drop index (take size xs)) (i - index),
          get_or-cons_zero x (drop index (take size xs)) (i - index),
          get_or-drop d index (take size xs) (i - index - 1),
          get_or-take d size xs (index + (i - index - 1)),
          shift i,
        ))
    where
      shift : (i : ℕ) → index < i → index + (i - index - 1) ≡ i - 1
      shift i le = omega arith
