-- ===== src/Prelude/Memory.antt =====
-- Memory as a list of cells: the copy of a run of cells into it (memcpy), the run that is read back,
-- and what a read at an index finds after each.
use Prim.Native.Nat.{ℕ, zero, suc, ◌+◌, ◌-◌, ◌≤◌, ◌<◌}
use mathlib.Core.Path.{◌≡◌, refl, ap, ap₂}
use mathlib.Core.Bool.{◌&&◌}
use mathlib.Core.List.{List, [], ◌∷◌, ◌++◌}
use native.Mathlib.Omega.{arith}
use io_uring_net_engine.Prelude.Tests.{ltb, leb, if◌then◌else◌}
use io_uring_net_engine.Prelude.Lists.{
  length, get_or, set, take, drop, length-set, length-take, length-drop,
}

module _ {A : Type 0} where
  -- Write the run `src` from index `off` on. A cell out of bounds is not written.
  unfoldable pub copy : List A → ℕ → List A → List A
  copy cells off [] = cells
  copy cells off (x ∷ xs) = copy (set cells off x) (suc off) xs

  -- The `n` cells from index `off` on.
  abbrev pub slice : List A → ℕ → ℕ → List A
  slice cells off n = take n (drop off cells)

  pub length-copy :
      (cells : List A) (off : ℕ) (src : List A) → length (copy cells off src) ≡ length cells
  unfolding copy
  length-copy cells off [] = refl
  length-copy cells off (x ∷ xs) =
      omega (arith, length-copy (set cells off x) (suc off) xs, length-set cells off x)

  pub length-slice :
      (cells : List A) (off n : ℕ) → off + n ≤ length cells → length (slice cells off n) ≡ n
  length-slice cells off n h = omega (arith, length-take n (drop off cells), length-drop off cells)

  -- Two lists with the same length and the same reads are equal.
  pub eq_of_get_or :
      (xs ys : List A) (d : A)
      → length xs ≡ length ys
      → ((i : ℕ) → i < length xs → get_or xs i d ≡ get_or ys i d)
      → xs ≡ ys
  eq_of_get_or [] [] d h e = refl
  eq_of_get_or [] (y ∷ ys) d h e = absurd (omega arith)
  eq_of_get_or (x ∷ xs) [] d h e = absurd (omega arith)
  eq_of_get_or (x ∷ xs) (y ∷ ys) d h e =
      ap₂ ◌∷◌ (e 0 (omega arith))
        (eq_of_get_or xs ys d (omega arith) λ i l. e (suc i) (omega arith))

  module _ (d : A) where
    pub get_or-set :
        (cells : List A) (i j : ℕ) (v : A)
        → i < length cells
        → get_or (set cells i v) j d ≡ (if leb i j && leb j i then v else get_or cells j d)
    get_or-set [] i j v h = absurd (omega arith)
    get_or-set (x ∷ xs) zero zero v h = refl
    get_or-set (x ∷ xs) zero (suc j) v h = ground arith
    get_or-set (x ∷ xs) (suc i) zero v h = ground arith
    get_or-set (x ∷ xs) (suc i) (suc j) v h = ground (arith, get_or-set xs i j v (omega arith))

    get_or-cons :
        (x : A) (xs : List A) (i : ℕ)
        → get_or (x ∷ xs) i d ≡ (if leb i 0 then x else get_or xs (i - 1) d)
    get_or-cons x xs zero = ground arith
    get_or-cons x xs (suc i) = ground arith

    pub get_or-copy :
        (cells : List A) (off : ℕ) (src : List A) (j : ℕ)
        → off + length src ≤ length cells
        → get_or (copy cells off src) j d ≡ (
            if leb off j && ltb j (off + length src)
            then get_or src (j - off) d
            else get_or cells j d)
    unfolding copy
    get_or-copy cells off [] j h = ground arith
    get_or-copy cells off (x ∷ xs) j h = ground (
      arith,
      get_or-copy (set cells off x) (suc off) xs j,
      length-set cells off x,
      get_or-set cells off j x,
      get_or-cons x xs (j - off),
    )

    pub get_or-take :
        (n : ℕ) (xs : List A) (i : ℕ)
        → get_or (take n xs) i d ≡ (if ltb i n then get_or xs i d else d)
    get_or-take zero xs i = ground arith
    get_or-take (suc n) [] i = ground arith
    get_or-take (suc n) (x ∷ xs) zero = ground arith
    get_or-take (suc n) (x ∷ xs) (suc i) = ground (arith, get_or-take n xs i)

    pub get_or-drop : (n : ℕ) (xs : List A) (i : ℕ) → get_or (drop n xs) i d ≡ get_or xs (n + i) d
    get_or-drop zero xs i = ap (λ k. get_or xs k d) (omega arith)
    get_or-drop (suc n) [] i = refl
    get_or-drop (suc n) (x ∷ xs) i = ground (arith, get_or-drop n xs i)

    pub get_or-append :
        (xs ys : List A) (i : ℕ)
        → get_or (xs ++ ys) i d
          ≡ (if ltb i (length xs) then get_or xs i d else get_or ys (i - length xs) d)
    get_or-append [] ys i = ground arith
    get_or-append (x ∷ xs) ys zero = ground arith
    get_or-append (x ∷ xs) ys (suc i) = ground (arith, get_or-append xs ys i)
