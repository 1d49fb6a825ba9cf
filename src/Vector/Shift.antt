-- ===== src/Vector/Shift.antt =====
-- What the loops of erase and insert leave at each index.
use io_uring_net_engine.Prelude.{
  ℕ, zero, suc, ◌+◌, ◌-◌, ◌<◌, ◌≡◌, refl, arith, List, length, length-set, set, get_or, ltb, leb,
  ◌&&◌, if◌then◌else◌,
}
use io_uring_net_engine.Prelude.Memory.{get_or-set}
use io_uring_net_engine.Vector.{shift_down, shift_up}

module _ {A : Type 0} (d : A) where
  pub length-shift_down :
      (cells : List A) (i n : ℕ) → length (shift_down d cells i n) ≡ length cells
  unfolding shift_down
  length-shift_down cells i zero = refl
  length-shift_down cells i (suc n) = omega (
    arith,
    length-shift_down (set cells i (get_or cells (i + 1) d)) (i + 1) n,
    length-set cells i (get_or cells (i + 1) d),
  )

  pub length-shift_up : (cells : List A) (i n : ℕ) → length (shift_up d cells i n) ≡ length cells
  unfolding shift_up
  length-shift_up cells i zero = refl
  length-shift_up cells i (suc n) = omega (
    arith,
    length-shift_up (set cells (i + n + 1) (get_or cells (i + n) d)) i n,
    length-set cells (i + n + 1) (get_or cells (i + n) d),
  )

  pub get_or-shift_down :
      (cells : List A) (i n j : ℕ)
      → i + n < length cells
      → get_or (shift_down d cells i n) j d
        ≡ (if leb i j && ltb j (i + n) then get_or cells (j + 1) d else get_or cells j d)
  unfolding shift_down
  get_or-shift_down cells i zero j h = ground arith
  get_or-shift_down cells i (suc n) j h = ground (
    arith,
    get_or-shift_down (set cells i (get_or cells (i + 1) d)) (i + 1) n j,
    length-set cells i (get_or cells (i + 1) d),
    get_or-set d cells i j (get_or cells (i + 1) d),
    get_or-set d cells i (j + 1) (get_or cells (i + 1) d),
  )

  pub get_or-shift_up :
      (cells : List A) (i n j : ℕ)
      → i + n < length cells
      → get_or (shift_up d cells i n) j d
        ≡ (if ltb i j && leb j (i + n) then get_or cells (j - 1) d else get_or cells j d)
  unfolding shift_up
  get_or-shift_up cells i zero j h = ground arith
  get_or-shift_up cells i (suc n) j h = ground (
    arith,
    get_or-shift_up (set cells (i + n + 1) (get_or cells (i + n) d)) i n j,
    length-set cells (i + n + 1) (get_or cells (i + n) d),
    get_or-set d cells (i + n + 1) j (get_or cells (i + n) d),
    get_or-set d cells (i + n + 1) (j - 1) (get_or cells (i + n) d),
  )
