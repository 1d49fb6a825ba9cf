-- ===== src/Vector.antt =====
-- engine-uring/src/sds/malloc_vector.h: a growing array of trivially copyable elements. An iterator is
-- its index, and end() is the size. What malloc returns is a parameter of each call that may grow:
-- `none` for null, or the new storage, with whatever it holds. An element read past the storage is `d`.
-- A value is taken as it is before the call. Sizes are numbers: 2 * capacity is not near 2^64.
pub mod Shift
pub mod Cells
pub mod Refine
mod Tests
use io_uring_net_engine.Prelude.{
  ℕ, zero, suc, ◌+◌, ◌-◌, ◌*◌, Bool, true, false, Option, none, some, List, [], ◌∷◌, set, get_or,
  take, ltb, leb, ◌==◌, if◌then◌else◌,
}
use io_uring_net_engine.Prelude.Memory.{copy}

pub record MallocVector (A : Type 0) : Type 0 where
  pub storage : List A
  pub size : ℕ
  pub capacity : ℕ

abbrev pub grown : ℕ → ℕ
grown capacity = if ltb 0 capacity then capacity * 2 else 4

module _ {A : Type 0} where
  -- The elements.
  abbrev pub contents : MallocVector A → List A
  contents v = take v.size v.storage

  unfoldable pub reserve : MallocVector A → ℕ → Option (List A) → MallocVector A
  reserve v capacity none = v
  reserve v capacity (some new_data) =
      if leb capacity v.capacity
      then v
      else record v { storage = copy new_data 0 (take v.size v.storage); capacity = capacity }

  unfoldable pub resize : MallocVector A → ℕ → Option (List A) → MallocVector A
  resize v size m =
      let v' = if ltb v.capacity size then reserve v size m else v in
      if leb size v'.capacity then record v' { size = size } else v'

  -- The start of push_back and insert.
  unfoldable pub make_room : MallocVector A → Option (List A) → MallocVector A
  make_room v m = if leb v.capacity v.size then reserve v (grown v.capacity) m else v

  unfoldable pub push_back : MallocVector A → A → Option (List A) → MallocVector A
  push_back v value m =
      let v' = make_room v m in
      if ltb v'.size v'.capacity
      then record v' { storage = set v'.storage v'.size value; size = v'.size + 1 }
      else v'

  unfoldable pub pop_back : MallocVector A → MallocVector A
  pop_back v = if ltb 0 v.size then record v { size = v.size - 1 } else v

  unfoldable pub clear : MallocVector A → MallocVector A
  clear v = record v { size = 0 }

  module _ (d : A) where
    -- erase's loop, from index `i` for `n` turns.
    unfoldable pub shift_down : List A → ℕ → ℕ → List A
    shift_down cells i zero = cells
    shift_down cells i (suc n) = shift_down (set cells i (get_or cells (i + 1) d)) (i + 1) n

    -- insert's loop, from `index + n` down to `index + 1`.
    unfoldable pub shift_up : List A → ℕ → ℕ → List A
    shift_up cells index zero = cells
    shift_up cells index (suc n) =
        shift_up (set cells (index + n + 1) (get_or cells (index + n) d)) index n

    unfoldable pub erase : MallocVector A → ℕ → ℕ × MallocVector A
    erase v index = if leb v.size index then (v.size, v) else (
      index,
      record v { storage = shift_down v.storage index (v.size - 1 - index); size = v.size - 1 },
    )

    unfoldable pub insert : MallocVector A → ℕ → A → Option (List A) → ℕ × MallocVector A
    insert v index value m =
        if ltb v.size index
        then (v.size, v)
        else (let v' = make_room v m in
            if leb v'.capacity v'.size then (v'.size, v') else (
              index,
              record v' {
                storage = set (shift_up v'.storage index (v'.size - index)) index value;
                size = v'.size + 1;
              },
            ))
