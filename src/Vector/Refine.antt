-- ===== src/Vector/Refine.antt =====
-- The vector against the list of its elements.
use io_uring_net_engine.Prelude.{
  ℕ, suc, ◌+◌, ◌-◌, ◌≤◌, ◌<◌, ◌≡◌, ◌⊎◌, inl, inr, refl, sym, subst, ◌∙◌, ap, arith, true, false,
  Option, none, some, List, [], ◌∷◌, ◌++◌, length, length-set, set, take, drop, ltb, leb,
  Bool-cases,
}
use io_uring_net_engine.Prelude.Memory.{length-copy}
use io_uring_net_engine.Vector.{
  MallocVector, contents, reserve, grown, make_room, push_back, shift_up, erase, insert,
}
use io_uring_net_engine.Vector.Shift.{length-shift_down, length-shift_up}
use io_uring_net_engine.Vector.Cells.{take-copy, take-set, take-shift_down, take-shift_up}

pub record IsValid (A : Type 0) (v : MallocVector A) : Type 0 where
  pub full_storage : length v.storage ≡ v.capacity
  pub fits : v.size ≤ v.capacity

-- Storage from malloc has the length asked for.
abbrev pub Granted : {A : Type 0} → Option (List A) → ℕ → Type 0
Granted none n = Unit {0}
Granted (some fresh) n = length fresh ≡ n

module _ {A : Type 0} (d : A) where
  reserve_lem :
      (v : MallocVector A) (n : ℕ) (m : Option (List A))
      → IsValid A v
      → Granted m n
      → let v' = reserve v n m in
        IsValid A v'
        × (contents v' ≡ contents v)
        × (v'.size ≡ v.size)
        × ((m ≡ none) × (v' ≡ v) ⊎ (n ≤ v'.capacity))
  unfolding reserve
  reserve_lem v n none w g = (w, refl, refl, inl (refl, refl))
  reserve_lem v n (some fresh) w g = elim (Bool-cases (leb n v.capacity)) [
    | inl e ↦ rw e (w, refl, refl, inr (ground arith))
    | inr e ↦ rw e (
      record {
        full_storage = length-copy fresh 0 (take v.size v.storage) ∙ g;
        fits = ground (arith, w.fits);
      },
      take-copy d fresh v.storage v.size (omega (arith, w.fits, w.full_storage))
          (ground (arith, w.fits)),
      refl,
      inr (omega arith),
    )
  ]

  make_room_lem :
      (v : MallocVector A) (m : Option (List A))
      → IsValid A v
      → Granted m (grown v.capacity)
      → let v' = make_room v m in
        IsValid A v'
        × (contents v' ≡ contents v)
        × (v'.size ≡ v.size)
        × (((m ≡ none) × (v' ≡ v) × (v.size ≡ v.capacity)) ⊎ (v'.size < v'.capacity))
  unfolding make_room
  make_room_lem v m w g = elim (Bool-cases (leb v.capacity v.size)) [
    | inr e ↦ rw e (w, refl, refl, inr (ground arith))
    | inl e ↦
        let (valid, same, size, room) = reserve_lem v (grown v.capacity) m w g in
        rw e (
          valid,
          same,
          size,
          elim room [
            | inl (null, unchanged) ↦ inl (null, unchanged, ground (arith, w.fits))
            | inr large ↦ inr (ground (arith, w.fits, large, size))
          ],
        )
  ]

  -- A value written behind the elements.
  append_lem :
      (v : MallocVector A) (x : A)
      → IsValid A v
      → v.size < v.capacity
      → let v' = record v { storage = set v.storage v.size x; size = v.size + 1 } in
        IsValid A v' × (contents v' ≡ contents v ++ x ∷ [])
  append_lem v x w room = (
    record { full_storage = length-set v.storage v.size x ∙ w.full_storage; fits = omega arith },
    ap (λ n. take n (set v.storage v.size x)) next
        ∙ take-set d v.storage v.size x (omega (arith, w.full_storage)),
  )
    where
      next : v.size + 1 ≡ suc v.size
      next = omega arith

  -- On a valid vector, when malloc returns null or as much as was asked for, push_back puts the
  -- value behind the elements, or changes nothing when the storage is full and malloc returned
  -- null. The vector stays valid.
  pub push_back_refines :
      (v : MallocVector A) (x : A) (m : Option (List A))
      → IsValid A v
      → Granted m (grown v.capacity)
      → let v' = push_back v x m in
        IsValid A v'
        × ((contents v' ≡ contents v ++ x ∷ []) ⊎ ((v' ≡ v) × (m ≡ none) × (v.size ≡ v.capacity)))
  unfolding push_back
  push_back_refines v x m w g =
      let (valid, same, size, room) = make_room_lem v m w g in
      let v' = make_room v m in
      elim room [
        | inr open_slot ↦
            let (valid', ends) = append_lem v' x valid open_slot in
            rw (push_back, slot v' open_slot) (valid', inl (ends ∙ ap (λ l. l ++ x ∷ []) same))
        | inl (null, unchanged, full) ↦
            rw (push_back, no_slot v' unchanged full) (valid, inr (unchanged, null, full))
      ]
    where
      slot : (v' : MallocVector A) → v'.size < v'.capacity → ltb v'.size v'.capacity ≡ true
      slot v' h = ground arith

      no_slot :
          (v' : MallocVector A) → v' ≡ v → v.size ≡ v.capacity → ltb v'.size v'.capacity ≡ false
      no_slot v' e f = subst (λ u. ltb u.size u.capacity ≡ false) (sym e) (ground arith)

  -- On a valid vector, erase at the index of an element takes that element out, keeps the others
  -- in order, and returns the index. The vector stays valid.
  pub erase_refines :
      (v : MallocVector A) (index : ℕ)
      → IsValid A v
      → index < v.size
      → let (at, v') = erase d v index in
        (at ≡ index)
        × IsValid A v'
        × (contents v' ≡ take index (contents v) ++ drop (index + 1) (contents v))
  unfolding erase
  erase_refines v index w h = rw inside (
    refl,
    record {
      full_storage = length-shift_down d v.storage index (v.size - 1 - index) ∙ w.full_storage;
      fits = omega (arith, w.fits);
    },
    take-shift_down d v.storage index v.size h (omega (arith, w.fits, w.full_storage)),
  )
    where
      inside : leb v.size index ≡ false
      inside = ground arith

  -- A value written at `index` once the elements from there on have moved up.
  insert_lem :
      (v : MallocVector A) (index : ℕ) (x : A)
      → IsValid A v
      → index ≤ v.size
      → v.size < v.capacity
      → let v' = record v {
        storage = set (shift_up d v.storage index (v.size - index)) index x;
        size = v.size + 1;
      } in
        IsValid A v' × (contents v' ≡ take index (contents v) ++ x ∷ drop index (contents v))
  insert_lem v index x w h room = (
    record {
      full_storage =
          length-set (shift_up d v.storage index (v.size - index)) index x
          ∙ length-shift_up d v.storage index (v.size - index)
          ∙ w.full_storage;
      fits = omega arith;
    },
    take-shift_up d v.storage index v.size x h (omega (arith, w.full_storage)),
  )

  -- On a valid vector, when malloc returns null or as much as was asked for, insert at an index
  -- of up to the size puts the value there, keeps the others in order, and returns the index, or
  -- changes nothing when the storage is full and malloc returned null. The vector stays valid.
  pub insert_refines :
      (v : MallocVector A) (index : ℕ) (x : A) (m : Option (List A))
      → IsValid A v
      → index ≤ v.size
      → Granted m (grown v.capacity)
      → let (at, v') = insert d v index x m in
        IsValid A v'
        × (((at ≡ index) × (contents v' ≡ take index (contents v) ++ x ∷ drop index (contents v)))
            ⊎ ((v' ≡ v) × (m ≡ none) × (v.size ≡ v.capacity)))
  unfolding insert
  insert_refines v index x m w h g =
      let (valid, same, size, room) = make_room_lem v m w g in
      let v' = make_room v m in
      elim room [
        | inr open_slot ↦
            let (valid', put) = insert_lem v' index x valid (omega (arith, size, h)) open_slot in
            rw (insert, inside, slot v' open_slot)
              (valid', inl (refl, put ∙ ap (λ l. take index l ++ x ∷ drop index l) same))
        | inl (null, unchanged, full) ↦
            rw (insert, inside, no_slot v' unchanged full) (valid, inr (unchanged, null, full))
      ]
    where
      inside : ltb v.size index ≡ false
      inside = ground arith

      slot : (v' : MallocVector A) → v'.size < v'.capacity → leb v'.capacity v'.size ≡ false
      slot v' h = ground arith

      no_slot :
          (v' : MallocVector A) → v' ≡ v → v.size ≡ v.capacity → leb v'.capacity v'.size ≡ true
      no_slot v' e f = subst (λ u. leb u.capacity u.size ≡ true) (sym e) (ground arith)
