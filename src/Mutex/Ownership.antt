-- ===== src/Mutex/Ownership.antt =====
-- engine-uring/src/sync/mutex.h: who owns a mutex, and that no unlock fails.
use io_uring_net_engine.Prelude.{
  ℕ, ◌≡◌, refl, sym, ◌∙◌, ap, subst, arith, Bool, true, false, Option, none, some, ◌==◌,
  if◌then◌else◌, Bool-cases, inl, inr,
}
use io_uring_net_engine.Prelude.At.{at, at_here, at_else}
use io_uring_net_engine.Mutex.{
  Lock, World, Outcome, done, blocked, trap, detached, set_lock, holding, move_construct,
}

-- A mutex that a unique_lock owns is locked, and no other unique_lock owns it.
pub record Owned (w : World) : Type 0 where
  pub held : (i m : ℕ) → holding (w.locks i) ≡ some m → w.locked m ≡ true
  pub sole : (i j m : ℕ) → holding (w.locks i) ≡ some m → holding (w.locks j) ≡ some m → i ≡ j

clash : {P : Type 0} (o : Option ℕ) (m : ℕ) → o ≡ none → o ≡ some m → P
clash o m a b = absurd (ground (arith, sym a ∙ b))

same_of : (x i : ℕ) → (x == i) ≡ true → x ≡ i
same_of x i e = ground arith

module _ (w : World) (o : Owned w) (i : ℕ) where
  -- A unique_lock that owns nothing now.
  pub emptied : (l : Lock) → holding l ≡ none → Owned (set_lock i l w)
  emptied l e = record {
    held = λ x m h. o.held x m (was x m h);
    sole = λ x y m h k. o.sole x y m (was x m h) (was y m k);
  }
    where
      was : (x m : ℕ) → holding (at w.locks i l x) ≡ some m → holding (w.locks x) ≡ some m
      was x m h = elim (Bool-cases (x == i)) [
        | inl y ↦ clash (holding l) m e (sym (ap (λ k. holding k) (at_here w.locks i l x y)) ∙ h)
        | inr n ↦ sym (ap (λ k. holding k) (at_else w.locks i l x n)) ∙ h
      ]

  -- It takes a mutex that is free.
  pub taken :
      (m : ℕ)
      → w.locked m ≡ false
      → Owned (record w {
        locked = at w.locked m true;
        locks = at w.locks i (record { mtx = some m; owns = true });
      })
  taken m free = record { held = held; sole = sole }
    where
      l : Lock
      l = record { mtx = some m; owns = true }

      free_not :
          (x n : ℕ) → holding (w.locks x) ≡ some n → (n == m) ≡ true → Unit {0} → (true ≡ false)
      free_not x n h e _ = sym (o.held x n h) ∙ ap w.locked (same_of n m e) ∙ free

      here : (x n : ℕ) → (x == i) ≡ true → holding (at w.locks i l x) ≡ some n → n ≡ m
      here x n e h = ground (arith, sym (ap (λ k. holding k) (at_here w.locks i l x e)) ∙ h)

      there :
          (x n : ℕ)
          → (x == i) ≡ false
          → holding (at w.locks i l x) ≡ some n
          → holding (w.locks x) ≡ some n
      there x n e h = sym (ap (λ k. holding k) (at_else w.locks i l x e)) ∙ h

      held : (x n : ℕ) → holding (at w.locks i l x) ≡ some n → at w.locked m true n ≡ true
      held x n h = elim (Bool-cases (n == m)) [
        | inl y ↦ at_here w.locked m true n y
        | inr z ↦ at_else w.locked m true n z ∙ elim (Bool-cases (x == i)) [
          | inl y ↦ absurd (ground (arith, here x n y h, z))
          | inr v ↦ o.held x n (there x n v h)
        ]
      ]

      not_free : (x : ℕ) → holding (w.locks x) ≡ some m → true ≡ false
      not_free x h = sym (o.held x m h) ∙ free

      sole :
          (x y n : ℕ)
          → holding (at w.locks i l x) ≡ some n
          → holding (at w.locks i l y) ≡ some n
          → x ≡ y
      sole x y n h k = elim (Bool-cases (x == i)) [
        | inl a ↦ elim (Bool-cases (y == i)) [
          | inl b ↦ same_of x i a ∙ sym (same_of y i b)
          | inr b ↦
              absurd (ground (arith, not_free y (there y n b k ∙ ap (λ q. some q) (here x n a h))))
        ]
        | inr a ↦ elim (Bool-cases (y == i)) [
          | inl b ↦
              absurd (ground (arith, not_free x (there x n a h ∙ ap (λ q. some q) (here y n b k))))
          | inr b ↦ o.sole x y n (there x n a h) (there y n b k)
        ]
      ]

  -- It gives back the mutex that it owns.
  pub dropped :
      (l : Lock) (m : ℕ)
      → holding (w.locks i) ≡ some m
      → holding l ≡ none
      → Owned (record w { locked = at w.locked m false; locks = at w.locks i l })
  dropped l m mine e = record {
    held = λ x n h. elim (Bool-cases (n == m)) [
      | inl y ↦ absurd (
          ground
            (arith, other x n h (o.sole x i m (was x n h ∙ ap (λ q. some q) (same_of n m y)) mine)))
      | inr z ↦ at_else w.locked m false n z ∙ o.held x n (was x n h)
    ];
    sole = λ x y n h k. o.sole x y n (was x n h) (was y n k);
  }
    where
      was : (x n : ℕ) → holding (at w.locks i l x) ≡ some n → holding (w.locks x) ≡ some n
      was x n h = elim (Bool-cases (x == i)) [
        | inl y ↦ clash (holding l) n e (sym (ap (λ k. holding k) (at_here w.locks i l x y)) ∙ h)
        | inr z ↦ sym (ap (λ k. holding k) (at_else w.locks i l x z)) ∙ h
      ]

      other : (x n : ℕ) → holding (at w.locks i l x) ≡ some n → x ≡ i → true ≡ false
      other x n h s =
          clash (holding l) n e
            (sym (ap (λ k. holding k) (at_here w.locks i l x (ground (arith, s)))) ∙ h)

module _ (w : World) (o : Owned w) (i j : ℕ) where
  -- Where a unique_lock's mutex was before a move from `j` to `i`.
  before_move : ℕ → ℕ
  before_move x = if x == i then j else x

  came_from :
      (x n : ℕ)
      → holding ((move_construct i j w).locks x) ≡ some n
      → ((x == j) ≡ false) × (holding (w.locks (before_move x)) ≡ some n)
  unfolding move_construct before_move
  came_from x n h = elim (Bool-cases (x == j)) [
    | inl y ↦
        clash none n refl
          (sym (ap (λ k. holding k) (at_here (at w.locks i (w.locks j)) j detached x y)) ∙ h)
    | inr z ↦ (
      z,
      from (x == i) refl
          (sym (ap (λ k. holding k) (at_else (at w.locks i (w.locks j)) j detached x z)) ∙ h),
    )
  ]
    where
      from :
          (b : Bool)
          → (x == i) ≡ b
          → holding (at w.locks i (w.locks j) x) ≡ some n
          → holding (w.locks (if b then j else x)) ≡ some n
      from true e k = sym (ap (λ q. holding q) (at_here w.locks i (w.locks j) x e)) ∙ k
      from false e k = sym (ap (λ q. holding q) (at_else w.locks i (w.locks j) x e)) ∙ k

  one_source :
      (x y : ℕ) → (x == j) ≡ false → (y == j) ≡ false → before_move x ≡ before_move y → x ≡ y
  unfolding before_move
  one_source x y a b e = elim (Bool-cases (x == i)) [
    | inl p ↦ elim (Bool-cases (y == i)) [
      | inl q ↦ same_of x i p ∙ sym (same_of y i q)
      | inr q ↦ absurd (
          ground (
            arith,
            b,
            subst (λ c. (if c then j else x) ≡ y) p (e ∙ ap (λ c. if c then j else y) q),
          ))
    ]
    | inr p ↦ elim (Bool-cases (y == i)) [
      | inl q ↦ absurd (
          ground (
            arith,
            a,
            subst (λ c. (if c then j else x) ≡ j) p (e ∙ ap (λ c. if c then j else y) q),
          ))
      | inr q ↦ subst (λ c. (if c then j else x) ≡ y) p (e ∙ ap (λ c. if c then j else y) q)
    ]
  ]

  pub moved : Owned (move_construct i j w)
  unfolding move_construct
  moved = record {
    held = λ x n h. o.held (before_move x) n (came_from x n h).1;
    sole = λ x y n h k.
        one_source x y (came_from x n h).0 (came_from y n k).0
          (o.sole (before_move x) (before_move y) n (came_from x n h).1 (came_from y n k).1);
  }

-- An outcome that is no failed check.
abbrev pub Sound : Outcome → Type 0
Sound (done w) = Owned w
Sound blocked = Unit {0}
Sound trap = true ≡ false
